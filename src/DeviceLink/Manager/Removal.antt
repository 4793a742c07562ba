-- ===== src/DeviceLink/Manager/Removal.antt =====
-- crates/rshome-device-link/src/manager.rs: the records after a device is removed.
use zt_edge.Common.{
  ◌≡◌, refl, String, some, lookup, insert, remove, text_discrete, lookup-insert, lookup-remove,
  length-insert_old, length-remove, arith, Bool-cases, Option-cases, inl, inr, ◌∙◌,
}
use zt_edge.DeviceLink.Manager.{DiscoveredDevice, Manager}
use zt_edge.DeviceLink.Manager.Handlers.{stop_and_remove, device_removed}
use zt_edge.DeviceLink.Manager.Steps.{mark_stale, forget_identity, session_is_active}
use zt_edge.DeviceLink.Manager.Records.{IsOwn-insert, IsOwn-remove, IsOwn-lookup}
use zt_edge.DeviceLink.Manager.Valid.{IsValid}

-- A record that replaces one of the same device.
pub refreshed-IsValid :
    (s : Manager) (id : String) (old fresh : DiscoveredDevice)
    → lookup text_discrete id s.discovered ≡ some old
    → fresh.device_id ≡ old.device_id
    → IsValid s
    → IsValid (record s { discovered = insert text_discrete id fresh s.discovered })
refreshed-IsValid s id old fresh e same v = record {
  discovered_bound =
      omega
        (arith, v.discovered_bound, length-insert_old text_discrete id fresh old s.discovered e);
  sessions_bound = v.sessions_bound;
  own = IsOwn-insert id fresh s.discovered (same ∙ IsOwn-lookup id old s.discovered v.own e) v.own;
  sessions_known = λ k h.
      ground (arith, h, v.sessions_known k, lookup-insert text_discrete id k fresh s.discovered);
  identified_known = λ k h.
      ground (arith, h, v.identified_known k, lookup-insert text_discrete id k fresh s.discovered);
  paired = v.paired;
  registered = v.registered;
}

module _ (State : Type 0) where
  forget_identity-IsValid :
      (s : Manager) (id : String)
      → IsValid s
      → IsValid (
          (stop_and_remove {State = State}
            (forget_identity (record s { discovered = remove text_discrete id s.discovered }) id)
            id).0)
  unfolding forget_identity stop_and_remove
  forget_identity-IsValid s id v =
      elim (Option-cases (lookup text_discrete id s.provisional_to_canonical)) [
        | inl e ↦
            rw (e, forget_identity)
              record {
                discovered_bound =
                    omega (arith, v.discovered_bound, length-remove text_discrete id s.discovered);
                sessions_bound =
                    omega (arith, v.sessions_bound, length-remove text_discrete id s.sessions);
                own = IsOwn-remove id s.discovered v.own;
                sessions_known = λ k h. ground (
                  arith,
                  h,
                  v.sessions_known k,
                  lookup-remove text_discrete id k s.discovered,
                  lookup-remove text_discrete id k s.sessions,
                );
                identified_known = λ k h. ground (
                  arith,
                  h,
                  e,
                  v.identified_known k,
                  lookup-remove text_discrete id k s.discovered,
                );
                paired = v.paired;
                registered = v.registered;
              }
        | inr (c, e) ↦
            rw (e, forget_identity)
              record {
                discovered_bound =
                    omega (arith, v.discovered_bound, length-remove text_discrete id s.discovered);
                sessions_bound =
                    omega (arith, v.sessions_bound, length-remove text_discrete id s.sessions);
                own = IsOwn-remove id s.discovered v.own;
                sessions_known = λ k h. ground (
                  arith,
                  h,
                  v.sessions_known k,
                  lookup-remove text_discrete id k s.discovered,
                  lookup-remove text_discrete id k s.sessions,
                );
                identified_known = λ k h. ground (
                  arith,
                  h,
                  v.identified_known k,
                  lookup-remove text_discrete id k s.discovered,
                  lookup-remove text_discrete id k s.provisional_to_canonical,
                );
                paired = λ p d h. ground (
                  arith,
                  h,
                  e,
                  v.paired p d,
                  v.paired id c,
                  lookup-remove text_discrete id p s.provisional_to_canonical,
                  lookup-remove text_discrete c d s.canonical_to_provisional,
                );
                registered = λ d h. ground (
                  arith,
                  h,
                  v.registered d,
                  lookup-remove text_discrete c d s.canonical,
                  lookup-remove text_discrete c d s.canonical_to_provisional,
                );
              }
      ]

  pub device_removed-IsValid :
      (s : Manager) (id : String) → IsValid s → IsValid ((device_removed {State = State} s id).0)
  unfolding device_removed mark_stale
  device_removed-IsValid s id v = elim (Bool-cases (session_is_active s id)) [
    | inr h ↦ rw (h, device_removed) (forget_identity-IsValid s id v)
    | inl h ↦ elim (Option-cases (lookup text_discrete id s.discovered)) [
      | inl e ↦ rw (h, e, device_removed) v
      | inr (d, e) ↦ rw (h, e, device_removed) (refreshed-IsValid s id d (mark_stale d) e refl v)
    ]
  ]
