-- ===== src/DeviceLink/Manager/Preserve.antt =====
-- crates/rshome-device-link/src/manager.rs: the manager's records after each other handler.
use zt_edge.Common.{
  ℕ, ◌≤◌, ◌≡◌, refl, String, false, none, List, [], ◌∷◌, length, lookup, insert, remove,
  text_discrete, is_some, lookup-insert, insert-eq-none, ◌⊎◌, ◌<◌, lookup-remove, length-insert_new,
  length-remove, All, arith, Bool-cases, Option-cases, inl, inr, ◌==◌, leb, unwrap_or,
}
use zt_edge.DeviceLink.Manager.{
  DiscoveredDevice, Manager, Identity, Env, SessionStatus, session_cap_of, max_discovered,
}
use zt_edge.DeviceLink.Manager.Handlers.{
  evict, stop_and_remove, device_discovered, session_identity_resolved, check_staleness,
  spawn_session,
}
use zt_edge.DeviceLink.Manager.Steps.{age, record_identity, session_status_changed}
use zt_edge.DeviceLink.Manager.Records.{
  IsOwn-insert, IsOwn-remove, IsOwn-age, length-age, lookup-age, to_evict-unidentified,
}
use zt_edge.DeviceLink.Manager.Valid.{IsValid, restored-IsValid}
use zt_edge.DeviceLink.Manager.Removal.{refreshed-IsValid}

module _ (State : Type 0) where
  -- A session is spawned only below the cap.
  spawn_session-cases :
      (env : Env) (s : Manager) (d : DiscoveredDevice)
      → ((spawn_session {State = State} env s d).0 ≡ s)
        ⊎ (((spawn_session {State = State} env s d).0
              ≡ record s { sessions = insert text_discrete d.device_id env.spawned s.sessions })
            × (length s.sessions < session_cap_of s.limits))
  unfolding spawn_session
  spawn_session-cases env s d =
      elim (Bool-cases (is_some (lookup text_discrete d.device_id s.sessions))) [
        | inl h ↦ inl (rw (h, spawn_session))
        | inr h ↦ elim (Bool-cases (s.limits.max_connections_per_device == 0)) [
          | inl i ↦ inl (rw (h, i, spawn_session))
          | inr i ↦ elim (Bool-cases (session_cap_of s.limits == 0)) [
            | inl j ↦ inl (rw (h, i, j, spawn_session))
            | inr j ↦ elim (Bool-cases (leb (session_cap_of s.limits) (length s.sessions))) [
              | inl k ↦ inl (rw (h, i, j, k, spawn_session))
              | inr k ↦ inr (rw (h, i, j, k, spawn_session), ground (arith, k))
            ]
          ]
        ]
      ]

  admitted-IsValid :
      (env : Env) (s : Manager) (d : DiscoveredDevice)
      → lookup text_discrete d.device_id s.discovered ≡ none
      → leb max_discovered (length s.discovered) ≡ false
      → IsValid s
      → let s' = (spawn_session {State = State} env s d).0 in
        IsValid (record s' { discovered = insert text_discrete d.device_id d s'.discovered })
  admitted-IsValid env s d e room v =
      let bound : length (insert text_discrete d.device_id d s.discovered) ≤ max_discovered =
        ground (arith, room, length-insert_new text_discrete d.device_id d s.discovered e) in
      elim (spawn_session-cases env s d) [
        | inl same ↦ rw same record {
          discovered_bound = bound;
          sessions_bound = v.sessions_bound;
          own = IsOwn-insert d.device_id d s.discovered refl v.own;
          sessions_known = λ k h.
              v.sessions_known k (insert-eq-none text_discrete d.device_id k d s.discovered h).1;
          identified_known = λ k h.
              v.identified_known k (insert-eq-none text_discrete d.device_id k d s.discovered h).1;
          paired = v.paired;
          registered = v.registered;
        }
        | inr (same, below) ↦ rw same record {
          discovered_bound = bound;
          sessions_bound = omega (
            arith,
            below,
            length-insert_new text_discrete d.device_id env.spawned s.sessions
                (v.sessions_known d.device_id e),
          );
          own = IsOwn-insert d.device_id d s.discovered refl v.own;
          sessions_known = λ k h. ground (
            arith,
            insert-eq-none text_discrete d.device_id k d s.discovered h,
            v.sessions_known k,
            lookup-insert text_discrete d.device_id k env.spawned s.sessions,
          );
          identified_known = λ k h.
              v.identified_known k (insert-eq-none text_discrete d.device_id k d s.discovered h).1;
          paired = v.paired;
          registered = v.registered;
        }
      ]

  pub device_discovered-IsValid :
      (env : Env) (s : Manager) (d : DiscoveredDevice)
      → IsValid s
      → IsValid ((device_discovered {State = State} env s d).0)
  unfolding device_discovered
  device_discovered-IsValid env s d v =
      elim (Option-cases (lookup text_discrete d.device_id s.discovered)) [
        | inr (old, e) ↦
            rw (e, device_discovered)
              (refreshed-IsValid s d.device_id old
                (record old { last_seen_at = env.now; is_stale = false }) e refl v)
        | inl e ↦ elim (Bool-cases (leb max_discovered (length s.discovered))) [
          | inl full ↦ rw (e, full, device_discovered) v
          | inr room ↦ rw (e, room, device_discovered) (admitted-IsValid env s d e room v)
        ]
      ]

  evict-IsValid :
      (ids : List String) (s : Manager)
      → All (λ id. lookup text_discrete id s.provisional_to_canonical ≡ none) ids
      → IsValid s
      → IsValid ((evict {State = State} s ids).0)
  unfolding evict stop_and_remove
  evict-IsValid [] s h v = v
  evict-IsValid (id ∷ ids) s h v = evict-IsValid ids _ h.1 record {
    discovered_bound =
        omega (arith, v.discovered_bound, length-remove text_discrete id s.discovered);
    sessions_bound = omega (arith, v.sessions_bound, length-remove text_discrete id s.sessions);
    own = IsOwn-remove id s.discovered v.own;
    sessions_known = λ k n. ground (
      arith,
      n,
      v.sessions_known k,
      lookup-remove text_discrete id k s.discovered,
      lookup-remove text_discrete id k s.sessions,
    );
    identified_known = λ k n.
        ground (arith, n, h.0, v.identified_known k, lookup-remove text_discrete id k s.discovered);
    paired = v.paired;
    registered = v.registered;
  }

  pub check_staleness-IsValid :
      (env : Env) (s : Manager) → IsValid s → IsValid ((check_staleness {State = State} env s).0)
  unfolding check_staleness
  check_staleness-IsValid env s v =
      evict-IsValid _ (record s { discovered = age env.now s.discovered })
        (to_evict-unidentified env.now s.provisional_to_canonical (age env.now s.discovered)
          (IsOwn-age env.now s.discovered v.own))
        record {
          discovered_bound = omega (arith, v.discovered_bound, length-age env.now s.discovered);
          sessions_bound = v.sessions_bound;
          own = IsOwn-age env.now s.discovered v.own;
          sessions_known = λ k n. v.sessions_known k (lookup-age env.now k s.discovered n);
          identified_known = λ k n. v.identified_known k (lookup-age env.now k s.discovered n);
          paired = v.paired;
          registered = v.registered;
        }

  pub session_identity_resolved-IsValid :
      (s : Manager) (who : Identity)
      → IsValid s
      → IsValid ((session_identity_resolved {State = State} s who).0)
  unfolding session_identity_resolved record_identity
  session_identity_resolved-IsValid s who v =
      let kept = restored-IsValid s (remove text_discrete who.canonical_id s.restored) v in
      elim (Option-cases (lookup text_discrete who.canonical_id s.canonical)) [
        | inr (cd, e) ↦ rw (e, session_identity_resolved) kept
        | inl e ↦ elim (Option-cases (lookup text_discrete who.provisional_id s.discovered)) [
          | inl f ↦ rw (e, f, session_identity_resolved) kept
          | inr (d, f) ↦
              rw (e, f, session_identity_resolved)
                record {
                  discovered_bound = v.discovered_bound;
                  sessions_bound = v.sessions_bound;
                  own = v.own;
                  sessions_known = v.sessions_known;
                  identified_known = λ k n. ground (
                    arith,
                    n,
                    f,
                    v.identified_known k,
                    lookup-insert text_discrete who.provisional_id k who.canonical_id
                        s.provisional_to_canonical,
                  );
                  paired = λ p c h. ground (
                    arith,
                    h,
                    e,
                    v.paired p c,
                    v.registered who.canonical_id,
                    lookup-insert text_discrete who.provisional_id p who.canonical_id
                        s.provisional_to_canonical,
                    lookup-insert text_discrete who.canonical_id c who.provisional_id
                        s.canonical_to_provisional,
                  );
                  registered = λ c h. ground (
                    arith,
                    v.registered c,
                    insert-eq-none text_discrete who.canonical_id c _ s.canonical h,
                    lookup-insert text_discrete who.canonical_id c who.provisional_id
                        s.canonical_to_provisional,
                  );
                }
        ]
      ]

pub session_status_changed-IsValid :
    (s : Manager) (id : String) (status : SessionStatus) (count : ℕ)
    → IsValid s
    → IsValid (session_status_changed s id status count)
unfolding session_status_changed
session_status_changed-IsValid s id status count v =
    let at = unwrap_or (lookup text_discrete id s.provisional_to_canonical) id in
    elim (Option-cases (lookup text_discrete at s.canonical)) [
      | inl e ↦ rw (e, session_status_changed) v
      | inr (cd, e) ↦
          rw (e, session_status_changed)
            record {
              discovered_bound = v.discovered_bound;
              sessions_bound = v.sessions_bound;
              own = v.own;
              sessions_known = v.sessions_known;
              identified_known = v.identified_known;
              paired = v.paired;
              registered =
                  λ c h. v.registered c (insert-eq-none text_discrete at c _ s.canonical h).1;
            }
    ]
