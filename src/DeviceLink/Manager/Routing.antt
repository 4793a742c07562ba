-- ===== src/DeviceLink/Manager/Routing.antt =====
-- crates/rshome-device-link/src/manager.rs: a device under its two ids.
use mathlib.Core.Option.{map as option_map}
use zt_edge.Common.{
  ℕ, ◌≡◌, refl, String, true, false, none, some, [], ◌∷◌, lookup, remove, text_discrete,
  lookup-insert, lookup-remove, arith, Option-cases, inl, inr, ite,
}
use zt_edge.DeviceLink.Manager.{DiscoveredDevice, Manager, Identity, Env, stop_session}
use zt_edge.DeviceLink.Manager.Queries.{get_status, resolved_status, status_from_connected}
use zt_edge.DeviceLink.Manager.Handlers.{
  device_removed, session_identity_resolved, dispatch_command, stop_and_remove,
}
use zt_edge.DeviceLink.Manager.Steps.{
  connected_of, record_identity, auth_mode_of, session_is_active, forget_identity, mark_stale,
}
use zt_edge.DeviceLink.Manager.Valid.{IsValid}

module _ {State : Type 0} where
  -- In a state with its records in order, an identified device answers to both of its ids alike:
  -- the same status, and a command goes to the same session. The provisional id must not itself
  -- be the canonical id of a device.
  pub get_status-identified :
      (env : Env) (s : Manager) (p c entity : String) (state : State)
      → IsValid s
      → lookup text_discrete p s.provisional_to_canonical ≡ some c
      → lookup text_discrete p s.canonical ≡ none
      → (get_status s p ≡ get_status s c)
        × (dispatch_command env s p entity state ≡ dispatch_command env s c entity state)
  unfolding get_status resolved_status dispatch_command
  get_status-identified env s p c entity state v h apart = (
    ground (arith, h, apart, v.paired p c, v.registered c),
    ground (arith, h, apart, v.paired p c, v.registered p),
  )

  identified :
      (s : Manager) (who : Identity) (found : DiscoveredDevice)
      → lookup text_discrete who.canonical_id s.canonical ≡ none
      → lookup text_discrete who.provisional_id s.discovered ≡ some found
      → session_identity_resolved {State = State} s who ≡ (
        record_identity
            (record s { restored = remove text_discrete who.canonical_id s.restored })
            who
            found,
        [],
      )
  unfolding session_identity_resolved
  identified s who found free known = rw (free, known, session_identity_resolved)

  -- The first identification of a discovered device under a free canonical id: the device is known
  -- by that id with the name that it reported, as handshaking, and commands for the id go where
  -- commands for its provisional id went.
  pub session_identity_resolved_first :
      (env : Env) (s : Manager) (who : Identity) (found : DiscoveredDevice) (entity : String)
      (state : State)
      → lookup text_discrete who.canonical_id s.canonical ≡ none
      → lookup text_discrete who.provisional_id s.discovered ≡ some found
      → lookup text_discrete who.provisional_id s.canonical_to_provisional ≡ none
      → let (s', sent) = session_identity_resolved {State = State} s who in
        (sent ≡ [])
        × (get_status s' who.canonical_id
            ≡ some (
                status_from_connected (connected_of who found (auth_mode_of s who.provisional_id))))
        × (dispatch_command env s' who.canonical_id entity state
            ≡ dispatch_command env s who.provisional_id entity state)
  unfolding session_identity_resolved record_identity get_status dispatch_command auth_mode_of
  session_identity_resolved_first env s who found entity state free known plain =
      rw (identified s who found free known) (
        refl,
        ground (
          arith,
          lookup-insert text_discrete who.canonical_id who.canonical_id
              (connected_of who found (auth_mode_of s who.provisional_id)) s.canonical,
        ),
        ground (
          arith,
          plain,
          lookup-insert text_discrete who.canonical_id who.canonical_id who.provisional_id
              s.canonical_to_provisional,
        ),
      )

  -- A discovered device has a session, which reports an identity that no device has yet. If it
  -- reports the same a second time, it is told to stop, as if it were a duplicate of itself.
  pub session_identity_resolved_again :
      (s : Manager) (who : Identity) (found : DiscoveredDevice) (session : ℕ)
      → lookup text_discrete who.canonical_id s.canonical ≡ none
      → lookup text_discrete who.provisional_id s.discovered ≡ some found
      → lookup text_discrete who.provisional_id s.sessions ≡ some session
      → let once = (session_identity_resolved {State = State} s who).0 in
        (session_identity_resolved {State = State} once who).1 ≡ (stop_session session ∷ [])
  unfolding session_identity_resolved record_identity
  session_identity_resolved_again s who found session free known there =
      rw (identified s who found free known) (
        rw (lookup-insert text_discrete who.canonical_id who.canonical_id _ s.canonical)
          (ground (arith, there)))

  -- When the announcement of a device with an active session disappears, the session stays, and
  -- of all records only the device's discovery record changes: it is marked stale.
  pub device_removed_active :
      (s : Manager) (id : String)
      → session_is_active s id ≡ true
      → let (s', sent) = device_removed {State = State} s id in
        (sent ≡ [])
        × (s' ≡ record s { discovered = s'.discovered })
        × ((other : String)
            → lookup text_discrete other s'.discovered
              ≡ ite
                  (text_discrete id other)
                  (option_map mark_stale (lookup text_discrete id s.discovered))
                  (lookup text_discrete other s.discovered))
  unfolding device_removed
  device_removed_active s id h = elim (Option-cases (lookup text_discrete id s.discovered)) [
    | inl e ↦ rw (h, e, device_removed) (refl, refl, λ other. ground (arith, e))
    | inr (d, e) ↦
        rw (h, e, device_removed)
          (
            refl,
            refl,
            λ other.
                ground (arith, lookup-insert text_discrete id other (mark_stale d) s.discovered),
          )
  ]

  -- When the announcement of any other device disappears, its discovery record, its session and
  -- its identity go, and the session is told to stop; no other record or session is touched.
  pub device_removed_inactive :
      (s : Manager) (id : String)
      → session_is_active s id ≡ false
      → let (s', sent) = device_removed {State = State} s id in
        (lookup text_discrete id s'.provisional_to_canonical ≡ none)
        × ((r : ℕ) → lookup text_discrete id s.sessions ≡ some r → sent ≡ (stop_session r ∷ []))
        × ((other : String)
            → (lookup text_discrete other s'.discovered
                ≡ ite (text_discrete id other) none (lookup text_discrete other s.discovered))
              × (lookup text_discrete other s'.sessions
                  ≡ ite (text_discrete id other) none (lookup text_discrete other s.sessions)))
  unfolding device_removed forget_identity stop_and_remove
  device_removed_inactive s id h =
      elim (Option-cases (lookup text_discrete id s.provisional_to_canonical)) [
        | inl e ↦
            rw (h, e, device_removed, forget_identity)
              (
                e,
                λ r there. ground (arith, there),
                λ other. (
                  lookup-remove text_discrete id other s.discovered,
                  lookup-remove text_discrete id other s.sessions,
                ),
              )
        | inr (c, e) ↦
            rw (h, e, device_removed, forget_identity)
              (
                ground (arith, lookup-remove text_discrete id id s.provisional_to_canonical),
                λ r there. ground (arith, there),
                λ other. (
                  lookup-remove text_discrete id other s.discovered,
                  lookup-remove text_discrete id other s.sessions,
                ),
              )
      ]
