-- ===== src/DeviceLink/Manager/Handlers.antt =====
-- crates/rshome-device-link/src/manager.rs: the messages that change what the manager keeps, and
-- the dispatch on a message. A handler returns the new state and what it sent, in order.
use zt_edge.Common.{
  ℕ, String, false, none, some, List, [], ◌∷◌, ◌++◌, length, Dict, lookup, insert, remove,
  text_discrete, is_some, leb, ◌==◌, if◌then◌else◌, unwrap_or,
}
use zt_edge.DeviceLink.Manager.{
  DiscoveredDevice, Identity, Manager, Msg, Output, Env, session_cap_of, max_discovered,
  discovered_list, connected_list, status_reply, usage_reply, spawn_session_actor, stop_session,
  send_command, session_not_active, stop_self,
}
use zt_edge.DeviceLink.Manager.Queries.{values, list_connected, get_status, get_resource_usage}
use zt_edge.DeviceLink.Manager.Steps.{
  security_config_of, mark_stale, age, to_evict, session_is_active, forget_identity,
  record_identity, session_status_changed,
}

module _ {State : Type 0} where
  unfoldable pub spawn_session : Env → Manager → DiscoveredDevice → Manager × List (Output State)
  spawn_session env s device =
      if is_some (lookup text_discrete device.device_id s.sessions)
      then (s, [])
      else if s.limits.max_connections_per_device == 0
      then (s, [])
      else if session_cap_of s.limits == 0
      then (s, [])
      else if leb (session_cap_of s.limits) (length s.sessions)
      then (s, [])
      else (
        record s { sessions = insert text_discrete device.device_id env.spawned s.sessions },
        spawn_session_actor device (security_config_of s device.device_id) env.spawned ∷ [],
      )

  unfoldable pub device_discovered :
      Env → Manager → DiscoveredDevice → Manager × List (Output State)
  device_discovered env s device = elim (lookup text_discrete device.device_id s.discovered) [
    | some existing ↦ (
      record s {
        discovered =
            insert text_discrete device.device_id
              (record existing { last_seen_at = env.now; is_stale = false }) s.discovered;
      },
      [],
    )
    | none ↦
        if leb max_discovered (length s.discovered)
        then (s, [])
        else let (s', sent) = spawn_session env s device in
          (
            record s' { discovered = insert text_discrete device.device_id device s'.discovered },
            sent,
          )
  ]

  -- `if let Some(session) = self.sessions.remove(..) { session.send(Stop) }`
  unfoldable pub stop_and_remove : Manager → String → Manager × List (Output State)
  stop_and_remove s id = (
    record s { sessions = remove text_discrete id s.sessions },
    elim (lookup text_discrete id s.sessions) [
      | none ↦ []
      | some session ↦ stop_session session ∷ []
    ],
  )

  unfoldable pub device_removed : Manager → String → Manager × List (Output State)
  device_removed s provisional_id =
      if session_is_active s provisional_id
      then elim (lookup text_discrete provisional_id s.discovered) [
        | none ↦ (s, [])
        | some found ↦ (
          record s {
            discovered = insert text_discrete provisional_id (mark_stale found) s.discovered;
          },
          [],
        )
      ]
      else stop_and_remove
          (forget_identity
            (record s { discovered = remove text_discrete provisional_id s.discovered })
            provisional_id)
          provisional_id

  unfoldable pub session_identity_resolved : Manager → Identity → Manager × List (Output State)
  session_identity_resolved s₀ who =
      let s : Manager = record s₀ {
        restored = remove text_discrete who.canonical_id s₀.restored;
      } in
      if is_some (lookup text_discrete who.canonical_id s.canonical)
      then (
        s,
        elim (lookup text_discrete who.provisional_id s.sessions) [
          | none ↦ []
          | some session ↦ stop_session session ∷ []
        ],
      )
      else elim (lookup text_discrete who.provisional_id s.discovered) [
        | none ↦ (s, [])
        | some found ↦ (record_identity s who found, [])
      ]

  unfoldable pub evict : Manager → List String → Manager × List (Output State)
  evict s [] = (s, [])
  evict s (id ∷ ids) =
      let (s', sent) =
        stop_and_remove (record s { discovered = remove text_discrete id s.discovered }) id in
      let (s'', more) = evict s' ids in (s'', sent ++ more)

  unfoldable pub check_staleness : Env → Manager → Manager × List (Output State)
  check_staleness env s =
      let aged = age env.now s.discovered in
      evict (record s { discovered = aged }) (to_evict env.now s.provisional_to_canonical aged)

  unfoldable pub dispatch_command : Env → Manager → String → String → State → List (Output State)
  dispatch_command env s device_id local_entity_id state =
      let provisional_id =
        unwrap_or (lookup text_discrete device_id s.canonical_to_provisional) device_id in
      elim (lookup text_discrete provisional_id s.sessions) [
        | none ↦ session_not_active ∷ []
        | some session ↦
            if env.accepts session
            then send_command session local_entity_id state ∷ []
            else session_not_active ∷ []
      ]

  unfoldable pub stop_all : Dict String ℕ → List (Output State)
  stop_all [] = stop_self ∷ []
  stop_all ((id, session) ∷ more) = stop_session session ∷ stop_all more

  unfoldable pub stop_manager : Manager → Manager × List (Output State)
  stop_manager s = (
    record s {
      sessions = [];
      canonical = [];
      restored = [];
      provisional_to_canonical = [];
      canonical_to_provisional = [];
    },
    stop_all s.sessions,
  )

  unfoldable pub handle : Env → Manager → Msg State → Manager × List (Output State)
  handle env s Msg.list_discovered = (s, discovered_list (values s.discovered) ∷ [])
  handle env s Msg.list_connected = (s, connected_list (list_connected s) ∷ [])
  handle env s (Msg.get_status device_id) = (s, status_reply (get_status s device_id) ∷ [])
  handle env s Msg.get_resource_usage = (s, usage_reply (get_resource_usage s) ∷ [])
  handle env s (Msg.set_device_security_config device_id config) =
      (record s { security_configs = insert text_discrete device_id config s.security_configs }, [])
  handle env s (Msg.seed_restored_device device) =
      (record s { restored = insert text_discrete device.device_id device s.restored }, [])
  handle env s (Msg.device_discovered device) = device_discovered env s device
  handle env s (Msg.device_removed id) = device_removed s id
  handle env s (Msg.session_identity_resolved who) = session_identity_resolved s who
  handle env s (Msg.session_status_changed id status count) =
      (session_status_changed s id status count, [])
  handle env s Msg.check_staleness = check_staleness env s
  handle env s (Msg.dispatch_command device_id entity state) =
      (s, dispatch_command env s device_id entity state)
  handle env s Msg.stop = stop_manager s
