-- ===== src/DeviceLink/Manager/Reach.antt =====
-- crates/rshome-device-link/src/manager.rs: any sequence of messages to a new manager.
use zt_edge.Common.{◌≤◌, ◌≡◌, refl, arith}
use zt_edge.DeviceLink.Manager.{Manager, Msg, Env, DeviceLinkLimits, new, session_cap_of}
use zt_edge.DeviceLink.Manager.Queries.{get_resource_usage}
use zt_edge.DeviceLink.Manager.Handlers.{handle}
use zt_edge.DeviceLink.Manager.Valid.{
  IsValid, new-IsValid, restored-IsValid, security_configs-IsValid, stop_manager-IsValid,
}
use zt_edge.DeviceLink.Manager.Removal.{device_removed-IsValid}
use zt_edge.DeviceLink.Manager.Preserve.{
  device_discovered-IsValid, session_identity_resolved-IsValid, session_status_changed-IsValid,
  check_staleness-IsValid,
}

-- The states that a manager passes through, whatever its surroundings answer.
pub data Reachable (State : Type 0) (limits : DeviceLinkLimits) : Manager → Type 0 where
  started : Reachable State limits (new limits)
  handled :
      (env : Env) (s : Manager) (msg : Msg State)
      → Reachable State limits s
      → Reachable State limits (handle env s msg).0

module _ {State : Type 0} where
  -- Every message, whatever the manager's surroundings answer, keeps the records in order: at most
  -- 256 discovery records, each under its own id; no more sessions than the cap; a session or an
  -- identity only for a discovered device; and the canonical id of an identified device leads back
  -- to it and has a record.
  pub handle-IsValid :
      (env : Env) (s : Manager) (msg : Msg State) → IsValid s → IsValid (handle env s msg).0
  unfolding handle
  handle-IsValid env s Msg.list_discovered v = v
  handle-IsValid env s Msg.list_connected v = v
  handle-IsValid env s (Msg.get_status device_id) v = v
  handle-IsValid env s Msg.get_resource_usage v = v
  handle-IsValid env s (Msg.set_device_security_config device_id config) v =
      security_configs-IsValid s _ v
  handle-IsValid env s (Msg.seed_restored_device device) v = restored-IsValid s _ v
  handle-IsValid env s (Msg.device_discovered device) v =
      device_discovered-IsValid State env s device v
  handle-IsValid env s (Msg.device_removed id) v = device_removed-IsValid State s id v
  handle-IsValid env s (Msg.session_identity_resolved who) v =
      session_identity_resolved-IsValid State s who v
  handle-IsValid env s (Msg.session_status_changed id status count) v =
      session_status_changed-IsValid s id status count v
  handle-IsValid env s Msg.check_staleness v = check_staleness-IsValid State env s v
  handle-IsValid env s (Msg.dispatch_command device_id entity state) v = v
  handle-IsValid env s Msg.stop v = stop_manager-IsValid State s v

  pub Reachable-IsValid :
      (limits : DeviceLinkLimits) (s : Manager) → Reachable State limits s → IsValid s
  Reachable-IsValid limits s started = new-IsValid limits
  Reachable-IsValid limits s (handled env s' msg before) =
      handle-IsValid env s' msg (Reachable-IsValid limits s' before)

  -- In every state that a manager reaches, `GetResourceUsage` reports no more discovery records
  -- than 256, and no more sessions than the smaller of the configured number and 128.
  pub get_resource_usage-Bound :
      (limits : DeviceLinkLimits) (s : Manager)
      → Reachable State limits s
      → let usage = get_resource_usage s in
        (usage.discovered_count ≤ usage.discovered_cap)
        × (usage.discovered_cap ≡ 256)
        × (usage.active_sessions ≤ usage.session_cap)
        × (usage.session_cap ≤ 128)
  unfolding get_resource_usage session_cap_of
  get_resource_usage-Bound limits s r =
      let v = Reachable-IsValid limits s r in
      (v.discovered_bound, refl, v.sessions_bound, omega arith)
