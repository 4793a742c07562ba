-- ===== src/Examples/Devices.antt =====
-- One device on the network: announced, identified, silent, gone.
use mathlib.Core.Option.{map as option_map}
use zt_edge.Common.{
  ◌≤◌, ◌≡◌, refl, Bool, true, false, none, some, String, [], ◌∷◌, lookup, insert, remove,
  text_discrete,
}
use zt_edge.DeviceLink.Manager.{
  DiscoveredDevice, DeviceLinkLimits, Identity, Manager, Msg, Env, new, active, stop_session,
  elapsed_reaches, session_cap_of,
}
use zt_edge.DeviceLink.Manager.Queries.{get_status, get_resource_usage}
use zt_edge.DeviceLink.Manager.Steps.{session_status_changed, age_one, record_identity}
use zt_edge.DeviceLink.Manager.Handlers.{
  handle, spawn_session, device_discovered, session_identity_resolved, check_staleness,
  dispatch_command,
}
use zt_edge.DeviceLink.Manager.Valid.{IsValid, new-IsValid}
use zt_edge.DeviceLink.Manager.Reach.{started, handled, handle-IsValid, get_resource_usage-Bound}
use zt_edge.DeviceLink.Manager.Routing.{get_status-identified, session_identity_resolved_again}
use zt_edge.DeviceLink.Manager.Staleness.{check_staleness_keeps, check_staleness_evicts}

abbrev limits : DeviceLinkLimits
limits = record { max_devices = 100; max_entities = 10000; max_connections_per_device = 1 }

abbrev host : String
host = "esphome-host:plug"

abbrev mac : String
mac = "esphome:aabbccddeeff"

abbrev plug : DiscoveredDevice
plug = record {
  device_id = host;
  service_fullname = "plug._esphomelib._tcp.local.";
  hostname = "plug";
  ip = "192.168.1.20";
  port = 6053;
  name = "plug";
  version = "2026.1.0";
  friendly_name = none;
  first_seen_at = 1000;
  last_seen_at = 1000;
  is_stale = false;
}

abbrev who : Identity
who = record {
  provisional_id = host;
  canonical_id = mac;
  name = "plug";
  friendly_name = none;
  mac_address = some "AA:BB:CC:DD:EE:FF";
  model = none;
  sw_version = none;
}

-- The time is eleven minutes after the device was last seen.
abbrev env : Env
env = record { now = 660000001000; spawned = 4; accepts = λ r. true }

-- States of entities are not looked at.
abbrev found : Manager
found = (device_discovered {State = Bool} env (new limits) plug).0

abbrev resolved : Manager
resolved = (session_identity_resolved {State = Bool} found who).0

abbrev running : Manager
running = session_status_changed resolved host active 3

found-IsValid : IsValid found
unfolding handle
found-IsValid =
    handle-IsValid {State = Bool} env (new limits) (Msg.device_discovered plug) (new-IsValid limits)

resolved-IsValid : IsValid resolved
unfolding handle
resolved-IsValid =
    handle-IsValid {State = Bool} env found (Msg.session_identity_resolved who) found-IsValid

handle-IsValid_example : IsValid (handle {State = Bool} env resolved Msg.check_staleness).0
handle-IsValid_example = handle-IsValid env resolved Msg.check_staleness resolved-IsValid

get_resource_usage-Bound_example :
    let usage =
      get_resource_usage (handle {State = Bool} env (new limits) (Msg.device_discovered plug)).0 in
    (usage.discovered_count ≤ usage.discovered_cap)
    × (usage.discovered_cap ≡ 256)
    × (usage.active_sessions ≤ usage.session_cap)
    × (usage.session_cap ≤ 128)
get_resource_usage-Bound_example =
    get_resource_usage-Bound {State = Bool} limits
      (handle {State = Bool} env (new limits) (Msg.device_discovered plug)).0
      (handled env (new limits) (Msg.device_discovered plug) started)

get_status-identified_example :
    (get_status resolved host ≡ get_status resolved mac)
    × (dispatch_command env resolved host "relay" true
        ≡ dispatch_command env resolved mac "relay" true)
unfolding new device_discovered spawn_session session_identity_resolved record_identity lookup
    insert remove session_cap_of text_discrete
get_status-identified_example =
    get_status-identified env resolved host mac "relay" true resolved-IsValid refl refl

session_identity_resolved_again_example :
    let once = (session_identity_resolved {State = Bool} found who).0 in
    (session_identity_resolved {State = Bool} once who).1 ≡ (stop_session 4 ∷ [])
unfolding new device_discovered spawn_session lookup insert session_cap_of text_discrete
session_identity_resolved_again_example =
    session_identity_resolved_again found who plug 4 refl refl refl

check_staleness_keeps_example :
    let s' = (check_staleness {State = Bool} env resolved).0 in
    (lookup text_discrete host s'.sessions ≡ lookup text_discrete host resolved.sessions)
    × (lookup text_discrete host s'.discovered
        ≡ option_map (age_one env.now) (lookup text_discrete host resolved.discovered))
unfolding new device_discovered spawn_session session_identity_resolved record_identity lookup
    insert remove session_cap_of text_discrete
check_staleness_keeps_example =
    check_staleness_keeps Bool env resolved host mac resolved-IsValid refl

check_staleness_evicts_example :
    let s' = (check_staleness {State = Bool} env found).0 in
    (lookup text_discrete host s'.discovered ≡ none)
    × (lookup text_discrete host s'.sessions ≡ none)
unfolding new device_discovered spawn_session lookup insert session_cap_of text_discrete
    elapsed_reaches
check_staleness_evicts_example =
    check_staleness_evicts Bool env found host plug found-IsValid refl refl refl
