-- ===== src/DeviceLink/Manager/Queries.antt =====
-- crates/rshome-device-link/src/manager.rs: the messages that only ask. A list or a search over a
-- hash map takes the order of the association list, which the code leaves open.
use mathlib.Core.Option.{map as option_map}
use zt_edge.Common.{
  String, Option, none, some, List, [], ◌∷◌, ◌++◌, map, length, Dict, lookup, text_discrete,
  is_some, if◌then◌else◌, or_else,
}
use zt_edge.DeviceLink.Manager.{
  DiscoveredDevice, ConnectedDevice, DeviceLinkStatus, ResourceUsage, Manager, discovered_only,
  session_cap_of, max_discovered,
}

abbrev pub values : {V : Type 0} → Dict String V → List V
values m = map (λ e. e.1) m

unfoldable pub status_from_connected : ConnectedDevice → DeviceLinkStatus
status_from_connected cd = record {
  device_id = cd.device_id;
  name = cd.name;
  hostname = cd.discovered.hostname;
  ip = cd.discovered.ip;
  port = cd.discovered.port;
  version = cd.discovered.version;
  status = cd.status;
  entity_count = cd.entity_count;
  mac_address = cd.mac_address;
  model = cd.model;
  sw_version = cd.sw_version;
  friendly_name = cd.friendly_name;
  auth_mode = cd.auth_mode;
  last_error = cd.last_error;
}

unfoldable pub status_from_discovered : DiscoveredDevice → DeviceLinkStatus
status_from_discovered dd = record {
  device_id = dd.device_id;
  name = dd.name;
  hostname = dd.hostname;
  ip = dd.ip;
  port = dd.port;
  version = dd.version;
  status = discovered_only;
  entity_count = 0;
  mac_address = none;
  model = none;
  sw_version = none;
  friendly_name = dd.friendly_name;
  auth_mode = none;
  last_error = none;
}

unfoldable pub restored_only :
    Dict String ConnectedDevice → Dict String ConnectedDevice → List ConnectedDevice
restored_only canonical [] = []
restored_only canonical ((device_id, restored) ∷ more) =
    let rest = restored_only canonical more in
    if is_some (lookup text_discrete device_id canonical) then rest else restored ∷ rest

unfoldable pub list_connected : Manager → List ConnectedDevice
list_connected s = values s.canonical ++ restored_only s.canonical s.restored

unfoldable pub find_restored : String → Dict String ConnectedDevice → Option ConnectedDevice
find_restored device_id [] = none
find_restored device_id ((k, cd) ∷ more) =
    let rest = find_restored device_id more in
    elim (text_discrete cd.discovered.device_id device_id) [
      | yes same ↦ some cd
      | no differs ↦ rest
    ]

unfoldable pub restored_status : Manager → String → Option DeviceLinkStatus
restored_status s device_id =
    or_else (option_map status_from_connected (lookup text_discrete device_id s.restored))
      (option_map status_from_connected (find_restored device_id s.restored))

unfoldable pub unidentified_status : Manager → String → Option DeviceLinkStatus
unidentified_status s device_id = elim (lookup text_discrete device_id s.discovered) [
  | some dd ↦ some (status_from_discovered dd)
  | none ↦ restored_status s device_id
]

unfoldable pub resolved_status : Manager → String → Option DeviceLinkStatus
resolved_status s device_id = elim (lookup text_discrete device_id s.provisional_to_canonical) [
  | none ↦ unidentified_status s device_id
  | some canonical_id ↦ elim (lookup text_discrete canonical_id s.canonical) [
    | some cd ↦ some (status_from_connected cd)
    | none ↦ unidentified_status s device_id
  ]
]

unfoldable pub get_status : Manager → String → Option DeviceLinkStatus
get_status s device_id = elim (lookup text_discrete device_id s.canonical) [
  | some cd ↦ some (status_from_connected cd)
  | none ↦ resolved_status s device_id
]

unfoldable pub get_resource_usage : Manager → ResourceUsage
get_resource_usage s = record {
  discovered_count = length s.discovered;
  discovered_cap = max_discovered;
  active_sessions = length s.sessions;
  session_cap = session_cap_of s.limits;
}
