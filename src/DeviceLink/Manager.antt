-- ===== src/DeviceLink/Manager.antt =====
-- crates/rshome-device-link/src/manager.rs: the records that the link manager keeps, its messages,
-- and what it sends. An id is its text, an IP address is its printed form, a time is a number of
-- nanoseconds, and a session is named by a number that stands for its `ActorRef`. The state of an
-- entity only passes through, so its type is a parameter.
pub mod Queries
pub mod Steps
pub mod Handlers
mod Records
pub mod Valid
mod Removal
mod Preserve
pub mod Reach
pub mod Routing
pub mod Staleness
use zt_edge.Common.{
  ℕ, ◌≤◌, ◌<◌, ◌-◌, ◌*◌, min, String, Bool, true, Option, none, some, List, [], Dict, ltb, leb,
  if◌then◌else◌,
}

abbrev pub max_discovered : ℕ
max_discovered = 256

abbrev pub max_active_sessions : ℕ
max_active_sessions = 128

abbrev pub stale_threshold : ℕ
stale_threshold = 90000000000

abbrev pub eviction_threshold : ℕ
eviction_threshold = 600000000000

pub record DiscoveredDevice : Type 0 where
  pub device_id : String
  pub service_fullname : String
  pub hostname : String
  pub ip : String
  pub port : ℕ
  pub name : String
  pub version : String
  pub friendly_name : Option String
  pub first_seen_at : ℕ
  pub last_seen_at : ℕ
  pub is_stale : Bool

pub data SessionStatus : Type 0 where
  discovered_only connecting handshaking active : SessionStatus
  backoff : ℕ → ℕ → SessionStatus
  unsupported_auth unavailable : SessionStatus

abbrev pub is_active : SessionStatus → Bool
is_active active = true
is_active discovered_only = Bool.false
is_active connecting = Bool.false
is_active handshaking = Bool.false
is_active (backoff attempt delay) = Bool.false
is_active unsupported_auth = Bool.false
is_active unavailable = Bool.false

pub record ConnectedDevice : Type 0 where
  pub device_id : String
  pub discovered : DiscoveredDevice
  pub name : String
  pub friendly_name : Option String
  pub mac_address : Option String
  pub model : Option String
  pub sw_version : Option String
  pub status : SessionStatus
  pub entity_count : ℕ
  pub auth_mode : Option String
  pub last_error : Option String

pub record DeviceLinkStatus : Type 0 where
  pub device_id : String
  pub name : String
  pub hostname : String
  pub ip : String
  pub port : ℕ
  pub version : String
  pub status : SessionStatus
  pub entity_count : ℕ
  pub mac_address : Option String
  pub model : Option String
  pub sw_version : Option String
  pub friendly_name : Option String
  pub auth_mode : Option String
  pub last_error : Option String

pub record ResourceUsage : Type 0 where
  pub discovered_count : ℕ
  pub discovered_cap : ℕ
  pub active_sessions : ℕ
  pub session_cap : ℕ

pub record DeviceLinkLimits : Type 0 where
  pub max_devices : ℕ
  pub max_entities : ℕ
  pub max_connections_per_device : ℕ

pub record DeviceSecurityConfig : Type 0 where
  pub noise_psk : Option String

pub record Manager : Type 0 where
  pub discovered : Dict String DiscoveredDevice
  pub canonical : Dict String ConnectedDevice
  pub provisional_to_canonical : Dict String String
  pub canonical_to_provisional : Dict String String
  pub restored : Dict String ConnectedDevice
  pub sessions : Dict String ℕ
  pub limits : DeviceLinkLimits
  pub security_configs : Dict String DeviceSecurityConfig

unfoldable pub new : DeviceLinkLimits → Manager
new limits = record {
  discovered = [];
  canonical = [];
  provisional_to_canonical = [];
  canonical_to_provisional = [];
  restored = [];
  sessions = [];
  limits = limits;
  security_configs = [];
}

pub record Identity : Type 0 where
  pub provisional_id : String
  pub canonical_id : String
  pub name : String
  pub friendly_name : Option String
  pub mac_address : Option String
  pub model : Option String
  pub sw_version : Option String

-- The messages; a `reply` channel has no place in them, the answer is an output.
pub data Msg (State : Type 0) : Type 0 where
  list_discovered list_connected get_resource_usage check_staleness stop : Msg State
  get_status device_removed : String → Msg State
  set_device_security_config : String → DeviceSecurityConfig → Msg State
  seed_restored_device : ConnectedDevice → Msg State
  device_discovered : DiscoveredDevice → Msg State
  session_identity_resolved : Identity → Msg State
  session_status_changed : String → SessionStatus → ℕ → Msg State
  dispatch_command : String → String → State → Msg State

-- What a handler sends, in order. After `send_command` a task passes the session's answer on.
pub data Output (State : Type 0) : Type 0 where
  discovered_list : List DiscoveredDevice → Output State
  connected_list : List ConnectedDevice → Output State
  status_reply : Option DeviceLinkStatus → Output State
  usage_reply : ResourceUsage → Output State
  spawn_session_actor : DiscoveredDevice → DeviceSecurityConfig → ℕ → Output State
  stop_session : ℕ → Output State
  send_command : ℕ → String → State → Output State
  session_not_active : Output State
  stop_self : Output State

-- What a handler asks of its surroundings: the time, the reference of the actor it would spawn,
-- and whether the mailbox of a session takes a message.
pub record Env : Type 0 where
  pub now : ℕ
  pub spawned : ℕ
  pub accepts : ℕ → Bool

unfoldable pub session_cap_of : DeviceLinkLimits → ℕ
session_cap_of limits = min limits.max_devices max_active_sessions

-- `last_seen_at.elapsed().unwrap_or(Duration::MAX) >= threshold`: a time that is yet to come
-- counts as the longest duration.
unfoldable pub elapsed_reaches : ℕ → ℕ → ℕ → Bool
elapsed_reaches now seen threshold = if ltb now seen then true else leb threshold (now - seen)
