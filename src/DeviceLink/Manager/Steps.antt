-- ===== src/DeviceLink/Manager/Steps.antt =====
-- crates/rshome-device-link/src/manager.rs: the parts of handlers that send nothing.
use zt_edge.Common.{
  ℕ, String, Bool, true, false, Option, none, some, List, [], ◌∷◌, Dict, lookup, insert, remove,
  text_discrete, is_some, not, ◌&&◌, if◌then◌else◌, or_else, unwrap_or,
}
use zt_edge.DeviceLink.Manager.{
  DiscoveredDevice, ConnectedDevice, DeviceSecurityConfig, SessionStatus, Identity, Manager,
  handshaking, is_active, stale_threshold, eviction_threshold, elapsed_reaches,
}

unfoldable pub security_config_of : Manager → String → DeviceSecurityConfig
security_config_of s device_id = elim (lookup text_discrete device_id s.security_configs) [
  | some config ↦ config
  | none ↦ record { noise_psk = none }
]

unfoldable pub auth_mode_of : Manager → String → Option String
auth_mode_of s provisional_id =
    or_else
      (elim (lookup text_discrete provisional_id s.security_configs) [
        | some config ↦ if is_some config.noise_psk then some "noise" else none
        | none ↦ none
      ])
      (some "cleartext")

unfoldable pub mark_stale : DiscoveredDevice → DiscoveredDevice
mark_stale d = record d { is_stale = true }

unfoldable pub age_one : ℕ → DiscoveredDevice → DiscoveredDevice
age_one now d = if elapsed_reaches now d.last_seen_at stale_threshold then mark_stale d else d

unfoldable pub age : ℕ → Dict String DiscoveredDevice → Dict String DiscoveredDevice
age now [] = []
age now ((id, d) ∷ more) = (id, age_one now d) ∷ age now more

unfoldable pub is_evictable : ℕ → Dict String String → DiscoveredDevice → Bool
is_evictable now identified d =
    d.is_stale
    && elapsed_reaches now d.last_seen_at eviction_threshold
    && not (is_some (lookup text_discrete d.device_id identified))

unfoldable pub to_evict : ℕ → Dict String String → Dict String DiscoveredDevice → List String
to_evict now identified [] = []
to_evict now identified ((id, d) ∷ more) =
    let rest = to_evict now identified more in
    if is_evictable now identified d then id ∷ rest else rest

unfoldable pub session_is_active : Manager → String → Bool
session_is_active s provisional_id =
    elim (lookup text_discrete provisional_id s.provisional_to_canonical) [
      | none ↦ false
      | some canonical_id ↦ elim (lookup text_discrete canonical_id s.canonical) [
        | none ↦ false
        | some cd ↦ is_active cd.status
      ]
    ]

unfoldable pub forget_identity : Manager → String → Manager
forget_identity s provisional_id =
    elim (lookup text_discrete provisional_id s.provisional_to_canonical) [
      | none ↦ s
      | some canonical_id ↦ record s {
        provisional_to_canonical = remove text_discrete provisional_id s.provisional_to_canonical;
        canonical_to_provisional = remove text_discrete canonical_id s.canonical_to_provisional;
        canonical = remove text_discrete canonical_id s.canonical;
      }
    ]

unfoldable pub connected_of : Identity → DiscoveredDevice → Option String → ConnectedDevice
connected_of who found auth_mode = record {
  device_id = who.canonical_id;
  discovered = found;
  name = who.name;
  friendly_name = who.friendly_name;
  mac_address = who.mac_address;
  model = who.model;
  sw_version = who.sw_version;
  status = handshaking;
  entity_count = 0;
  auth_mode = auth_mode;
  last_error = none;
}

unfoldable pub record_identity : Manager → Identity → DiscoveredDevice → Manager
record_identity s who found = record s {
  canonical =
      insert text_discrete who.canonical_id
        (connected_of who found (auth_mode_of s who.provisional_id)) s.canonical;
  provisional_to_canonical =
      insert text_discrete who.provisional_id who.canonical_id s.provisional_to_canonical;
  canonical_to_provisional =
      insert text_discrete who.canonical_id who.provisional_id s.canonical_to_provisional;
}

unfoldable pub session_status_changed : Manager → String → SessionStatus → ℕ → Manager
session_status_changed s provisional_id status entity_count =
    let canonical_id =
      unwrap_or (lookup text_discrete provisional_id s.provisional_to_canonical) provisional_id in
    elim (lookup text_discrete canonical_id s.canonical) [
      | none ↦ s
      | some device ↦ record s {
        canonical =
            insert text_discrete canonical_id
              (record device { status = status; entity_count = entity_count }) s.canonical;
      }
    ]
