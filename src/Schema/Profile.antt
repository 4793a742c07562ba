-- ===== src/Schema/Profile.antt =====
-- crates/rshome-schema/src/profile.rs: the profiles that a configuration can name.
use zt_edge.Common.{ℕ, Option, String, List, [], Dict, lookup, insert, text_discrete}

pub record ResourceBindings : Type 0 where
  pub gpio_pins : List ℕ
  pub sensor_ids : List String
  pub file_paths : List String
  pub network_hosts : List String
  pub peer_addresses : List String

pub data ManagerFeature : Type 0 where
  heartbeat scheduler : ManagerFeature

pub record ProfileDefinition : Type 0 where
  pub id : String
  pub role : String
  pub components : List String
  pub exclusive_selections : Dict String String
  pub resource_bindings : ResourceBindings
  pub manager_features : List ManagerFeature

abbrev pub ProfileRegistry : Type 0
ProfileRegistry = Dict String ProfileDefinition

unfoldable pub new : ProfileRegistry
new = []

unfoldable pub register : ProfileRegistry → ProfileDefinition → ProfileRegistry
register registry profile = insert text_discrete profile.id profile registry

unfoldable pub get : ProfileRegistry → String → Option ProfileDefinition
get registry id = lookup text_discrete id registry

unfoldable pub default_profiles : ProfileRegistry
default_profiles = new
