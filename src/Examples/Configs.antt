-- ===== src/Examples/Configs.antt =====
-- Configurations of one device.
use Prim.Native.Char.{Char}
use mathlib.Core.Logic.{◌⊎◌}
use text.Mathlib.Text.{starts_with}
use native.Mathlib.Omega.{arith}
use zt_edge.Common.{
  ℕ, ◌≡◌, ◌↔◌, refl, sym, ap, not, Bool, true, false, none, some, String, List, [], ◌∷◌, ◌++◌, map,
  All, lookup, or_else, text_discrete, ok,
}
use zt_edge.Common.Cut.{cut, strip}
use zt_edge.Common.Sort.{Unique, text_lt}
use zt_edge.Config.Value.{
  Value, pos_int, number, string, object, Fields, end, field, find, get, put, is_object,
}
use zt_edge.Config.Diagnostic.{ValidationError, has_errors}
use zt_edge.Config.Raw.{
  RawConfig, EsphomeBlock, ComponentConfig, PackageRef, PackageStore, is_extend, is_remove,
  directive_target, second_word,
}
use zt_edge.Config.Packages.{stage_1_merge_packages}
use zt_edge.Config.Packages.Merge.{
  found, all_components, first_value, all_known, stage_1_merge_packages_lem,
}
use zt_edge.Config.Substitutions.{resolve_string}
use zt_edge.Config.Substitutions.Resolve.{Parts, print, fill, resolve_string-print}
use zt_edge.Config.Merge.{deep_merge, value_at, IsMap, Lacks}
use zt_edge.Config.Merge.Paths.{value_at-deep_merge}
use zt_edge.Config.Directives.{stage_3_process_extend_remove}
use zt_edge.Config.Directives.Merged.{directives, merged}
use zt_edge.Config.Directives.Extends.{stage_3_process_extend_remove-merged}
use zt_edge.Config.Directives.Skipped.{stage_3_process_extend_remove-skips}
use zt_edge.Config.PinConflicts.{allocation_of, stage_10_check_pin_conflicts}
use zt_edge.Config.PinConflicts.Claimed.{usages, IsSound, stage_10_check_pin_conflicts_lem}
use zt_edge.Config.Ids.{
  IdEntry, IdTable, collect_id, collect_ids, check_components, generate_ids, check_cross_refs,
  generate_id, check_reference, ends_with, set_id, stage_8_resolve_ids,
}
use zt_edge.Config.Ids.Collected.{ids_of, Taken}
use zt_edge.Config.Ids.References.{Refers, stage_8_resolve_ids_lem}
use zt_edge.Config.Sources.{framework_components, stage_4_resolve_external_components}
use zt_edge.Config.Sources.Trust.{
  IsAllowed, framework_references, component_references, stage_4_resolve_external_components-eq-nil,
}
use zt_edge.Config.Preload.{PreloadContext, stage_5_preload_esphome_block}
use zt_edge.Config.Preload.Accepted.{Refused, IsRead, stage_5_preload_esphome_block_lem}
use zt_edge.Config.Profiles.{
  Follows, validate_profile, stage_12_validate_profile, stage_12_validate_profile_lem,
}
use zt_edge.Config.Loading.{edit_distance, stage_6_load_components}
use zt_edge.Config.Loading.Distance.{distance, onto, edit_distance-distance}
use zt_edge.Config.Loading.Accepted.{IsLoadable, stage_6_load_components_lem}
use zt_edge.Config.ExclusiveGroups.{group_of, selected, stage_11_check_exclusive_groups}
use zt_edge.Config.ExclusiveGroups.Groups.{stage_11_check_exclusive_groups-eq-nil}
use zt_edge.Schema.Chip.{esp32}
use zt_edge.Schema.Registry.{ComponentRegistry, ComponentDefinition}
use zt_edge.Schema.Registry as Registry
use zt_edge.Schema.Registry.Expand.{Needed}

abbrev block : EsphomeBlock
block = record {
  name = "porch";
  platform = "ESP32";
  board = "esp32dev";
  friendly_name = none;
  framework = none;
  includes = [];
  libraries = [];
  project = none;
  area = none;
  min_version = none;
  profile = none;
  solution = none;
  solution_variant = none;
}

abbrev entry : String → Fields → ComponentConfig
entry kind fields = record { component_type = kind; platform = none; config = object fields }

abbrev pin_four : ℕ
pin_four = 4

abbrev wifi : ComponentConfig
wifi = entry "wifi" (field "ssid" (string "${net}") (field "id" (string "link") end))

abbrev lamp : ComponentConfig
lamp = entry "switch" (field "name" (string "Lamp") (field "pin" (number (pos_int pin_four)) end))

abbrev extend_wifi : ComponentConfig
extend_wifi = entry "!extend wifi" (field "password" (string "!secret wifi") end)

abbrev remove_wifi : ComponentConfig
remove_wifi = entry "!remove wifi" end

abbrev with_components : List ComponentConfig → RawConfig
with_components cs = record {
  esphome = block;
  packages = [];
  substitutions = ("net", "home") ∷ [];
  components = cs;
}

abbrev config : RawConfig
config = with_components (wifi ∷ lamp ∷ [])

abbrev base_package : PackageRef
base_package = record { name = "base"; url = none; file = none; git_ref = none; config_path = none }

abbrev packaged : RawConfig
packaged = record config { packages = base_package ∷ [] }

abbrev store : PackageStore
store = ("base", with_components (extend_wifi ∷ [])) ∷ []

abbrev parts : Parts
parts = ("to ", "net") ∷ (" and ", "other:=away") ∷ []

-- Of the Unicode tables, what these examples need.
abbrev same_case : String → String
same_case s = s

abbrev no_space : Char → Bool
no_space c = false

abbrev letter : Char → Bool
letter c = true

abbrev lamp_entry : IdEntry
lamp_entry = record { id = "lamp"; component_index = 0; component_type = "switch" }

abbrev lamps : IdTable
lamps = ("lamp", lamp_entry) ∷ []

abbrev wifi_definition : ComponentDefinition
wifi_definition = record {
  id = "wifi";
  description = "";
  is_family = false;
  child_components = [];
  auto_load = [];
  dependencies = [];
  conflicts_with = [];
  entity_type = none;
  exclusive_group_name = some "network";
  instance_policy = Registry.singleton;
  config_mode = Registry.compile_time_only;
  secret_fields = "password" ∷ [];
}

abbrev registry : ComponentRegistry
registry = ("wifi", wifi_definition) ∷ []

stage_1_merge_packages_lem_example :
    ((stage_1_merge_packages packaged store).0.components
      ≡ packaged.components ++ all_components (found store packaged.packages))
    × (lookup text_discrete "net" (stage_1_merge_packages packaged store).0.substitutions
        ≡ or_else
            (lookup text_discrete "net" packaged.substitutions)
            (first_value "net" (found store packaged.packages)))
    × (has_errors (stage_1_merge_packages packaged store).1
        ≡ not (all_known store packaged.packages))
stage_1_merge_packages_lem_example = stage_1_merge_packages_lem packaged store "net"

resolve_string-print_example :
    resolve_string config.substitutions "wifi" (print parts "!")
    ≡ fill config.substitutions "wifi" parts "!"
unfolding cut strip
resolve_string-print_example =
    resolve_string-print config.substitutions "wifi" parts "!"
      (((refl, refl), ((refl, refl), tt)), refl)

extend_wifi_aimed :
    (t : String) → second_word "!extend wifi" ≡ some t → starts_with t "!extend" ≡ false
unfolding second_word cut strip
extend_wifi_aimed t e =
    let same : "wifi" ≡ t = ground arith in ap (λ k. starts_with k "!extend") (sym same)

stage_3_process_extend_remove-merged_example :
    (stage_3_process_extend_remove (with_components (wifi ∷ extend_wifi ∷ lamp ∷ []))).0.components
    ≡ merged (directives (wifi ∷ extend_wifi ∷ lamp ∷ [])) [] (wifi ∷ extend_wifi ∷ lamp ∷ [])
stage_3_process_extend_remove-merged_example =
    stage_3_process_extend_remove-merged (with_components (wifi ∷ extend_wifi ∷ lamp ∷ []))
      (refl, (refl, (refl, tt)))
      (λ h. absurd (cc h), (λ h. extend_wifi_aimed, (λ h. absurd (cc h), tt)))

abbrev skipping : RawConfig
skipping = with_components (wifi ∷ remove_wifi ∷ extend_wifi ∷ [])

stage_3_process_extend_remove-skips_example :
    ((stage_3_process_extend_remove skipping).0.components ≡ extend_wifi ∷ [])
    × ((stage_3_process_extend_remove skipping).1 ≡ [])
unfolding is_extend is_remove directive_target second_word cut strip
stage_3_process_extend_remove-skips_example =
    stage_3_process_extend_remove-skips skipping wifi remove_wifi extend_wifi refl refl refl refl
      refl refl

abbrev old_wifi : Value
old_wifi = object (field "ap" (object (field "ssid" (string "setup") end)) end)

abbrev new_wifi : Value
new_wifi = object (field "ap" (object (field "channel" (number (pos_int pin_four)) end)) end)

value_at-deep_merge_example :
    (value_at ("ap" ∷ "channel" ∷ []) new_wifi ≡ some (number (pos_int pin_four))
      → is_object (number (pos_int pin_four)) ≡ false
      → value_at ("ap" ∷ "channel" ∷ []) (deep_merge new_wifi old_wifi)
        ≡ some (number (pos_int pin_four)))
    × (Lacks ("ap" ∷ "channel" ∷ []) new_wifi
        → value_at ("ap" ∷ "channel" ∷ []) (deep_merge new_wifi old_wifi)
          ≡ value_at ("ap" ∷ "channel" ∷ []) old_wifi)
unfolding IsMap find text_discrete
value_at-deep_merge_example =
    value_at-deep_merge ("ap" ∷ "channel" ∷ []) new_wifi old_wifi (number (pos_int pin_four))
      (refl, (refl, tt, tt), tt)

stage_10_check_pin_conflicts_lem_example :
    ((has_errors (stage_10_check_pin_conflicts config esp32).1 ≡ false)
      ↔ IsSound (usages config) esp32)
    × (IsSound (usages config) esp32
        → (stage_10_check_pin_conflicts config esp32).0.pin_allocations
          ≡ map allocation_of (usages config))
stage_10_check_pin_conflicts_lem_example = stage_10_check_pin_conflicts_lem config esp32

stage_8_resolve_ids_lem_example :
    Unique (ids_of (stage_8_resolve_ids same_case letter config).0.components)
    × All
        (λ c.
          (id : String)
          → Refers c.config id
          → Taken (stage_8_resolve_ids same_case letter config).1 id)
        (stage_8_resolve_ids same_case letter config).0.components
unfolding stage_8_resolve_ids collect_ids collect_id get find lookup has_errors text_discrete
    check_components generate_ids check_cross_refs generate_id check_reference ends_with set_id put
    text_lt
stage_8_resolve_ids_lem_example = stage_8_resolve_ids_lem same_case letter config refl

stage_4_resolve_external_components-eq-nil_example :
    (stage_4_resolve_external_components config ("https://github.com/acme/" ∷ []) ≡ []) ↔ (
      All
        (IsAllowed ("https://github.com/acme/" ∷ []))
        (framework_references (framework_components config))
      × All (IsAllowed ("https://github.com/acme/" ∷ [])) (component_references config.components))
stage_4_resolve_external_components-eq-nil_example =
    stage_4_resolve_external_components-eq-nil config ("https://github.com/acme/" ∷ [])

stage_5_preload_esphome_block_lem_example :
    ((ctx : PreloadContext) × (stage_5_preload_esphome_block same_case no_space config
        ≡ some (ok ctx))
      × IsRead same_case no_space config ctx)
    ⊎ (Refused (stage_5_preload_esphome_block same_case no_space config)
        × ((ctx : PreloadContext) → ¬ IsRead same_case no_space config ctx))
stage_5_preload_esphome_block_lem_example =
    stage_5_preload_esphome_block_lem same_case no_space config

stage_11_check_exclusive_groups-eq-nil_example :
    (stage_11_check_exclusive_groups config registry ≡ some []) ↔ (
      (a b g : String)
      → Needed registry (selected config) a
      → Needed registry (selected config) b
      → group_of registry a ≡ some g
      → group_of registry b ≡ some g
      → a ≡ b)
stage_11_check_exclusive_groups-eq-nil_example =
    stage_11_check_exclusive_groups-eq-nil config registry

stage_6_load_components_lem_example :
    (out : List String) × (errors : List ValidationError) × (stage_6_load_components config registry
      ≡ some (out, errors))
    × ((has_errors errors ≡ false) ↔ IsLoadable config registry)
stage_6_load_components_lem_example = stage_6_load_components_lem config registry

edit_distance-distance_example :
    edit_distance "wfii" "wifi" ≡ distance (onto [] "wfii") (onto [] "wifi")
edit_distance-distance_example = edit_distance-distance "wfii" "wifi"

stage_12_validate_profile_lem_example :
    ((validate_profile [] config registry ≡ some []) ↔ Follows [] config registry)
    × ((stage_12_validate_profile config registry ≡ some []) ↔ (config.esphome.profile ≡ none))
stage_12_validate_profile_lem_example = stage_12_validate_profile_lem [] config registry
