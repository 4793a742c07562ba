-- ===== src/Schema/Flags.antt =====
-- crates/rshome-schema/src/feature_flags.rs: the `USE_*` flags of a selection of components. A set
-- is a list of its members, and the counts stand under the names that they are printed with. The
-- names for Cargo are left out.
use zt_edge.Common.{
  ℕ, suc, Bool, true, ◌||◌, ◌⊎◌, has-cons, has-cons_self, ◌≡◌, refl, ◌↔◌, Option, none, some,
  String, List, [], ◌∷◌, has, Dict, lookup, insert, unwrap_or, text_discrete, Bool-cases, inl, inr,
  if◌then◌else◌, arith,
}
use zt_edge.Schema.Entity.{
  EntityType, sensor, binary_sensor, switch, number, select, text, button, event, light, climate,
  fan, cover, lock, media_player, alarm_control_panel, text_sensor,
}
use zt_edge.Schema.Registry.{ComponentRegistry, collect_set, resolve_auto_load}
use zt_edge.Schema.Registry as Registry
use zt_edge.Schema.Registry.Expand.{Needed, resolve_auto_load_lem}

-- `build_component_to_flags`.
unfoldable pub component_to_flags : Dict String (List String)
component_to_flags =
    ("logger", "USE_LOGGER" ∷ [])
    ∷ ("time", "USE_TIME" ∷ [])
    ∷ ("deep_sleep", "USE_DEEP_SLEEP" ∷ [])
    ∷ ("restart", "USE_RESTART" ∷ [])
    ∷ ("wifi", "USE_WIFI" ∷ [])
    ∷ ("ethernet", "USE_ETHERNET" ∷ [])
    ∷ ("sigrok", "USE_SIGROK" ∷ [])
    ∷ ("i2c", "USE_I2C" ∷ [])
    ∷ ("spi", "USE_SPI" ∷ [])
    ∷ ("uart", "USE_UART" ∷ [])
    ∷ ("api", "USE_API" ∷ [])
    ∷ ("mqtt", "USE_MQTT" ∷ [])
    ∷ ("ota", "USE_OTA" ∷ [])
    ∷ ("sensor", "USE_SENSOR" ∷ [])
    ∷ ("binary_sensor", "USE_BINARY_SENSOR" ∷ [])
    ∷ ("switch", "USE_SWITCH" ∷ [])
    ∷ ("number", "USE_NUMBER" ∷ [])
    ∷ ("select", "USE_SELECT" ∷ [])
    ∷ ("text", "USE_TEXT" ∷ [])
    ∷ ("button", "USE_BUTTON" ∷ [])
    ∷ ("event", "USE_EVENT" ∷ [])
    ∷ ("light", "USE_LIGHT" ∷ [])
    ∷ ("climate", "USE_CLIMATE" ∷ [])
    ∷ ("fan", "USE_FAN" ∷ [])
    ∷ ("cover", "USE_COVER" ∷ [])
    ∷ ("lock", "USE_LOCK" ∷ [])
    ∷ ("media_player", "USE_MEDIA_PLAYER" ∷ [])
    ∷ ("alarm_control_panel", "USE_ALARM_CONTROL_PANEL" ∷ [])
    ∷ ("text_sensor", "USE_TEXT_SENSOR" ∷ [])
    ∷ ("dht", "USE_DHT" ∷ "USE_SENSOR" ∷ [])
    ∷ ("bme280_i2c", "USE_BME280" ∷ "USE_SENSOR" ∷ "USE_I2C" ∷ [])
    ∷ ("bme680_bsec", "USE_BME680_BSEC" ∷ "USE_SENSOR" ∷ "USE_I2C" ∷ [])
    ∷ ("sht3x", "USE_SHT3X" ∷ "USE_SENSOR" ∷ "USE_I2C" ∷ [])
    ∷ ("ds18x20", "USE_DS18X20" ∷ "USE_SENSOR" ∷ [])
    ∷ ("adc", "USE_ADC" ∷ "USE_SENSOR" ∷ [])
    ∷ ("pulse_counter", "USE_PULSE_COUNTER" ∷ "USE_SENSOR" ∷ [])
    ∷ ("ultrasonic", "USE_ULTRASONIC" ∷ "USE_SENSOR" ∷ [])
    ∷ ("htu21d", "USE_HTU21D" ∷ "USE_SENSOR" ∷ "USE_I2C" ∷ [])
    ∷ ("bh1750", "USE_BH1750" ∷ "USE_SENSOR" ∷ "USE_I2C" ∷ [])
    ∷ ("rotary_encoder", "USE_ROTARY_ENCODER" ∷ "USE_SENSOR" ∷ [])
    ∷ ("esp32_hall", "USE_ESP32_HALL" ∷ "USE_SENSOR" ∷ [])
    ∷ ("gpio", "USE_GPIO" ∷ "USE_BINARY_SENSOR" ∷ [])
    ∷ ("status", "USE_STATUS" ∷ "USE_BINARY_SENSOR" ∷ [])
    ∷ ("esp32_touch", "USE_ESP32_TOUCH" ∷ "USE_BINARY_SENSOR" ∷ [])
    ∷ ("neopixelbus", "USE_NEOPIXELBUS_LIGHT" ∷ "USE_LIGHT" ∷ [])
    ∷ ("fastled_clockless", "USE_FASTLED_CLOCKLESS_LIGHT" ∷ "USE_LIGHT" ∷ [])
    ∷ ("thermostat", "USE_THERMOSTAT" ∷ "USE_CLIMATE" ∷ [])
    ∷ ("bang_bang", "USE_BANG_BANG" ∷ "USE_CLIMATE" ∷ [])
    ∷ ("pid", "USE_PID" ∷ "USE_CLIMATE" ∷ [])
    ∷ ("time_based", "USE_TIME_BASED_COVER" ∷ "USE_COVER" ∷ [])
    ∷ ("i2s_audio", "USE_I2S_AUDIO" ∷ "USE_MEDIA_PLAYER" ∷ [])
    ∷ []

unfoldable pub count_prefix : EntityType → String
count_prefix sensor = "ESPHOME_SENSOR_COUNT"
count_prefix binary_sensor = "ESPHOME_BINARY_SENSOR_COUNT"
count_prefix switch = "ESPHOME_SWITCH_COUNT"
count_prefix number = "ESPHOME_NUMBER_COUNT"
count_prefix select = "ESPHOME_SELECT_COUNT"
count_prefix text = "ESPHOME_TEXT_COUNT"
count_prefix button = "ESPHOME_BUTTON_COUNT"
count_prefix event = "ESPHOME_EVENT_COUNT"
count_prefix light = "ESPHOME_LIGHT_COUNT"
count_prefix climate = "ESPHOME_CLIMATE_COUNT"
count_prefix fan = "ESPHOME_FAN_COUNT"
count_prefix cover = "ESPHOME_COVER_COUNT"
count_prefix lock = "ESPHOME_LOCK_COUNT"
count_prefix media_player = "ESPHOME_MEDIA_PLAYER_COUNT"
count_prefix alarm_control_panel = "ESPHOME_ALARM_CONTROL_PANEL_COUNT"
count_prefix text_sensor = "ESPHOME_TEXT_SENSOR_COUNT"

pub record FeatureFlagSet : Type 0 where
  pub flags : List String
  pub entity_counts : Dict String ℕ

unfoldable pub flags_for : String → List String
flags_for id = unwrap_or (lookup text_discrete id component_to_flags) []

-- The loop over the expanded set, for the flags.
unfoldable pub add_flags : List String → List String → List String
add_flags [] flags = flags
add_flags (id ∷ ids) flags = add_flags ids (collect_set (flags_for id) flags)

unfoldable pub count_entity : Option EntityType → Bool → Dict String ℕ → Dict String ℕ
count_entity none is_family counts = counts
count_entity (some et) is_family counts =
    if is_family
    then counts
    else insert text_discrete (count_prefix et)
        (suc (unwrap_or (lookup text_discrete (count_prefix et) counts) 0)) counts

-- The loop over the expanded set, for the counts.
unfoldable pub count_entities : ComponentRegistry → List String → Dict String ℕ → Dict String ℕ
count_entities registry [] counts = counts
count_entities registry (id ∷ ids) counts = elim (Registry.get registry id) [
  | none ↦ count_entities registry ids counts
  | some def ↦ count_entities registry ids (count_entity def.entity_type def.is_family counts)
]

-- `none` if the expansion ran out of rounds, which it never does.
unfoldable pub from_components : List String → ComponentRegistry → Option FeatureFlagSet
from_components components registry = elim (resolve_auto_load registry components) [
  | none ↦ none
  | some expanded ↦ some (record {
    flags = add_flags expanded [];
    entity_counts = count_entities registry expanded [];
  })
]

unfoldable pub contains : FeatureFlagSet → String → Bool
contains set flag = has set.flags flag

unfoldable pub entity_count : FeatureFlagSet → EntityType → ℕ
entity_count set et = unwrap_or (lookup text_discrete (count_prefix et) set.entity_counts) 0

has-collect_set :
    (xs set : List String) (k : String) → has (collect_set xs set) k ≡ (has xs k || has set k)
unfolding collect_set has
has-collect_set [] set k = refl
has-collect_set (x ∷ xs) set k = elim (Bool-cases (has set x)) [
  | inl e ↦ rw (e, collect_set) (ground (arith, has-collect_set xs set k, e))
  | inr e ↦ rw (e, collect_set) (ground (arith, has-collect_set xs (x ∷ set) k, e))
]

-- A flag of one of the components.
abbrev pub Flagged : (String → Type 0) → String → Type 0
Flagged P flag = (id : String) × P id × (has (flags_for id) flag ≡ true)

has-add_flags :
    (ids set : List String) (flag : String)
    → (has (add_flags ids set) flag ≡ true)
      ↔ ((has set flag ≡ true) ⊎ Flagged (λ id. has ids id ≡ true) flag)
unfolding add_flags has
has-add_flags [] set flag = (λ h. inl h, λ h. elim h [ inl k ↦ k | inr k ↦ absurd (cc k.1) ])
has-add_flags (x ∷ xs) set flag =
    let rest = has-add_flags xs (collect_set (flags_for x) set) flag in
    let one = has-collect_set (flags_for x) set flag in
    (
      λ h. elim (rest.0 h) [
        | inl k ↦ elim (Bool-cases (has (flags_for x) flag)) [
          | inl e ↦ inr (x, has-cons_self x xs, e)
          | inr e ↦ inl (ground (arith, one, k, e))
        ]
        | inr (id, m, e) ↦ inr (id, has-cons x id xs m, e)
      ],
      λ h. elim h [
        | inl k ↦ rest.1 (inl (ground (arith, one, k)))
        | inr (id, m, e) ↦ elim (text_discrete x id) [
          | yes same ↦
              let own : has (flags_for x) flag ≡ true = rw same e in
              rest.1 (inl (ground (arith, one, own)))
          | no other ↦ rest.1 (inr (id, ground (arith, m, other), e))
        ]
      ],
    )

-- The set always comes out, and it holds a flag exactly when the table gives the flag to a
-- component that is selected or loaded by a needed component.
pub from_components_lem :
    (components : List String) (registry : ComponentRegistry)
    → (set : FeatureFlagSet) × (from_components components registry ≡ some set)
      × ((flag : String) → (contains set flag ≡ true) ↔ Flagged (Needed registry components) flag)
unfolding from_components contains
from_components_lem components registry =
    let (out, e, sorted, members) = resolve_auto_load_lem registry components in
    (
      record { flags = add_flags out []; entity_counts = count_entities registry out [] },
      rw (e, from_components) refl,
      λ flag.
          let whole = has-add_flags out [] flag in
          (
            λ h. elim (whole.0 h) [
              | inl k ↦ absurd (unfold has in cc k)
              | inr (id, m, f) ↦ (id, (members id).0 m, f)
            ],
            λ h. let (id, m, f) = h in whole.1 (inr (id, (members id).1 m, f)),
          ),
    )
