-- ===== src/Config/Schemas/Fields.antt =====
-- crates/rshome-config/src/stages/s7_schema_validation.rs: the fields of the known components.
-- The bounds are floats in the source, all of them whole numbers.
use zt_edge.Common.{
  ℕ, Bool, true, false, Option, none, some, String, List, [], ◌∷◌, Dict, lookup, text_discrete,
}

pub data FieldType : Type 0 where
  string integer float boolean object array any : FieldType

pub record FieldDef : Type 0 where
  pub name : String
  pub field_type : FieldType
  pub required : Bool
  pub enum_values : Option (List String)
  pub min : Option ℕ
  pub max : Option ℕ

unfoldable pub req : String → FieldType → FieldDef
req name t = record {
  name = name;
  field_type = t;
  required = true;
  enum_values = none;
  min = none;
  max = none;
}

unfoldable pub opt : String → FieldType → FieldDef
opt name t = record {
  name = name;
  field_type = t;
  required = false;
  enum_values = none;
  min = none;
  max = none;
}

unfoldable pub with_enum : FieldDef → List String → FieldDef
with_enum field variants = record field { enum_values = some variants }

unfoldable pub with_range : FieldDef → ℕ → ℕ → FieldDef
with_range field min max = record field { min = some min; max = some max }

unfoldable pub entity_common : List FieldDef
entity_common =
    req "name" string
    ∷ opt "id" string
    ∷ opt "icon" string
    ∷ opt "internal" boolean
    ∷ opt "disabled_by_default" boolean
    ∷ with_enum (opt "entity_category" string) ("none" ∷ "config" ∷ "diagnostic" ∷ [])
    ∷ []

unfoldable pub sensor_fields : List FieldDef
sensor_fields =
    opt "device_class" string
    ∷ opt "unit_of_measurement" string
    ∷ with_range (opt "accuracy_decimals" integer) 0 10
    ∷ with_enum (opt "state_class" string) ("measurement" ∷ "total" ∷ "total_increasing" ∷ [])
    ∷ opt "filters" array
    ∷ opt "force_update" boolean
    ∷ with_range (opt "expire_after" integer) 0 4294967295
    ∷ []

unfoldable pub dht_fields : List FieldDef
dht_fields =
    with_range (req "pin" integer) 0 48
    ∷ with_enum (opt "model" string) ("AUTO_DETECT" ∷ "DHT11" ∷ "DHT22" ∷ "AM2302" ∷ "RHT03" ∷ [])
    ∷ opt "update_interval" string
    ∷ opt "temperature" object
    ∷ opt "humidity" object
    ∷ []

unfoldable pub wifi_fields : List FieldDef
wifi_fields =
    with_enum (opt "provisioning_mode" string) ("nvs" ∷ "build_input" ∷ [])
    ∷ opt "ssid" string
    ∷ opt "password" string
    ∷ opt "service_name" string
    ∷ opt "pop" string
    ∷ opt "networks" array
    ∷ opt "ap" object
    ∷ opt "reboot_timeout" string
    ∷ with_enum (opt "power_save_mode" string) ("none" ∷ "light" ∷ "high" ∷ [])
    ∷ opt "fast_connect" boolean
    ∷ opt "domain" string
    ∷ []

unfoldable pub logger_fields : List FieldDef
logger_fields =
    with_enum (opt "level" string)
      ("NONE" ∷ "ERROR" ∷ "WARN" ∷ "INFO" ∷ "DEBUG" ∷ "VERBOSE" ∷ "VERY_VERBOSE" ∷ [])
    ∷ with_range (opt "baud_rate" integer) 0 921600
    ∷ with_range (opt "tx_buffer_size" integer) 0 65536
    ∷ opt "hardware_uart" string
    ∷ opt "logs" object
    ∷ []

unfoldable pub api_fields : List FieldDef
api_fields =
    opt "password" string
    ∷ with_range (opt "port" integer) 1 65535
    ∷ opt "reboot_timeout" string
    ∷ opt "encryption" object
    ∷ opt "services" array
    ∷ []

unfoldable pub ota_fields : List FieldDef
ota_fields =
    opt "password" string
    ∷ opt "safe_mode" boolean
    ∷ opt "reboot_timeout" integer
    ∷ with_range (opt "num_attempts" integer) 1 100
    ∷ opt "platform" string
    ∷ []

unfoldable pub i2c_fields : List FieldDef
i2c_fields =
    with_range (opt "sda" integer) 0 48
    ∷ with_range (opt "scl" integer) 0 48
    ∷ opt "frequency" integer
    ∷ opt "scan" boolean
    ∷ []

unfoldable pub switch_fields : List FieldDef
switch_fields =
    with_enum (opt "restore_mode" string) (
      "RESTORE_DEFAULT_OFF" ∷ "RESTORE_DEFAULT_ON" ∷ "ALWAYS_OFF" ∷ "ALWAYS_ON"
      ∷ "RESTORE_INVERTED_DEFAULT_OFF" ∷ "RESTORE_INVERTED_DEFAULT_ON" ∷ "DISABLED" ∷ [])
    ∷ opt "inverted" boolean
    ∷ opt "on_turn_on" array
    ∷ opt "on_turn_off" array
    ∷ []

unfoldable pub gpio_switch_fields : List FieldDef
gpio_switch_fields = with_range (req "pin" integer) 0 48 ∷ []

unfoldable pub binary_sensor_fields : List FieldDef
binary_sensor_fields =
    opt "device_class" string
    ∷ opt "filters" array
    ∷ opt "on_press" array
    ∷ opt "on_release" array
    ∷ []

unfoldable pub gpio_binary_sensor_fields : List FieldDef
gpio_binary_sensor_fields = with_range (req "pin" integer) 0 48 ∷ []

-- The fields of a component, and whether it has the common ones of an entity.
unfoldable pub schemas : Dict String (List FieldDef × Bool)
schemas =
    ("dht", (dht_fields, false))
    ∷ ("wifi", (wifi_fields, false))
    ∷ ("logger", (logger_fields, false))
    ∷ ("api", (api_fields, false))
    ∷ ("ota", (ota_fields, false))
    ∷ ("i2c", (i2c_fields, false))
    ∷ ("sensor", (sensor_fields, true))
    ∷ ("switch", (switch_fields, true))
    ∷ ("gpio", (gpio_switch_fields, false))
    ∷ ("binary_sensor", (binary_sensor_fields, true))
    ∷ []

unfoldable pub fields_for : String → Option (List FieldDef × Bool)
fields_for component_id = lookup text_discrete component_id schemas
