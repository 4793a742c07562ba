-- ===== src/Examples/Device.antt =====
-- A configuration of one device, its registry and solutions, and what its validation gives.
use zt_edge.Common.{ℕ, true, false, none, some, String, List, [], ◌∷◌, ltb, leb, Result, err}
use zt_edge.Common.Decimal.{decimal}
use zt_edge.Config.Value.{Value, pos_int, number, string, object, Fields, end, field}
use zt_edge.Config.Raw.{RawConfig, EsphomeBlock, ComponentConfig, PackageStore}
use zt_edge.Config.Schemas.{Floats}
use zt_edge.Config.FinalChecks.Sigrok.{SigrokConfig}
use zt_edge.Config.Variants.{VariantResolution}
use zt_edge.Config.Pipeline.{Host, ValidationPipeline}
use zt_edge.Config.Assembly.{ValidatedComponent, ValidatedConfig}
use zt_edge.Config.Preload.{PreloadContext, esp_idf}
use zt_edge.Config.Ids.{IdTable}
use zt_edge.Schema.Flags.{FeatureFlagSet}
use zt_edge.Schema.Chip.{esp32_s3}
use zt_edge.Schema.Pin.{ResourceTracker, new, input_output}
use zt_edge.Schema.Registry.{
  ComponentDefinition, ComponentRegistry, multi_instance, runtime_mutable,
}
use zt_edge.Schema.Solution.{SolutionRegistry, SolutionDefinition, SolutionVariantDefinition}

abbrev pub pin_four : ℕ
pin_four = 4

abbrev pub block : EsphomeBlock
block = record {
  name = "porch";
  platform = "esp32s3";
  board = "devkit";
  friendly_name = none;
  framework = none;
  includes = [];
  libraries = [];
  project = none;
  area = none;
  min_version = none;
  profile = none;
  solution = some "weather";
  solution_variant = some "logged";
}

abbrev pub entry : String → Fields → ComponentConfig
entry kind fields = record { component_type = kind; platform = none; config = object fields }

abbrev pub wifi : ComponentConfig
wifi = entry "wifi" (field "ssid" (string "home") end)

abbrev pub dht : ComponentConfig
dht = entry "dht" (field "name" (string "air") (field "pin" (number (pos_int pin_four)) end))

abbrev pub given : RawConfig
given = record { esphome = block; packages = []; substitutions = []; components = wifi ∷ dht ∷ [] }

abbrev pub logged : SolutionVariantDefinition
logged = record {
  id = "logged";
  add_components = "logger" ∷ [];
  remove_components = [];
  active_flag_add = "USE_WEATHER" ∷ [];
  active_flag_remove = "USE_LOGGER" ∷ [];
}

abbrev pub weather : SolutionDefinition
weather = record {
  id = "weather";
  fixed_orchestration = [];
  variants = logged ∷ [];
  component_bundle = record { required = "wifi" ∷ []; optional = "dht" ∷ "logger" ∷ [] };
  failsafe = none;
}

abbrev pub solutions : SolutionRegistry
solutions = ("weather", weather) ∷ []

abbrev pub definition : String → List String → ComponentDefinition
definition id loads = record {
  id = id;
  description = "";
  is_family = false;
  child_components = [];
  auto_load = loads;
  dependencies = [];
  conflicts_with = [];
  entity_type = none;
  exclusive_group_name = none;
  instance_policy = multi_instance;
  config_mode = runtime_mutable;
  secret_fields = [];
}

abbrev pub registry : ComponentRegistry
registry =
    ("wifi", definition "wifi" [])
    ∷ ("dht", definition "dht" ("sensor" ∷ []))
    ∷ ("sensor", definition "sensor" [])
    ∷ ("logger", definition "logger" [])
    ∷ []

abbrev pub pipeline : ValidationPipeline
pipeline = record { registry = registry; allow_list = [] }

-- Of the standard library and of serde, what this example needs: whole numbers for floats, and
-- component ids of two letters that are all written in capitals already.
abbrev pub floats : Floats
floats = record {
  from_u64 = λ n. n;
  from_i64 = λ n. n;
  lt = λ m n. ltb m n;
  le = λ m n. leb m n;
  display = λ n. decimal n;
}

abbrev pub read_sigrok : Value → Result String SigrokConfig
read_sigrok v = err "no analyser"

abbrev pub host : Host
host = record {
  to_lowercase = λ s. s;
  to_uppercase = λ s. s;
  is_whitespace = λ c. false;
  is_alphanumeric = λ c. true;
  floats = floats;
  from_value = read_sigrok;
}

abbrev pub no_packages : PackageStore
no_packages = []

abbrev pub component : String → Value → ValidatedComponent
component id document = record {
  component_id = id;
  platform_type = none;
  index = 0;
  entity_id = none;
  config = document;
  auto_loaded = false;
}

abbrev pub named_dht : Value
named_dht = object (
    field "id" (string "air")
      (field "name" (string "air") (field "pin" (number (pos_int pin_four)) end)))

abbrev pub final : ValidatedConfig
final = record {
  esphome = record {
    name = "porch";
    chip_target = esp32_s3;
    board = "devkit";
    friendly_name = none;
    framework_type = esp_idf;
    project = none;
    solution_id = some "weather";
    solution_variant_id = some "logged";
  };
  components =
      component "wifi" (object (field "ssid" (string "home") end))
      ∷ record (component "dht" named_dht) { entity_id = some "air" }
      ∷ component "logger" (object end)
      ∷ record (component "sensor" (object end)) { auto_loaded = true }
      ∷ [];
  active_flags = "USE_DHT" ∷ "USE_SENSOR" ∷ "USE_WEATHER" ∷ "USE_WIFI" ∷ [];
  pin_allocations =
      record {
        gpio_num = pin_four;
        mode = input_output;
        component = "dht";
        pull_mode = none;
        inverted = false;
      }
      ∷ [];
}

abbrev pub overlaid : RawConfig
overlaid = record given { components = wifi ∷ dht ∷ entry "logger" end ∷ [] }

abbrev pub resolution : VariantResolution
resolution = record {
  solution_id = some "weather";
  variant_id = some "logged";
  active_flag_add = "USE_WEATHER" ∷ [];
  active_flag_remove = "USE_LOGGER" ∷ [];
}

abbrev pub context : PreloadContext
context = record {
  chip_target = esp32_s3;
  board = "devkit";
  framework_type = esp_idf;
  framework_version = none;
}

abbrev pub resolved : List String
resolved = "dht" ∷ "logger" ∷ "sensor" ∷ "wifi" ∷ []

abbrev pub last : RawConfig
last = record overlaid {
  components = wifi ∷ record dht { config = named_dht } ∷ entry "logger" end ∷ [];
}

abbrev pub table : IdTable
table = ("air", record { id = "air"; component_index = 1; component_type = "dht" }) ∷ []

abbrev pub tracker : ResourceTracker
tracker = record new { pin_allocations = final.pin_allocations }

abbrev pub flags : FeatureFlagSet
flags = record {
  flags = "USE_WIFI" ∷ "USE_LOGGER" ∷ "USE_SENSOR" ∷ "USE_DHT" ∷ [];
  entity_counts = [];
}
