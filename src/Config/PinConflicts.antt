-- ===== src/Config/PinConflicts.antt =====
-- crates/rshome-config/src/stages/s10_pin_conflicts.rs: the GPIO usages of the components are
-- claimed from a tracker, and the tracker's pins are checked against the chip.
pub mod Claims
pub mod Claimed
use zt_edge.Common.{
  ◌<>◌, ℕ, zero, suc, Bool, true, false, Option, none, some, String, List, [], ◌∷◌, ◌++◌, Dict,
  lookup, insert, unwrap_or, text_discrete, ltb, ◌||◌, if◌then◌else◌, is_some, Result, ok, err,
}
use zt_edge.Common.Cut.{cut}
use zt_edge.Common.Decimal.{decimal}
use zt_edge.Config.Diagnostic.{ValidationStage, ValidationError, error, warning}
use zt_edge.Config.Value.{
  Value, null, bool, number, string, array, object, Fields, find, as_u64, as_str, as_bool,
}
use zt_edge.Config.Raw.{RawConfig, ComponentConfig}
use zt_edge.Schema.Chip
use zt_edge.Schema.Chip.{ChipTarget}
use zt_edge.Schema.Pin.{
  PinMode, PullMode, PinAllocation, PinConflict, PinError, ResourceTracker, new, allocate_pin,
  validate_pin_capabilities,
}

pub record PinUsage : Type 0 where
  pub gpio_num : ℕ
  pub mode : PinMode
  pub pull_mode : Option PullMode
  pub inverted : Bool
  pub component_id : String
  pub path : String

abbrev pub field_modes : List (String × PinMode)
field_modes =
    ("pin", PinMode.input_output)
    ∷ ("sda", PinMode.i2c_sda)
    ∷ ("scl", PinMode.i2c_scl)
    ∷ ("mosi", PinMode.spi_mosi)
    ∷ ("miso", PinMode.spi_miso)
    ∷ ("clk", PinMode.spi_clk)
    ∷ ("cs", PinMode.spi_cs)
    ∷ ("tx_pin", PinMode.uart)
    ∷ ("rx_pin", PinMode.uart)
    ∷ ("trigger_pin", PinMode.output)
    ∷ ("echo_pin", PinMode.input)
    ∷ ("output", PinMode.output)
    ∷ ("input_pin", PinMode.input)
    ∷ []

-- `as_u64` with `u8::try_from`.
unfoldable pub as_u8 : Value → Option ℕ
as_u8 v = elim (as_u64 v) [ none ↦ none | some n ↦ if ltb n 256 then some n else none ]

abbrev pub and_then {ℓ} : {A B : Type ℓ} → Option A → (A → Option B) → Option B
and_then none f = none
and_then (some a) f = f a

abbrev pub contains_text : String → String → Bool
contains_text pattern s = is_some (cut pattern s)

unfoldable pub pull_mode_of : String → Option PullMode
pull_mode_of s =
    if contains_text "PULLUP" s || contains_text "INPUT_PULLUP" s
    then some PullMode.up
    else if contains_text "PULLDOWN" s
    then some PullMode.down
    else none

-- The number, the pull mode and the inversion that the value of a pin field gives.
unfoldable pub read_pin : Value → Option ℕ × Option PullMode × Bool
read_pin (number n) = (as_u8 (number n), none, false)
read_pin (object m) = (
  and_then (find "number" m) as_u8,
  and_then (and_then (find "mode" m) as_str) pull_mode_of,
  unwrap_or (and_then (find "inverted" m) as_bool) false,
)
read_pin _ = (none, none, false)

-- The loop of `extract_pins` over the recognised fields of an object.
unfoldable pub extract_fields : List (String × PinMode) → Fields → String → String → List PinUsage
extract_fields [] obj component_id base_path = []
extract_fields ((name, mode) ∷ rest) obj component_id base_path =
    let more = extract_fields rest obj component_id base_path in
    elim (find name obj) [
      | none ↦ more
      | some val ↦
          let (gpio_num, pull_mode, inverted) = read_pin val in
          elim gpio_num [
            | none ↦ more
            | some gpio ↦
                record {
                  gpio_num = gpio;
                  mode = mode;
                  pull_mode = pull_mode;
                  inverted = inverted;
                  component_id = component_id;
                  path = base_path <> "." <> name;
                }
                ∷ more
          ]
    ]

unfoldable pub extract_pins : Value → String → String → List PinUsage
extract_pins (object obj) component_id base_path =
    extract_fields field_modes obj component_id base_path
extract_pins _ component_id base_path = []

unfoldable pub allocation_of : PinUsage → PinAllocation
allocation_of u = record {
  gpio_num = u.gpio_num;
  mode = u.mode;
  component = u.component_id;
  pull_mode = u.pull_mode;
  inverted = u.inverted;
}

-- The derived `Debug` of a mode and of a chip.
unfoldable pub debug_mode : PinMode → String
debug_mode PinMode.input = "Input"
debug_mode PinMode.output = "Output"
debug_mode PinMode.input_output = "InputOutput"
debug_mode PinMode.analog = "Analog"
debug_mode PinMode.pwm_output = "PwmOutput"
debug_mode PinMode.i2c_sda = "I2cSda"
debug_mode PinMode.i2c_scl = "I2cScl"
debug_mode PinMode.spi_mosi = "SpiMosi"
debug_mode PinMode.spi_miso = "SpiMiso"
debug_mode PinMode.spi_clk = "SpiClk"
debug_mode PinMode.spi_cs = "SpiCs"
debug_mode PinMode.uart = "Uart"
debug_mode PinMode.touch = "Touch"

unfoldable pub debug_chip : ChipTarget → String
debug_chip ChipTarget.esp32 = "Esp32"
debug_chip ChipTarget.esp32_s2 = "Esp32S2"
debug_chip ChipTarget.esp32_s3 = "Esp32S3"
debug_chip ChipTarget.esp32_c2 = "Esp32C2"
debug_chip ChipTarget.esp32_c3 = "Esp32C3"
debug_chip ChipTarget.esp32_c5 = "Esp32C5"
debug_chip ChipTarget.esp32_c6 = "Esp32C6"
debug_chip ChipTarget.esp32_c61 = "Esp32C61"
debug_chip ChipTarget.esp32_h2 = "Esp32H2"
debug_chip ChipTarget.esp32_p4 = "Esp32P4"

unfoldable pub conflict_diagnostic : String → PinConflict → ValidationError
conflict_diagnostic path c = error ValidationStage.pin_conflicts path (
    "GPIO "
    <> decimal c.gpio_num
    <> " already allocated by '"
    <> c.existing_owner
    <> "' (mode "
    <> debug_mode c.existing_mode
    <> "); '"
    <> c.new_owner
    <> "' requested mode "
    <> debug_mode c.new_mode)

unfoldable pub refusal : String → Result PinConflict (Unit {0}) → List ValidationError
refusal path (ok _) = []
refusal path (err conflict) = conflict_diagnostic path conflict ∷ []

-- The loop over the usages of one component.
unfoldable pub claim_usages :
    List PinUsage → ResourceTracker → ResourceTracker × List ValidationError
claim_usages [] tracker = (tracker, [])
claim_usages (usage ∷ rest) tracker =
    let (claimed, result) = allocate_pin tracker (allocation_of usage) in
    let (final, errors) = claim_usages rest claimed in (final, refusal usage.path result ++ errors)

-- The index of a component among those of its type, by the counters of the types.
unfoldable pub index_of : String → Dict String ℕ → ℕ
index_of component_type counters = unwrap_or (lookup text_discrete component_type counters) 0

unfoldable pub usages_of : ComponentConfig → Dict String ℕ → List PinUsage
usages_of comp counters =
    extract_pins comp.config (unwrap_or comp.platform comp.component_type)
      (comp.component_type <> "[" <> decimal (index_of comp.component_type counters) <> "]")

unfoldable pub count_up : ComponentConfig → Dict String ℕ → Dict String ℕ
count_up comp counters =
    insert text_discrete comp.component_type (suc (index_of comp.component_type counters)) counters

unfoldable pub claim_components :
    List ComponentConfig → Dict String ℕ → ResourceTracker → ResourceTracker × List ValidationError
claim_components [] counters tracker = (tracker, [])
claim_components (comp ∷ rest) counters tracker =
    let (claimed, own) = claim_usages (usages_of comp counters) tracker in
    let (final, errors) = claim_components rest (count_up comp counters) claimed in
    (final, own ++ errors)

abbrev gpio_path : ℕ → String
gpio_path gpio_num = "gpio_" <> decimal gpio_num

unfoldable pub pin_diagnostic : ChipTarget → PinError → ValidationError
pin_diagnostic target (PinError.input_only_pin_used_as_output g chip component mode) =
    error ValidationStage.pin_conflicts (gpio_path g) (
      "GPIO "
      <> decimal g
      <> " is input-only on "
      <> debug_chip target
      <> " but '"
      <> component
      <> "' requested output mode")
pin_diagnostic target (PinError.gpio_out_of_range g chip max_gpio) =
    error ValidationStage.pin_conflicts (gpio_path g) (
      "GPIO "
      <> decimal g
      <> " does not exist on "
      <> debug_chip target
      <> " (max GPIO is "
      <> decimal max_gpio
      <> ")")
pin_diagnostic target (PinError.strapping_pin_warning g chip component) =
    warning ValidationStage.pin_conflicts (gpio_path g) (
      "GPIO "
      <> decimal g
      <> " is a strapping pin on "
      <> debug_chip target
      <> "; '"
      <> component
      <> "' using it may affect boot reliability")
pin_diagnostic target (PinError.flash_reserved_pin g chip component) =
    error ValidationStage.pin_conflicts (gpio_path g) (
      "GPIO "
      <> decimal g
      <> " is reserved for flash on "
      <> debug_chip target
      <> " and cannot be used by '"
      <> component
      <> "'")

unfoldable pub pin_diagnostics : ChipTarget → List PinError → List ValidationError
pin_diagnostics target [] = []
pin_diagnostics target (e ∷ es) = pin_diagnostic target e ∷ pin_diagnostics target es

unfoldable pub stage_10_check_pin_conflicts :
    RawConfig → ChipTarget → ResourceTracker × List ValidationError
stage_10_check_pin_conflicts config target =
    let (tracker, errors) = claim_components config.components [] new in
    (
      tracker,
      errors ++ elim (validate_pin_capabilities tracker target) [
        | ok _ ↦ []
        | err pin_errors ↦ pin_diagnostics target pin_errors
      ],
    )
