-- ===== src/Config/FinalChecks/Sigrok.antt =====
-- crates/rshome-config/src/sigrok.rs, and its part of
-- crates/rshome-config/src/stages/s9_final_validation.rs: the logic analyser. Reading its
-- configuration from a document is a derived function of serde and a parameter.
use zt_edge.Common.{
  ◌<>◌, ℕ, Bool, ◌||◌, Option, none, some, String, List, [], ◌∷◌, ◌++◌, text_discrete, ite, length,
  contains, ltb, ◌==◌, if◌then◌else◌, Result, ok, err,
}
use zt_edge.Common.Decimal.{decimal}
use zt_edge.Config.Diagnostic.{ValidationStage, ValidationError, error, warning, with_suggestion}
use zt_edge.Config.Raw.{RawConfig, ComponentConfig}
use zt_edge.Config.Value.{Value}

pub data SigrokTriggerMode : Type 0 where
  immediate : SigrokTriggerMode
  edge : (channel : ℕ) (rising : Bool) → SigrokTriggerMode
  pattern_match : (mask value : ℕ) → SigrokTriggerMode

pub data SigrokTransport : Type 0 where
  usb_serial_jtag usb_otg_cdc : SigrokTransport

pub record SigrokConfig : Type 0 where
  pub channels : List ℕ
  pub sample_rate_hz : ℕ
  pub max_sample_rate : ℕ
  pub buffer_depth : ℕ
  pub trigger_mode : SigrokTriggerMode
  pub transport : SigrokTransport

abbrev pub strapping_pins : List ℕ
strapping_pins = 0 ∷ 3 ∷ 45 ∷ 46 ∷ []

abbrev pub usb_jtag_pins : List ℕ
usb_jtag_pins = 19 ∷ 20 ∷ []

abbrev pub flash_pins : List ℕ
flash_pins = 26 ∷ 27 ∷ 28 ∷ 29 ∷ 30 ∷ 31 ∷ 32 ∷ []

abbrev pub max_sample_rate_hz : ℕ
max_sample_rate_hz = 20000000

abbrev pub max_buffer_depth : ℕ
max_buffer_depth = 200000

abbrev sigrok_error : String → String → ValidationError
sigrok_error path message = error ValidationStage.final_validation path message

-- Rule S2.
unfoldable pub check_count : List ℕ → List ValidationError
check_count channels =
    if length channels == 8 || length channels == 16
    then []
    else sigrok_error "sigrok.channels"
        ("sigrok requires exactly 8 or 16 channels, got " <> decimal (length channels))
      ∷ []

-- Rule S3, with the pins that were seen.
unfoldable pub check_duplicates : List ℕ → List ℕ → List ValidationError
check_duplicates [] seen = []
check_duplicates (pin ∷ pins) seen =
    let rest = check_duplicates pins (pin ∷ seen) in
    if contains seen pin
    then sigrok_error "sigrok.channels" ("duplicate GPIO " <> decimal pin <> " in sigrok channels")
      ∷ check_duplicates pins seen
    else rest

-- Rule S4 for one pin.
unfoldable pub check_pin : ℕ → List ValidationError
check_pin pin =
    (if contains strapping_pins pin
      then warning ValidationStage.final_validation "sigrok.channels"
          ("GPIO " <> decimal pin <> " is a strapping pin — may cause boot issues")
        ∷ []
      else [])
    ++ (if contains usb_jtag_pins pin
        then sigrok_error "sigrok.channels" (
            "GPIO "
            <> decimal pin
            <> " is used by USB Serial/JTAG (SUMP transport) and cannot be a sigrok channel")
          ∷ []
        else [])
    ++ (if contains flash_pins pin
        then sigrok_error "sigrok.channels"
            ("GPIO " <> decimal pin <> " is a SPI flash pin and cannot be used")
          ∷ []
        else [])

unfoldable pub check_pins : List ℕ → List ValidationError
check_pins [] = []
check_pins (pin ∷ pins) = check_pin pin ++ check_pins pins

-- Rule S5a.
unfoldable pub check_transport : SigrokTransport → List ValidationError
check_transport usb_serial_jtag = []
check_transport usb_otg_cdc =
    warning ValidationStage.final_validation "sigrok.transport" (
      "USB-OTG mode disables the ESP32-S3's built-in USB Serial/JTAG interface. "
      <> "You will need a USB-UART bridge (e.g., CP2102) on GPIO 43/44 for flashing "
      <> "and serial monitor.")
    ∷ []

-- Rules S5 and S6.
unfoldable pub check_limits : SigrokConfig → List ValidationError
check_limits sigrok =
    (if ltb max_sample_rate_hz sigrok.sample_rate_hz
      then sigrok_error "sigrok.sample_rate_hz" (
          "sample rate "
          <> decimal sigrok.sample_rate_hz
          <> " Hz exceeds the 20 MHz hardware maximum for ESP32-S3")
        ∷ []
      else [])
    ++ (if ltb max_buffer_depth sigrok.buffer_depth
        then sigrok_error "sigrok.buffer_depth" (
            "buffer depth "
            <> decimal sigrok.buffer_depth
            <> " exceeds the "
            <> decimal max_buffer_depth
            <> " sample SRAM limit")
          ∷ []
        else [])

unfoldable pub check_sigrok : SigrokConfig → List ValidationError
check_sigrok sigrok =
    check_count sigrok.channels
    ++ check_duplicates sigrok.channels []
    ++ check_pins sigrok.channels
    ++ check_transport sigrok.transport
    ++ check_limits sigrok

unfoldable pub find_type : String → List ComponentConfig → Option ComponentConfig
find_type t [] = none
find_type t (c ∷ cs) = ite (text_discrete c.component_type t) (some c) (find_type t cs)

abbrev read_sigrok : Result String SigrokConfig → List ValidationError
read_sigrok (ok sigrok) = check_sigrok sigrok
read_sigrok (err e) = sigrok_error "sigrok" ("invalid sigrok config: " <> e) ∷ []

unfoldable pub validate_sigrok :
    (Value → Result String SigrokConfig) → RawConfig → List ValidationError
validate_sigrok from_value config = elim (find_type "sigrok" config.components) [
  | none ↦ []
  | some comp ↦
      ite (text_discrete config.esphome.platform "esp32s3") (read_sigrok (from_value comp.config)) (
        with_suggestion
          (sigrok_error "sigrok" (
            "sigrok component requires ESP32-S3 but target is '" <> config.esphome.platform <> "'"))
          "Change platform to 'esp32s3' or remove the sigrok component"
        ∷ [])
]
