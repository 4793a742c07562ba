-- ===== src/Config/Preload.antt =====
-- crates/rshome-config/src/stages/s5_preload.rs: the `esphome:` block gives the chip, the board and
-- the framework. The Unicode functions of the standard library are parameters; a panic of `unwrap`
-- is `none`.
pub mod Accepted
use Prim.Native.Char.{Char, code}
use zt_edge.Common.{
  ◌<>◌, Bool, true, false, ◌&&◌, Option, none, some, String, List, [], ◌∷◌, ◌++◌, text_discrete,
  ◌==◌, ite, if◌then◌else◌, Result, ok, err,
}
use zt_edge.Config.Diagnostic.{ValidationStage, ValidationError, error, with_suggestion}
use zt_edge.Config.Raw.{RawConfig, EsphomeBlock, FrameworkConfig}
use zt_edge.Schema.Chip.{ChipTarget}

pub data FrameworkType : Type 0 where
  esp_idf arduino : FrameworkType

pub record PreloadContext : Type 0 where
  pub chip_target : ChipTarget
  pub board : String
  pub framework_type : FrameworkType
  pub framework_version : Option String

-- `replace('-', "")`.
unfoldable pub without_dashes : String → String
without_dashes String.[] = String.[]
without_dashes (String.◌∷◌ c s) =
    let rest = without_dashes s in if code c == b'-' then rest else String.◌∷◌ c rest

-- The first of some texts that is equal to a text gives the answer.
unfoldable pub choose {ℓ} : {A : Type ℓ} → String → List (String × A) → Option A
choose s [] = none
choose s ((name, a) ∷ rest) = ite (text_discrete s name) (some a) (choose s rest)

abbrev pub chips : List (String × ChipTarget)
chips =
    ("esp32", ChipTarget.esp32)
    ∷ ("esp32s2", ChipTarget.esp32_s2)
    ∷ ("esp32s3", ChipTarget.esp32_s3)
    ∷ ("esp32s3box", ChipTarget.esp32_s3)
    ∷ ("esp32s3n8r8", ChipTarget.esp32_s3)
    ∷ ("esp32c3", ChipTarget.esp32_c3)
    ∷ ("esp32c5", ChipTarget.esp32_c5)
    ∷ ("esp32c6", ChipTarget.esp32_c6)
    ∷ ("esp32h2", ChipTarget.esp32_h2)
    ∷ ("esp32p4", ChipTarget.esp32_p4)
    ∷ []

abbrev pub frameworks : List (String × FrameworkType)
frameworks =
    ("espidf", FrameworkType.esp_idf)
    ∷ ("idf", FrameworkType.esp_idf)
    ∷ ("arduino", FrameworkType.arduino)
    ∷ []

abbrev preload_error : String → String → ValidationError
preload_error path message = error ValidationStage.preload path message

module _ (to_lowercase : String → String) (is_whitespace : Char → Bool) where
  -- `trim().is_empty()`.
  unfoldable pub is_blank : String → Bool
  is_blank String.[] = true
  is_blank (String.◌∷◌ c s) = is_whitespace c && is_blank s

  abbrev pub normal : String → String
  normal s = without_dashes (to_lowercase s)

  unfoldable pub check_name : EsphomeBlock → List ValidationError
  check_name esphome =
      if is_blank esphome.name
      then preload_error "esphome.name" "device name must not be empty" ∷ []
      else []

  unfoldable pub chip_target_of : EsphomeBlock → Option ChipTarget × List ValidationError
  chip_target_of esphome = elim (choose (normal esphome.platform) chips) [
    | some chip ↦ (some chip, [])
    | none ↦ (
      none,
      with_suggestion
            (preload_error "esphome.platform" (
              "unsupported platform '"
              <> normal esphome.platform
              <> "'; supported: esp32, esp32s2, esp32s3, esp32c3, esp32c5, esp32c6, esp32h2, esp32p4"))
            "rshome supports ESP32, ESP32-S3, and ESP32-C6 targets only"
          ∷ [],
    )
  ]

  unfoldable pub check_board : EsphomeBlock → List ValidationError
  check_board esphome =
      if is_blank esphome.board
      then preload_error "esphome.board" "board identifier must not be empty" ∷ []
      else []

  -- The framework's type, with its fallback, and version.
  unfoldable pub framework_of :
      Option FrameworkConfig → FrameworkType × Option String × List ValidationError
  framework_of none = (FrameworkType.esp_idf, none, [])
  framework_of (some fw) = elim (choose (normal fw.framework_type) frameworks) [
    | some ft ↦ (ft, fw.version, [])
    | none ↦ (
      FrameworkType.esp_idf,
      fw.version,
      preload_error "esphome.framework.type" (
            "unknown framework type '"
            <> normal fw.framework_type
            <> "'; supported: esp-idf, arduino")
          ∷ [],
    )
  ]

  unfoldable pub finish :
      List ValidationError
      → Option ChipTarget
      → String
      → FrameworkType
      → Option String
      → Option (Result (List ValidationError) PreloadContext)
  finish (e ∷ es) chip board framework version = some (err (e ∷ es))
  finish [] none board framework version = none
  finish [] (some chip) board framework version = some (
      ok (record {
        chip_target = chip;
        board = board;
        framework_type = framework;
        framework_version = version;
      }))

  unfoldable pub stage_5_preload_esphome_block :
      RawConfig → Option (Result (List ValidationError) PreloadContext)
  stage_5_preload_esphome_block config =
      let (chip, unsupported) = chip_target_of config.esphome in
      let (framework, version, unknown) = framework_of config.esphome.framework in
      finish (check_name config.esphome ++ unsupported ++ check_board config.esphome ++ unknown)
        chip config.esphome.board framework version
