-- ===== src/Config/PinConflicts/Claimed.antt =====
-- crates/rshome-config/src/stages/s10_pin_conflicts.rs: which configurations pass the stage.
use zt_edge.Common.{
  false, not, ◌≡◌, refl, sym, subst, ◌↔◌, List, [], ◌∷◌, ◌++◌, map, All, Distinct, Result, ok, err,
  arith,
}
use zt_edge.Config.Diagnostic.{
  ValidationError, is_fatal, has_errors, has_errors-append, is_fatal-error, is_fatal-warning,
}
use zt_edge.Config.Raw.{RawConfig}
use zt_edge.Config.PinConflicts.{
  PinUsage, allocation_of, claim_usages, pin_diagnostic, pin_diagnostics,
  stage_10_check_pin_conflicts,
}
use zt_edge.Schema.Chip.{ChipTarget, capabilities_for}
use zt_edge.Schema.Pin.{PinError, ResourceTracker, new, validate_pin_capabilities}
use zt_edge.Schema.Pin.Capability.{
  IsSupported, AllWarnings, is_warning, errors_of, validate_pin_capabilities-IsSupported,
}
use zt_edge.Config.PinConflicts.Claims.{
  all_usages, claim_components-claim_usages, pins_of, Claimed, claim_usages-Claimed,
}

is_fatal-pin_diagnostic :
    (target : ChipTarget) (e : PinError) → is_fatal (pin_diagnostic target e) ≡ not (is_warning e)
unfolding pin_diagnostic is_warning
is_fatal-pin_diagnostic target (PinError.input_only_pin_used_as_output g chip c m) =
    is_fatal-error _ _ _
is_fatal-pin_diagnostic target (PinError.gpio_out_of_range g chip m) = is_fatal-error _ _ _
is_fatal-pin_diagnostic target (PinError.strapping_pin_warning g chip c) = is_fatal-warning _ _ _
is_fatal-pin_diagnostic target (PinError.flash_reserved_pin g chip c) = is_fatal-error _ _ _

has_errors-pin_diagnostics :
    (target : ChipTarget) (es : List PinError)
    → (has_errors (pin_diagnostics target es) ≡ false) ↔ AllWarnings es
unfolding has_errors pin_diagnostics
has_errors-pin_diagnostics target [] = (λ h. tt, λ h. refl)
has_errors-pin_diagnostics target (e ∷ es) =
    let rest = has_errors-pin_diagnostics target es in
    let own = is_fatal-pin_diagnostic target e in
    (λ h. ground (arith, own, rest.0), λ h. ground (arith, own, rest.1))

-- The diagnostics of the chip's capabilities.
abbrev capability_errors : ResourceTracker → ChipTarget → List ValidationError
capability_errors tracker target = elim (validate_pin_capabilities tracker target) [
  | ok _ ↦ []
  | err pin_errors ↦ pin_diagnostics target pin_errors
]

with_result :
    (target : ChipTarget) (r : Result (List PinError) (Unit {0}))
    → elim r [ ok _ ↦ [] | err pin_errors ↦ pin_diagnostics target pin_errors ]
      ≡ pin_diagnostics target (errors_of r)
unfolding pin_diagnostics
with_result target (ok _) = refl
with_result target (err es) = refl

capability_errors-errors_of :
    (tracker : ResourceTracker) (target : ChipTarget)
    → capability_errors tracker target
      ≡ pin_diagnostics target (errors_of (validate_pin_capabilities tracker target))
capability_errors-errors_of tracker target =
    with_result target (validate_pin_capabilities tracker target)

pub usages : RawConfig → List PinUsage
usages config = all_usages config.components []

claimed : RawConfig → ResourceTracker × List ValidationError
claimed config = claim_usages (usages config) new

Claimed-new : (config : RawConfig) → Claimed new (usages config)
unfolding new
Claimed-new config = claim_usages-Claimed (usages config) new tt

stage_10_parts :
    (config : RawConfig) (target : ChipTarget)
    → stage_10_check_pin_conflicts config target ≡ (
      (claimed config).0,
      (claimed config).1
          ++ pin_diagnostics target
              (errors_of (validate_pin_capabilities (claimed config).0 target)),
    )
unfolding stage_10_check_pin_conflicts usages claimed
stage_10_parts config target =
    rw
      (
        claim_components-claim_usages config.components [] new,
        capability_errors-errors_of (claim_usages (all_usages config.components []) new).0 target,
      )
      refl

-- No GPIO is used twice, and each usage is of a pin that exists on the chip, is not reserved for
-- its flash, and can drive an output if its mode does.
abbrev pub IsSound : List PinUsage → ChipTarget → Type 0
IsSound us target =
    Distinct (pins_of us) × All (IsSupported (capabilities_for target)) (map allocation_of us)

module _ (config : RawConfig) (target : ChipTarget) where
  IsSound-of_clean :
      has_errors (claimed config).1 ≡ false
      → AllWarnings (errors_of (validate_pin_capabilities (claimed config).0 target))
      → IsSound (usages config) target
  unfolding claimed new
  IsSound-of_clean e w =
      let c = Claimed-new config in
      let d = c.passes e in
      let supported = (validate_pin_capabilities-IsSupported (claimed config).0 target).0 w in
      (d, subst (All (IsSupported (capabilities_for target))) (c.holds d) supported)

  clean-IsSound :
      IsSound (usages config) target
      → (has_errors (claimed config).1 ≡ false)
        × AllWarnings (errors_of (validate_pin_capabilities (claimed config).0 target))
  unfolding claimed new
  clean-IsSound s =
      let c = Claimed-new config in
      let supported = subst (All (IsSupported (capabilities_for target))) (sym (c.holds s.0)) s.1 in
      (c.passed s.0, (validate_pin_capabilities-IsSupported (claimed config).0 target).1 supported)

  holds-IsSound :
      IsSound (usages config) target
      → (claimed config).0.pin_allocations ≡ map allocation_of (usages config)
  unfolding claimed new
  holds-IsSound s = (Claimed-new config).holds s.0

-- The stage has no fatal diagnostic exactly when no GPIO is used twice, and each usage is of a pin
-- that exists on the chip, is not reserved for its flash, and can drive an output if its mode does;
-- then the tracker holds exactly the usages, in their order.
pub stage_10_check_pin_conflicts_lem :
    (config : RawConfig) (target : ChipTarget)
    → ((has_errors (stage_10_check_pin_conflicts config target).1 ≡ false)
        ↔ IsSound (usages config) target)
      × (IsSound (usages config) target
          → (stage_10_check_pin_conflicts config target).0.pin_allocations
            ≡ map allocation_of (usages config))
stage_10_check_pin_conflicts_lem config target =
    let own = (claimed config).1 in
    let pin_errors = errors_of (validate_pin_capabilities (claimed config).0 target) in
    let split = has_errors-append own (pin_diagnostics target pin_errors) in
    let mild = has_errors-pin_diagnostics target pin_errors in
    rw (stage_10_parts config target) (
      (
        λ h.
            let own_clean : has_errors own ≡ false = ground (arith, split) in
            IsSound-of_clean config target own_clean (mild.0 (ground (arith, split))),
        λ s.
            let clean = clean-IsSound config target s in
            let clean_pins = mild.1 clean.1 in rw (split, clean.0, clean_pins) refl,
      ),
      holds-IsSound config target,
    )
