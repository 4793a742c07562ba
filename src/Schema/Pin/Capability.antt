-- ===== src/Schema/Pin/Capability.antt =====
-- crates/rshome-schema/src/pin.rs: what `validate_pin_capabilities` accepts, and the tables that it
-- reads; crates/rshome-config/src/stages/s10_pin_conflicts.rs: the severity of its errors.
use zt_edge.Common.{
  ℕ, ◌≤◌, ◌≡◌, refl, ◌≢◌, ◌↔◌, ◌⊎◌, Bool, true, false, List, [], ◌∷◌, ◌++◌, contains, All,
  append-eq-nil, Result, ok, err, arith,
}
use zt_edge.Schema.Chip.{ChipTarget, ChipCapabilities, capabilities_for, esp32, esp32_c5}
use zt_edge.Schema.Pin.{
  PinAllocation, PinError, strapping_pin_warning, ResourceTracker, requires_output,
  check_allocation, check_allocations, result_of, validate_pin_capabilities,
}

abbrev pub Absent : ℕ → List ℕ → Type 0
Absent g = All (λ x. x ≢ g)

-- The pin can carry the mode on the chip.
abbrev pub IsSupported : ChipCapabilities → PinAllocation → Type 0
IsSupported caps a =
    (a.gpio_num ≤ caps.max_gpio)
    × Absent a.gpio_num caps.flash_reserved
    × (Absent a.gpio_num caps.input_only ⊎ (requires_output a.mode ≡ false))

-- It is supported, and does not take part in booting the chip.
abbrev pub IsClean : ChipCapabilities → PinAllocation → Type 0
IsClean caps a = IsSupported caps a × Absent a.gpio_num caps.strapping

contains-Absent : (xs : List ℕ) (g : ℕ) → contains xs g ≡ false → Absent g xs
contains-Absent [] g e = tt
contains-Absent (x ∷ xs) g e = ground (arith, contains-Absent xs g)

Absent-contains : (xs : List ℕ) (g : ℕ) → Absent g xs → contains xs g ≡ false
Absent-contains [] g a = refl
Absent-contains (x ∷ xs) g a = ground (arith, Absent-contains xs g a.1)

-- The severity that stage 10 of the configuration pipeline gives to an error.
unfoldable pub is_warning : PinError → Bool
is_warning (strapping_pin_warning _ _ _) = true
is_warning _ = false

abbrev pub AllWarnings : List PinError → Type 0
AllWarnings = All (λ e. is_warning e ≡ true)

contains_iff : (xs : List ℕ) (g : ℕ) → (contains xs g ≡ false) ↔ Absent g xs
contains_iff xs g = (contains-Absent xs g, Absent-contains xs g)

module _ (target : ChipTarget) (caps : ChipCapabilities) where
  module _ (a : PinAllocation) where
    in_flash :
        (contains caps.flash_reserved a.gpio_num ≡ false) ↔ Absent a.gpio_num caps.flash_reserved
    in_flash = contains_iff caps.flash_reserved a.gpio_num

    in_input : (contains caps.input_only a.gpio_num ≡ false) ↔ Absent a.gpio_num caps.input_only
    in_input = contains_iff caps.input_only a.gpio_num

    in_strapping : (contains caps.strapping a.gpio_num ≡ false) ↔ Absent a.gpio_num caps.strapping
    in_strapping = contains_iff caps.strapping a.gpio_num

    check_allocation-IsClean : (check_allocation target caps a ≡ []) ↔ IsClean caps a
    unfolding check_allocation
    check_allocation-IsClean = (
      λ e. ground (arith, in_flash, in_input, in_strapping),
      λ c. ground (arith, in_flash, in_input, in_strapping),
    )

    check_allocation-IsSupported : AllWarnings (check_allocation target caps a) ↔ IsSupported caps a
    unfolding check_allocation is_warning
    check_allocation-IsSupported = (
      λ e. ground (arith, in_flash, in_input, in_strapping),
      λ c. ground (arith, in_flash, in_input, in_strapping),
    )

  AllWarnings-append :
      (xs ys : List PinError) → AllWarnings (xs ++ ys) ↔ (AllWarnings xs × AllWarnings ys)
  AllWarnings-append [] ys = (λ h. (tt, h), λ h. h.1)
  AllWarnings-append (x ∷ xs) ys =
      let (apart, joined) = AllWarnings-append xs ys in
      (λ h. ((h.0, (apart h.1).0), (apart h.1).1), λ h. (h.0.0, joined (h.0.1, h.1)))

  check_allocations-IsClean :
      (allocs : List PinAllocation)
      → (check_allocations target caps allocs ≡ []) ↔ All (IsClean caps) allocs
  unfolding check_allocations
  check_allocations-IsClean [] = (λ e. tt, λ h. refl)
  check_allocations-IsClean (a ∷ rest) =
      let here = check_allocation-IsClean a in
      let there = check_allocations-IsClean rest in
      (
        λ e. let (first, second) = append-eq-nil _ _ e in (here.0 first, there.0 second),
        λ h. rw (here.1 h.0) (there.1 h.1),
      )

  check_allocations-IsSupported :
      (allocs : List PinAllocation)
      → AllWarnings (check_allocations target caps allocs) ↔ All (IsSupported caps) allocs
  unfolding check_allocations
  check_allocations-IsSupported [] = (λ e. tt, λ h. tt)
  check_allocations-IsSupported (a ∷ rest) =
      let here = check_allocation-IsSupported a in
      let there = check_allocations-IsSupported rest in
      let both =
        AllWarnings-append (check_allocation target caps a) (check_allocations target caps rest) in
      (λ h. (here.0 (both.0 h).0, there.0 (both.0 h).1), λ h. both.1 (here.1 h.0, there.1 h.1))

-- The errors of a validation, none if it succeeds.
abbrev pub errors_of : Result (List PinError) (Unit {0}) → List PinError
errors_of (ok _) = []
errors_of (err es) = es

errors_of-result_of : (es : List PinError) → errors_of (result_of es) ≡ es
unfolding result_of
errors_of-result_of [] = refl
errors_of-result_of (e ∷ es) = refl

result_of-eq-ok : (es : List PinError) → (result_of es ≡ ok tt) ↔ (es ≡ [])
unfolding result_of
result_of-eq-ok [] = (λ e. refl, λ e. refl)
result_of-eq-ok (e ∷ es) = (λ h. cc, λ h. cc)

-- Validation succeeds exactly when each allocated pin exists on the chip, is not reserved for its
-- flash, can drive an output if its mode does, and is not a strapping pin.
pub validate_pin_capabilities-eq-ok :
    (t : ResourceTracker) (target : ChipTarget)
    → (validate_pin_capabilities t target ≡ ok tt)
      ↔ All (IsClean (capabilities_for target)) t.pin_allocations
unfolding validate_pin_capabilities
validate_pin_capabilities-eq-ok t target =
    let errors = check_allocations target (capabilities_for target) t.pin_allocations in
    let clean = check_allocations-IsClean target (capabilities_for target) t.pin_allocations in
    (λ h. clean.0 ((result_of-eq-ok errors).0 h), λ h. (result_of-eq-ok errors).1 (clean.1 h))

-- All errors of a validation are warnings exactly when each allocated pin exists on the chip, is
-- not reserved for its flash, and can drive an output if its mode does.
pub validate_pin_capabilities-IsSupported :
    (t : ResourceTracker) (target : ChipTarget)
    → AllWarnings (errors_of (validate_pin_capabilities t target))
      ↔ All (IsSupported (capabilities_for target)) t.pin_allocations
unfolding validate_pin_capabilities
validate_pin_capabilities-IsSupported t target =
    rw errors_of-result_of
      (check_allocations-IsSupported target (capabilities_for target) t.pin_allocations)

-- Every pin of a chip's tables exists on the chip, and a strapping pin is reserved for flash on no
-- chip but `esp32_c5`.
pub tables_consistent :
    (chip : ChipTarget)
    → let caps = capabilities_for chip in
      All (λ g. g ≤ caps.max_gpio) (caps.input_only ++ caps.flash_reserved ++ caps.strapping)
      × (chip ≢ esp32_c5 → All (λ g. Absent g caps.flash_reserved) caps.strapping)
unfolding capabilities_for
tables_consistent esp32 = omega arith
tables_consistent esp32_c5 = (omega arith, λ other. absurd (other refl))
tables_consistent _ = omega arith
