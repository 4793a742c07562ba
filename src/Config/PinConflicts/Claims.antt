-- ===== src/Config/PinConflicts/Claims.antt =====
-- crates/rshome-config/src/stages/s10_pin_conflicts.rs: when the usages of a configuration can be
-- claimed one after the other.
use zt_edge.Common.{
  ℕ, true, false, ◌≡◌, refl, sym, ap, subst, ◌∙◌, ◌≢◌, none, some, String, List, [], ◌∷◌, ◌++◌,
  Dict, map, All, Distinct, Option-cases, Bool-cases, inl, inr, ◌==◌, arith,
}
use mathlib.Core.List.{append_assoc, append-nil}
use zt_edge.Config.Diagnostic.{is_fatal, has_errors, is_fatal-error}
use zt_edge.Config.Raw.{ComponentConfig}
use zt_edge.Config.PinConflicts.{
  PinUsage, allocation_of, claim_usages, claim_components, usages_of, count_up, refusal,
  conflict_diagnostic,
}
use zt_edge.Schema.Pin.{PinAllocation, ResourceTracker, PinConflict, find_pin, allocate_pin}
use zt_edge.Schema.Pin.Claims.{gpios, gpios-append_one, pins_grow}

-- All usages of a list of components, in the order in which they are claimed.
unfoldable pub all_usages : List ComponentConfig → Dict String ℕ → List PinUsage
all_usages [] counters = []
all_usages (comp ∷ rest) counters =
    usages_of comp counters ++ all_usages rest (count_up comp counters)

claim_usages-append :
    (us vs : List PinUsage) (t : ResourceTracker)
    → claim_usages (us ++ vs) t ≡ (
      (claim_usages vs (claim_usages us t).0).0,
      (claim_usages us t).1 ++ (claim_usages vs (claim_usages us t).0).1,
    )
unfolding claim_usages
claim_usages-append [] vs t = refl
claim_usages-append (u ∷ us) vs t =
    let (next, result) = allocate_pin t (allocation_of u) in
    rw (claim_usages-append us vs next) (
      ap (λ es. ((claim_usages vs (claim_usages us next).0).0, es))
        (sym (
          append_assoc (refusal u.path result) (claim_usages us next).1
            (claim_usages vs (claim_usages us next).0).1)))

pub claim_components-claim_usages :
    (cs : List ComponentConfig) (counters : Dict String ℕ) (t : ResourceTracker)
    → claim_components cs counters t ≡ claim_usages (all_usages cs counters) t
unfolding claim_components all_usages
claim_components-claim_usages [] counters t = unfold claim_usages in refl
claim_components-claim_usages (c ∷ cs) counters t =
    rw
      (
        claim_usages-append (usages_of c counters) (all_usages cs (count_up c counters)) t,
        claim_components-claim_usages cs (count_up c counters)
            (claim_usages (usages_of c counters) t).0,
      )
      refl

abbrev pub pins_of : List PinUsage → List ℕ
pins_of = map (λ u. u.gpio_num)

All-middle : (P : ℕ → Type 0) (xs : List ℕ) (y : ℕ) (ys : List ℕ) → All P (xs ++ (y ∷ ys)) → P y
All-middle P [] y ys h = h.0
All-middle P (x ∷ xs) y ys h = All-middle P xs y ys h.1

-- A GPIO that is taken cannot be new.
find_pin-Distinct :
    (g : ℕ) (xs : List PinAllocation) (a : PinAllocation) (ys : List ℕ)
    → find_pin g xs ≡ some a
    → ¬ Distinct (gpios xs ++ (g ∷ ys))
unfolding find_pin
find_pin-Distinct g [] a ys e d = absurd (cc e)
find_pin-Distinct g (x ∷ xs) a ys e d =
    let apart = All-middle (λ y. x.gpio_num ≢ y) (gpios xs) g ys d.0 in
    elim (Bool-cases (x.gpio_num == g)) [
      | inl same ↦ apart (ground arith)
      | inr other ↦ find_pin-Distinct g xs a ys (ground arith) d.1
    ]

abbrev granted : ResourceTracker → PinUsage → ResourceTracker
granted t u = record t { pin_allocations = t.pin_allocations ++ (allocation_of u ∷ []) }

granted-Distinct :
    (u : PinUsage) (t : ResourceTracker)
    → Distinct (gpios t.pin_allocations)
    → find_pin u.gpio_num t.pin_allocations ≡ none
    → Distinct (gpios (granted t u).pin_allocations)
unfolding allocation_of
granted-Distinct u t d free = pins_grow t.pin_allocations (allocation_of u) free d

pub record Claimed (t : ResourceTracker) (us : List PinUsage) : Type 0 where
  pub passes :
      has_errors (claim_usages us t).1 ≡ false → Distinct (gpios t.pin_allocations ++ pins_of us)
  pub passed :
      Distinct (gpios t.pin_allocations ++ pins_of us) → has_errors (claim_usages us t).1 ≡ false
  pub holds :
      Distinct (gpios t.pin_allocations ++ pins_of us)
      → (claim_usages us t).0.pin_allocations ≡ t.pin_allocations ++ map allocation_of us

claim_free :
    (u : PinUsage) (us : List PinUsage) (t : ResourceTracker)
    → Distinct (gpios t.pin_allocations)
    → find_pin u.gpio_num t.pin_allocations ≡ none
    → Claimed (granted t u) us
    → Claimed t (u ∷ us)
unfolding claim_usages allocate_pin allocation_of refusal
claim_free u us t d free c =
    let shift : gpios (granted t u).pin_allocations ++ pins_of us
        ≡ gpios t.pin_allocations ++ (u.gpio_num ∷ pins_of us) =
      ap (λ gs. gs ++ pins_of us) (gpios-append_one t.pin_allocations (allocation_of u))
      ∙ append_assoc (gpios t.pin_allocations) (u.gpio_num ∷ []) (pins_of us) in
    record {
      passes = λ e. subst Distinct shift (c.passes (rw (free, claim_usages, allocate_pin) at e));
      passed = λ h. rw (free, claim_usages, allocate_pin) (c.passed (subst Distinct (sym shift) h));
      holds = λ h.
          rw (free, claim_usages, allocate_pin)
            (c.holds (subst Distinct (sym shift) h)
              ∙ append_assoc t.pin_allocations (allocation_of u ∷ []) (map allocation_of us));
    }

is_fatal-conflict_diagnostic :
    (path : String) (c : PinConflict) → is_fatal (conflict_diagnostic path c) ≡ true
unfolding conflict_diagnostic
is_fatal-conflict_diagnostic path c = is_fatal-error _ _ _

claim_taken :
    (u : PinUsage) (us : List PinUsage) (t : ResourceTracker) (a : PinAllocation)
    → find_pin u.gpio_num t.pin_allocations ≡ some a
    → Claimed t (u ∷ us)
unfolding claim_usages allocate_pin allocation_of refusal has_errors
claim_taken u us t a taken =
    let clash = find_pin-Distinct u.gpio_num t.pin_allocations a (pins_of us) taken in
    let refused : has_errors (claim_usages (u ∷ us) t).1 ≡ true =
      rw (taken, claim_usages, allocate_pin, is_fatal-conflict_diagnostic) refl in
    record {
      passes = λ e. absurd (cc (refused, e));
      passed = λ h. absurd (clash h);
      holds = λ h. absurd (clash h);
    }

pub claim_usages-Claimed :
    (us : List PinUsage) (t : ResourceTracker) → Distinct (gpios t.pin_allocations) → Claimed t us
unfolding claim_usages has_errors
claim_usages-Claimed [] t d = record {
  passes = λ e. subst Distinct (sym (append-nil (gpios t.pin_allocations))) d;
  passed = λ h. refl;
  holds = λ h. sym (append-nil t.pin_allocations);
}
claim_usages-Claimed (u ∷ us) t d = elim (Option-cases (find_pin u.gpio_num t.pin_allocations)) [
  | inl free ↦
      claim_free u us t d free (claim_usages-Claimed us (granted t u) (granted-Distinct u t d free))
  | inr (a, taken) ↦ claim_taken u us t a taken
]
