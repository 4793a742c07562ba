-- ===== src/Config/FinalChecks/Analyser.antt =====
-- crates/rshome-config/src/stages/s9_final_validation.rs: which analysers pass the stage.
use zt_edge.Common.{
  ℕ, ◌≤◌, Bool, true, false, ◌||◌, ◌≡◌, ◌≢◌, refl, subst, ◌↔◌, ◌⊎◌, inl, inr, some, String, List,
  [], ◌∷◌, All, Distinct, contains, length, ltb, ◌==◌, text_discrete, Option-cases, Bool-cases,
  Result, ok, err, if_pos, if_neg, if◌then◌else◌, arith,
}
use zt_edge.Config.Diagnostic.{
  ValidationError, has_errors, has_errors-append_iff, is_fatal, is_error, error, warning,
  with_suggestion,
}
use zt_edge.Config.Value.{Value}
use zt_edge.Config.Raw.{RawConfig, ComponentConfig}
use zt_edge.Config.FinalChecks.Rules.{Clean}
use zt_edge.Config.FinalChecks.Sigrok.{
  SigrokConfig, SigrokTransport, usb_serial_jtag, usb_otg_cdc, usb_jtag_pins, flash_pins,
  strapping_pins, check_count, check_duplicates, check_pin, check_pins, check_transport,
  check_limits, check_sigrok, find_type, validate_sigrok,
}

check_count-Clean : (xs : List ℕ) → Clean (check_count xs) ↔ ((length xs ≡ 8) ⊎ (length xs ≡ 16))
unfolding check_count has_errors is_fatal is_error error
check_count-Clean xs = elim (Bool-cases (length xs == 8 || length xs == 16)) [
  | inl e ↦ rw (e, check_count) (λ h. ground (arith, e), λ h. refl)
  | inr e ↦ rw (e, check_count) (λ h. absurd (cc h), λ h. absurd (ground (arith, e, h)))
]

-- No channel was seen.
abbrev Fresh : List ℕ → List ℕ → Type 0
Fresh xs seen = All (λ x. contains seen x ≡ false) xs

Fresh-cons :
    (xs seen : List ℕ) (p : ℕ) → Fresh xs (p ∷ seen) ↔ (All (λ x. p ≢ x) xs × Fresh xs seen)
Fresh-cons [] seen p = (λ h. (tt, tt), λ h. tt)
Fresh-cons (x ∷ xs) seen p =
    let rest = Fresh-cons xs seen p in
    (
      λ h. ((ground (arith, h.0), (rest.0 h.1).0), (ground (arith, h.0), (rest.0 h.1).1)),
      λ h. (ground (arith, h.0.0, h.1.0), rest.1 (h.0.1, h.1.1)),
    )

check_duplicates-Clean :
    (xs seen : List ℕ) → Clean (check_duplicates xs seen) ↔ (Distinct xs × Fresh xs seen)
unfolding check_duplicates has_errors is_fatal is_error error
check_duplicates-Clean [] seen = (λ h. (tt, tt), λ h. refl)
check_duplicates-Clean (x ∷ xs) seen =
    let rest = check_duplicates-Clean xs (x ∷ seen) in
    let split = Fresh-cons xs seen x in
    elim (Bool-cases (contains seen x)) [
      | inl e ↦ rw (e, check_duplicates) (λ h. absurd (cc h), λ h. absurd (cc h.1.0))
      | inr e ↦
          rw (e, check_duplicates)
            (
              λ h. let (d, f) = rest.0 h in let (a, b) = split.0 f in ((a, d), (refl, b)),
              λ h. rest.1 (h.0.1, split.1 (h.0.0, h.1.1)),
            )
    ]

-- No pin of the USB port or of the flash memory.
abbrev pub Usable : ℕ → Type 0
Usable pin = (contains usb_jtag_pins pin ≡ false) × (contains flash_pins pin ≡ false)

guarded-Clean :
    (b : Bool) (e : ValidationError)
    → is_fatal e ≡ true
    → Clean (if b then e ∷ [] else []) ↔ (b ≡ false)
unfolding has_errors
guarded-Clean true e f = (λ h. ground (arith, f), λ h. absurd (cc h))
guarded-Clean false e f = (λ h. refl, λ h. refl)

allowed-Clean :
    (b : Bool) (e : ValidationError)
    → is_fatal e ≡ false
    → Clean (if b then e ∷ [] else []) ↔ Unit {0}
unfolding has_errors
allowed-Clean true e f = (λ h. tt, λ h. ground (arith, f))
allowed-Clean false e f = (λ h. tt, λ h. refl)

check_pin-Usable : (p : ℕ) → Clean (check_pin p) ↔ Usable p
unfolding check_pin is_fatal is_error error warning
check_pin-Usable p =
    let whole =
      has_errors-append_iff _ _ _ _
        (has_errors-append_iff _ _ _ _ (allowed-Clean (contains strapping_pins p) _ refl)
          (guarded-Clean (contains usb_jtag_pins p) _ refl))
        (guarded-Clean (contains flash_pins p) _ refl) in
    (λ h. let ((a, b), c) = whole.0 h in (b, c), λ h. whole.1 ((tt, h.0), h.1))

check_pins-Usable : (ps : List ℕ) → Clean (check_pins ps) ↔ All Usable ps
unfolding check_pins has_errors
check_pins-Usable [] = (λ h. tt, λ h. refl)
check_pins-Usable (p ∷ ps) =
    has_errors-append_iff (check_pin p) (check_pins ps) _ _ (check_pin-Usable p)
      (check_pins-Usable ps)

check_transport-Clean : (t : SigrokTransport) → Clean (check_transport t) ↔ Unit {0}
unfolding check_transport has_errors is_fatal is_error warning
check_transport-Clean usb_serial_jtag = (λ h. tt, λ h. refl)
check_transport-Clean usb_otg_cdc = (λ h. tt, λ h. refl)

-- What the code asks of an analyser.
pub record IsUsable (s : SigrokConfig) : Type 0 where
  pub count : (length s.channels ≡ 8) ⊎ (length s.channels ≡ 16)
  pub distinct : Distinct s.channels
  pub usable : All Usable s.channels
  pub rate : s.sample_rate_hz ≤ 20000000
  pub depth : s.buffer_depth ≤ 200000

check_limits-Clean :
    (s : SigrokConfig)
    → Clean (check_limits s) ↔ ((s.sample_rate_hz ≤ 20000000) × (s.buffer_depth ≤ 200000))
unfolding check_limits is_fatal is_error error
check_limits-Clean s =
    let whole =
      has_errors-append_iff _ _ _ _ (guarded-Clean (ltb 20000000 s.sample_rate_hz) _ refl)
        (guarded-Clean (ltb 200000 s.buffer_depth) _ refl) in
    (
      λ h. let (a, b) = whole.0 h in (ground (arith, a), ground (arith, b)),
      λ h. whole.1 (ground (arith, h.0), ground (arith, h.1)),
    )

Fresh-nil : (xs : List ℕ) → Fresh xs []
Fresh-nil [] = tt
Fresh-nil (x ∷ xs) = (refl, Fresh-nil xs)

check_sigrok-IsUsable : (s : SigrokConfig) → Clean (check_sigrok s) ↔ IsUsable s
unfolding check_sigrok
check_sigrok-IsUsable s =
    let whole =
      has_errors-append_iff _ _ _ _
        (has_errors-append_iff _ _ _ _
          (has_errors-append_iff _ _ _ _
            (has_errors-append_iff (check_count s.channels) (check_duplicates s.channels []) _ _
              (check_count-Clean s.channels) (check_duplicates-Clean s.channels []))
            (check_pins-Usable s.channels))
          (check_transport-Clean s.transport))
        (check_limits-Clean s) in
    (
      λ h.
          let ((((a, b), c), d), e) = whole.0 h in
          record { count = a; distinct = b.0; usable = c; rate = e.0; depth = e.1 },
      λ u.
          whole.1
            ((((u.count, (u.distinct, Fresh-nil s.channels)), u.usable), tt), (u.rate, u.depth)),
    )

-- The first analyser of a configuration stands on the chip that it needs and is usable.
abbrev pub Analysable : (Value → Result String SigrokConfig) → RawConfig → Type 0
Analysable from_value config =
    (comp : ComponentConfig)
    → find_type "sigrok" config.components ≡ some comp
    → (config.esphome.platform ≡ "esp32s3")
      × (s : SigrokConfig) × (from_value comp.config ≡ ok s)
      × IsUsable s

Result-cases :
    (r : Result String SigrokConfig)
    → ((s : SigrokConfig) × (r ≡ ok s)) ⊎ ((e : String) × (r ≡ err e))
Result-cases (ok s) = inl (s, refl)
Result-cases (err e) = inr (e, refl)

pub validate_sigrok-Analysable :
    (from_value : Value → Result String SigrokConfig) (config : RawConfig)
    → Clean (validate_sigrok from_value config) ↔ Analysable from_value config
unfolding validate_sigrok has_errors is_fatal is_error error with_suggestion
validate_sigrok-Analysable from_value config =
    elim (Option-cases (find_type "sigrok" config.components)) [
      | inl e ↦
          let out : validate_sigrok from_value config ≡ [] = simp (e, validate_sigrok) in
          rw out (λ h c f. absurd (cc (e, f)), λ h. refl)
      | inr (comp, e) ↦ elim (text_discrete config.esphome.platform "esp32s3") [
        | no other ↦
            let out : has_errors (validate_sigrok from_value config) ≡ true = simp (
              e,
              if_neg {C = List ValidationError} (text_discrete config.esphome.platform "esp32s3")
                  other,
              validate_sigrok,
              has_errors,
            ) in
            rw out (λ h. absurd (cc h), λ h. absurd (other (h comp e).0))
        | yes same ↦ elim (Result-cases (from_value comp.config)) [
          | inl (s, r) ↦
              let out : validate_sigrok from_value config ≡ check_sigrok s = simp (
                e,
                r,
                if_pos {C = List ValidationError} (text_discrete config.esphome.platform "esp32s3")
                    same,
                validate_sigrok,
              ) in
              let whole = check_sigrok-IsUsable s in
              rw out (
                λ h c f.
                    let there : comp ≡ c = ground arith in
                    (same, s, subst (λ x. from_value x.config ≡ ok s) there r, whole.0 h),
                λ h.
                    let (p, t, q, u) = h comp e in
                    let one : t ≡ s = ground arith in whole.1 (subst IsUsable one u),
              )
          | inr (m, r) ↦
              let out : has_errors (validate_sigrok from_value config) ≡ true = simp (
                e,
                r,
                if_pos {C = List ValidationError} (text_discrete config.esphome.platform "esp32s3")
                    same,
                validate_sigrok,
                has_errors,
              ) in
              rw out (λ h. absurd (cc h), λ h. let (p, t, q, u) = h comp e in absurd (cc (q, r)))
        ]
      ]
    ]
