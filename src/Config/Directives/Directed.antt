-- ===== src/Config/Directives/Directed.antt =====
-- crates/rshome-config/src/stages/s3_extend_remove.rs: when the directives of a configuration are
-- in order.
use zt_edge.Common.{
  ℕ, zero, suc, ◌-◌, ◌<◌, Bool, true, false, ◌||◌, ◌≡◌, refl, ap, subst, ◌↔◌, none, some, String,
  List, [], ◌∷◌, ◌++◌, length, take, drop, has, Option-cases, Bool-cases, List-cases, inl, inr,
  arith,
}
use zt_edge.Config.Diagnostic.{has_errors, has_errors-append, is_fatal-error, is_fatal-warning}
use zt_edge.Config.Raw.{RawConfig, ComponentConfig, is_extend, is_remove, directive_target}
use zt_edge.Config.Value.{Value}
use zt_edge.Config.Directives.{
  extend_first, remove_first, process_extend, process_remove, process_entry, process_loop,
  stage_3_process_extend_remove,
}
use zt_edge.Config.Directives.Loop.{types, process_entry_measure}

-- A directive names a target, and that of `!extend` is the type of another entry.
pub record IsMet (c : ComponentConfig) (rest : List ComponentConfig) : Type 0 where
  pub extends :
      is_extend c ≡ true
      → (t : String) × (directive_target c ≡ some t) × (has (types rest) t ≡ true)
  pub removes :
      is_extend c ≡ false → is_remove c ≡ true → (t : String) × (directive_target c ≡ some t)

-- Each directive that the rounds come to, from an index on, is met when its turn comes.
pub data Directed : ℕ → List ComponentConfig → Type 0 where
  finished : {i : ℕ} {cs : List ComponentConfig} → drop i cs ≡ [] → Directed i cs
  round :
      {i : ℕ} {cs : List ComponentConfig} (c : ComponentConfig) (after : List ComponentConfig)
      → drop i cs ≡ c ∷ after
      → IsMet c (take i cs ++ after)
      → Directed
          (process_entry c (take i cs ++ after) i cs).0
          (process_entry c (take i cs ++ after) i cs).1
      → Directed i cs

extend_first_none :
    (t : String) (src : Value) (cs : List ComponentConfig)
    → (extend_first t src cs ≡ none) ↔ (has (types cs) t ≡ false)
unfolding extend_first has
extend_first_none t src [] = (λ e. refl, λ e. refl)
extend_first_none t src (c ∷ cs) =
    let more = extend_first_none t src cs in (λ e. ground (arith, more), λ e. ground (arith, more))

process_extend_clean :
    (c : ComponentConfig) (rest : List ComponentConfig)
    → (has_errors (process_extend c rest).1 ≡ false)
      ↔ ((t : String) × (directive_target c ≡ some t) × (has (types rest) t ≡ true))
unfolding process_extend has_errors
process_extend_clean c rest = elim (Option-cases (directive_target c)) [
  | inl e ↦ rw (e, process_extend, is_fatal-error) (λ h. absurd (cc h), λ h. absurd (cc (h.1)))
  | inr (t, e) ↦
      let known = extend_first_none t c.config rest in
      elim (Option-cases (extend_first t c.config rest)) [
        | inl g ↦
            rw (e, g, process_extend, is_fatal-error)
              (
                λ h. absurd (cc h),
                λ h.
                    let same : t ≡ h.0 = ground (arith, h.1) in
                    absurd (cc (known.0 g, h.2, ap (has (types rest)) same)),
              )
        | inr (out, g) ↦
            rw (e, g, process_extend) (λ h. (t, refl, ground (arith, known.1, g)), λ h. refl)
      ]
]

process_remove_clean :
    (c : ComponentConfig) (rest : List ComponentConfig)
    → (has_errors (process_remove c rest).1 ≡ false)
      ↔ ((t : String) × (directive_target c ≡ some t))
unfolding process_remove has_errors
process_remove_clean c rest = elim (Option-cases (directive_target c)) [
  | inl e ↦ rw (e, process_remove, is_fatal-error) (λ h. absurd (cc h), λ h. absurd (cc (h.1)))
  | inr (t, e) ↦ elim (Option-cases (remove_first t rest)) [
    | inl g ↦ rw (e, g, process_remove, is_fatal-warning) (λ h. (t, refl), λ h. refl)
    | inr (out, g) ↦ rw (e, g, process_remove) (λ h. (t, refl), λ h. refl)
  ]
]

process_entry-IsMet :
    (c : ComponentConfig) (rest : List ComponentConfig) (i : ℕ) (cs : List ComponentConfig)
    → (has_errors (process_entry c rest i cs).2 ≡ false) ↔ IsMet c rest
unfolding process_entry
process_entry-IsMet c rest i cs =
    let extends = process_extend_clean c rest in
    let removes = process_remove_clean c rest in
    elim (Bool-cases (is_extend c)) [
      | inl x ↦
          rw (x, process_entry)
            (
              λ h. record { extends = λ e. extends.0 h; removes = λ e. absurd (cc (x, e)) },
              λ h. extends.1 (h.extends x),
            )
      | inr x ↦ elim (Bool-cases (is_remove c)) [
        | inl y ↦
            rw (x, y, process_entry)
              (
                λ h. record { extends = λ e. absurd (cc (x, e)); removes = λ e f. removes.0 h },
                λ h. removes.1 (h.removes x y),
              )
        | inr y ↦
            rw (x, y, process_entry)
              (
                λ h. record {
                  extends = λ e. absurd (cc (x, e));
                  removes = λ e f. absurd (cc (y, f));
                },
                λ h. unfold has_errors in refl,
              )
      ]
    ]

-- What one round of a list in order says.
Directed-round :
    (i : ℕ) (cs : List ComponentConfig) (c : ComponentConfig) (after : List ComponentConfig)
    → drop i cs ≡ c ∷ after
    → Directed i cs
    → IsMet c (take i cs ++ after)
      × Directed
          (process_entry c (take i cs ++ after) i cs).0
          (process_entry c (take i cs ++ after) i cs).1
Directed-round i cs c after e (finished f) = absurd (cc (e, f))
Directed-round i cs c after e (round d more f met rest) =
    let same : ◌≡◌ {A = ComponentConfig × List ComponentConfig} (d, more) (c, after) = cc (e, f) in
    subst
      (λ (p : ComponentConfig × List ComponentConfig).
        IsMet p.0 (take i cs ++ p.1)
        × Directed (process_entry p.0 (take i cs ++ p.1) i cs).0
            (process_entry p.0 (take i cs ++ p.1) i cs).1)
      same (met, rest)

either_false : (a b : Bool) → ((a || b) ≡ false) ↔ ((a ≡ false) × (b ≡ false))
either_false a b = (λ h. ground arith, λ h. ground arith)

process_loop-Directed :
    (fuel i : ℕ) (cs : List ComponentConfig)
    → length cs - i < fuel
    → (has_errors (process_loop fuel i cs).1 ≡ false) ↔ Directed i cs
unfolding process_loop
process_loop-Directed zero i cs h = absurd (omega arith)
process_loop-Directed (suc fuel) i cs h = elim (List-cases (drop i cs)) [
  | inl e ↦ rw (e, process_loop) (λ g. finished e, λ g. unfold has_errors in refl)
  | inr (c, after, e) ↦
      let rest = take i cs ++ after in
      let next = process_entry c rest i cs in
      let less = process_entry_measure i cs c after e in
      let met = process_entry-IsMet c rest i cs in
      let more = process_loop-Directed fuel next.0 next.1 (omega arith) in
      let split =
        either_false (has_errors next.2) (has_errors (process_loop fuel next.0 next.1).1) in
      rw (e, process_loop, has_errors-append next.2 (process_loop fuel next.0 next.1).1)
        (
          λ g. let both = split.0 g in round c after e (met.0 both.0) (more.0 both.1),
          λ d. let (m, r) = Directed-round i cs c after e d in split.1 (met.1 m, more.1 r),
        )
]

-- The stage has no fatal diagnostic exactly when each directive that its rounds come to names a
-- target, and that of `!extend` is the type of an entry when its turn comes.
pub stage_3_process_extend_remove-Directed :
    (config : RawConfig)
    → (has_errors (stage_3_process_extend_remove config).1 ≡ false) ↔ Directed 0 config.components
unfolding stage_3_process_extend_remove
stage_3_process_extend_remove-Directed config =
    process_loop-Directed (suc (length config.components)) 0 config.components (omega arith)
