-- ===== src/Config/Pipeline/Runs.antt =====
-- crates/rshome-config/src/pipeline.rs: the runs of the pipeline, as far as a result.
use zt_edge.Common.{
  false, ◌≡◌, refl, sym, ◌∙◌, ap, ◌↔◌, inl, inr, Option, some, List, [], ◌++◌, Bool-cases, arith,
}
use zt_edge.Config.Diagnostic.{ValidationError, has_errors, has_errors-append}
use zt_edge.Config.Pipeline.{ValidationResult, valid, invalid, checkpoint, bounded}
use zt_edge.Config.Assembly.{ValidatedConfig}
use zt_edge.Config.Pipeline.Kept.{Listed}

abbrev pub Clean : List ValidationError → Type 0
Clean es = has_errors es ≡ false

-- The run gives this validated configuration.
abbrev pub Gives : Option ValidationResult → ValidatedConfig → Type 0
Gives o v = o ≡ some (valid v)

-- The run gives a result.
abbrev pub Ends : Option ValidationResult → Type 0
Ends o = (result : ValidationResult) × (o ≡ some result)

module _ (all errs : List ValidationError)
    (next : List ValidationError → Option ValidationResult) where
  pub checkpoint-Ends :
      ((es : List ValidationError) → Ends (next es)) → Ends (checkpoint all errs next)
  unfolding checkpoint
  checkpoint-Ends f = elim (Bool-cases (has_errors errs)) [
    | inl e ↦ (invalid (all ++ errs), rw (e, checkpoint) refl)
    | inr e ↦ rw (e, checkpoint) (f (all ++ errs))
  ]

  pub checkpoint-Gives :
      (v : ValidatedConfig) (P Q : Type 0)
      → Clean all
      → Clean errs ↔ P
      → ((es : List ValidationError) → Clean es → Gives (next es) v ↔ Q)
      → Gives (checkpoint all errs next) v ↔ (P × Q)
  unfolding checkpoint
  checkpoint-Gives v P Q before own later = elim (Bool-cases (has_errors errs)) [
    | inl e ↦
        let out : checkpoint all errs next ≡ some (invalid (all ++ errs)) =
          rw (e, checkpoint) refl in
        (λ h. absurd (cc (h, out)), λ h. absurd (cc (own.1 h.0, e)))
    | inr e ↦
        let whole = later (all ++ errs) (ground (arith, before, e, has_errors-append all errs)) in
        rw (e, checkpoint) (λ h. (own.0 e, whole.0 h), λ h. whole.1 h.1)
  ]

module _ (all : List ValidationError) (o : Option (List ValidationError)) (listed : Listed o)
    (next : List ValidationError → Option ValidationResult) where
  pub bounded-Ends : ((es : List ValidationError) → Ends (next es)) → Ends (bounded all o next)
  unfolding bounded
  bounded-Ends f = let (es, e, fatal) = listed in rw (e) (checkpoint-Ends all es next f)

  pub bounded-Gives :
      (v : ValidatedConfig) (P Q : Type 0)
      → Clean all
      → (o ≡ some []) ↔ P
      → ((es : List ValidationError) → Clean es → Gives (next es) v ↔ Q)
      → Gives (bounded all o next) v ↔ (P × Q)
  unfolding bounded
  bounded-Gives v P Q before own later =
      let (es, e, fatal) = listed in
      let clean : Clean es ↔ P = (
        λ h. own.0 (e ∙ ap some (fatal.0 h)),
        λ p. fatal.1 (let same : some es ≡ some [] = sym e ∙ own.1 p in ground arith),
      ) in
      rw (e) (checkpoint-Gives all es next v P Q before clean later)
