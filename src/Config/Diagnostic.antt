-- ===== src/Config/Diagnostic.antt =====
-- crates/rshome-config/src/error.rs: the diagnostics of the stages.
use zt_edge.Common.{
  Bool, true, false, Option, none, some, String, List, [], ◌∷◌, ◌++◌, ◌≡◌, refl, ◌↔◌, ◌||◌,
  if◌then◌else◌, arith,
}

pub data ValidationStage : Type 0 where
  package_merge substitutions extend_remove variant_resolution : ValidationStage
  external_components preload component_loading schema_validation : ValidationStage
  id_resolution final_validation pin_conflicts exclusive_group : ValidationStage
  profile_validation secret_fields : ValidationStage

pub data Severity : Type 0 where
  info warn fatal : Severity

pub record ValidationError : Type 0 where
  pub path : String
  pub message : String
  pub severity : Severity
  pub suggestion : Option String
  pub stage : ValidationStage

unfoldable pub error : ValidationStage → String → String → ValidationError
error stage path message = record {
  path = path;
  message = message;
  severity = fatal;
  suggestion = none;
  stage = stage;
}

unfoldable pub warning : ValidationStage → String → String → ValidationError
warning stage path message = record {
  path = path;
  message = message;
  severity = warn;
  suggestion = none;
  stage = stage;
}

-- `ValidationError::info`.
unfoldable pub information : ValidationStage → String → String → ValidationError
information stage path message = record {
  path = path;
  message = message;
  severity = info;
  suggestion = none;
  stage = stage;
}

unfoldable pub with_suggestion : ValidationError → String → ValidationError
with_suggestion e s = record e { suggestion = some s }

unfoldable pub is_error : Severity → Bool
is_error fatal = true
is_error _ = false

unfoldable pub is_fatal : ValidationError → Bool
is_fatal e = is_error e.severity

unfoldable pub has_errors : List ValidationError → Bool
has_errors [] = false
has_errors (e ∷ es) = is_fatal e || has_errors es

-- `partition_errors`: the fatal diagnostics and the others.
unfoldable pub partition_errors : List ValidationError → List ValidationError × List ValidationError
partition_errors [] = ([], [])
partition_errors (e ∷ es) =
    let (bad, rest) = partition_errors es in if is_fatal e then (e ∷ bad, rest) else (bad, e ∷ rest)

pub has_errors-append :
    (xs ys : List ValidationError) → has_errors (xs ++ ys) ≡ (has_errors xs || has_errors ys)
unfolding has_errors
has_errors-append [] ys = refl
has_errors-append (x ∷ xs) ys = ground (arith, has_errors-append xs ys)

-- No fatal diagnostic in two lists, where it is known what that means for each.
pub has_errors-append_iff :
    (xs ys : List ValidationError) (P Q : Type 0)
    → (has_errors xs ≡ false) ↔ P
    → (has_errors ys ≡ false) ↔ Q
    → (has_errors (xs ++ ys) ≡ false) ↔ (P × Q)
has_errors-append_iff xs ys P Q f g =
    let whole = has_errors-append xs ys in
    (
      λ h. (f.0 (ground (arith, whole)), g.0 (ground (arith, whole))),
      λ h. let a = f.1 h.0 in let b = g.1 h.1 in ground (arith, whole),
    )

pub is_fatal-error : (s : ValidationStage) (p m : String) → is_fatal (error s p m) ≡ true
unfolding is_fatal is_error error
is_fatal-error s p m = refl

pub is_fatal-warning : (s : ValidationStage) (p m : String) → is_fatal (warning s p m) ≡ false
unfolding is_fatal is_error warning
is_fatal-warning s p m = refl
