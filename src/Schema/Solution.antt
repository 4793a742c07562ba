-- ===== src/Schema/Solution.antt =====
-- crates/rshome-schema/src/solution.rs: what the validation of a configuration reads of the
-- solutions and their variants. Labels, bindings and the other descriptive fields are left out.
-- The registry is a `BTreeMap`, of which only `get` and `register` are used here.
use zt_edge.Common.{ℕ, Option, String, List, [], Dict, lookup, insert, text_discrete}
use zt_edge.Schema.Orchestration.{RetryPolicy}

pub record ComponentBundle : Type 0 where
  pub required : List String
  pub optional : List String

pub record OrchestrationStep : Type 0 where
  pub id : String
  pub depends_on : List String
  pub retry_policy : Option RetryPolicy
  pub parallel_group : Option ℕ

pub record FailsafeInfo : Type 0 where
  pub watchdog_ms : Option ℕ

pub record SolutionVariantDefinition : Type 0 where
  pub id : String
  pub add_components : List String
  pub remove_components : List String
  pub active_flag_add : List String
  pub active_flag_remove : List String

pub record SolutionDefinition : Type 0 where
  pub id : String
  pub fixed_orchestration : List OrchestrationStep
  pub variants : List SolutionVariantDefinition
  pub component_bundle : ComponentBundle
  pub failsafe : Option FailsafeInfo

abbrev pub SolutionRegistry : Type 0
SolutionRegistry = Dict String SolutionDefinition

unfoldable pub new : SolutionRegistry
new = []

unfoldable pub register : SolutionRegistry → SolutionDefinition → SolutionRegistry
register solutions def = insert text_discrete def.id def solutions

unfoldable pub get : SolutionRegistry → String → Option SolutionDefinition
get solutions id = lookup text_discrete id solutions
