-- ===== src/Config/Packages/Merge.antt =====
-- crates/rshome-config/src/stages/s1_package_merge.rs: what a merged configuration holds.
use zt_edge.Common.{
  Bool, true, ◌≡◌, refl, sym, ◌∙◌, Option, none, some, String, List, [], ◌∷◌, ◌++◌, Dict, lookup,
  lookup-insert, insert, or_else, text_discrete, Option-cases, inl, inr, ◌&&◌, not, arith,
}
use mathlib.Core.List.{append_assoc, append-nil}
use zt_edge.Config.Diagnostic.{has_errors, is_fatal, is_fatal-error}
use zt_edge.Config.Raw.{
  RawConfig, ComponentConfig, PackageRef, PackageStore, get_package, contains_package,
}
use zt_edge.Config.Packages.{
  merge_substitutions, merge_package, merge_loop, missing_package, stage_1_merge_packages,
}

-- The packages that the store has, in the order in which they are listed.
unfoldable pub found : PackageStore → List PackageRef → List RawConfig
found store [] = []
found store (pkg ∷ rest) = elim (get_package store pkg.name) [
  | none ↦ found store rest
  | some c ↦ c ∷ found store rest
]

unfoldable pub all_components : List RawConfig → List ComponentConfig
all_components [] = []
all_components (c ∷ cs) = c.components ++ all_components cs

-- The value that the first of some configurations gives a variable.
unfoldable pub first_value : String → List RawConfig → Option String
first_value k [] = none
first_value k (c ∷ cs) = or_else (lookup text_discrete k c.substitutions) (first_value k cs)

unfoldable pub all_known : PackageStore → List PackageRef → Bool
all_known store [] = true
all_known store (pkg ∷ rest) = contains_package store pkg.name && all_known store rest

lookup-merge_substitutions :
    (new subs : Dict String String) (k : String)
    → lookup text_discrete k (merge_substitutions new subs)
      ≡ or_else (lookup text_discrete k subs) (lookup text_discrete k new)
unfolding merge_substitutions
lookup-merge_substitutions [] subs k = unfold lookup in ground arith
lookup-merge_substitutions ((j, v) ∷ rest) subs k =
    elim (Option-cases (lookup text_discrete j subs)) [
      | inl e ↦
          rw
            (
              e,
              merge_substitutions,
              lookup-merge_substitutions rest (insert text_discrete j v subs) k,
              lookup-insert text_discrete j k v subs,
            )
            (unfold lookup in ground arith)
      | inr (w, e) ↦
          rw (e, merge_substitutions, lookup-merge_substitutions rest subs k)
            (unfold lookup in ground arith)
    ]

components-merge_loop :
    (store : PackageStore) (pkgs : List PackageRef) (config : RawConfig)
    → (merge_loop store pkgs config).0.components
      ≡ config.components ++ all_components (found store pkgs)
unfolding merge_loop merge_package found all_components
components-merge_loop store [] config = sym (append-nil config.components)
components-merge_loop store (pkg ∷ rest) config = elim (Option-cases (get_package store pkg.name)) [
  | inl e ↦ rw (e, merge_loop, found) (components-merge_loop store rest config)
  | inr (c, e) ↦
      rw (e, merge_loop, found)
        (components-merge_loop store rest (merge_package c config)
          ∙ append_assoc config.components c.components (all_components (found store rest)))
]

lookup-merge_loop :
    (store : PackageStore) (pkgs : List PackageRef) (config : RawConfig) (k : String)
    → lookup text_discrete k (merge_loop store pkgs config).0.substitutions
      ≡ or_else (lookup text_discrete k config.substitutions) (first_value k (found store pkgs))
unfolding merge_loop merge_package found first_value
lookup-merge_loop store [] config k = ground arith
lookup-merge_loop store (pkg ∷ rest) config k = elim (Option-cases (get_package store pkg.name)) [
  | inl e ↦ rw (e, merge_loop, found) (lookup-merge_loop store rest config k)
  | inr (c, e) ↦
      rw
        (
          e,
          merge_loop,
          found,
          lookup-merge_loop store rest (merge_package c config) k,
          lookup-merge_substitutions c.substitutions config.substitutions k,
        )
        (ground arith)
]

is_fatal-missing_package : (pkg : PackageRef) → is_fatal (missing_package pkg) ≡ true
unfolding missing_package
is_fatal-missing_package pkg = is_fatal-error _ _ _

has_errors-merge_loop :
    (store : PackageStore) (pkgs : List PackageRef) (config : RawConfig)
    → has_errors (merge_loop store pkgs config).1 ≡ not (all_known store pkgs)
unfolding merge_loop all_known has_errors contains_package get_package
has_errors-merge_loop store [] config = refl
has_errors-merge_loop store (pkg ∷ rest) config =
    elim (Option-cases (lookup text_discrete pkg.name store)) [
      | inl e ↦ rw (e, merge_loop, all_known) (ground (arith, is_fatal-missing_package pkg))
      | inr (c, e) ↦
          rw (e, merge_loop, all_known) (has_errors-merge_loop store rest (merge_package c config))
    ]

-- The components of the packages that the store has follow the configuration's own, in the order
-- of the packages; a variable keeps the value of the configuration, else that of the first of
-- these packages that defines it; and there is a fatal diagnostic exactly when a package is
-- missing.
pub stage_1_merge_packages_lem :
    (config : RawConfig) (store : PackageStore) (k : String)
    → ((stage_1_merge_packages config store).0.components
        ≡ config.components ++ all_components (found store config.packages))
      × (lookup text_discrete k (stage_1_merge_packages config store).0.substitutions
          ≡ or_else
              (lookup text_discrete k config.substitutions)
              (first_value k (found store config.packages)))
      × (has_errors (stage_1_merge_packages config store).1 ≡ not (all_known store config.packages))
unfolding stage_1_merge_packages
stage_1_merge_packages_lem config store k = (
  components-merge_loop store config.packages config,
  lookup-merge_loop store config.packages config k,
  has_errors-merge_loop store config.packages config,
)
