-- ===== src/Config/Packages.antt =====
-- crates/rshome-config/src/stages/s1_package_merge.rs: the packages of a configuration are merged
-- into it. `&mut config` is the configuration before and after; what a stage pushes to its errors
-- is the list that it returns.
pub mod Merge
use zt_edge.Common.{
  ◌<>◌, Bool, true, false, ◌≡◌, refl, ◌↔◌, Option, none, some, String, List, [], ◌∷◌, ◌++◌, Dict,
  lookup, lookup-insert, insert, or_else, text_discrete, Option-cases, inl, inr, ◌||◌, ◌&&◌,
  is_some, arith,
}
use zt_edge.Config.Diagnostic.{ValidationStage, ValidationError, error, has_errors, is_fatal-error}
use zt_edge.Config.Raw.{RawConfig, ComponentConfig, PackageRef, PackageStore, get_package}

unfoldable pub missing_package : PackageRef → ValidationError
missing_package pkg = error ValidationStage.package_merge ("packages." <> pkg.name) (elim pkg.url [
  | some url ↦ "package '" <> pkg.name <> "' from '" <> url <> "' not found in package store"
  | none ↦ "package '" <> pkg.name <> "' not found in package store"
])

-- The inner loop: `entry(k).or_insert_with(v)`.
unfoldable pub merge_substitutions : Dict String String → Dict String String → Dict String String
merge_substitutions [] subs = subs
merge_substitutions ((k, v) ∷ rest) subs = elim (lookup text_discrete k subs) [
  | none ↦ merge_substitutions rest (insert text_discrete k v subs)
  | some w ↦ merge_substitutions rest subs
]

unfoldable pub merge_package : RawConfig → RawConfig → RawConfig
merge_package pkg config = record config {
  components = config.components ++ pkg.components;
  substitutions = merge_substitutions pkg.substitutions config.substitutions;
}

unfoldable pub merge_loop :
    PackageStore → List PackageRef → RawConfig → RawConfig × List ValidationError
merge_loop store [] config = (config, [])
merge_loop store (pkg ∷ rest) config = elim (get_package store pkg.name) [
  | none ↦
      let (merged, errors) = merge_loop store rest config in (merged, missing_package pkg ∷ errors)
  | some pkg_config ↦ merge_loop store rest (merge_package pkg_config config)
]

unfoldable pub stage_1_merge_packages : RawConfig → PackageStore → RawConfig × List ValidationError
stage_1_merge_packages config store = merge_loop store config.packages config
