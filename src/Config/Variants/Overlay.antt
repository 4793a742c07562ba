-- ===== src/Config/Variants/Overlay.antt =====
-- crates/rshome-config/src/stages/s3_5_variant_resolution.rs: which configurations pass the stage,
-- and what the overlay of a variant does to the components.
use zt_edge.Common.{
  ℕ, suc, ◌+◌, ◌-◌, true, false, ◌≡◌, refl, ◌↔◌, none, some, String, List, [], ◌∷◌, ◌++◌,
  text_discrete, ite, Option-cases, List-cases, Bool-cases, inl, inr, has, if◌then◌else◌, arith,
  ◌==◌,
}
use zt_edge.Config.Diagnostic.{
  has_errors, is_fatal, is_error, with_suggestion, is_fatal-error, is_fatal-warning,
}
use zt_edge.Config.Raw.{RawConfig, ComponentConfig}
use zt_edge.Config.Variants.{
  stage_3_5_resolve_variant, choose_variant, find_variant, apply_variant, add_components,
  remove_components, remove_first, has_type, fresh,
}
use zt_edge.Schema.Solution.{SolutionRegistry, SolutionDefinition, SolutionVariantDefinition}
use zt_edge.Schema.Solution as Solution

-- How many components have a type.
unfoldable pub count_type : String → List ComponentConfig → ℕ
count_type t [] = 0
count_type t (c ∷ cs) =
    let rest = count_type t cs in ite (text_discrete c.component_type t) (suc rest) rest

-- How often a list holds a text.
unfoldable pub occurrences : String → List String → ℕ
occurrences t [] = 0
occurrences t (s ∷ ss) = let rest = occurrences t ss in ite (text_discrete s t) (suc rest) rest

has_type-count :
    (t : String) (cs : List ComponentConfig)
    → has_type t cs ≡ (if count_type t cs == 0 then false else true)
unfolding has_type count_type
has_type-count t [] = refl
has_type-count t (c ∷ cs) = ground (arith, has_type-count t cs)

count_type-append_one :
    (t u : String) (cs : List ComponentConfig)
    → count_type t (cs ++ (fresh u ∷ [])) ≡ count_type t cs + ite (text_discrete u t) 1 0
unfolding count_type
count_type-append_one t u [] = ground arith
count_type-append_one t u (c ∷ cs) = ground (arith, count_type-append_one t u cs)

-- Components of a type are added only if there was none.
count_type-add :
    (t : String) (ts : List String) (cs : List ComponentConfig)
    → count_type t (add_components ts cs)
      ≡ (if count_type t cs == 0 then (if has ts t then 1 else 0) else count_type t cs)
unfolding add_components has
count_type-add t [] cs = ground arith
count_type-add t (u ∷ ts) cs = elim (Bool-cases (has_type u cs)) [
  | inl e ↦ rw (e, add_components) (ground (arith, has_type-count u cs, count_type-add t ts cs))
  | inr e ↦
      rw (e, add_components)
        (ground (
          arith,
          has_type-count u cs,
          count_type-append_one t u cs,
          count_type-add t ts (cs ++ (fresh u ∷ [])),
        ))
]

count_type-remove_first :
    (t u : String) (cs : List ComponentConfig)
    → count_type t (remove_first u cs) ≡ count_type t cs - ite (text_discrete u t) 1 0
unfolding count_type remove_first
count_type-remove_first t u [] = ground arith
count_type-remove_first t u (c ∷ cs) = ground (arith, count_type-remove_first t u cs)

count_type-remove :
    (t : String) (ts : List String) (cs : List ComponentConfig)
    → count_type t (remove_components ts cs) ≡ count_type t cs - occurrences t ts
unfolding remove_components occurrences
count_type-remove t [] cs = omega arith
count_type-remove t (u ∷ ts) cs =
    ground (arith, count_type-remove t ts (remove_first u cs), count_type-remove_first t u cs)

-- The configuration names a variant that its solution declares.
pub data Chosen (solutions : SolutionRegistry) (config : RawConfig) (v : SolutionVariantDefinition)
    : Type 0 where
  chosen :
      (id vid : String) (sol : SolutionDefinition)
      → config.esphome.solution ≡ some id
      → Solution.get solutions id ≡ some sol
      → config.esphome.solution_variant ≡ some vid
      → find_variant vid sol.variants ≡ some v
      → Chosen solutions config v

-- No solution, or an unknown one, or one without variants, or one of its variants.
pub data Fits (solutions : SolutionRegistry) (config : RawConfig) : Type 0 where
  no_solution : config.esphome.solution ≡ none → Fits solutions config
  unknown :
      (id : String)
      → config.esphome.solution ≡ some id
      → Solution.get solutions id ≡ none
      → Fits solutions config
  plain :
      (id : String) (sol : SolutionDefinition)
      → config.esphome.solution ≡ some id
      → Solution.get solutions id ≡ some sol
      → sol.variants ≡ []
      → Fits solutions config
  varied : (v : SolutionVariantDefinition) → Chosen solutions config v → Fits solutions config

module _ (solutions : SolutionRegistry) (config : RawConfig) where
  -- The choice is made where the solution has variants.
  stage-choose :
      (id : String) (sol : SolutionDefinition) (v : SolutionVariantDefinition)
      (vs : List SolutionVariantDefinition)
      → config.esphome.solution ≡ some id
      → Solution.get solutions id ≡ some sol
      → sol.variants ≡ v ∷ vs
      → stage_3_5_resolve_variant config solutions ≡ choose_variant id sol config
  unfolding stage_3_5_resolve_variant
  stage-choose id sol v vs e g h = simp (e, g, h, stage_3_5_resolve_variant)

  choose_variant-Fits :
      (id : String) (sol : SolutionDefinition)
      → config.esphome.solution ≡ some id
      → Solution.get solutions id ≡ some sol
      → has_errors (choose_variant id sol config).2 ≡ false
      → Fits solutions config
  unfolding choose_variant has_errors is_fatal is_error with_suggestion
  choose_variant-Fits id sol e g h = elim (Option-cases config.esphome.solution_variant) [
    | inl w ↦ absurd (cc (rw (w, choose_variant, is_fatal-error) at h))
    | inr (vid, w) ↦ elim (Option-cases (find_variant vid sol.variants)) [
      | inl f ↦ absurd (cc (rw (w, f, choose_variant, is_fatal-error) at h))
      | inr (v, f) ↦ varied v (chosen id vid sol e g w f)
    ]
  ]

  Fits-of :
      has_errors (stage_3_5_resolve_variant config solutions).2 ≡ false → Fits solutions config
  Fits-of h = elim (Option-cases config.esphome.solution) [
    | inl e ↦ no_solution e
    | inr (id, e) ↦ elim (Option-cases (Solution.get solutions id)) [
      | inl g ↦ unknown id e g
      | inr (sol, g) ↦ elim (List-cases sol.variants) [
        | inl p ↦ plain id sol e g p
        | inr (v, vs, p) ↦ choose_variant-Fits id sol e g (rw (stage-choose id sol v vs e g p) at h)
      ]
    ]
  ]

  find_variant-cons :
      (id : String) (vs : List SolutionVariantDefinition) (v : SolutionVariantDefinition)
      → find_variant id vs ≡ some v
      → (w : SolutionVariantDefinition) × (ws : List SolutionVariantDefinition) × (vs ≡ w ∷ ws)
  unfolding find_variant
  find_variant-cons id [] v h = absurd (cc h)
  find_variant-cons id (w ∷ ws) v h = (w, ws, refl)

  -- What the stage gives where a variant is chosen.
  pub stage-Chosen :
      (v : SolutionVariantDefinition)
      → Chosen solutions config v
      → (stage_3_5_resolve_variant config solutions).0 ≡ apply_variant v config
        × ((stage_3_5_resolve_variant config solutions).1.active_flag_add ≡ v.active_flag_add)
        × ((stage_3_5_resolve_variant config solutions).1.active_flag_remove ≡ v.active_flag_remove)
        × ((stage_3_5_resolve_variant config solutions).2 ≡ [])
  unfolding choose_variant
  stage-Chosen v (chosen id vid sol e g w f) =
      let (u, us, p) = find_variant-cons vid sol.variants v f in
      let made : choose_variant id sol config ≡ (
        apply_variant v config,
        record {
          solution_id = some id;
          variant_id = some v.id;
          active_flag_add = v.active_flag_add;
          active_flag_remove = v.active_flag_remove;
        },
        [],
      ) =
        simp (w, f, choose_variant) in
      rw (stage-choose id sol u us e g p, made) (refl, refl, refl, refl)

  no_errors-Fits :
      Fits solutions config → has_errors (stage_3_5_resolve_variant config solutions).2 ≡ false
  unfolding stage_3_5_resolve_variant has_errors
  no_errors-Fits (no_solution e) = rw (e, stage_3_5_resolve_variant) refl
  no_errors-Fits (unknown id e g) = rw (e, g, stage_3_5_resolve_variant) refl
  no_errors-Fits (plain id sol e g p) = elim (Option-cases config.esphome.solution_variant) [
    | inl w ↦ rw (e, g, p, w, stage_3_5_resolve_variant) refl
    | inr (vid, w) ↦ rw (e, g, p, w, stage_3_5_resolve_variant, is_fatal-warning) refl
  ]
  no_errors-Fits (varied v c) = rw (stage-Chosen v c).3 refl

  -- The stage has no fatal diagnostic exactly when the configuration names no solution, an unknown
  -- one, one without variants, or a variant that the solution declares.
  pub stage_3_5_resolve_variant-Fits :
      (has_errors (stage_3_5_resolve_variant config solutions).2 ≡ false) ↔ Fits solutions config
  stage_3_5_resolve_variant-Fits = (Fits-of, no_errors-Fits)

-- Where a variant is chosen, a type that no component has is added once if the variant adds it, and
-- then each mention among the types to remove takes one component of its type away; the device
-- block, the packages and the substitutions stay, and the flags of the variant are passed on.
pub stage_3_5_resolve_variant_lem :
    (solutions : SolutionRegistry) (config : RawConfig) (v : SolutionVariantDefinition)
    → Chosen solutions config v
    → ((t : String)
        → count_type t (stage_3_5_resolve_variant config solutions).0.components
          ≡ (if count_type t config.components == 0
              then (if has v.add_components t then 1 else 0)
              else count_type t config.components)
            - occurrences t v.remove_components)
      × ((stage_3_5_resolve_variant config solutions).0.esphome ≡ config.esphome)
      × ((stage_3_5_resolve_variant config solutions).0.packages ≡ config.packages)
      × ((stage_3_5_resolve_variant config solutions).0.substitutions ≡ config.substitutions)
      × ((stage_3_5_resolve_variant config solutions).1.active_flag_add ≡ v.active_flag_add)
      × ((stage_3_5_resolve_variant config solutions).1.active_flag_remove ≡ v.active_flag_remove)
unfolding apply_variant
stage_3_5_resolve_variant_lem solutions config v c =
    let (same, add, remove, clean) = stage-Chosen solutions config v c in
    rw (same) (
      λ t.
          rw
            (
              count_type-remove t v.remove_components
                  (add_components v.add_components config.components),
              count_type-add t v.add_components config.components,
            )
            refl,
      refl,
      refl,
      refl,
      add,
      remove,
    )
