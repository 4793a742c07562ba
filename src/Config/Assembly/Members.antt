-- ===== src/Config/Assembly/Members.antt =====
-- crates/rshome-config/src/pipeline.rs: the flags and the components of a validated configuration.
use mathlib.Core.List.{append-nil}
use zt_edge.Config.Ids.Collected.{ids_of}
use zt_edge.Common.{
  ◌∙◌, none, some, ℕ, not, ◌&&◌, ◌||◌, ◌≡◌, refl, ap, String, List, [], ◌∷◌, ◌++◌, map, has,
  has-append, Dict, Bool-cases, inl, inr, arith,
}
use zt_edge.Common.Sort.{IsSorted, sort_texts}
use zt_edge.Common.Dedup.{dedup, dedup-sort_texts}
use zt_edge.Config.Raw.{ComponentConfig, effective_id}
use zt_edge.Config.PinConflicts.{count_up}
use zt_edge.Config.Variants.{VariantResolution}
use zt_edge.Config.Assembly.{
  ValidatedComponent, components_of, flag_name, flag_candidates, own_flags, add_candidates,
  add_missing, drop_flags, active_flags_of, explicit_components, auto_components,
}
use zt_edge.Schema.Flags.{FeatureFlagSet, contains}

has-own_flags :
    (to_uppercase : String → String) (flags : FeatureFlagSet) (ids : List String) (f : String)
    → has (own_flags to_uppercase flags ids) f
      ≡ (contains flags f && has (map (flag_name to_uppercase) ids) f)
unfolding own_flags has
has-own_flags to_uppercase flags [] f = ground arith
has-own_flags to_uppercase flags (id ∷ ids) f =
    ground (arith, has-own_flags to_uppercase flags ids f)

has-add_candidates :
    (flags : FeatureFlagSet) (cs active : List String) (f : String)
    → has (add_candidates flags cs active) f ≡ (has active f || (contains flags f && has cs f))
unfolding add_candidates has
has-add_candidates flags [] active f = ground arith
has-add_candidates flags (c ∷ cs) active f =
    elim (Bool-cases (contains flags c && not (has active c))) [
      | inl e ↦
          rw (e, add_candidates)
            (ground (
              arith,
              e,
              has-add_candidates flags cs (active ++ (c ∷ [])) f,
              has-append active (c ∷ []) f,
            ))
      | inr e ↦ rw (e, add_candidates) (ground (arith, e, has-add_candidates flags cs active f))
    ]

has-add_missing :
    (fs active : List String) (f : String)
    → has (add_missing fs active) f ≡ (has active f || has fs f)
unfolding add_missing has
has-add_missing [] active f = ground arith
has-add_missing (c ∷ fs) active f = elim (Bool-cases (has active c)) [
  | inl e ↦ rw (e, add_missing) (ground (arith, e, has-add_missing fs active f))
  | inr e ↦
      rw (e, add_missing)
        (ground (arith, has-add_missing fs (active ++ (c ∷ [])) f, has-append active (c ∷ []) f))
]

has-drop_flags :
    (removed fs : List String) (f : String)
    → has (drop_flags removed fs) f ≡ (has fs f && not (has removed f))
unfolding drop_flags has
has-drop_flags removed [] f = ground arith
has-drop_flags removed (c ∷ fs) f = ground (arith, has-drop_flags removed fs f)

-- The active flags are strictly sorted. One is active exactly when the variant does not remove it,
-- and the variant adds it or the selection implies it and it is a candidate or named after a
-- component of the selection.
pub active_flags_of_lem :
    (to_uppercase : String → String) (flags : FeatureFlagSet) (ids : List String)
    (resolution : VariantResolution)
    → IsSorted (active_flags_of to_uppercase flags ids resolution)
      × ((f : String)
          → has (active_flags_of to_uppercase flags ids resolution) f ≡ (
              (has resolution.active_flag_add f
                || (contains flags f
                    && (has flag_candidates f || has (map (flag_name to_uppercase) ids) f)))
              && not (has resolution.active_flag_remove f)))
unfolding active_flags_of
active_flags_of_lem to_uppercase flags ids resolution =
    let own = own_flags to_uppercase flags ids in
    let (risen, known) = dedup-sort_texts (add_candidates flags flag_candidates own) in
    let before = dedup (sort_texts (add_candidates flags flag_candidates own)) in
    let (sorted, members) =
      dedup-sort_texts (
        drop_flags resolution.active_flag_remove (add_missing resolution.active_flag_add before)) in
    (
      sorted,
      λ f. ground (
        arith,
        members f,
        has-drop_flags resolution.active_flag_remove (add_missing resolution.active_flag_add before)
            f,
        has-add_missing resolution.active_flag_add before f,
        known f,
        has-add_candidates flags flag_candidates own f,
        has-own_flags to_uppercase flags ids f,
      ),
    )

has-explicit_components :
    (cs : List ComponentConfig) (counters : Dict String ℕ)
    → map (λ c. c.component_id) (explicit_components cs counters) ≡ map effective_id cs
unfolding explicit_components
has-explicit_components [] counters = refl
has-explicit_components (c ∷ cs) counters =
    ap (◌∷◌ (effective_id c)) (has-explicit_components cs (count_up c counters))

has-auto_components :
    (explicit ids : List String) (k : String)
    → has (map (λ c. c.component_id) (auto_components explicit ids)) k
      ≡ (has ids k && not (has explicit k))
unfolding auto_components has
has-auto_components explicit [] k = ground arith
has-auto_components explicit (id ∷ ids) k = ground (arith, has-auto_components explicit ids k)

map-append :
    (f : ValidatedComponent → String) (xs ys : List ValidatedComponent)
    → map f (xs ++ ys) ≡ map f xs ++ map f ys
map-append f [] ys = refl
map-append f (x ∷ xs) ys = ap (◌∷◌ (f x)) (map-append f xs ys)

-- The components are those of the configuration, and what else was resolved.
pub has-components_of :
    (cs : List ComponentConfig) (ids : List String) (k : String)
    → has (map (λ c. c.component_id) (components_of cs ids)) k
      ≡ (has (map effective_id cs) k || has ids k)
unfolding components_of
has-components_of cs ids k =
    let explicit = map effective_id cs in
    rw
      (
        map-append (λ c. c.component_id) (explicit_components cs []) (auto_components explicit ids),
        has-explicit_components cs [],
        has-append explicit (map (λ c. c.component_id) (auto_components explicit ids)) k,
        has-auto_components explicit ids k,
      )
      (ground arith)

-- The ids of some validated components, in their order.
unfoldable pub entity_ids : List ValidatedComponent → List String
entity_ids [] = []
entity_ids (c ∷ cs) =
    let rest = entity_ids cs in elim c.entity_id [ none ↦ rest | some id ↦ id ∷ rest ]

entity_ids-append :
    (xs ys : List ValidatedComponent) → entity_ids (xs ++ ys) ≡ entity_ids xs ++ entity_ids ys
unfolding entity_ids
entity_ids-append [] ys = refl
entity_ids-append (x ∷ xs) ys = ground (arith, entity_ids-append xs ys)

entity_ids-explicit_components :
    (cs : List ComponentConfig) (counters : Dict String ℕ)
    → entity_ids (explicit_components cs counters) ≡ ids_of cs
unfolding entity_ids explicit_components ids_of
entity_ids-explicit_components [] counters = refl
entity_ids-explicit_components (c ∷ cs) counters =
    ground (arith, entity_ids-explicit_components cs (count_up c counters))

entity_ids-auto_components :
    (explicit_ids ids : List String) → entity_ids (auto_components explicit_ids ids) ≡ []
unfolding entity_ids auto_components
entity_ids-auto_components explicit_ids [] = refl
entity_ids-auto_components explicit_ids (id ∷ ids) =
    ground (arith, entity_ids-auto_components explicit_ids ids)

-- The ids of the components that are built are those of the configuration.
pub entity_ids-components_of :
    (cs : List ComponentConfig) (ids : List String) → entity_ids (components_of cs ids) ≡ ids_of cs
unfolding components_of
entity_ids-components_of cs ids =
    entity_ids-append (explicit_components cs []) (auto_components (map effective_id cs) ids)
    ∙ ap (λ ys. entity_ids (explicit_components cs []) ++ ys)
        (entity_ids-auto_components (map effective_id cs) ids)
    ∙ append-nil _
    ∙ entity_ids-explicit_components cs []
