-- ===== src/Config/Pipeline/Kept.antt =====
-- crates/rshome-config/src/stages: what the stages of the pipeline keep for those after them, and
-- the stages whose diagnostics are all fatal.
use Prim.Native.Char.{Char}
use zt_edge.Common.{
  ◌<>◌, ℕ, suc, Bool, true, false, ◌≡◌, refl, ◌↔◌, none, some, String, List, [], ◌∷◌, ◌++◌, map,
  append-eq-nil, Option, Option-cases, Bool-cases, inl, inr, ltb, length, lookup, arith, ◌||◌,
}
use zt_edge.Config.Diagnostic.{
  ValidationStage, ValidationError, has_errors, has_errors-append_iff, is_fatal, is_error, error,
  with_suggestion,
}
use zt_edge.Config.Value.{get, as_str}
use zt_edge.Config.Raw.{RawConfig, ComponentConfig, IdfComponentRef, effective_id}
use zt_edge.Config.Ids.{IdTable, collect_ids, generate_id, generate_ids, stage_8_resolve_ids}
use zt_edge.Config.Sources.{
  AllowList, from_url, is_trusted_by_default, is_allowed, check_url, check_reference,
  check_framework, check_components, framework_components, text_field,
  stage_4_resolve_external_components,
}
use zt_edge.Config.ExclusiveGroups.{
  Groups, group_errors, collect_groups, selected, stage_11_check_exclusive_groups,
}
use zt_edge.Config.Profiles.{stage_12_validate_profile, validate_profile}
use zt_edge.Config.SecretFields.{is_reference, text_of, stage_13_check_secret_fields}
use zt_edge.Config.SecretFields as SecretFields
use zt_edge.Schema.Registry.{ComponentRegistry}
use zt_edge.Schema.Registry as Registry
use zt_edge.Schema.Registry.Expand.{resolve_auto_load_lem}
use zt_edge.Schema.Profile.{default_profiles}
use zt_edge.Schema.Profile as Profile

module _ (to_lowercase : String → String) (is_alphanumeric : Char → Bool) where
  generate_id-effective_id :
      (c : ComponentConfig) (i : ℕ) (table : IdTable)
      → effective_id (generate_id to_lowercase is_alphanumeric c i table).0 ≡ effective_id c
  unfolding generate_id effective_id
  generate_id-effective_id c i table = elim (Option-cases (get "id" c.config)) [
    | inr (v, e) ↦ rw (e, generate_id) refl
    | inl e ↦ elim (Option-cases (get "name" c.config)) [
      | inl g ↦ rw (e, g, generate_id) refl
      | inr (v, g) ↦ elim (Option-cases (as_str v)) [
        | inl k ↦ rw (e, g, k, generate_id) refl
        | inr (name, k) ↦ rw (e, g, k, generate_id) refl
      ]
    ]
  ]

  generate_ids-effective_id :
      (cs : List ComponentConfig) (i : ℕ) (table : IdTable)
      → map effective_id (generate_ids to_lowercase is_alphanumeric cs i table).0
        ≡ map effective_id cs
  unfolding generate_ids
  generate_ids-effective_id [] i table = refl
  generate_ids-effective_id (c ∷ cs) i table =
      let (named, grown) = generate_id to_lowercase is_alphanumeric c i table in
      rw (generate_id-effective_id c i table, generate_ids-effective_id cs (suc i) grown) refl

  -- The stage of the ids keeps the ids that the registry knows the components by, and the block of
  -- the device.
  pub stage_8_resolve_ids-effective_id :
      (config : RawConfig)
      → (map effective_id (stage_8_resolve_ids to_lowercase is_alphanumeric config).0.components
          ≡ map effective_id config.components)
        × ((stage_8_resolve_ids to_lowercase is_alphanumeric config).0.esphome ≡ config.esphome)
  unfolding stage_8_resolve_ids
  stage_8_resolve_ids-effective_id config =
      (generate_ids-effective_id config.components 0 (collect_ids config.components 0 []).0, refl)

abbrev pub AllFatal : List ValidationError → Type 0
AllFatal es = (has_errors es ≡ false) ↔ (es ≡ [])

AllFatal-nil : AllFatal []
unfolding has_errors
AllFatal-nil = (λ h. refl, λ h. refl)

AllFatal-cons :
    (e : ValidationError) (es : List ValidationError) → is_fatal e ≡ true → AllFatal (e ∷ es)
unfolding has_errors
AllFatal-cons e es f = (λ h. absurd (ground (arith, h, f)), λ h. absurd (cc h))

AllFatal-append : (xs ys : List ValidationError) → AllFatal xs → AllFatal ys → AllFatal (xs ++ ys)
AllFatal-append xs ys f g =
    let whole = has_errors-append_iff xs ys (xs ≡ []) (ys ≡ []) f g in
    (λ h. let (a, b) = whole.0 h in rw (a, b) refl, λ e. whole.1 (append-eq-nil xs ys e))

check_url-AllFatal : (url path : String) (allow : AllowList) → AllFatal (check_url url path allow)
unfolding check_url is_fatal is_error error with_suggestion
check_url-AllFatal url path allow =
    elim (Bool-cases (is_trusted_by_default (from_url url) || is_allowed allow url)) [
      | inl e ↦ rw (e, check_url) AllFatal-nil
      | inr e ↦ rw (e, check_url) (AllFatal-cons _ [] refl)
    ]

check_reference-AllFatal :
    (o : Option String) (path : String) (allow : AllowList)
    → AllFatal (check_reference o path allow)
unfolding check_reference
check_reference-AllFatal none path allow = AllFatal-nil
check_reference-AllFatal (some url) path allow = check_url-AllFatal url path allow

check_framework-AllFatal :
    (cs : List IdfComponentRef) (i : ℕ) (allow : AllowList) → AllFatal (check_framework cs i allow)
unfolding check_framework
check_framework-AllFatal [] i allow = AllFatal-nil
check_framework-AllFatal (c ∷ cs) i allow =
    AllFatal-append _ _ (check_reference-AllFatal c.git _ allow)
      (check_framework-AllFatal cs (suc i) allow)

check_components-AllFatal :
    (cs : List ComponentConfig) (i : ℕ) (allow : AllowList) → AllFatal (check_components cs i allow)
unfolding check_components
check_components-AllFatal [] i allow = AllFatal-nil
check_components-AllFatal (c ∷ cs) i allow =
    AllFatal-append _ _
      (AllFatal-append _ _ (check_reference-AllFatal (text_field "git" c) _ allow)
        (check_reference-AllFatal (text_field "url" c) _ allow))
      (check_components-AllFatal cs (suc i) allow)

pub stage_4-AllFatal :
    (config : RawConfig) (allow : AllowList)
    → AllFatal (stage_4_resolve_external_components config allow)
unfolding stage_4_resolve_external_components
stage_4-AllFatal config allow =
    AllFatal-append _ _ (check_framework-AllFatal (framework_components config) 0 allow)
      (check_components-AllFatal config.components 0 allow)

group_errors-AllFatal : (groups : Groups) → AllFatal (group_errors groups)
unfolding group_errors is_fatal is_error error
group_errors-AllFatal [] = AllFatal-nil
group_errors-AllFatal ((g, members) ∷ rest) = elim (Bool-cases (ltb 1 (length members))) [
  | inl e ↦ rw (e, group_errors) (AllFatal-cons _ _ refl)
  | inr e ↦ rw (e, group_errors) (group_errors-AllFatal rest)
]

-- The list that a stage gives, all of whose diagnostics are fatal.
abbrev pub Listed : Option (List ValidationError) → Type 0
Listed o = (es : List ValidationError) × (o ≡ some es) × AllFatal es

pub stage_11-Listed :
    (config : RawConfig) (r : ComponentRegistry) → Listed (stage_11_check_exclusive_groups config r)
unfolding stage_11_check_exclusive_groups
stage_11-Listed config r =
    let (out, e, sorted, members) = resolve_auto_load_lem r (selected config) in
    let groups = collect_groups r out [] in
    (
      group_errors groups,
      rw (e, stage_11_check_exclusive_groups) refl,
      group_errors-AllFatal groups,
    )

pub stage_12-Listed :
    (config : RawConfig) (r : ComponentRegistry) → Listed (stage_12_validate_profile config r)
unfolding stage_12_validate_profile validate_profile is_fatal is_error error
stage_12-Listed config r = elim (Option-cases config.esphome.profile) [
  | inl e ↦ ([], rw (e, validate_profile) refl, AllFatal-nil)
  | inr (name, e) ↦
      let missing : Profile.get default_profiles name ≡ none =
        unfold Profile.get in
        unfold default_profiles in unfold Profile.new in unfold lookup in refl in
      let refused =
        error ValidationStage.profile_validation "esphome.profile"
          ("profile '" <> name <> "' not found in profile registry") in
      (refused ∷ [], rw (e, missing, validate_profile) refl, AllFatal-cons refused [] refl)
]

check_fields-AllFatal :
    (fs : List String) (c : ComponentConfig) (id : String)
    → AllFatal (SecretFields.check_fields fs c id)
unfolding SecretFields.check_fields is_fatal is_error error
check_fields-AllFatal [] c id = AllFatal-nil
check_fields-AllFatal (f ∷ fs) c id =
    let rest = check_fields-AllFatal fs c id in
    elim (Option-cases (text_of (get f c.config))) [
      | inl e ↦ rw (e, SecretFields.check_fields) rest
      | inr (value, e) ↦ elim (Bool-cases (is_reference value)) [
        | inl g ↦ rw (e, g, SecretFields.check_fields) rest
        | inr g ↦ rw (e, g, SecretFields.check_fields) (AllFatal-cons _ _ refl)
      ]
    ]

secrets-AllFatal :
    (cs : List ComponentConfig) (r : ComponentRegistry)
    → AllFatal (SecretFields.check_components cs r)
unfolding SecretFields.check_components
secrets-AllFatal [] r = AllFatal-nil
secrets-AllFatal (c ∷ cs) r = elim (Option-cases (Registry.get r (effective_id c))) [
  | inl e ↦ rw (e, SecretFields.check_components) (secrets-AllFatal cs r)
  | inr (def, e) ↦
      rw (e, SecretFields.check_components)
        (AllFatal-append _ _ (check_fields-AllFatal def.secret_fields c (effective_id c))
          (secrets-AllFatal cs r))
]

pub stage_13-AllFatal :
    (config : RawConfig) (r : ComponentRegistry) → AllFatal (stage_13_check_secret_fields config r)
unfolding stage_13_check_secret_fields
stage_13-AllFatal config r = secrets-AllFatal config.components r
