-- ===== src/Config/Profiles.antt =====
-- crates/rshome-config/src/stages/s12_profile_validation.rs: a configuration against the profile
-- that it names. Where the source walks a hash table, the list's order stands for its order.
use zt_edge.Common.{
  ◌<>◌, true, ◌≡◌, refl, ◌↔◌, Option, none, some, String, List, [], ◌∷◌, ◌++◌, map, Dict, lookup,
  has, All, append-eq-nil, Option-cases, inl, inr, if◌then◌else◌, arith,
}
use zt_edge.Config.Diagnostic.{ValidationStage, ValidationError, error}
use zt_edge.Config.Raw.{RawConfig, effective_id}
use zt_edge.Schema.Registry.{ComponentRegistry, resolve_auto_load}
use zt_edge.Schema.Registry.Expand.{Needed, resolve_auto_load_lem}
use zt_edge.Schema.Profile.{ProfileRegistry, ProfileDefinition, default_profiles}
use zt_edge.Schema.Profile as Profile

abbrev profile_error : String → String → ValidationError
profile_error path message = error ValidationStage.profile_validation path message

unfoldable pub check_required : List String → List String → String → List ValidationError
check_required expanded [] profile_name = []
check_required expanded (required ∷ rest) profile_name =
    let later = check_required expanded rest profile_name in
    if has expanded required
    then later
    else profile_error "components" (
        "profile '" <> profile_name <> "' requires component '" <> required
        <> "' which is not selected")
      ∷ later

unfoldable pub check_selections : List String → Dict String String → String → List ValidationError
check_selections expanded [] profile_name = []
check_selections expanded ((group, expected_component) ∷ rest) profile_name =
    let later = check_selections expanded rest profile_name in
    if has expanded expected_component
    then later
    else profile_error "components" (
        "profile '" <> profile_name <> "' selects '" <> expected_component <> "' for group '"
        <> group <> "' but it is not in the config")
      ∷ later

-- The stage after the choice of the profiles. `none` if the expansion ran out of rounds, which it
-- never does.
unfoldable pub validate_profile :
    ProfileRegistry → RawConfig → ComponentRegistry → Option (List ValidationError)
validate_profile profile_registry config component_registry = elim config.esphome.profile [
  | none ↦ some []
  | some profile_name ↦ elim (Profile.get profile_registry profile_name) [
    | none ↦ some (
        profile_error "esphome.profile"
          ("profile '" <> profile_name <> "' not found in profile registry")
        ∷ [])
    | some profile ↦
        elim (resolve_auto_load component_registry (map effective_id config.components)) [
          | none ↦ none
          | some expanded ↦ some (
              check_required expanded profile.components profile_name
              ++ check_selections expanded profile.exclusive_selections profile_name)
        ]
  ]
]

unfoldable pub stage_12_validate_profile :
    RawConfig → ComponentRegistry → Option (List ValidationError)
stage_12_validate_profile config component_registry =
    validate_profile default_profiles config component_registry

abbrev IsIn : List String → String → Type 0
IsIn expanded k = has expanded k ≡ true

check_required-eq-nil :
    (expanded ks : List String) (name : String)
    → (check_required expanded ks name ≡ []) ↔ All (IsIn expanded) ks
unfolding check_required
check_required-eq-nil expanded [] name = (λ e. tt, λ h. refl)
check_required-eq-nil expanded (k ∷ ks) name =
    let rest = check_required-eq-nil expanded ks name in
    (λ e. ground (arith, rest), λ h. ground (arith, rest))

check_selections-eq-nil :
    (expanded : List String) (ks : Dict String String) (name : String)
    → (check_selections expanded ks name ≡ []) ↔ All (λ e. IsIn expanded e.1) ks
unfolding check_selections
check_selections-eq-nil expanded [] name = (λ e. tt, λ h. refl)
check_selections-eq-nil expanded ((g, k) ∷ ks) name =
    let rest = check_selections-eq-nil expanded ks name in
    (λ e. ground (arith, rest), λ h. ground (arith, rest))

All-imply {ℓ} :
    {A : Type ℓ} (P Q : A → Type 0) (xs : List A) → ((x : A) → P x → Q x) → All P xs → All Q xs
All-imply P Q [] f h = tt
All-imply P Q (x ∷ xs) f h = (f x h.0, All-imply P Q xs f h.1)

-- The configuration names no profile, or one of the registry whose components and selections are
-- all needed.
pub data Follows (profiles : ProfileRegistry) (config : RawConfig) (r : ComponentRegistry)
    : Type 0 where
  free : config.esphome.profile ≡ none → Follows profiles config r
  bound :
      (name : String) (profile : ProfileDefinition)
      → config.esphome.profile ≡ some name
      → Profile.get profiles name ≡ some profile
      → All (Needed r (map effective_id config.components)) profile.components
      → All (λ e. Needed r (map effective_id config.components) e.1) profile.exclusive_selections
      → Follows profiles config r

some_list : {xs ys : List ValidationError} → some xs ≡ some ys → xs ≡ ys
some_list {xs} {ys} h = ground arith

module _ (profiles : ProfileRegistry) (config : RawConfig) (r : ComponentRegistry) where
  validate_profile-found :
      (name : String) (profile : ProfileDefinition)
      → config.esphome.profile ≡ some name
      → Profile.get profiles name ≡ some profile
      → (validate_profile profiles config r ≡ some []) ↔ (
          All (Needed r (map effective_id config.components)) profile.components
          × All
              (λ e. Needed r (map effective_id config.components) e.1)
              profile.exclusive_selections)
  unfolding validate_profile
  validate_profile-found name profile e g =
      let (out, x, sorted, members) =
        resolve_auto_load_lem r (map effective_id config.components) in
      let required = check_required-eq-nil out profile.components name in
      let chosen = check_selections-eq-nil out profile.exclusive_selections name in
      rw (e, g, x, validate_profile)
        (
          λ h.
              let (a, b) = append-eq-nil _ _ (some_list h) in
              (
                All-imply _ _ profile.components (λ k. (members k).0) (required.0 a),
                All-imply _ _ profile.exclusive_selections (λ k. (members k.1).0) (chosen.0 b),
              ),
          λ h.
              rw
                (
                  required.1 (All-imply _ _ profile.components (λ k. (members k).1) h.0),
                  chosen.1 (All-imply _ _ profile.exclusive_selections (λ k. (members k.1).1) h.1),
                )
                refl,
        )

  validate_profile-free :
      config.esphome.profile ≡ none → validate_profile profiles config r ≡ some []
  unfolding validate_profile
  validate_profile-free e = rw (e, validate_profile) refl

  validate_profile-unknown :
      (name : String)
      → config.esphome.profile ≡ some name
      → Profile.get profiles name ≡ none
      → ¬ (validate_profile profiles config r ≡ some [])
  unfolding validate_profile
  validate_profile-unknown name e g h = cc (some_list (rw (e, g, validate_profile) at h))

  Follows-of : validate_profile profiles config r ≡ some [] → Follows profiles config r
  Follows-of h = elim (Option-cases config.esphome.profile) [
    | inl e ↦ free e
    | inr (name, e) ↦ elim (Option-cases (Profile.get profiles name)) [
      | inl g ↦ absurd (validate_profile-unknown name e g h)
      | inr (profile, g) ↦
          let (a, b) = (validate_profile-found name profile e g).0 h in bound name profile e g a b
    ]
  ]

  validate_profile-of : Follows profiles config r → validate_profile profiles config r ≡ some []
  validate_profile-of (free e) = validate_profile-free e
  validate_profile-of (bound name profile e g a b) =
      (validate_profile-found name profile e g).1 (a, b)

-- With no profile registered, a configuration that follows them names none.
Follows-default :
    (config : RawConfig) (r : ComponentRegistry)
    → Follows default_profiles config r
    → config.esphome.profile ≡ none
Follows-default config r (free e) = e
Follows-default config r (bound name profile e g a b) =
    absurd
      (unfold Profile.get in unfold default_profiles in unfold Profile.new in unfold lookup in cc g)

-- Against any profiles, the check passes exactly when the configuration names no profile, or one
-- of them whose components and selections are all needed; and the stage, which registers no
-- profile, passes exactly when the configuration names none.
pub stage_12_validate_profile_lem :
    (profiles : ProfileRegistry) (config : RawConfig) (r : ComponentRegistry)
    → ((validate_profile profiles config r ≡ some []) ↔ Follows profiles config r)
      × ((stage_12_validate_profile config r ≡ some []) ↔ (config.esphome.profile ≡ none))
unfolding stage_12_validate_profile
stage_12_validate_profile_lem profiles config r = (
  (Follows-of profiles config r, validate_profile-of profiles config r),
  (
    λ h. Follows-default config r (Follows-of default_profiles config r h),
    λ e. validate_profile-of default_profiles config r (free e),
  ),
)
