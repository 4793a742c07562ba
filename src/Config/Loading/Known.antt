-- ===== src/Config/Loading/Known.antt =====
-- crates/rshome-config/src/stages/s6_load_components.rs: what each of its checks asks of a
-- configuration.
use zt_edge.Common.{
  ℕ, suc, Bool, true, false, not, ◌&&◌, ◌||◌, ◌≡◌, ◌≢◌, refl, sym, ap, subst, ◌∙◌, ◌↔◌, ◌⊎◌, inl,
  inr, none, some, String, List, [], ◌∷◌, ◌++◌, map, has, has-append, has-cons, has-cons_self,
  is_some, text_discrete, Option-cases, Bool-cases, All, arith,
}
use zt_edge.Config.Diagnostic.{
  ValidationError, with_suggestion, is_fatal, has_errors, has_errors-append, is_fatal-error,
}
use zt_edge.Config.Raw.{ComponentConfig, effective_id}
use zt_edge.Config.Loading.{
  closest_match, unknown_component, check_platform, push_direct, look_up, dependency_errors,
  conflict_errors, each_known,
}
use zt_edge.Schema.Registry.{ComponentRegistry, ComponentDefinition, resolve_auto_load}
use zt_edge.Schema.Registry as Registry

pub is_fatal-unknown_component :
    (path id : String) (r : ComponentRegistry) → is_fatal (unknown_component path id r) ≡ true
unfolding unknown_component with_suggestion is_fatal
is_fatal-unknown_component path id r = elim (Option-cases (closest_match id r)) [
  | inl e ↦ rw (e, unknown_component) (is_fatal-error _ _ _)
  | inr (m, e) ↦ rw (e, unknown_component) (is_fatal-error _ _ _)
]

pub or_false : (a b : Bool) → (a || b) ≡ false → (a ≡ false) × (b ≡ false)
or_false a b e = ground arith

pub clean-append :
    (xs ys : List ValidationError)
    → has_errors xs ≡ false
    → has_errors ys ≡ false
    → has_errors (xs ++ ys) ≡ false
clean-append xs ys f g = ground (arith, has_errors-append xs ys)

some_text : {s t : String} → some s ≡ some t → s ≡ t
some_text {s} {t} h = ground arith

some_not_none : {d : ComponentDefinition} → ¬ (some d ≡ none)
some_not_none {d} h = cc h

some_same : {d e : ComponentDefinition} → some d ≡ some e → d ≡ e
some_same {d} {e} h = cc h

module _ (r : ComponentRegistry) (resolved : List String) where
  pub dependency_errors_none :
      (deps : List String) (id : String)
      → (has_errors (dependency_errors resolved deps id) ≡ false)
        ↔ ((k : String) → has deps k ≡ true → has resolved k ≡ true)
  unfolding dependency_errors has_errors has
  dependency_errors_none [] id = (λ e k h. absurd (cc h), λ f. refl)
  dependency_errors_none (d ∷ deps) id =
      let (read, write) = dependency_errors_none deps id in
      elim (Bool-cases (has resolved d)) [
        | inl here ↦
            rw (here, dependency_errors)
              (
                λ e k h. elim (text_discrete d k) [
                  | yes same ↦ subst (λ x. has resolved x ≡ true) same here
                  | no other ↦ read e k (ground arith)
                ],
                λ f. write (λ k h. f k (has-cons d k deps h)),
              )
        | inr away ↦
            rw (away, dependency_errors, is_fatal-error)
              (λ e. absurd (cc e), λ f. absurd (cc (f d (has-cons_self d deps), away)))
      ]

  pub conflict_errors_none :
      (conflicts : List String) (id : String)
      → (has_errors (conflict_errors resolved conflicts id) ≡ false)
        ↔ ((k : String) → has conflicts k ≡ true → has resolved k ≡ false)
  unfolding conflict_errors has_errors has
  conflict_errors_none [] id = (λ e k h. absurd (cc h), λ f. refl)
  conflict_errors_none (d ∷ conflicts) id =
      let (read, write) = conflict_errors_none conflicts id in
      elim (Bool-cases (has resolved d)) [
        | inr away ↦
            rw (away, conflict_errors)
              (
                λ e k h. elim (text_discrete d k) [
                  | yes same ↦ subst (λ x. has resolved x ≡ false) same away
                  | no other ↦ read e k (ground arith)
                ],
                λ f. write (λ k h. f k (has-cons d k conflicts h)),
              )
        | inl here ↦
            rw (here, conflict_errors, is_fatal-error)
              (λ e. absurd (cc e), λ f. absurd (cc (f d (has-cons_self d conflicts), here)))
      ]

module _ (r : ComponentRegistry) where
  -- What a loop asks of the entries that a component declares.
  abbrev pub EachDeclared :
      List String → (ComponentDefinition → List String) → (String → Type 0) → Type 0
  EachDeclared ids declared P =
      (id : String) (def : ComponentDefinition)
      → has ids id ≡ true
      → Registry.get r id ≡ some def
      → (k : String) → has (declared def) k ≡ true
      → P k

  module _ (errors_of : ComponentDefinition → String → List ValidationError)
      (declared : ComponentDefinition → List String) (P : String → Type 0)
      (asks : (def : ComponentDefinition) (id : String)
        → (has_errors (errors_of def id) ≡ false)
          ↔ ((k : String) → has (declared def) k ≡ true → P k)) where
    pub each_known-EachDeclared :
        (ids : List String)
        → (has_errors (each_known r errors_of ids) ≡ false) ↔ EachDeclared ids declared P
    unfolding each_known has_errors has
    each_known-EachDeclared [] = (λ e id def h g k m. absurd (cc h), λ f. refl)
    each_known-EachDeclared (x ∷ ids) =
        let (read, write) = each_known-EachDeclared ids in
        elim (Option-cases (Registry.get r x)) [
          | inl none_here ↦
              rw (none_here, each_known)
                (
                  λ e id def h g k m. elim (text_discrete x id) [
                    | yes same ↦
                        absurd (some_not_none (sym g ∙ ap (Registry.get r) (sym same) ∙ none_here))
                    | no other ↦ read e id def (ground arith) g k m
                  ],
                  λ f. write (λ id def h g k m. f id def (has-cons x id ids h) g k m),
                )
          | inr (d, here) ↦
              let own = asks d x in
              let split = has_errors-append (errors_of d x) (each_known r errors_of ids) in
              rw (here, each_known, split)
                (
                  λ e id def h g k m. elim (text_discrete x id) [
                    | yes same ↦
                        let known : d ≡ def = some_same (sym here ∙ ap (Registry.get r) same ∙ g) in
                        own.0 (or_false _ _ e).0 k
                          (subst (λ y. has (declared y) k ≡ true) (sym known) m)
                    | no other ↦ read (or_false _ _ e).1 id def (ground arith) g k m
                  ],
                  λ f.
                      rw
                        (
                          own.1 (λ k m. f x d (has-cons_self x ids) here k m),
                          write (λ id def h g k m. f id def (has-cons x id ids h) g k m),
                        )
                        refl,
                )
        ]

-- The registry knows the component, and if its platform is the empty text, also this.
pub record IsKnown (r : ComponentRegistry) (c : ComponentConfig) : Type 0 where
  pub def : ComponentDefinition
  pub found : Registry.get r (effective_id c) ≡ some def
  pub blank :
      c.platform ≡ some ""
      → (has def.child_components "" ≡ true) ⊎ (is_some (Registry.get r "") ≡ true)

check_platform-some :
    (r : ComponentRegistry) (p : String) (def : ComponentDefinition) (path kind : String)
    → has_errors (check_platform (some p) def r path kind)
      ≡ (not (has def.child_components p) && not (is_some (Registry.get r p)))
unfolding check_platform has_errors
check_platform-some r p def path kind =
    elim (Bool-cases (not (has def.child_components p) && not (is_some (Registry.get r p)))) [
      | inl h ↦ rw (h, check_platform, is_fatal-error) refl
      | inr h ↦ rw (h, check_platform) refl
    ]

effective_id-some :
    (c : ComponentConfig) (p : String) → c.platform ≡ some p → p ≢ "" → effective_id c ≡ p
unfolding effective_id
effective_id-some c p e n = rw (e, effective_id) (ground arith)

-- A platform that is a text is the id that the component is looked up by.
has_errors-check_platform :
    (r : ComponentRegistry) (c : ComponentConfig) (def : ComponentDefinition) (path : String)
    → Registry.get r (effective_id c) ≡ some def
    → (has_errors (check_platform c.platform def r path c.component_type) ≡ false) ↔ (
        c.platform ≡ some ""
        → (has def.child_components "" ≡ true) ⊎ (is_some (Registry.get r "") ≡ true))
unfolding check_platform has_errors
has_errors-check_platform r c def path found = elim (Option-cases c.platform) [
  | inl e ↦ rw (e, check_platform) (λ h g. absurd (cc g), λ f. refl)
  | inr (p, e) ↦ elim (text_discrete p "") [
    | yes empty ↦
        rw (e, check_platform-some r p def path c.component_type, empty)
          (λ h g. ground arith, λ f. ground (arith, f refl))
    | no other ↦
        let here = ap (Registry.get r) (sym (effective_id-some c p e other)) ∙ found in
        rw (e, check_platform-some r p def path c.component_type, here)
          (λ h g. absurd (other (some_text g)), λ f. ground arith)
  ]
]

pub look_up-IsKnown :
    (cs : List ComponentConfig) (i : ℕ) (r : ComponentRegistry) (direct : List String)
    → (has_errors (look_up cs i r direct).1 ≡ false) ↔ All (IsKnown r) cs
unfolding look_up has_errors
look_up-IsKnown [] i r direct = (λ e. tt, λ h. refl)
look_up-IsKnown (c ∷ cs) i r direct = elim (Option-cases (Registry.get r (effective_id c))) [
  | inl e ↦
      rw (e, look_up, is_fatal-unknown_component)
        (λ h. absurd (cc h), λ h. absurd (some_not_none (sym h.0.found ∙ e)))
  | inr (def, e) ↦
      let rest = look_up-IsKnown cs (suc i) r (push_direct direct (effective_id c)) in
      rw (e, look_up)
        (
          λ h.
              let (own, others) = or_false _ _ (sym (has_errors-append _ _) ∙ h) in
              (
                record {
                  def = def;
                  found = e;
                  blank = (has_errors-check_platform r c def _ e).0 own;
                },
                rest.0 others,
              ),
          λ h.
              let same : h.0.def ≡ def = some_same (sym h.0.found ∙ e) in
              let blank =
                subst
                  (λ d.
                    c.platform ≡ some ""
                    → (has d.child_components "" ≡ true) ⊎ (is_some (Registry.get r "") ≡ true))
                  same h.0.blank in
              clean-append _ _ ((has_errors-check_platform r c def _ e).1 blank) (rest.1 h.1),
        )
]

either_place :
    (b : Bool) (id k : String) (ids : List String)
    → ((b || has (id ∷ []) k) || has ids k) ≡ (b || has (id ∷ ids) k)
unfolding has
either_place b id k ids = ground arith

has-push_direct :
    (direct : List String) (id k : String)
    → has (push_direct direct id) k ≡ (has direct k || has (id ∷ []) k)
unfolding has
has-push_direct direct id k = elim (Bool-cases (has direct id)) [
  | inl h ↦ rw h (elim (text_discrete id k) [
    | yes same ↦
        let there : has direct k ≡ true = subst (λ x. has direct x ≡ true) same h in ground arith
    | no other ↦ ground arith
  ])
  | inr h ↦ rw h (has-append direct (id ∷ []) k)
]

pub has-look_up :
    (cs : List ComponentConfig) (i : ℕ) (r : ComponentRegistry) (direct : List String) (k : String)
    → All (IsKnown r) cs
    → has (look_up cs i r direct).0 k ≡ (has direct k || has (map effective_id cs) k)
unfolding look_up
has-look_up [] i r direct k h = unfold has in ground arith
has-look_up (c ∷ cs) i r direct k h =
    rw (h.0.found, look_up)
      (has-look_up cs (suc i) r (push_direct direct (effective_id c)) k h.1
        ∙ ap (λ b. b || has (map effective_id cs) k) (has-push_direct direct (effective_id c) k)
        ∙ either_place (has direct k) (effective_id c) k (map effective_id cs))
