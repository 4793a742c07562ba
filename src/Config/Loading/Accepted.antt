-- ===== src/Config/Loading/Accepted.antt =====
-- crates/rshome-config/src/stages/s6_load_components.rs: which configurations pass the stage.
use zt_edge.Common.{
  true, false, ◌≡◌, refl, sym, subst, ◌∙◌, ◌↔◌, some, String, List, [], ◌++◌, map, has, Bool-cases,
  inl, inr, All, arith,
}
use zt_edge.Config.Diagnostic.{ValidationError, has_errors, has_errors-append}
use zt_edge.Config.Raw.{RawConfig, effective_id}
use zt_edge.Config.Loading.{
  look_up, dependency_errors, conflict_errors, all_dependency_errors, all_conflict_errors,
  stage_6_load_components,
}
use zt_edge.Config.Loading.Known.{
  IsKnown, or_false, clean-append, dependency_errors_none, conflict_errors_none,
  each_known-EachDeclared, look_up-IsKnown, has-look_up,
}
use zt_edge.Schema.Registry.{ComponentRegistry, ComponentDefinition, resolve_auto_load}
use zt_edge.Schema.Registry as Registry
use zt_edge.Schema.Registry.Expand.{Needed, chosen, loaded, resolve_auto_load_lem}

Needed-has :
    (r : ComponentRegistry) (xs ys : List String) (k : String)
    → ((id : String) → has xs id ≡ true → has ys id ≡ true)
    → Needed r xs k
    → Needed r ys k
Needed-has r xs ys k f (chosen id h) = chosen id (f id h)
Needed-has r xs ys k f (loaded id j def n g m) = loaded id j def (Needed-has r xs ys id f n) g m

module _ (config : RawConfig) (r : ComponentRegistry) where
  abbrev pub ids : List String
  ids = map effective_id config.components

  -- Every component is known; every needed component's dependencies are needed, and none of its
  -- conflicts.
  pub record IsLoadable : Type 0 where
    pub known : All (IsKnown r) config.components
    pub dependencies :
        (id k : String) (def : ComponentDefinition)
        → Needed r ids id
        → Registry.get r id ≡ some def
        → has def.dependencies k ≡ true
        → Needed r ids k
    pub conflicts :
        (id k : String) (def : ComponentDefinition)
        → Needed r ids id
        → Registry.get r id ≡ some def
        → has def.conflicts_with k ≡ true
        → ¬ Needed r ids k

  abbrev direct : List String × List ValidationError
  direct = look_up config.components 0 r []

  has-direct : (k : String) → All (IsKnown r) config.components → has direct.0 k ≡ has ids k
  has-direct k h = has-look_up config.components 0 r [] k h ∙ unfold has in refl

  -- The expanded selection holds exactly the needed components.
  abbrev Expanded : List String → Type 0
  Expanded out = (k : String) → (has out k ≡ true) ↔ Needed r ids k

  module _ (out : List String) (members : Expanded out) where
    IsLoadable-of :
        All (IsKnown r) config.components
        → has_errors (all_dependency_errors r out out) ≡ false
        → has_errors (all_conflict_errors r out out) ≡ false
        → IsLoadable
    unfolding all_dependency_errors all_conflict_errors
    IsLoadable-of h d c =
        let deps =
          (each_known-EachDeclared r (λ def id. dependency_errors out def.dependencies id)
              (λ def. def.dependencies) (λ k. has out k ≡ true)
              (λ def id. dependency_errors_none r out def.dependencies id) out).0
            d in
        let confs =
          (each_known-EachDeclared r (λ def id. conflict_errors out def.conflicts_with id)
              (λ def. def.conflicts_with) (λ k. has out k ≡ false)
              (λ def id. conflict_errors_none r out def.conflicts_with id) out).0
            c in
        record {
          known = h;
          dependencies = λ id k def n g m. (members k).0 (deps id def ((members id).1 n) g k m);
          conflicts =
              λ id k def n g m need. cc (confs id def ((members id).1 n) g k m, (members k).1 need);
        }

    clean-IsLoadable :
        IsLoadable
        → (has_errors (all_dependency_errors r out out) ≡ false)
          × (has_errors (all_conflict_errors r out out) ≡ false)
    unfolding all_dependency_errors all_conflict_errors
    clean-IsLoadable l = (
      (each_known-EachDeclared r (λ def id. dependency_errors out def.dependencies id)
            (λ def. def.dependencies) (λ k. has out k ≡ true)
            (λ def id. dependency_errors_none r out def.dependencies id) out).1
          (λ id def h g k m. (members k).1 (l.dependencies id k def ((members id).0 h) g m)),
      (each_known-EachDeclared r (λ def id. conflict_errors out def.conflicts_with id)
            (λ def. def.conflicts_with) (λ k. has out k ≡ false)
            (λ def id. conflict_errors_none r out def.conflicts_with id) out).1
          (λ id def h g k m. elim (Bool-cases (has out k)) [
            | inl here ↦ absurd (l.conflicts id k def ((members id).0 h) g m ((members k).0 here))
            | inr away ↦ away
          ]),
    )

  Expanded-direct :
      All (IsKnown r) config.components
      → (out : List String) × (resolve_auto_load r direct.0 ≡ some out) × Expanded out
  Expanded-direct h =
      let (out, e, sorted, members) = resolve_auto_load_lem r direct.0 in
      (
        out,
        e,
        λ k. (
          λ m. Needed-has r direct.0 ids k (λ id n. sym (has-direct id h) ∙ n) ((members k).0 m),
          λ n. (members k).1 (Needed-has r ids direct.0 k (λ id m. has-direct id h ∙ m) n),
        ),
      )

  -- Without a fatal diagnostic, what the stage passes on are the needed components.
  pub stage_6_load_components-Needed :
      (out : List String) (errors : List ValidationError)
      → stage_6_load_components config r ≡ some (out, errors)
      → has_errors errors ≡ false
      → (k : String) → (has out k ≡ true) ↔ Needed r ids k
  unfolding stage_6_load_components
  stage_6_load_components-Needed out errors e clean =
      let known = look_up-IsKnown config.components 0 r [] in
      elim (Bool-cases (has_errors direct.1)) [
        | inl bad ↦
            let at_once : stage_6_load_components config r ≡ some (direct.0, direct.1) =
              rw (bad, stage_6_load_components) refl in
            let same : direct.1 ≡ errors = ground arith in absurd (cc (same, bad, clean))
        | inr good ↦
            let (all, f, members) = Expanded-direct (known.0 good) in
            let given : stage_6_load_components config r
                ≡ some (
                  all,
                  direct.1 ++ all_dependency_errors r all all ++ all_conflict_errors r all all,
                ) =
              rw (good, f, stage_6_load_components) refl in
            let same : all ≡ out = ground arith in subst Expanded same members
      ]

  -- The stage ends, and has no fatal diagnostic exactly when every component is known, with a
  -- platform of empty text also this one, each needed component's dependencies are needed, and
  -- none of its conflicts is.
  pub stage_6_load_components_lem :
      (out : List String) × (errors : List ValidationError) × (stage_6_load_components config r
        ≡ some (out, errors))
      × ((has_errors errors ≡ false) ↔ IsLoadable)
  unfolding stage_6_load_components
  stage_6_load_components_lem =
      let known = look_up-IsKnown config.components 0 r [] in
      elim (Bool-cases (has_errors direct.1)) [
        | inl bad ↦ (
          direct.0,
          direct.1,
          rw (bad, stage_6_load_components) refl,
          (λ e. absurd (cc (e, bad)), λ l. absurd (cc (known.1 l.known, bad))),
        )
        | inr good ↦
            let (out, e, members) = Expanded-direct (known.0 good) in
            let d = all_dependency_errors r out out in
            let c = all_conflict_errors r out out in
            (
              out,
              direct.1 ++ d ++ c,
              rw (good, e, stage_6_load_components) refl,
              (
                λ f.
                    let (front, conflicts) =
                      or_false _ _ (sym (has_errors-append (direct.1 ++ d) c) ∙ f) in
                    let (own, deps) = or_false _ _ (sym (has_errors-append direct.1 d) ∙ front) in
                    IsLoadable-of out members (known.0 good) deps conflicts,
                λ l.
                    let (deps, conflicts) = clean-IsLoadable out members l in
                    clean-append (direct.1 ++ d) c (clean-append direct.1 d good deps) conflicts,
              ),
            )
      ]
