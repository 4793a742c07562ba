-- ===== src/Schema/Registry/Dependencies.antt =====
-- crates/rshome-schema/src/registry.rs: what `check_dependencies` accepts.
use zt_edge.Common.{
  ◌≡◌, refl, ◌↔◌, inl, inr, true, none, some, String, List, [], ◌∷◌, ◌++◌, has, has-cons_self,
  has-cons, text_discrete, Option-cases, ok, arith,
}
use zt_edge.Schema.Registry.{
  ComponentDefinition, ComponentRegistry, get, missing_deps, all_missing, result_of,
  check_dependencies,
}
use zt_edge.Schema.Registry.Expand.{Needed, resolve_auto_load_lem}

-- Every entry of the list is in the set.
abbrev Covered : List String → List String → Type 0
Covered set xs = (k : String) → has xs k ≡ true → has set k ≡ true

pub result_of-eq-ok : {E : Type 0} (es : List E) → (result_of es ≡ ok tt) ↔ (es ≡ [])
unfolding result_of
result_of-eq-ok [] = (λ e. refl, λ e. refl)
result_of-eq-ok (e ∷ es) = (λ h. cc, λ h. cc)

missing_deps_none :
    (set : List String) (id : String) (deps : List String)
    → (missing_deps set id deps ≡ []) ↔ Covered set deps
unfolding missing_deps has
missing_deps_none set id [] = (λ e k h. cc, λ c. refl)
missing_deps_none set id (d ∷ deps) =
    let (to, from) = missing_deps_none set id deps in
    (
      λ e k h. ground (arith, to, to (ground arith) k),
      λ c. ground (arith, c d (has-cons_self d deps), from (λ k h. c k (has-cons d k deps h))),
    )

append-eq-nil : {A : Type 0} (xs ys : List A) → xs ++ ys ≡ [] → (xs ≡ []) × (ys ≡ [])
append-eq-nil [] ys e = (refl, e)
append-eq-nil (x ∷ xs) ys e = cc

module _ (r : ComponentRegistry) where
  -- A list of components whose declared dependencies are all in the set.
  abbrev Provided : List String → List String → Type 0
  Provided set ids =
      (id : String) (def : ComponentDefinition)
      → has ids id ≡ true
      → get r id ≡ some def
      → Covered set def.dependencies

  Provided-tail : (set ids : List String) (id : String) → Provided set (id ∷ ids) → Provided set ids
  Provided-tail set ids id p j def h = p j def (has-cons id j ids h)

  Provided-skip :
      (set ids : List String) (id : String)
      → get r id ≡ none
      → Provided set ids
      → Provided set (id ∷ ids)
  unfolding has
  Provided-skip set ids id unknown p j def h e = p j def (ground arith) e

  Provided-cons :
      (set ids : List String) (id : String) (def : ComponentDefinition)
      → get r id ≡ some def
      → Covered set def.dependencies
      → Provided set ids
      → Provided set (id ∷ ids)
  unfolding has
  Provided-cons set ids id def known c p j d h e k m = elim (text_discrete id j) [
    | yes same ↦ ground (arith, c k)
    | no other ↦ p j d (ground arith) e k m
  ]

  all_missing_none : (set ids : List String) → (all_missing r set ids ≡ []) ↔ Provided set ids
  unfolding all_missing
  all_missing_none set [] = (λ e id def h. unfold has in cc, λ p. refl)
  all_missing_none set (id ∷ ids) =
      let (to, from) = all_missing_none set ids in
      elim (Option-cases (get r id)) [
        | inl unknown ↦ (
          λ e. Provided-skip set ids id unknown (to (rw (unknown, all_missing) at e)),
          λ p. rw (unknown, all_missing) (from (Provided-tail set ids id p)),
        )
        | inr (def, known) ↦ (
          λ e.
              let (here, there) =
                append-eq-nil (missing_deps set id def.dependencies) (all_missing r set ids)
                  (rw (known, all_missing) at e) in
              Provided-cons set ids id def known
                ((missing_deps_none set id def.dependencies).0 here) (to there),
          λ p.
              rw (known, all_missing)
                (rw
                  ((missing_deps_none set id def.dependencies).1
                    (p id def (has-cons_self id ids) known))
                  (from (Provided-tail set ids id p))),
        )
      ]

  -- The check of dependencies accepts a selection exactly when each dependency that a needed
  -- component declares is itself needed.
  pub check_dependencies-eq-ok :
      (selected : List String)
      → (check_dependencies r selected ≡ some (ok tt)) ↔ (
          (id k : String) (def : ComponentDefinition)
          → Needed r selected id
          → get r id ≡ some def
          → has def.dependencies k ≡ true
          → Needed r selected k)
  unfolding check_dependencies
  check_dependencies-eq-ok selected =
      let (out, e, sorted, members) = resolve_auto_load_lem r selected in
      let (to, from) = all_missing_none out out in
      let (read, write) = result_of-eq-ok (all_missing r out out) in
      rw (e, check_dependencies)
        (
          λ h id k def n g m.
              (members k).0 (to (read (ground arith)) id def ((members id).1 n) g k m),
          λ p.
              rw (
                write (from (λ id def h g k m. (members k).1 (p id k def ((members id).0 h) g m)))),
        )
