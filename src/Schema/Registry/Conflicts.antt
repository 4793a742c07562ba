-- ===== src/Schema/Registry/Conflicts.antt =====
-- crates/rshome-schema/src/registry.rs: what `check_conflicts` accepts.
use zt_edge.Common.{
  ◌≡◌, refl, ◌↔◌, inl, inr, ap, true, false, some, String, List, [], ◌∷◌, ◌++◌, has, has-cons_self,
  has-cons, text_discrete, Bool-cases, Option-cases, ok, arith,
}
use zt_edge.Schema.Registry.{
  ComponentDefinition, ComponentRegistry, Conflict, get, has_pair, note_conflict, note_conflicts,
  all_conflicts, check_conflicts,
}
use zt_edge.Schema.Registry.Expand.{Needed, resolve_auto_load_lem}
use zt_edge.Schema.Registry.Dependencies.{result_of-eq-ok}

abbrev State : Type 0
State = List Conflict × List (String × String)

abbrev clear : State
clear = ([], [])

-- No entry of the list is in the set.
abbrev Disjoint : List String → List String → Type 0
Disjoint set xs = (k : String) → has xs k ≡ true → has set k ≡ false

note_conflict-clear :
    (set : List String) (id other : String)
    → (has set other ≡ false → note_conflict set id other clear ≡ clear)
      × ((note_conflict set id other clear).0 ≡ [] → has set other ≡ false)
unfolding note_conflict has_pair
note_conflict-clear set id other = (λ h. ground arith, λ h. ground arith)

append_one-ne-nil : {A : Type 0} (xs : List A) (x : A) → ¬ (xs ++ (x ∷ []) ≡ [])
append_one-ne-nil [] x e = cc
append_one-ne-nil (y ∷ ys) x e = cc

-- An error that has been noted stays.
note_conflict_grows :
    (set : List String) (id other : String) (st : State)
    → (note_conflict set id other st).0 ≡ []
    → st.0 ≡ []
unfolding note_conflict
note_conflict_grows set id other (errors, seen) e =
    ground (arith, append_one-ne-nil errors (record { a = id; b = other }))

note_conflicts_grows :
    (set : List String) (id : String) (others : List String) (st : State)
    → (note_conflicts set id others st).0 ≡ []
    → st.0 ≡ []
unfolding note_conflicts
note_conflicts_grows set id [] st e = e
note_conflicts_grows set id (o ∷ others) st e =
    note_conflict_grows set id o st
      (note_conflicts_grows set id others (note_conflict set id o st) e)

module _ (set : List String) (id : String) where
  note_conflicts-clear :
      (others : List String) → Disjoint set others → note_conflicts set id others clear ≡ clear
  unfolding note_conflicts
  note_conflicts-clear [] d = refl
  note_conflicts-clear (o ∷ others) d =
      rw ((note_conflict-clear set id o).0 (d o (has-cons_self o others)))
        (note_conflicts-clear others (λ k h. d k (has-cons o k others h)))

  note_conflicts-Disjoint :
      (others : List String) → (note_conflicts set id others clear).0 ≡ [] → Disjoint set others
  unfolding note_conflicts has
  note_conflicts-Disjoint [] e k h = cc
  note_conflicts-Disjoint (o ∷ others) e k h =
      let first : (note_conflict set id o clear).0 ≡ [] = note_conflicts_grows set id others _ e in
      let absent : has set o ≡ false = (note_conflict-clear set id o).1 first in
      elim (text_discrete o k) [
        | yes same ↦ ground arith
        | no other ↦
            note_conflicts-Disjoint others
              (rw ((note_conflict-clear set id o).0 absent, note_conflicts) at e) k (ground arith)
      ]

module _ (r : ComponentRegistry) where
  all_conflicts_grows :
      (set ids : List String) (st : State) → (all_conflicts r set ids st).0 ≡ [] → st.0 ≡ []
  unfolding all_conflicts
  all_conflicts_grows set [] st e = e
  all_conflicts_grows set (id ∷ ids) st e = elim (Option-cases (get r id)) [
    | inl unknown ↦ all_conflicts_grows set ids st (rw (unknown, all_conflicts) at e)
    | inr (def, known) ↦ note_conflicts_grows set id def.conflicts_with st (
        all_conflicts_grows set ids (note_conflicts set id def.conflicts_with st)
          (rw (known, all_conflicts) at e))
  ]

  -- No component of the list declares a conflict with a member of the set.
  abbrev Peaceful : List String → List String → Type 0
  Peaceful set ids =
      (id : String) (def : ComponentDefinition)
      → has ids id ≡ true
      → get r id ≡ some def
      → Disjoint set def.conflicts_with

  all_conflicts-clear :
      (set ids : List String) → Peaceful set ids → all_conflicts r set ids clear ≡ clear
  unfolding all_conflicts
  all_conflicts-clear set [] p = refl
  all_conflicts-clear set (id ∷ ids) p =
      let rest : Peaceful set ids = λ j def h. p j def (has-cons id j ids h) in
      elim (Option-cases (get r id)) [
        | inl unknown ↦ rw (unknown, all_conflicts) (all_conflicts-clear set ids rest)
        | inr (def, known) ↦
            rw (known, all_conflicts)
              (rw
                (note_conflicts-clear set id def.conflicts_with
                  (p id def (has-cons_self id ids) known))
                (all_conflicts-clear set ids rest))
      ]

  all_conflicts-Peaceful :
      (set ids : List String) → (all_conflicts r set ids clear).0 ≡ [] → Peaceful set ids
  unfolding all_conflicts has
  all_conflicts-Peaceful set [] e j d h g = cc
  all_conflicts-Peaceful set (id ∷ ids) e j d h g = elim (Option-cases (get r id)) [
    | inl unknown ↦
        all_conflicts-Peaceful set ids (rw (unknown, all_conflicts) at e) j d (ground arith) g
    | inr (def, known) ↦
        let e' : (all_conflicts r set ids (note_conflicts set id def.conflicts_with clear)).0 ≡ [] =
          rw (known, all_conflicts) at e in
        let apart =
          note_conflicts-Disjoint set id def.conflicts_with (all_conflicts_grows set ids _ e') in
        elim (text_discrete id j) [
          | yes same ↦ λ k m. ground (arith, apart k)
          | no other ↦
              all_conflicts-Peaceful set ids
                (rw (note_conflicts-clear set id def.conflicts_with apart) at e') j d (ground arith)
                g
        ]
  ]

  -- The check of conflicts accepts a selection exactly when no needed component declares a conflict
  -- with a needed component.
  pub check_conflicts-eq-ok :
      (selected : List String)
      → (check_conflicts r selected ≡ some (ok tt)) ↔ (
          (id k : String) (def : ComponentDefinition)
          → Needed r selected id
          → get r id ≡ some def
          → has def.conflicts_with k ≡ true
          → ¬ Needed r selected k)
  unfolding check_conflicts
  check_conflicts-eq-ok selected =
      let (out, e, sorted, members) = resolve_auto_load_lem r selected in
      let (read, write) = result_of-eq-ok (all_conflicts r out out clear).0 in
      rw (e, check_conflicts)
        (
          λ h id k def n g m need. cc (
            all_conflicts-Peaceful out out (read (ground arith)) id def ((members id).1 n) g k m,
            (members k).1 need,
          ),
          λ p.
              let peace : Peaceful out out = λ id def h g k m. elim (Bool-cases (has out k)) [
                | inl need ↦ absurd (p id k def ((members id).0 h) g m ((members k).0 need))
                | inr free ↦ free
              ] in
              rw (write (ap (λ (st : State). st.0) (all_conflicts-clear out out peace))),
        )
