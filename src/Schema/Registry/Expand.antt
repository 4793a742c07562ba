-- ===== src/Schema/Registry/Expand.antt =====
-- crates/rshome-schema/src/registry.rs: `resolve_auto_load` and the set it is meant to be.
use zt_edge.Common.{
  ℕ, zero, suc, ◌+◌, ◌≤◌, ◌≡◌, refl, sym, ◌∙◌, ◌⊎◌, inl, inr, Bool, true, none, some, String, List,
  [], ◌∷◌, length, has, has-cons, has-cons_self, missing, missing-le, Bool-cases, Option-cases,
  arith,
}
use zt_edge.Common.Sort.{
  IsSorted, Unique, sort_texts, has-sort_texts, sort_texts-IsSorted, IsSorted-ext,
}
use zt_edge.Schema.Registry.{
  ComponentDefinition, ComponentRegistry, get, push_new, expand_loop, collect_set, stack_of,
  auto_loads, enough_rounds, resolve_auto_load,
}
use zt_edge.Schema.Registry.Worklist.{
  get-auto_loads, Within-of, push_new_measure, push_new-result, push_new_keeps, push_new_pending,
  push_new-Unique, has-collect_set, collect_set-Unique, has-stack_of, length-stack_of, missing_all,
}

-- A component that is selected, or that a needed component loads.
pub data Needed (r : ComponentRegistry) (selected : List String) : String → Type 0 where
  chosen : (k : String) → has selected k ≡ true → Needed r selected k
  loaded :
      (id k : String) (def : ComponentDefinition)
      → Needed r selected id
      → get r id ≡ some def
      → has def.auto_load k ≡ true
      → Needed r selected k

module _ (r : ComponentRegistry) (selected : List String) where
  -- Between two rounds: what is in the result is needed, holds the selection, and lacks an
  -- AUTO_LOAD entry only of a component that is still to be visited.
  record Inv (result worklist : List String) : Type 0 where
    unique : Unique result
    holds : (k : String) → has selected k ≡ true → has result k ≡ true
    needed : (k : String) → has result k ≡ true → Needed r selected k
    pending : (k : String) → has worklist k ≡ true → has result k ≡ true
    closed :
        (id k : String) (def : ComponentDefinition)
        → has result id ≡ true
        → get r id ≡ some def
        → has def.auto_load k ≡ true
        → (has worklist id ≡ true) ⊎ (has result k ≡ true)

  Inv-skip :
      (result worklist : List String) (id : String)
      → get r id ≡ none
      → Inv result (id ∷ worklist)
      → Inv result worklist
  Inv-skip result worklist id e v = record {
    unique = v.unique;
    holds = v.holds;
    needed = v.needed;
    pending = λ k h. v.pending k (has-cons id k worklist h);
    closed = λ j k def h g a. unfold has in ground (arith, v.closed j k def h g a);
  }

  Inv-visit :
      (result worklist : List String) (id : String) (def : ComponentDefinition)
      → get r id ≡ some def
      → Inv result (id ∷ worklist)
      → let (result', worklist') = push_new def.auto_load result worklist in Inv result' worklist'
  Inv-visit result worklist id def e v = record {
    unique = push_new-Unique def.auto_load result worklist v.unique;
    holds = λ k h. rw (push_new-result def.auto_load result worklist k, v.holds k h);
    needed = λ k h. elim (Bool-cases (has result k)) [
      | inl old ↦ v.needed k old
      | inr new ↦
          loaded id k def (v.needed id (v.pending id (has-cons_self id worklist))) e
            (ground (arith, push_new-result def.auto_load result worklist k))
    ];
    pending = λ k h. ground (
      arith,
      push_new_pending def.auto_load result worklist k,
      push_new-result def.auto_load result worklist k,
      v.pending k,
      has-cons id k worklist,
    );
    closed = λ j k d h g a.
        unfold has in
        ground (
          arith,
          v.closed j k d,
          push_new_pending def.auto_load result worklist j,
          push_new-result def.auto_load result worklist j,
          push_new-result def.auto_load result worklist k,
          push_new_keeps def.auto_load result worklist j,
        );
  }

  -- With enough rounds the loop ends, with nothing left to visit.
  expand_loop_ends :
      (rounds : ℕ) (result worklist : List String)
      → length worklist + missing (auto_loads r) result ≤ rounds
      → Inv result worklist
      → (out : List String) × (expand_loop rounds r result worklist ≡ some out) × Inv out []
  unfolding expand_loop
  expand_loop_ends zero result [] h v = (result, refl, v)
  expand_loop_ends (suc rounds) result [] h v = (result, refl, v)
  expand_loop_ends zero result (id ∷ worklist) h v = absurd (omega arith)
  expand_loop_ends (suc rounds) result (id ∷ worklist) h v = elim (Option-cases (get r id)) [
    | inl unknown ↦
        rw (unknown, expand_loop)
          (expand_loop_ends rounds result worklist (omega arith)
            (Inv-skip result worklist id unknown v))
    | inr (def, known) ↦
        let falls =
          push_new_measure (auto_loads r) def.auto_load result worklist
            (Within-of def.auto_load (auto_loads r) (λ k. get-auto_loads r id def k known)) in
        rw (known, expand_loop)
          (expand_loop_ends rounds (push_new def.auto_load result worklist).0
            (push_new def.auto_load result worklist).1 (omega arith)
            (Inv-visit result worklist id def known v))
  ]

module _ (r : ComponentRegistry) (selected : List String) where
  chosen_set : (k : String) → has (collect_set selected []) k ≡ has selected k
  chosen_set k = unfold has in ground (arith, has-collect_set selected [] k)

  chosen_stack : (k : String) → has (stack_of selected []) k ≡ has selected k
  chosen_stack k = unfold has in ground (arith, has-stack_of selected [] k)

  start-Inv : Inv r selected (collect_set selected []) (stack_of selected [])
  start-Inv = record {
    unique = collect_set-Unique selected [] tt;
    holds = λ k h. chosen_set k ∙ h;
    needed = λ k h. chosen k (sym (chosen_set k) ∙ h);
    pending = λ k h. chosen_set k ∙ sym (chosen_stack k) ∙ h;
    closed = λ id k def h g a. inl (chosen_stack id ∙ sym (chosen_set id) ∙ h);
  }

  -- A set that holds the selection and is closed holds all that is needed.
  Needed-has :
      (out : List String) (k : String)
      → Inv r selected out []
      → Needed r selected k
      → has out k ≡ true
  unfolding has
  Needed-has out k v (chosen _ h) = v.holds k h
  Needed-has out k v (loaded id _ def n e h) =
      ground (arith, v.closed id k def (Needed-has out id v n) e h)

  enough :
      length (stack_of selected []) + missing (auto_loads r) (collect_set selected [])
      ≤ enough_rounds r selected
  enough = omega (
    arith,
    length-stack_of selected [],
    missing-le (auto_loads r) (collect_set selected []),
    missing_all (auto_loads r),
  )

  -- For every registry and selection, cycles included, the expansion ends; its result is strictly
  -- sorted and holds exactly the components that are selected or loaded by a needed component.
  pub resolve_auto_load_lem :
      (out : List String) × (resolve_auto_load r selected ≡ some out)
      × IsSorted out
      × ((k : String)
          → (has out k ≡ true → Needed r selected k) × (Needed r selected k → has out k ≡ true))
  unfolding resolve_auto_load
  resolve_auto_load_lem =
      let (set, e, v) =
        expand_loop_ends r selected (enough_rounds r selected) (collect_set selected [])
          (stack_of selected []) enough start-Inv in
      (
        sort_texts set,
        rw (e, resolve_auto_load),
        sort_texts-IsSorted set v.unique,
        λ k. (
          λ h. v.needed k (sym (has-sort_texts set k) ∙ h),
          λ n. has-sort_texts set k ∙ Needed-has set k v n,
        ),
      )

-- A selection in another order, or with repetitions, selects the same.
Needed-same :
    (r : ComponentRegistry) (s t : List String) {k : String}
    → ((j : String) → has s j ≡ has t j)
    → Needed r s k
    → Needed r t k
Needed-same r s t same (chosen k h) = chosen k (sym (same k) ∙ h)
Needed-same r s t same (loaded id k def n e h) = loaded id k def (Needed-same r s t same n) e h

same_test : (a b : Bool) → (a ≡ true → b ≡ true) → (b ≡ true → a ≡ true) → a ≡ b
same_test a b to from = ground arith

-- Two selections of the same components, in any order and with any repetitions, expand to the same
-- list.
pub resolve_auto_load_order :
    (r : ComponentRegistry) (s t : List String)
    → ((j : String) → has s j ≡ has t j)
    → resolve_auto_load r s ≡ resolve_auto_load r t
resolve_auto_load_order r s t same =
    let (xs, e, sorted, members) = resolve_auto_load_lem r s in
    let (ys, e', sorted', members') = resolve_auto_load_lem r t in
    let equal : xs ≡ ys = IsSorted-ext xs ys sorted sorted' (λ k.
      same_test (has xs k) (has ys k)
        (λ h. (members' k).1 (Needed-same r s t same ((members k).0 h)))
        (λ h. (members k).1 (Needed-same r t s (λ j. sym (same j)) ((members' k).0 h)))) in
    cc
