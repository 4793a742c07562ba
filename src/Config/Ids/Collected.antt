-- ===== src/Config/Ids/Collected.antt =====
-- crates/rshome-config/src/stages/s8_id_resolution.rs: the first pass, over the ids that are given.
use zt_edge.Common.{
  ℕ, suc, true, false, ◌≡◌, subst, inl, inr, Option, none, some, String, List, [], ◌∷◌, lookup,
  insert, lookup-insert, has, text_discrete, Option-cases, Bool-cases, is_some, arith,
}
use zt_edge.Common.Sort.{Unique}
use zt_edge.Config.Diagnostic.{has_errors, has_errors-append, is_fatal-error}
use zt_edge.Config.Value.{Value, get, as_str, is_null}
use zt_edge.Config.Raw.{ComponentConfig}
use zt_edge.Config.Ids.{IdEntry, IdTable, collect_id, collect_ids}

abbrev pub text_of : Option Value → Option String
text_of none = none
text_of (some v) = as_str v

-- The id of a component, if it is a text.
abbrev pub id_of : ComponentConfig → Option String
id_of c = text_of (get "id" c.config)

-- The ids of some components that are texts, in their order.
unfoldable pub ids_of : List ComponentConfig → List String
ids_of [] = []
ids_of (c ∷ cs) = elim (id_of c) [ none ↦ ids_of cs | some id ↦ id ∷ ids_of cs ]

abbrev pub Free : IdTable → String → Type 0
Free table id = lookup text_discrete id table ≡ none

abbrev pub Taken : IdTable → String → Type 0
Taken table id = is_some (lookup text_discrete id table) ≡ true

pub Taken-insert :
    (k id : String) (v : IdEntry) (table : IdTable)
    → Taken table id
    → Taken (insert text_discrete k v table) id
Taken-insert k id v table h = ground (arith, lookup-insert text_discrete k id v table)

pub Taken-insert_self :
    (k : String) (v : IdEntry) (table : IdTable) → Taken (insert text_discrete k v table) k
Taken-insert_self k v table = ground (arith, lookup-insert text_discrete k k v table)

-- The first pass takes a text without a diagnostic only if it is new.
record Collected (after table : IdTable) (o : Option Value) : Type 0 where
  fresh : (id : String) → text_of o ≡ some id → Free table id × Taken after id
  grows : (id : String) → Taken table id → Taken after id

collect_id-Collected :
    (c : ComponentConfig) (i : ℕ) (table : IdTable) (o : Option Value)
    → has_errors (collect_id c i table o).1 ≡ false
    → Collected (collect_id c i table o).0 table o
unfolding collect_id has_errors
collect_id-Collected c i table none e = record { fresh = λ id h. absurd (cc h); grows = λ id h. h }
collect_id-Collected c i table (some v) e = elim (Option-cases (as_str v)) [
  | inl other ↦ elim (Bool-cases (is_null v)) [
    | inl n ↦
        rw (other, n, collect_id)
          (record { fresh = λ id h. absurd (cc (other, h)); grows = λ id h. h })
    | inr n ↦ absurd (cc (rw (other, n, collect_id, is_fatal-error) at e))
  ]
  | inr (id, text) ↦ elim (Option-cases (lookup text_discrete id table)) [
    | inl free ↦
        rw (text, free, collect_id)
          (record {
            fresh = λ id' h.
                let same : id ≡ id' = ground arith in
                subst
                  (λ x.
                    Free table x
                    × Taken
                        (insert text_discrete id
                          (record {
                            id = id;
                            component_index = i;
                            component_type = c.component_type;
                          })
                          table)
                        x)
                  same (free, Taken-insert_self id _ table);
            grows = λ id' h. Taken-insert id id' _ table h;
          })
    | inr (entry, taken) ↦ absurd (cc (rw (text, taken, collect_id, is_fatal-error) at e))
  ]
]

Free_not-Taken : (table : IdTable) (id : String) → Free table id → ¬ Taken table id
Free_not-Taken table id f t = cc (f, t)

-- Without a diagnostic, the given ids differ, were new, and are taken.
pub record AllCollected (ids : List String) (before after : IdTable) : Type 0 where
  pub grows : (id : String) → Taken before id → Taken after id
  pub free : (id : String) → has (ids) id ≡ true → Free before id
  pub taken : (id : String) → has (ids) id ≡ true → Taken after id
  pub unique : Unique (ids)

AllCollected-cons :
    (c : ComponentConfig) (cs : List ComponentConfig) (before middle after : IdTable)
    → Collected middle before (get "id" c.config)
    → AllCollected (ids_of cs) middle after
    → AllCollected (ids_of (c ∷ cs)) before after
unfolding ids_of has
AllCollected-cons c cs before middle after one rest =
    let kept : (id : String) → has (ids_of cs) id ≡ true → Free before id = λ id h.
      elim (Option-cases (lookup text_discrete id before)) [
        | inl f ↦ f
        | inr (v, t) ↦
            absurd (Free_not-Taken middle id (rest.free id h) (one.grows id (ground arith)))
      ] in
    elim (Option-cases (id_of c)) [
      | inl none_here ↦
          rw (none_here, ids_of)
            (record {
              grows = λ id h. rest.grows id (one.grows id h);
              free = kept;
              taken = rest.taken;
              unique = rest.unique;
            })
      | inr (x, here) ↦
          let (new, marked) = one.fresh x here in
          rw (here, ids_of)
            (record {
              grows = λ id h. rest.grows id (one.grows id h);
              free = λ id h. elim (text_discrete x id) [
                | yes same ↦ subst (Free before) same new
                | no other ↦ kept id (ground arith)
              ];
              taken = λ id h. elim (text_discrete x id) [
                | yes same ↦ subst (Taken after) same (rest.grows x marked)
                | no other ↦ rest.taken id (ground arith)
              ];
              unique = (
                elim (Bool-cases (has (ids_of cs) x)) [
                  | inl again ↦ absurd (Free_not-Taken middle x (rest.free x again) marked)
                  | inr once ↦ once
                ],
                rest.unique,
              );
            })
    ]

pub collect_ids-AllCollected :
    (cs : List ComponentConfig) (i : ℕ) (table : IdTable)
    → has_errors (collect_ids cs i table).1 ≡ false
    → AllCollected (ids_of cs) table (collect_ids cs i table).0
unfolding collect_ids
collect_ids-AllCollected [] i table e =
    unfold ids_of in
    unfold has in
    record {
      grows = λ id h. h;
      free = λ id h. absurd (cc h);
      taken = λ id h. absurd (cc h);
      unique = tt;
    }
collect_ids-AllCollected (c ∷ cs) i table e =
    let step = collect_id c i table (get "id" c.config) in
    let split = has_errors-append step.1 (collect_ids cs (suc i) step.0).1 in
    AllCollected-cons c cs table step.0 (collect_ids cs (suc i) step.0).0
      (collect_id-Collected c i table (get "id" c.config) (ground (arith, split)))
      (collect_ids-AllCollected cs (suc i) step.0 (ground (arith, split)))
