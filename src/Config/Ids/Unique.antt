-- ===== src/Config/Ids/Unique.antt =====
-- crates/rshome-config/src/stages/s8_id_resolution.rs: the ids of the components after the second
-- pass.
use Prim.Native.Char.{Char}
use zt_edge.Common.{
  ℕ, suc, Bool, true, false, ◌≡◌, refl, ap, subst, ◌⊎◌, inl, inr, none, some, String, List, [], ◌∷◌,
  insert, insert-eq-none, has, has-cons, has-cons_self, text_discrete, Option-cases, Bool-cases,
  arith,
}
use zt_edge.Common.Sort.{Unique}
use zt_edge.Config.Diagnostic.{has_errors, has_errors-append}
use zt_edge.Config.Value.{Value, null, bool, number, string, array, object, get, find-put, as_str}
use zt_edge.Config.Raw.{RawConfig, ComponentConfig}
use zt_edge.Config.Ids.{
  IdEntry, IdTable, collect_ids, make_unique, set_id, slugify, generate_id, generate_ids,
  check_components, stage_8_resolve_ids,
}
use zt_edge.Config.Ids.Fresh.{make_unique-none}
use zt_edge.Config.Ids.Collected.{
  text_of, id_of, ids_of, Free, Taken, Taken-insert, Taken-insert_self, collect_ids-AllCollected,
}

-- A document that has a field is a map, so that an id can be put into it.
get-set_id :
    (v w : Value) (k id : String) → get k v ≡ some w → get "id" (set_id v id) ≡ some (string id)
unfolding get set_id
get-set_id (object m) w k id e = ground (arith, find-put "id" "id" (string id) m)
get-set_id null w k id e = absurd (cc e)
get-set_id (bool b) w k id e = absurd (cc e)
get-set_id (number n) w k id e = absurd (cc e)
get-set_id (string s) w k id e = absurd (cc e)
get-set_id (array xs) w k id e = absurd (cc e)

-- A component is left alone, or given an id that is not in the table, and that is then put there.
record Generated (c d : ComponentConfig) (before after : IdTable) (id : String) : Type 0 where
  entry : IdEntry
  had : id_of c ≡ none
  got : id_of d ≡ some id
  free : Free before id
  put_in : after ≡ insert text_discrete id entry before

module _ (to_lowercase : String → String) (is_alphanumeric : Char → Bool) where
  abbrev step : ComponentConfig → ℕ → IdTable → ComponentConfig × IdTable
  step = generate_id to_lowercase is_alphanumeric

  abbrev steps : List ComponentConfig → ℕ → IdTable → List ComponentConfig × IdTable
  steps = generate_ids to_lowercase is_alphanumeric

  generate_id-cases :
      (c : ComponentConfig) (i : ℕ) (table : IdTable)
      → (step c i table ≡ (c, table))
        ⊎ ((id : String) × Generated c (step c i table).0 table (step c i table).1 id)
  unfolding generate_id
  generate_id-cases c i table = elim (Option-cases (get "id" c.config)) [
    | inr (v, e) ↦ rw (e, generate_id) (inl refl)
    | inl e ↦ elim (Option-cases (get "name" c.config)) [
      | inl n ↦ rw (e, n, generate_id) (inl refl)
      | inr (v, n) ↦ elim (Option-cases (as_str v)) [
        | inl t ↦ rw (e, n, t, generate_id) (inl refl)
        | inr (name, t) ↦
            let id = make_unique (slugify to_lowercase is_alphanumeric name) table in
            rw (e, n, t, generate_id)
              (inr (
                id,
                record {
                  entry = record {
                    id = id;
                    component_index = i;
                    component_type = c.component_type;
                  };
                  had = ap text_of e;
                  got = ap text_of (get-set_id c.config v "name" id n);
                  free = make_unique-none (slugify to_lowercase is_alphanumeric name) table;
                  put_in = refl;
                },
              ))
      ]
    ]
  ]

cons_none :
    (c : ComponentConfig) (cs : List ComponentConfig) → id_of c ≡ none → ids_of (c ∷ cs) ≡ ids_of cs
unfolding ids_of
cons_none c cs e = rw (e, ids_of) refl

cons_some :
    (c : ComponentConfig) (cs : List ComponentConfig) (x : String)
    → id_of c ≡ some x
    → ids_of (c ∷ cs) ≡ x ∷ ids_of cs
unfolding ids_of
cons_some c cs x e = rw (e, ids_of) refl

-- The ids after the second pass differ, and each was given or was not in the table before.
record Out (given out : List String) (table : IdTable) : Type 0 where
  unique : Unique out
  origin : (y : String) → has out y ≡ true → (has given y ≡ true) ⊎ Free table y

Out-kept :
    (x : String) (given out : List String) (table : IdTable)
    → Unique (x ∷ given)
    → Taken table x
    → Out given out table
    → Out (x ∷ given) (x ∷ out) table
unfolding has
Out-kept x given out table u t o = record {
  unique = (
    elim (Bool-cases (has out x)) [
      | inr once ↦ once
      | inl again ↦ elim (o.origin x again) [
        | inl twice ↦ absurd (cc (twice, u.0))
        | inr free ↦ absurd (cc (free, t))
      ]
    ],
    o.unique,
  );
  origin = λ y h. elim (text_discrete x y) [
    | yes same ↦ inl (ground arith)
    | no other ↦ elim (o.origin y (ground arith)) [
      | inl g ↦ inl (ground arith)
      | inr free ↦ inr free
    ]
  ];
}

Out-made :
    (x : String) (entry : IdEntry) (given out : List String) (table : IdTable)
    → ((id : String) → has given id ≡ true → Taken table id)
    → Free table x
    → Out given out (insert text_discrete x entry table)
    → Out given (x ∷ out) table
unfolding has
Out-made x entry given out table t f o = record {
  unique = (
    elim (Bool-cases (has out x)) [
      | inr once ↦ once
      | inl again ↦ elim (o.origin x again) [
        | inl twice ↦ absurd (cc (t x twice, f))
        | inr free ↦ absurd (cc (free, Taken-insert_self x entry table))
      ]
    ],
    o.unique,
  );
  origin = λ y h. elim (text_discrete x y) [
    | yes same ↦ inr (subst (Free table) same f)
    | no other ↦ elim (o.origin y (ground arith)) [
      | inl g ↦ inl g
      | inr free ↦ inr (insert-eq-none text_discrete x y entry table free).1
    ]
  ];
}

module _ (to_lowercase : String → String) (is_alphanumeric : Char → Bool) where
  generate_ids-Out :
      (cs : List ComponentConfig) (i : ℕ) (table : IdTable)
      → Unique (ids_of cs)
      → ((id : String) → has (ids_of cs) id ≡ true → Taken table id)
      → Out (ids_of cs) (ids_of (steps to_lowercase is_alphanumeric cs i table).0) table
  unfolding generate_ids
  generate_ids-Out [] i table u t =
      unfold ids_of in unfold has in record { unique = tt; origin = λ y h. absurd (cc h) }
  generate_ids-Out (c ∷ cs) i table u t =
      elim (generate_id-cases to_lowercase is_alphanumeric c i table) [
        | inl same ↦ elim (Option-cases (id_of c)) [
          | inl e ↦
              let given = cons_none c cs e in
              rw
                (same, given, cons_none c (steps to_lowercase is_alphanumeric cs (suc i) table).0 e)
                (generate_ids-Out cs (suc i) table (subst Unique given u)
                  (λ id h. t id (rw given h)))
          | inr (x, e) ↦
              let given = cons_some c cs x e in
              let apart = subst Unique given u in
              rw
                (
                  same,
                  given,
                  cons_some c (steps to_lowercase is_alphanumeric cs (suc i) table).0 x e,
                )
                (Out-kept x (ids_of cs) _ table apart (t x (rw given (has-cons_self x (ids_of cs))))
                  (generate_ids-Out cs (suc i) table apart.1
                    (λ id h. t id (rw given (has-cons x id (ids_of cs) h)))))
        ]
        | inr (id, g) ↦
            let given = cons_none c cs g.had in
            let known : (y : String) → has (ids_of cs) y ≡ true → Taken table y =
              λ y h. t y (rw given h) in
            let next = step to_lowercase is_alphanumeric c i table in
            rw
              (
                given,
                cons_some next.0 (steps to_lowercase is_alphanumeric cs (suc i) next.1).0 id g.got,
                g.put_in,
              )
              (Out-made id g.entry (ids_of cs) _ table known g.free (
                generate_ids-Out cs (suc i) (insert text_discrete id g.entry table)
                  (subst Unique given u) (λ y h. Taken-insert id y g.entry table (known y h))))
      ]

pub stage_8_resolve_ids-Unique :
    (to_lowercase : String → String) (is_alphanumeric : Char → Bool) (config : RawConfig)
    → has_errors (stage_8_resolve_ids to_lowercase is_alphanumeric config).2 ≡ false
    → Unique (ids_of (stage_8_resolve_ids to_lowercase is_alphanumeric config).0.components)
unfolding stage_8_resolve_ids
stage_8_resolve_ids-Unique to_lowercase is_alphanumeric config h =
    let (collected, duplicates) = collect_ids config.components 0 [] in
    let (components, id_table) =
      generate_ids to_lowercase is_alphanumeric config.components 0 collected in
    let split = has_errors-append duplicates (check_components components 0 id_table) in
    let given = collect_ids-AllCollected config.components 0 [] (ground (arith, split)) in
    (generate_ids-Out to_lowercase is_alphanumeric config.components 0 collected given.unique
      given.taken).unique
