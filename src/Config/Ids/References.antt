-- ===== src/Config/Ids/References.antt =====
-- crates/rshome-config/src/stages/s8_id_resolution.rs: the third pass, over the references of the
-- components, and what the stage leaves.
use Prim.Native.Char.{Char}
use zt_edge.Common.{
  ℕ, suc, Bool, true, false, ◌≡◌, ◌≢◌, String, List, [], ◌∷◌, ◌++◌, lookup, is_some, text_discrete,
  Bool-cases, inl, inr, All, ite, arith,
}
use zt_edge.Common.Sort.{Unique}
use zt_edge.Config.Diagnostic.{ValidationError, has_errors, has_errors-append, is_fatal-error}
use zt_edge.Config.Value.{Value, string, array, object, Items, cons, Fields, field}
use zt_edge.Config.Raw.{RawConfig, ComponentConfig}
use zt_edge.Config.Ids.{
  IdTable, is_empty_text, ends_with, check_reference, check_cross_refs, check_fields, check_items,
  check_components, collect_ids, generate_ids, stage_8_resolve_ids,
}
use zt_edge.Config.Ids.Collected.{ids_of, Taken}
use zt_edge.Config.Ids.Unique.{stage_8_resolve_ids-Unique}

-- The document refers to an id: at some depth, a field whose key ends in `_id` holds this text.
mutual
  pub data Refers : Value → String → Type 0 where
    in_object : (m : Fields) (id : String) → RefersIn m id → Refers (object m) id
    in_array : (xs : Items) (id : String) → RefersAmong xs id → Refers (array xs) id

  pub data RefersIn : Fields → String → Type 0 where
    here :
        (key id : String) (m : Fields)
        → ends_with "_id" key ≡ true
        → key ≢ "id"
        → is_empty_text id ≡ false
        → RefersIn (field key (string id) m) id
    inside : (key id : String) (v : Value) (m : Fields) → Refers v id → RefersIn (field key v m) id
    later : (key id : String) (v : Value) (m : Fields) → RefersIn m id → RefersIn (field key v m) id

  pub data RefersAmong : Items → String → Type 0 where
    first : (id : String) (v : Value) (xs : Items) → Refers v id → RefersAmong (cons v xs) id
    next : (id : String) (v : Value) (xs : Items) → RefersAmong xs id → RefersAmong (cons v xs) id

clean_parts :
    (xs ys : List ValidationError)
    → has_errors (xs ++ ys) ≡ false
    → (has_errors xs ≡ false) × (has_errors ys ≡ false)
clean_parts xs ys e = ground (arith, has_errors-append xs ys)

check_reference-Taken :
    (key id : String) (table : IdTable) (path : String)
    → ends_with "_id" key ≡ true
    → key ≢ "id"
    → is_empty_text id ≡ false
    → has_errors (check_reference key (string id) table path) ≡ false
    → Taken table id
unfolding check_reference has_errors
check_reference-Taken key id table path suffix other filled e =
    elim (Bool-cases (is_some (lookup text_discrete id table))) [
      | inl taken ↦ taken
      | inr free ↦
          let apart : ite (text_discrete key "id") true false ≡ false = ground arith in
          absurd (cc (rw (suffix, apart, filled, free, check_reference, is_fatal-error) at e))
    ]

mutual
  unfolding check_cross_refs

  check_cross_refs-Taken :
      (v : Value) (id : String) (table : IdTable) (path : String)
      → Refers v id
      → has_errors (check_cross_refs v table path) ≡ false
      → Taken table id
  check_cross_refs-Taken _ _ table path (in_object m id r) e =
      check_fields-Taken m id table path r e
  check_cross_refs-Taken _ _ table path (in_array xs id r) e =
      check_items-Taken xs id table 0 path r e

  check_fields-Taken :
      (m : Fields) (id : String) (table : IdTable) (path : String)
      → RefersIn m id
      → has_errors (check_fields m table path) ≡ false
      → Taken table id
  check_fields-Taken _ _ table path (here key id m suffix other filled) e =
      check_reference-Taken key id table _ suffix other filled
        (clean_parts _ _ (clean_parts _ _ e).0).0
  check_fields-Taken _ _ table path (inside key id v m r) e =
      check_cross_refs-Taken v id table _ r (clean_parts _ _ (clean_parts _ _ e).0).1
  check_fields-Taken _ _ table path (later key id v m r) e =
      check_fields-Taken m id table path r (clean_parts _ _ e).1

  check_items-Taken :
      (xs : Items) (id : String) (table : IdTable) (i : ℕ) (path : String)
      → RefersAmong xs id
      → has_errors (check_items xs table i path) ≡ false
      → Taken table id
  check_items-Taken _ _ table i path (first id v xs r) e =
      check_cross_refs-Taken v id table _ r (clean_parts _ _ e).0
  check_items-Taken _ _ table i path (next id v xs r) e =
      check_items-Taken xs id table (suc i) path r (clean_parts _ _ e).1

check_components-Taken :
    (cs : List ComponentConfig) (i : ℕ) (table : IdTable)
    → has_errors (check_components cs i table) ≡ false
    → All (λ c. (id : String) → Refers c.config id → Taken table id) cs
unfolding check_components
check_components-Taken [] i table e = tt
check_components-Taken (c ∷ cs) i table e =
    let (own, rest) = clean_parts _ _ e in
    (
      λ id r. check_cross_refs-Taken c.config id table _ r own,
      check_components-Taken cs (suc i) table rest,
    )

-- If the stage has no fatal diagnostic, the ids of the components that are texts all differ, given
-- or made up, and each id that a component refers to, at any depth, is in the table of ids.
pub stage_8_resolve_ids_lem :
    (to_lowercase : String → String) (is_alphanumeric : Char → Bool) (config : RawConfig)
    → has_errors (stage_8_resolve_ids to_lowercase is_alphanumeric config).2 ≡ false
    → Unique (ids_of (stage_8_resolve_ids to_lowercase is_alphanumeric config).0.components)
      × All
          (λ c.
            (id : String)
            → Refers c.config id
            → Taken (stage_8_resolve_ids to_lowercase is_alphanumeric config).1 id)
          (stage_8_resolve_ids to_lowercase is_alphanumeric config).0.components
unfolding stage_8_resolve_ids
stage_8_resolve_ids_lem to_lowercase is_alphanumeric config e =
    let (collected, duplicates) = collect_ids config.components 0 [] in
    let (components, id_table) =
      generate_ids to_lowercase is_alphanumeric config.components 0 collected in
    (
      stage_8_resolve_ids-Unique to_lowercase is_alphanumeric config e,
      check_components-Taken components 0 id_table
          (clean_parts duplicates (check_components components 0 id_table) e).1,
    )
