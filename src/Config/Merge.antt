-- ===== src/Config/Merge.antt =====
-- crates/rshome-config/src/stages/s3_extend_remove.rs: `deep_merge`, with the document that is
-- merged in as the first argument.
pub mod Paths
use zt_edge.Common.{
  Bool, true, false, ◌&&◌, ◌≡◌, refl, ◌∙◌, ap, subst, Option, none, some, String, List, [], ◌∷◌,
  unwrap_or, text_discrete, if◌then◌else◌, ite, Option-cases, Bool-cases, sym, inl, inr, arith,
}
use zt_edge.Config.Value.{
  Value, null, bool, number, string, array, object, Fields, end, field, find, put, find-put,
  is_object,
}

unfoldable mutual
  pub deep_merge : Value → Value → Value
  deep_merge (object s) (object d) = object (merge_fields s d)
  deep_merge src dst = src

  -- The loop over the entries of `src`: a vacant entry is first filled with `null`.
  pub merge_fields : Fields → Fields → Fields
  merge_fields end d = d
  merge_fields (field key sv s) d =
      let entry = unwrap_or (find key d) null in
      let merged = deep_merge sv entry in
      merge_fields s (put key (if is_object entry && is_object sv then merged else sv) d)

-- The keys of a map differ, at every depth of maps in maps.
unfoldable mutual
  pub IsMap : Value → Type 0
  IsMap (object m) = AreFields m
  IsMap _ = Unit {0}

  pub AreFields : Fields → Type 0
  AreFields end = Unit {0}
  AreFields (field k v m) = (find k m ≡ none) × IsMap v × AreFields m

-- What a document has under a path of keys.
unfoldable pub value_at : List String → Value → Option Value
value_at [] v = some v
value_at (k ∷ ks) (object m) = elim (find k m) [ none ↦ none | some v ↦ value_at ks v ]
value_at (k ∷ ks) _ = none

-- The path leaves the document at a map that lacks its next key.
pub data Lacks : List String → Value → Type 0 where
  here : (k : String) (ks : List String) (m : Fields) → find k m ≡ none → Lacks (k ∷ ks) (object m)
  below :
      (k : String) (ks : List String) (m : Fields) (v : Value)
      → find k m ≡ some v
      → Lacks ks v
      → Lacks (k ∷ ks) (object m)

merged_entry : Value → Value → Value
merged_entry entry sv = if is_object entry && is_object sv then deep_merge sv entry else sv

-- A document that is no map is replaced.
pub deep_merge_other : (sv dst : Value) → is_object dst ≡ false → deep_merge sv dst ≡ sv
unfolding deep_merge
deep_merge_other (object s) (object d) h = absurd (cc h)
deep_merge_other (object s) null h = refl
deep_merge_other (object s) (bool b) h = refl
deep_merge_other (object s) (number n) h = refl
deep_merge_other (object s) (string t) h = refl
deep_merge_other (object s) (array xs) h = refl
deep_merge_other null dst h = refl
deep_merge_other (bool b) dst h = refl
deep_merge_other (number n) dst h = refl
deep_merge_other (string t) dst h = refl
deep_merge_other (array xs) dst h = refl

-- So is one by a document that is no map.
pub deep_merge_plain : (sv dst : Value) → is_object sv ≡ false → deep_merge sv dst ≡ sv
unfolding deep_merge
deep_merge_plain (object s) dst h = absurd (cc h)
deep_merge_plain null dst h = refl
deep_merge_plain (bool b) dst h = refl
deep_merge_plain (number n) dst h = refl
deep_merge_plain (string t) dst h = refl
deep_merge_plain (array xs) dst h = refl

merged_entry_lem : (entry sv : Value) → merged_entry entry sv ≡ deep_merge sv entry
unfolding merged_entry
merged_entry_lem entry sv = elim (Bool-cases (is_object entry)) [
  | inl h ↦ elim (Bool-cases (is_object sv)) [
    | inl g ↦ rw (h, g) refl
    | inr g ↦ rw (h, g) (sym (deep_merge_plain sv entry g))
  ]
  | inr h ↦ rw h (sym (deep_merge_other sv entry h))
]

abbrev pub merged : Value → Option Value → Value
merged sv entry = deep_merge sv (unwrap_or entry null)

merge_fields_step :
    (j : String) (sv : Value) (s d : Fields)
    → merge_fields (field j sv s) d ≡ merge_fields s (put j (merged sv (find j d)) d)
unfolding deep_merge merged_entry
merge_fields_step j sv s d =
    ap (λ e. merge_fields s (put j e d)) (merged_entry_lem (unwrap_or (find j d) null) sv)

merge_fields_end : (d : Fields) → merge_fields end d ≡ d
unfolding deep_merge
merge_fields_end d = refl

pub find-merge_fields-none :
    (k : String) (s d : Fields) → find k s ≡ none → find k (merge_fields s d) ≡ find k d
unfolding find
find-merge_fields-none k end d h = ap (find k) (merge_fields_end d)
find-merge_fields-none k (field j sv s) d h = rw (merge_fields_step j sv s d) (
    ground (
      arith,
      find-merge_fields-none k s (put j (merged sv (find j d)) d),
      find-put j k (merged sv (find j d)) d,
    ))

-- A key of the merged map, if `src` has it, holds its value merged into that of `dst`.
pub find-merge_fields-some :
    (k : String) (s d : Fields) (sv : Value)
    → AreFields s
    → find k s ≡ some sv
    → find k (merge_fields s d) ≡ some (merged sv (find k d))
unfolding IsMap find
find-merge_fields-some k end d sv m h = absurd (cc h)
find-merge_fields-some k (field j tv s) d sv (fresh, mv, ms) h =
    rw (merge_fields_step j tv s d) (elim (text_discrete j k) [
      | yes e ↦
          find-merge_fields-none k s (put j (merged tv (find j d)) d)
            (subst (λ x. find x s ≡ none) e fresh)
          ∙ ground (arith, find-put j k (merged tv (find j d)) d)
      | no n ↦
          find-merge_fields-some k s (put j (merged tv (find j d)) d) sv ms (ground arith)
          ∙ ground (arith, find-put j k (merged tv (find j d)) d)
    ])
