-- ===== src/Config/Merge/Paths.antt =====
-- crates/rshome-config/src/stages/s3_extend_remove.rs: what `deep_merge` leaves under each path.
use zt_edge.Common.{
  false, ◌≡◌, refl, sym, ap, subst, ◌∙◌, none, some, String, List, [], ◌∷◌, unwrap_or, Option-cases,
  ◌⊎◌, inl, inr, arith, text_discrete,
}
use zt_edge.Config.Value.{
  Value, null, bool, number, string, array, object, Fields, end, field, find, is_object,
}
use zt_edge.Config.Merge.{
  deep_merge, merged, IsMap, AreFields, value_at, Lacks, here, below, deep_merge_other,
  deep_merge_plain, find-merge_fields-none, find-merge_fields-some,
}

IsMap-find : (k : String) (m : Fields) (v : Value) → AreFields m → find k m ≡ some v → IsMap v
unfolding IsMap find
IsMap-find k end v h e = absurd (cc e)
IsMap-find k (field j w m) v (fresh, own, rest) e = elim (text_discrete j k) [
  | yes same ↦ let value : w ≡ v = ground arith in subst IsMap value own
  | no other ↦ IsMap-find k m v rest (ground arith)
]

object-cases : (v : Value) → ((m : Fields) × (v ≡ object m)) ⊎ (is_object v ≡ false)
object-cases (object m) = inl (m, refl)
object-cases null = inr refl
object-cases (bool b) = inr refl
object-cases (number n) = inr refl
object-cases (string s) = inr refl
object-cases (array xs) = inr refl

value_at_other :
    (k : String) (ks : List String) (v : Value) → is_object v ≡ false → value_at (k ∷ ks) v ≡ none
unfolding value_at
value_at_other k ks (object m) h = absurd (cc h)
value_at_other k ks null h = refl
value_at_other k ks (bool b) h = refl
value_at_other k ks (number n) h = refl
value_at_other k ks (string s) h = refl
value_at_other k ks (array xs) h = refl

Lacks-none : (ks : List String) (v : Value) → Lacks ks v → value_at ks v ≡ none
unfolding value_at
Lacks-none _ _ (here k ks m e) = rw (e, value_at) refl
Lacks-none _ _ (below k ks m v e l) = rw (e, value_at) (Lacks-none ks v l)

value_at-null : (ks : List String) (v : Value) → Lacks ks v → value_at ks null ≡ none
unfolding value_at
value_at-null _ _ (here k ks m e) = refl
value_at-null _ _ (below k ks m v e l) = refl

-- A vacant entry counts as `null`, which has nothing under such a path.
under_entry :
    (k : String) (ks : List String) (v : Value) (d : Fields)
    → Lacks ks v
    → value_at ks (unwrap_or (find k d) null) ≡ value_at (k ∷ ks) (object d)
unfolding value_at
under_entry k ks v d l = elim (Option-cases (find k d)) [
  | inl e ↦ rw (e, value_at) (value_at-null ks v l)
  | inr (w, e) ↦ rw (e, value_at) refl
]

-- The merge of a map into what a map has under a key.
value_at-merged :
    (k : String) (ks : List String) (s d : Fields) (sv : Value)
    → AreFields s
    → find k s ≡ some sv
    → value_at (k ∷ ks) (deep_merge (object s) (object d)) ≡ value_at ks (merged sv (find k d))
unfolding deep_merge value_at
value_at-merged k ks s d sv m e = rw (find-merge_fields-some k s d sv m e, value_at) refl

value_at-deep_merge_leaf :
    (ks : List String) (src dst v : Value)
    → IsMap src
    → value_at ks src ≡ some v
    → is_object v ≡ false
    → value_at ks (deep_merge src dst) ≡ some v
unfolding IsMap value_at
value_at-deep_merge_leaf [] src dst v m e h = ap some (deep_merge_plain src dst (ground arith)) ∙ e
value_at-deep_merge_leaf (k ∷ ks) (object s) dst v m e h = elim (Option-cases (find k s)) [
  | inl g ↦ absurd (cc (rw (g, value_at) at e))
  | inr (sv, g) ↦
      let inner : value_at ks sv ≡ some v = rw (g, value_at) at e in
      elim (object-cases dst) [
        | inl (d, o) ↦
            rw (o, value_at-merged k ks s d sv m g)
              (value_at-deep_merge_leaf ks sv (unwrap_or (find k d) null) v (IsMap-find k s sv m g)
                inner h)
        | inr n ↦ ap (value_at (k ∷ ks)) (deep_merge_other (object s) dst n) ∙ e
      ]
]
value_at-deep_merge_leaf (k ∷ ks) null dst v m e h = absurd (cc e)
value_at-deep_merge_leaf (k ∷ ks) (bool b) dst v m e h = absurd (cc e)
value_at-deep_merge_leaf (k ∷ ks) (number n) dst v m e h = absurd (cc e)
value_at-deep_merge_leaf (k ∷ ks) (string t) dst v m e h = absurd (cc e)
value_at-deep_merge_leaf (k ∷ ks) (array xs) dst v m e h = absurd (cc e)

value_at-deep_merge-Lacks :
    (ks : List String) (src dst : Value)
    → IsMap src
    → Lacks ks src
    → value_at ks (deep_merge src dst) ≡ value_at ks dst
unfolding IsMap value_at
value_at-deep_merge-Lacks _ _ dst u (here k ks m e) = elim (object-cases dst) [
  | inl (d, o) ↦ rw o (unfold deep_merge in rw (find-merge_fields-none k m d e, value_at) refl)
  | inr n ↦
      ap (value_at (k ∷ ks)) (deep_merge_other (object m) dst n)
      ∙ Lacks-none (k ∷ ks) (object m) (here k ks m e)
      ∙ sym (value_at_other k ks dst n)
]
value_at-deep_merge-Lacks _ _ dst u (below k ks m v e l) = elim (object-cases dst) [
  | inl (d, o) ↦
      rw (o, value_at-merged k ks m d v u e)
        (value_at-deep_merge-Lacks ks v (unwrap_or (find k d) null) (IsMap-find k m v u e) l
          ∙ under_entry k ks v d l)
  | inr n ↦
      ap (value_at (k ∷ ks)) (deep_merge_other (object m) dst n)
      ∙ Lacks-none (k ∷ ks) (object m) (below k ks m v e l)
      ∙ sym (value_at_other k ks dst n)
]

-- If the keys of the merged document differ in each of its maps: where it has a value that is no
-- map, the result has this value; and where it leaves a path at a map that lacks the next key, the
-- result has under the path what the other document had.
pub value_at-deep_merge :
    (ks : List String) (src dst v : Value)
    → IsMap src
    → (value_at ks src ≡ some v → is_object v ≡ false → value_at ks (deep_merge src dst) ≡ some v)
      × (Lacks ks src → value_at ks (deep_merge src dst) ≡ value_at ks dst)
value_at-deep_merge ks src dst v m = (
  λ e h. value_at-deep_merge_leaf ks src dst v m e h,
  λ l. value_at-deep_merge-Lacks ks src dst m l,
)
