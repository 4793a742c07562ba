-- ===== src/Common/Dedup.antt =====
-- Sorting and removing what stands twice: `Vec::sort` followed by `Vec::dedup`.
use mathlib.Core.Path.{◌≡◌, refl, sym, ap, subst, ◌∙◌}
use mathlib.Core.Logic.{ite, if_pos, if_neg, inl, inr}
use mathlib.Core.Bool.{false}
use mathlib.Core.List.{List, [], ◌∷◌}
use Prim.Native.String.{String}
use native.Mathlib.Omega.{arith}
use zt_edge.Common.Lists.{List-cases}
use zt_edge.Common.Tests.{text_discrete, Bool-cases}
use zt_edge.Common.Texts.{has}
use zt_edge.Common.Sort.{
  text_lt, text_lt_irrefl, text_lt_trans, text_lt_total, insert_text, sort_texts, has-sort_texts,
  IsSorted,
}

-- `Vec::dedup`, for what stands beside its like.
unfoldable pub dedup : List String → List String
dedup [] = []
dedup (x ∷ xs) =
    let rest = dedup xs in
    elim rest [ [] ↦ x ∷ [] | y ∷ ys ↦ ite (text_discrete x y) (y ∷ ys) (x ∷ y ∷ ys) ]

-- No entry is above the next one.
abbrev Rising : List String → Type 0
Rising [] = Unit {0}
Rising (x ∷ xs) = elim xs [ [] ↦ Unit {0} | y ∷ ys ↦ text_lt y x ≡ false ] × Rising xs

insert_text-Rising : (k : String) (xs : List String) → Rising xs → Rising (insert_text k xs)
unfolding insert_text
insert_text-Rising k [] h = (tt, tt)
insert_text-Rising k (x ∷ []) h = elim (Bool-cases (text_lt x k)) [
  | inl e ↦ rw (e, insert_text) (ground (arith, text_lt_trans x k x, text_lt_irrefl x), (tt, tt))
  | inr e ↦ rw (e, insert_text) (e, (tt, tt))
]
insert_text-Rising k (x ∷ y ∷ ys) h =
    let rest = insert_text-Rising k (y ∷ ys) h.1 in
    elim (Bool-cases (text_lt x k)) [
      | inl e ↦ elim (Bool-cases (text_lt y k)) [
        | inl g ↦ rw (e, g, insert_text) (h.0, rw (g, insert_text) at rest)
        | inr g ↦
            rw (e, g, insert_text)
              (ground (arith, text_lt_trans x k x, text_lt_irrefl x), rw (g, insert_text) at rest)
      ]
      | inr e ↦ rw (e, insert_text) (e, h)
    ]

sort_texts-Rising : (xs : List String) → Rising (sort_texts xs)
unfolding sort_texts
sort_texts-Rising [] = tt
sort_texts-Rising (x ∷ xs) = insert_text-Rising x (sort_texts xs) (sort_texts-Rising xs)

pub has-dedup : (xs : List String) (k : String) → has (dedup xs) k ≡ has xs k
unfolding dedup has
has-dedup [] k = refl
has-dedup (x ∷ xs) k = elim (List-cases (dedup xs)) [
  | inl e ↦ rw (e, dedup) (ground (arith, has-dedup xs k, e))
  | inr (y, ys, e) ↦ rw (e, dedup) (ground (arith, has-dedup xs k, e))
]

dedup-head : (x : String) (xs : List String) → (ys : List String) × (dedup (x ∷ xs) ≡ x ∷ ys)
unfolding dedup
dedup-head x xs = elim (List-cases (dedup xs)) [
  | inl e ↦ ([], rw (e, dedup) refl)
  | inr (y, ys, e) ↦ elim (text_discrete x y) [
    | yes same ↦
        (ys, rw (e, dedup) (if_pos (text_discrete x y) same _ _ ∙ ap (λ z. z ∷ ys) (sym same)))
    | no other ↦ (y ∷ ys, rw (e, dedup) (if_neg (text_discrete x y) other _ _))
  ]
]

dedup-IsSorted : (xs : List String) → Rising xs → IsSorted (dedup xs)
unfolding dedup
dedup-IsSorted [] h = tt
dedup-IsSorted (x ∷ []) h = tt
dedup-IsSorted (x ∷ y ∷ zs) h =
    let (ys, e) = dedup-head y zs in
    let rest = dedup-IsSorted (y ∷ zs) h.1 in
    let tail : IsSorted (y ∷ ys) = subst IsSorted e rest in
    let out : dedup (x ∷ y ∷ zs) ≡ ite (text_discrete x y) (y ∷ ys) (x ∷ y ∷ ys) = rw (e) refl in
    elim (text_discrete x y) [
      | yes same ↦ subst IsSorted (sym (out ∙ if_pos (text_discrete x y) same _ _)) tail
      | no other ↦
          subst IsSorted (sym (out ∙ if_neg (text_discrete x y) other _ _))
            (ground (arith, h.0, other, text_lt_total x y), tail)
    ]

-- Sorting and removing repetitions gives a strictly sorted list of the same texts.
pub dedup-sort_texts :
    (xs : List String)
    → IsSorted (dedup (sort_texts xs)) × ((k : String) → has (dedup (sort_texts xs)) k ≡ has xs k)
dedup-sort_texts xs = (
  dedup-IsSorted (sort_texts xs) (sort_texts-Rising xs),
  λ k. has-dedup (sort_texts xs) k ∙ has-sort_texts xs k,
)
