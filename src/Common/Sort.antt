-- ===== src/Common/Sort.antt =====
-- Rust's order of texts (by code points, which is the order of their UTF-8 bytes) and a sort of
-- texts by it.
use Prim.Native.Char.{Char, code}
use Prim.Native.String.{String}
use text.Mathlib.TextEquality.{codes_equal}
use mathlib.Core.Path.{◌≡◌, refl, sym, ◌∙◌}
use mathlib.Core.Logic.{inl, inr}
use mathlib.Core.Bool.{Bool, true, false}
use mathlib.Core.List.{List, [], ◌∷◌}
use native.Mathlib.Omega.{arith}
use zt_edge.Common.Tests.{ltb, ◌==◌, if◌then◌else◌, Bool-cases}
use zt_edge.Common.Texts.{has, has-cons_self}

unfoldable pub text_lt : String → String → Bool
text_lt String.[] String.[] = false
text_lt String.[] (String.◌∷◌ d t) = true
text_lt (String.◌∷◌ c s) String.[] = false
text_lt (String.◌∷◌ c s) (String.◌∷◌ d t) =
    if ltb (code c) (code d) then true else if code c == code d then text_lt s t else false

pub text_lt_irrefl : (s : String) → text_lt s s ≡ false
unfolding text_lt
text_lt_irrefl String.[] = refl
text_lt_irrefl (String.◌∷◌ c s) = ground (arith, text_lt_irrefl s)

pub text_lt_trans : (s t u : String) → text_lt s t ≡ true → text_lt t u ≡ true → text_lt s u ≡ true
unfolding text_lt
text_lt_trans String.[] String.[] u h k = cc
text_lt_trans String.[] (String.◌∷◌ d t) String.[] h k = cc
text_lt_trans String.[] (String.◌∷◌ d t) (String.◌∷◌ e u) h k = refl
text_lt_trans (String.◌∷◌ c s) String.[] u h k = cc
text_lt_trans (String.◌∷◌ c s) (String.◌∷◌ d t) String.[] h k = cc
text_lt_trans (String.◌∷◌ c s) (String.◌∷◌ d t) (String.◌∷◌ e u) h k =
    ground (arith, text_lt_trans s t u)

code-injective : (c d : Char) → code c ≡ code d → c ≡ d
code-injective c d e = codes_equal c d (ground arith)

pub text_lt_total : (s t : String) → text_lt s t ≡ false → text_lt t s ≡ false → s ≡ t
unfolding text_lt
text_lt_total String.[] String.[] h k = refl
text_lt_total String.[] (String.◌∷◌ d t) h k = cc
text_lt_total (String.◌∷◌ c s) String.[] h k = cc
text_lt_total (String.◌∷◌ c s) (String.◌∷◌ d t) h k =
    ground (arith, code-injective c d, text_lt_total s t)

-- The list rises strictly from above `x`.
abbrev pub Above : String → List String → Type 0
Above x [] = Unit {0}
Above x (y ∷ ys) = (text_lt x y ≡ true) × Above y ys

abbrev pub IsSorted : List String → Type 0
IsSorted [] = Unit {0}
IsSorted (x ∷ xs) = Above x xs

-- No text stands twice.
abbrev pub Unique : List String → Type 0
Unique [] = Unit {0}
Unique (x ∷ xs) = (has xs x ≡ false) × Unique xs

Above-has : (x k : String) (ys : List String) → Above x ys → has ys k ≡ true → text_lt x k ≡ true
unfolding has
Above-has x k [] a h = cc
Above-has x k (y ∷ ys) a h = ground (arith, Above-has y k ys a.1, text_lt_trans x y k a.0)

Above-absent : (x : String) (ys : List String) → Above x ys → has ys x ≡ false
Above-absent x ys a = elim (Bool-cases (has ys x)) [
  | inl h ↦ cc (Above-has x x ys a h, text_lt_irrefl x)
  | inr n ↦ n
]

Above-IsSorted : (x : String) (ys : List String) → Above x ys → IsSorted ys
Above-IsSorted x [] a = tt
Above-IsSorted x (y ∷ ys) a = a.1

has-tail :
    (x k : String) (xs ys : List String)
    → has xs x ≡ false
    → has ys x ≡ false
    → has (x ∷ xs) k ≡ has (x ∷ ys) k
    → has xs k ≡ has ys k
unfolding has
has-tail x k xs ys p q e = ground arith

heads_equal :
    (x y : String) (xs ys : List String)
    → Above x xs
    → Above y ys
    → has (x ∷ xs) y ≡ true
    → has (y ∷ ys) x ≡ true
    → x ≡ y
unfolding has
heads_equal x y xs ys a b p q =
    ground (arith, Above-has x y xs a, Above-has y x ys b, text_lt_trans x y x, text_lt_irrefl x)

-- Strictly sorted lists with the same members are equal.
pub IsSorted-Unique : (xs : List String) → IsSorted xs → Unique xs
IsSorted-Unique [] a = tt
IsSorted-Unique (x ∷ xs) a = (Above-absent x xs a, IsSorted-Unique xs (Above-IsSorted x xs a))

pub IsSorted-ext :
    (xs ys : List String)
    → IsSorted xs
    → IsSorted ys
    → ((k : String) → has xs k ≡ has ys k)
    → xs ≡ ys
IsSorted-ext [] [] a b same = refl
IsSorted-ext [] (y ∷ ys) a b same = unfold has in ground (arith, same y)
IsSorted-ext (x ∷ xs) [] a b same = unfold has in ground (arith, same x)
IsSorted-ext (x ∷ xs) (y ∷ ys) a b same =
    let e : x ≡ y =
      heads_equal x y xs ys a b (same y ∙ has-cons_self y ys) (sym (same x) ∙ has-cons_self x xs) in
    let tails : xs ≡ ys = IsSorted-ext xs ys (Above-IsSorted x xs a) (Above-IsSorted y ys b) (λ k.
      has-tail x k xs ys (Above-absent x xs a) (rw e (Above-absent y ys b))
        (rw (← e) at (same k))) in
    cc

unfoldable pub insert_text : String → List String → List String
insert_text k [] = k ∷ []
insert_text k (x ∷ xs) = if text_lt x k then x ∷ insert_text k xs else k ∷ x ∷ xs

-- `Vec::sort` on texts.
unfoldable pub sort_texts : List String → List String
unfolding insert_text
sort_texts [] = []
sort_texts (x ∷ xs) = insert_text x (sort_texts xs)

has-insert_text : (k j : String) (xs : List String) → has (insert_text k xs) j ≡ has (k ∷ xs) j
unfolding insert_text has
has-insert_text k j [] = refl
has-insert_text k j (x ∷ xs) = ground (arith, has-insert_text k j xs)

pub has-sort_texts : (xs : List String) (j : String) → has (sort_texts xs) j ≡ has xs j
unfolding sort_texts has
has-sort_texts [] j = refl
has-sort_texts (x ∷ xs) j = ground (arith, has-insert_text x j (sort_texts xs), has-sort_texts xs j)

insert_text-Above :
    (b k : String) (xs : List String)
    → text_lt b k ≡ true
    → Above b xs
    → has xs k ≡ false
    → Above b (insert_text k xs)
unfolding insert_text has
insert_text-Above b k [] h a n = ground arith
insert_text-Above b k (x ∷ xs) h a n = ground (arith, insert_text-Above x k xs, text_lt_total x k)

insert_text-IsSorted :
    (k : String) (xs : List String) → IsSorted xs → has xs k ≡ false → IsSorted (insert_text k xs)
unfolding insert_text has
insert_text-IsSorted k [] s n = tt
insert_text-IsSorted k (x ∷ xs) s n = ground (arith, insert_text-Above x k xs, text_lt_total x k)

pub sort_texts-IsSorted : (xs : List String) → Unique xs → IsSorted (sort_texts xs)
unfolding sort_texts
sort_texts-IsSorted [] u = tt
sort_texts-IsSorted (x ∷ xs) u =
    insert_text-IsSorted x (sort_texts xs) (sort_texts-IsSorted xs u.1) (has-sort_texts xs x ∙ u.0)
