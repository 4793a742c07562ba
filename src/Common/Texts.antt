-- ===== src/Common/Texts.antt =====
-- Lists of texts: `join(", ")`, and membership as a test for lists that stand for sets.
use mathlib.Core.Path.{◌≡◌, refl}
use mathlib.Core.Logic.{ite}
use mathlib.Core.Bool.{Bool, true, false, ◌||◌}
use mathlib.Core.List.{List, [], ◌∷◌, ◌++◌}
use Prim.Native.String.{String, ◌++◌ as text_append}
use Prim.Native.Nat.{ℕ, suc, ◌≤◌, ◌<◌}
use native.Mathlib.Omega.{arith}
use zt_edge.Common.Tests.{text_discrete, if◌then◌else◌}

infixr 65 ◌<>◌
abbrev pub ◌<>◌ : String → String → String
s <> t = text_append s t

unfoldable pub join : List String → String
join [] = ""
join (x ∷ xs) = elim xs [ [] ↦ x | y ∷ ys ↦ text_append x (text_append ", " (join xs)) ]

unfoldable pub has : List String → String → Bool
has [] k = false
has (x ∷ xs) k = ite (text_discrete x k) true (has xs k)

pub has-cons_self : (k : String) (xs : List String) → has (k ∷ xs) k ≡ true
unfolding has
has-cons_self k xs = ground arith

pub has-cons : (x k : String) (xs : List String) → has xs k ≡ true → has (x ∷ xs) k ≡ true
unfolding has
has-cons x k xs h = ground arith

pub has-append : (xs ys : List String) (k : String) → has (xs ++ ys) k ≡ (has xs k || has ys k)
unfolding has
has-append [] ys k = refl
has-append (x ∷ xs) ys k = ground (arith, has-append xs ys k)

-- How many entries of a list a set lacks.
unfoldable pub missing : List String → List String → ℕ
missing [] set = 0
missing (x ∷ xs) set = let rest = missing xs set in if has set x then rest else suc rest

pub missing-cons_le : (xs set : List String) (k : String) → missing xs (k ∷ set) ≤ missing xs set
unfolding missing has
missing-cons_le [] set k = omega arith
missing-cons_le (x ∷ xs) set k = ground (arith, missing-cons_le xs set k)

pub missing-cons_lt :
    (xs set : List String) (k : String)
    → has xs k ≡ true
    → has set k ≡ false
    → missing xs (k ∷ set) < missing xs set
unfolding missing has
missing-cons_lt [] set k h n = cc
missing-cons_lt (x ∷ xs) set k h n =
    ground (arith, missing-cons_lt xs set k, missing-cons_le xs set k)

pub missing-le : (xs set : List String) → missing xs set ≤ missing xs []
unfolding missing has
missing-le [] set = omega arith
missing-le (x ∷ xs) set = ground (arith, missing-le xs set)
