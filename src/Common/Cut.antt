-- ===== src/Common/Cut.antt =====
-- Text that is cut at a pattern, as `str::find` with the slices around the place does, and numbers
-- as `format!` prints them.
use Prim.Native.Nat.{ℕ, suc, ◌<◌, ◌≤◌}
use Prim.Native.Char.{Char, code}
use Prim.Native.String.{String, ◌++◌}
use text.Mathlib.TextLemmas.{nil-append, cons-append}
use mathlib.Core.Path.{◌≡◌}
use mathlib.Core.Logic.{inl, inr}
use mathlib.Core.Bool.{false}
use mathlib.Core.Option.{Option, none, some}
use native.Mathlib.Omega.{arith}
use zt_edge.Common.Tests.{◌==◌, if◌then◌else◌, Option-cases}

-- `str::strip_prefix`.
unfoldable pub strip : String → String → Option String
strip String.[] s = some s
strip (String.◌∷◌ p ps) String.[] = none
strip (String.◌∷◌ p ps) (String.◌∷◌ c s) =
    let rest = strip ps s in if code p == code c then rest else none

abbrev pub prepend : Char → Option (String × String) → Option (String × String)
prepend c none = none
prepend c (some (before, rest)) = some (String.◌∷◌ c before, rest)

-- The text before the first place of a pattern, and the text after the pattern.
unfoldable pub cut : String → String → Option (String × String)
cut pattern String.[] = none
cut pattern (String.◌∷◌ c s) =
    let later = prepend c (cut pattern s) in
    elim (strip pattern (String.◌∷◌ c s)) [ some rest ↦ some (String.[], rest) | none ↦ later ]

abbrev pub size : String → ℕ
size String.[] = 0
size (String.◌∷◌ c s) = suc (size s)

strip-size : (p s rest : String) → strip p s ≡ some rest → size rest ≤ size s
unfolding strip
strip-size String.[] s rest e = ground arith
strip-size (String.◌∷◌ p ps) String.[] rest e = cc
strip-size (String.◌∷◌ p ps) (String.◌∷◌ c s) rest e = ground (arith, strip-size ps s rest)

strip_lt :
    (p : Char) (ps s rest : String) → strip (String.◌∷◌ p ps) s ≡ some rest → size rest < size s
unfolding strip
strip_lt p ps String.[] rest e = cc
strip_lt p ps (String.◌∷◌ c s) rest e = ground (arith, strip-size ps s rest)

pub cut_lt :
    (p : Char) (ps s before rest : String)
    → cut (String.◌∷◌ p ps) s ≡ some (before, rest)
    → size rest < size s
unfolding cut
cut_lt p ps String.[] before rest e = cc
cut_lt p ps (String.◌∷◌ c s) before rest e =
    elim (Option-cases (strip (String.◌∷◌ p ps) (String.◌∷◌ c s))) [
      | inl h ↦ elim (Option-cases (cut (String.◌∷◌ p ps) s)) [
        | inl g ↦ absurd (cc (rw (h, g, cut) at e))
        | inr ((b, r), g) ↦ ground (arith, rw (h, g, cut) at e, cut_lt p ps s b r g)
      ]
      | inr (r, h) ↦ ground (arith, rw (h, cut) at e, strip_lt p ps (String.◌∷◌ c s) r h)
    ]

strip_pair_other :
    (p q c : Char) (s rest : String)
    → (code p == code q) ≡ false
    → strip (String.◌∷◌ p (String.◌∷◌ q String.[])) (String.◌∷◌ c s) ≡ none
    → strip
        (String.◌∷◌ p (String.◌∷◌ q String.[]))
        (String.◌∷◌ c (s ++ String.◌∷◌ p (String.◌∷◌ q rest)))
      ≡ none
unfolding strip
strip_pair_other p q c String.[] rest d e =
    rw (nil-append (String.◌∷◌ p (String.◌∷◌ q rest))) (ground arith)
strip_pair_other p q c (String.◌∷◌ x s) rest d e =
    rw (cons-append x s (String.◌∷◌ p (String.◌∷◌ q rest))) (ground arith)

-- A pattern of two different characters is found where it was put, if not before.
pub cut_pair-append :
    (p q : Char) (before rest : String)
    → (code p == code q) ≡ false
    → cut (String.◌∷◌ p (String.◌∷◌ q String.[])) before ≡ none
    → cut (String.◌∷◌ p (String.◌∷◌ q String.[])) (before ++ String.◌∷◌ p (String.◌∷◌ q rest))
      ≡ some (before, rest)
unfolding cut
cut_pair-append p q String.[] rest d e =
    rw (nil-append (String.◌∷◌ p (String.◌∷◌ q rest))) (unfold strip in ground arith)
cut_pair-append p q (String.◌∷◌ c s) rest d e =
    elim (Option-cases (strip (String.◌∷◌ p (String.◌∷◌ q String.[])) (String.◌∷◌ c s))) [
      | inl h ↦ elim (Option-cases (cut (String.◌∷◌ p (String.◌∷◌ q String.[])) s)) [
        | inl g ↦ rw (
          cons-append c s (String.◌∷◌ p (String.◌∷◌ q rest)),
          strip_pair_other p q c s rest d h,
          cut_pair-append p q s rest d g,
          cut,
        )
        | inr (b, g) ↦ absurd (ground (arith, rw (h, g, cut) at e))
      ]
      | inr (r, h) ↦ absurd (ground (arith, rw (h, cut) at e))
    ]

pub cut_char-append :
    (p : Char) (before rest : String)
    → cut (String.◌∷◌ p String.[]) before ≡ none
    → cut (String.◌∷◌ p String.[]) (before ++ String.◌∷◌ p rest) ≡ some (before, rest)
unfolding cut strip
cut_char-append p String.[] rest e = rw (nil-append (String.◌∷◌ p rest)) (ground arith)
cut_char-append p (String.◌∷◌ c s) rest e =
    rw (cons-append c s (String.◌∷◌ p rest)) (ground (arith, cut_char-append p s rest))
