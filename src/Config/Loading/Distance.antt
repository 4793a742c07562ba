-- ===== src/Config/Loading/Distance.antt =====
-- crates/rshome-config/src/stages/s6_load_components.rs: `edit_distance` and the distance that it
-- is meant to be.
use Prim.Native.Char.{Char, code}
use zt_edge.Common.{
  ℕ, suc, ◌+◌, min, ◌≡◌, refl, ap, sym, ◌∙◌, String, List, [], ◌∷◌, length, ◌==◌, if◌then◌else◌,
}
use zt_edge.Config.Loading.{next_cells, next_row, first_row, last_row, last_cell, edit_distance}

-- The distance of two texts, given as lists of characters from the last to the first: one for each
-- insertion, deletion and replacement.
unfoldable pub distance : List Char → List Char → ℕ
distance [] ys = length ys
distance (x ∷ xs) [] = suc (length xs)
distance (x ∷ xs) (y ∷ ys) =
    let same = distance xs ys in
    let up = distance xs (y ∷ ys) in
    let left = distance (x ∷ xs) ys in if code x == code y then same else 1 + min (min up left) same

-- The characters of a text from the last to the first, in front of others.
unfoldable pub onto : List Char → String → List Char
onto xs String.[] = xs
onto xs (String.◌∷◌ c s) = onto (c ∷ xs) s

distance-nil : (xs : List Char) → distance xs [] ≡ length xs
unfolding distance
distance-nil [] = refl
distance-nil (x ∷ xs) = refl

-- The cells of a row after the one for `ys`.
later : List Char → List Char → String → List ℕ
later xs ys String.[] = []
later xs ys (String.◌∷◌ d b) = distance xs (d ∷ ys) ∷ later xs (d ∷ ys) b

first_row-later :
    (ys : List Char) (b : String) → first_row (length ys) b ≡ length ys ∷ later [] ys b
unfolding first_row later distance
first_row-later ys String.[] = refl
first_row-later ys (String.◌∷◌ d b) = ap (◌∷◌ (length ys)) (first_row-later (d ∷ ys) b)

next_cells-later :
    (c : Char) (xs ys : List Char) (b : String)
    → next_cells c b (distance xs ys) (later xs ys b) (distance (c ∷ xs) ys) ≡ later (c ∷ xs) ys b
unfolding next_cells later distance
next_cells-later c xs ys String.[] = refl
next_cells-later c xs ys (String.◌∷◌ d b) =
    ap (◌∷◌ (distance (c ∷ xs) (d ∷ ys))) (next_cells-later c xs (d ∷ ys) b)

next_row-later :
    (c : Char) (xs : List Char) (b : String)
    → next_row c b (suc (length xs)) (length xs ∷ later xs [] b)
      ≡ suc (length xs) ∷ later (c ∷ xs) [] b
unfolding distance
next_row-later c xs b = ap (◌∷◌ (suc (length xs))) (
    ap (λ n. next_cells c b n (later xs [] b) (suc (length xs))) (sym (distance-nil xs))
    ∙ next_cells-later c xs [] b)

last_row-later :
    (a b : String) (xs : List Char)
    → last_row a b (length xs) (length xs ∷ later xs [] b)
      ≡ length (onto xs a) ∷ later (onto xs a) [] b
unfolding last_row onto
last_row-later String.[] b xs = refl
last_row-later (String.◌∷◌ c a) b xs =
    ap (last_row a b (suc (length xs))) (next_row-later c xs b) ∙ last_row-later a b (c ∷ xs)

last_cell-later :
    (xs ys : List Char) (b : String)
    → last_cell (distance xs ys ∷ later xs ys b) ≡ distance xs (onto ys b)
unfolding last_cell later onto
last_cell-later xs ys String.[] = refl
last_cell-later xs ys (String.◌∷◌ d b) = last_cell-later xs (d ∷ ys) b

-- The table of `edit_distance` ends with the least number of insertions, deletions and replacements
-- of characters, as its recursion over the two texts from their ends gives it.
pub edit_distance-distance : (a b : String) → edit_distance a b ≡ distance (onto [] a) (onto [] b)
unfolding edit_distance
edit_distance-distance a b =
    ap last_cell (ap (last_row a b 0) (first_row-later [] b) ∙ last_row-later a b [])
    ∙ ap (λ n. last_cell (n ∷ later (onto [] a) [] b)) (sym (distance-nil (onto [] a)))
    ∙ last_cell-later (onto [] a) [] b
