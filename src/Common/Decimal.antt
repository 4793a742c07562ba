-- ===== src/Common/Decimal.antt =====
-- Numbers as `format!` prints them.
use Prim.Native.Char.{code}
use Prim.Native.String.{String, ◌++◌}
use text.Mathlib.TextLemmas.{nil-append, cons-append}
use Prim.Native.Nat.{ℕ, zero, suc, ◌+◌, ◌-◌, ◌*◌, ◌/◌, ◌%◌, ◌<◌}
use mathlib.Core.Path.{◌≡◌, sym, ap, ◌∙◌}
use native.Mathlib.Omega.{arith}
use zt_edge.Common.Tests.{ltb, ◌==◌, if◌then◌else◌, Bool-cases}
use mathlib.Core.Logic.{inl, inr}

unfoldable pub digit : ℕ → String
digit n =
    if n == 0
    then "0"
    else if n == 1
    then "1"
    else if n == 2
    then "2"
    else if n == 3
    then "3"
    else if n == 4
    then "4"
    else if n == 5
    then "5"
    else if n == 6
    then "6"
    else if n == 7
    then "7"
    else if n == 8
    then "8"
    else "9"

unfoldable pub decimal_loop : ℕ → ℕ → String
decimal_loop zero n = ""
decimal_loop (suc fuel) n =
    let front = decimal_loop fuel (n / 10) in if ltb n 10 then digit n else front ++ digit (n % 10)

-- `n.to_string()`.
unfoldable pub decimal : ℕ → String
decimal n = decimal_loop (suc n) n

-- The number that digits stand for, after those already read.
read : ℕ → String → ℕ
read acc String.[] = acc
read acc (String.◌∷◌ c s) = read (acc * 10 + (code c - 48)) s

read-append : (acc : ℕ) (s t : String) → read acc (s ++ t) ≡ read (read acc s) t
unfolding read
read-append acc String.[] t = rw (nil-append t)
read-append acc (String.◌∷◌ c s) t =
    rw (cons-append c s t) (read-append (acc * 10 + (code c - 48)) s t)

read-digit : (acc n : ℕ) → n < 10 → read acc (digit n) ≡ acc * 10 + n
unfolding read digit
read-digit acc zero h = omega arith
read-digit acc (suc zero) h = omega arith
read-digit acc (suc (suc zero)) h = omega arith
read-digit acc (suc (suc (suc zero))) h = omega arith
read-digit acc (suc (suc (suc (suc zero)))) h = omega arith
read-digit acc (suc (suc (suc (suc (suc zero))))) h = omega arith
read-digit acc (suc (suc (suc (suc (suc (suc zero)))))) h = omega arith
read-digit acc (suc (suc (suc (suc (suc (suc (suc zero))))))) h = omega arith
read-digit acc (suc (suc (suc (suc (suc (suc (suc (suc zero)))))))) h = omega arith
read-digit acc (suc (suc (suc (suc (suc (suc (suc (suc (suc zero))))))))) h = omega arith
read-digit acc (suc (suc (suc (suc (suc (suc (suc (suc (suc (suc n)))))))))) h =
    absurd (omega arith)

read-decimal_loop : (fuel n : ℕ) → n < fuel → read 0 (decimal_loop fuel n) ≡ n
unfolding decimal_loop
read-decimal_loop zero n h = absurd (omega arith)
read-decimal_loop (suc fuel) n h = elim (Bool-cases (ltb n 10)) [
  | inl small ↦ rw (small, decimal_loop) (ground (arith, read-digit 0 n))
  | inr large ↦
      rw
        (
          large,
          decimal_loop,
          read-append 0 (decimal_loop fuel (n / 10)) (digit (n % 10)),
          read-decimal_loop fuel (n / 10) (ground arith),
          read-digit (n / 10) (n % 10) (omega arith),
        )
        (omega arith)
]

pub decimal-injective : (m n : ℕ) → decimal m ≡ decimal n → m ≡ n
unfolding decimal
decimal-injective m n e =
    sym (read-decimal_loop (suc m) m (omega arith))
    ∙ ap (read 0) e
    ∙ read-decimal_loop (suc n) n (omega arith)
