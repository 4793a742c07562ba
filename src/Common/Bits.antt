-- ===== src/Common/Bits.antt =====
-- Facts about `bit_and` and `bit_or` at variables: masks of low bits, and the union of two bit
-- fields that do not overlap.
use Prim.Native.Nat.{
  ℕ, zero, suc, ◌+◌, ◌*◌, ◌/◌, ◌%◌, ◌^◌, ◌≤◌, ◌<◌, min, max, bit_and, bit_or, digits,
  bit_and-bitwise, bit_or-bitwise,
}
use mathlib.Core.Path.{◌≡◌, refl, ap}
use native.Mathlib.Nat.{le_refl, pow-suc}
use native.Mathlib.Omega.{arith}

-- A bitwise operation acts on the lowest digits and on what is above them.
module _ (base : ℕ → ℕ) (op : ℕ → ℕ → ℕ) where
  digits_steady : (n : ℕ) (b a m : ℕ) → a ≤ m → a ≤ n → digits base op m a b ≡ digits base op n a b
  digits_steady zero b zero zero _ _ = refl
  digits_steady zero b zero (suc m) _ _ = refl
  digits_steady (suc n) b zero zero _ _ = refl
  digits_steady (suc n) b zero (suc m) _ _ = refl
  digits_steady zero b (suc a) m h no_room = absurd (omega arith)
  digits_steady (suc n) b (suc a) zero no_room h = absurd (omega arith)
  digits_steady (suc n) b (suc a) (suc m) h k =
      omega (arith, digits_steady n (b / 2) (suc a / 2) m (omega arith) (omega arith))

  module _ (f : ℕ → ℕ → ℕ) (law : (a b : ℕ) → f a b ≡ digits base op a a b) where
    lowest :
        ((b : ℕ) → base b ≡ base (b / 2) * 2 + op 0 (b % 2))
        → (a b : ℕ) → f a b ≡ f (a / 2) (b / 2) * 2 + op (a % 2) (b % 2)
    lowest at_zero zero b = omega (arith, law 0 b, law 0 (b / 2), at_zero b)
    lowest at_zero (suc a) b =
        let above = digits_steady a (b / 2) (suc a / 2) (suc a / 2) (omega arith) (omega arith) in
        omega (arith, law (suc a) b, law (suc a / 2) (b / 2), above)

-- What such an operation does to nothing on its right, known from its digits.
right_zero :
    (op f : ℕ → ℕ → ℕ) (g : ℕ → ℕ)
    → ((a b : ℕ) → f a b ≡ f (a / 2) (b / 2) * 2 + op (a % 2) (b % 2))
    → ((a : ℕ) → g a ≡ g (a / 2) * 2 + op (a % 2) 0)
    → f 0 0 ≡ g 0
    → (bound a : ℕ) → a ≤ bound
    → f a 0 ≡ g a
right_zero op f g step same start bound zero _ = start
right_zero op f g step same start zero (suc a) h = absurd (omega arith)
right_zero op f g step same start (suc bound) (suc a) h =
    let half = right_zero op f g step same start bound (suc a / 2) (omega arith) in
    omega (arith, step (suc a) 0, same (suc a), half)

bit_and_step : (a b : ℕ) → bit_and a b ≡ bit_and (a / 2) (b / 2) * 2 + min (a % 2) (b % 2)
bit_and_step = lowest (λ b. zero) min bit_and bit_and-bitwise (λ b. omega arith)

pub bit_or_step : (a b : ℕ) → bit_or a b ≡ bit_or (a / 2) (b / 2) * 2 + max (a % 2) (b % 2)
bit_or_step = lowest (λ b. b) max bit_or bit_or-bitwise (λ b. omega arith)

bit_and-zero : (a : ℕ) → bit_and a 0 ≡ 0
bit_and-zero a =
    right_zero min bit_and (λ n. 0) bit_and_step (λ n. omega arith) refl a a (le_refl a)

bit_or-zero : (a : ℕ) → bit_or a 0 ≡ a
bit_or-zero a = right_zero max bit_or (λ n. n) bit_or_step (λ n. omega arith) refl a a (le_refl a)

pub zero-bit_or : (b : ℕ) → bit_or 0 b ≡ b
zero-bit_or b = bit_or-bitwise 0 b

bit_and-eight : (a : ℕ) → bit_and a 8 ≡ a / 8 % 2 * 8
bit_and-eight a = omega (
  arith,
  bit_and_step a 8,
  bit_and_step (a / 2) 4,
  bit_and_step (a / 2 / 2) 2,
  bit_and_step (a / 2 / 2 / 2) 1,
  bit_and-zero (a / 2 / 2 / 2 / 2),
)

pub bit_and-top_bit : (b : ℕ) → b < 256 → bit_and b 0x80 ≡ b / 128 * 128
bit_and-top_bit b h = omega (
  arith,
  bit_and_step b 0x80,
  bit_and_step (b / 2) 0x40,
  bit_and_step (b / 2 / 2) 0x20,
  bit_and_step (b / 2 / 2 / 2) 0x10,
  bit_and-eight (b / 2 / 2 / 2 / 2),
)

bit_and-low_three : (a : ℕ) → bit_and a 7 ≡ a % 8
bit_and-low_three a = omega (
  arith,
  bit_and_step a 7,
  bit_and_step (a / 2) 3,
  bit_and_step (a / 2 / 2) 1,
  bit_and-zero (a / 2 / 2 / 2),
)

pub bit_and-low_seven : (a : ℕ) → bit_and a 0x7f ≡ a % 128
bit_and-low_seven a = omega (
  arith,
  bit_and_step a 127,
  bit_and_step (a / 2) 63,
  bit_and_step (a / 2 / 2) 31,
  bit_and_step (a / 2 / 2 / 2) 15,
  bit_and-low_three (a / 2 / 2 / 2 / 2),
)

bit_and-low_eleven : (a : ℕ) → bit_and a 0x7ff ≡ a % 2048
bit_and-low_eleven a = omega (
  arith,
  bit_and_step a 0x7ff,
  bit_and_step (a / 2) 0x3ff,
  bit_and_step (a / 2 / 2) 0x1ff,
  bit_and_step (a / 2 / 2 / 2) 0xff,
  bit_and-low_seven (a / 2 / 2 / 2 / 2),
)

pub bit_and-low_sixteen : (a : ℕ) → bit_and a 0xffff ≡ a % 2 ^ 16
bit_and-low_sixteen a = omega (
  arith,
  bit_and_step a 0xffff,
  bit_and_step (a / 2) 0x7fff,
  bit_and_step (a / 2 / 2) 0x3fff,
  bit_and_step (a / 2 / 2 / 2) 0x1fff,
  bit_and_step (a / 2 / 2 / 2 / 2) 0xfff,
  bit_and-low_eleven (a / 2 / 2 / 2 / 2 / 2),
)

pub pow_two_suc : (s : ℕ) → 2 ^ suc s ≡ 2 * 2 ^ s
pow_two_suc s = omega (arith, pow-suc 2 s)

-- Where the lower number stays below the field of the upper one, `|` is `+`.
pub bit_or_disjoint : (s a x : ℕ) → a < 2 ^ s → bit_or a (x * 2 ^ s) ≡ a + x * 2 ^ s
bit_or_disjoint zero a x h =
    let none_set : a ≡ 0 = omega arith in rw none_set (omega (arith, zero-bit_or (x * 2 ^ 0)))
bit_or_disjoint (suc s) a x h = omega (
  arith,
  shifted,
  ap (λ (t : ℕ). bit_or a t) shifted,
  bit_or_step a (x * 2 ^ s * 2),
  ap (λ (t : ℕ). bit_or (a / 2) t) halved,
  bit_or_disjoint s (a / 2) x (omega (arith, pow_two_suc s)),
)
  where
    shifted : x * 2 ^ suc s ≡ x * 2 ^ s * 2
    shifted = omega (arith, ap (λ (t : ℕ). x * t) (pow_two_suc s))

    halved : x * 2 ^ s * 2 / 2 ≡ x * 2 ^ s
    halved = omega arith

pub bit_or-top_bit : (b : ℕ) → b < 128 → bit_or b 0x80 ≡ b + 128
bit_or-top_bit b h = omega (arith, bit_or_disjoint 7 b 1 (omega arith))

-- The same with the upper field first.
pub bit_or_upper : (s x a : ℕ) → a < 2 ^ s → bit_or (x * 2 ^ s) a ≡ x * 2 ^ s + a
bit_or_upper zero x a h =
    let none_set : a ≡ 0 = omega arith in rw none_set (omega (arith, bit_or-zero (x * 2 ^ 0)))
bit_or_upper (suc s) x a h = omega (
  arith,
  shifted,
  ap (λ (t : ℕ). bit_or t a) shifted,
  bit_or_step (x * 2 ^ s * 2) a,
  ap (λ (t : ℕ). bit_or t (a / 2)) halved,
  bit_or_upper s x (a / 2) (omega (arith, pow_two_suc s)),
)
  where
    shifted : x * 2 ^ suc s ≡ x * 2 ^ s * 2
    shifted = omega (arith, ap (λ (t : ℕ). x * t) (pow_two_suc s))

    halved : x * 2 ^ s * 2 / 2 ≡ x * 2 ^ s
    halved = omega arith
