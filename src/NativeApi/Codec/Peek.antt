-- ===== src/NativeApi/Codec/Peek.antt =====
-- crates/rshome-native-api/src/codec.rs: `peek_varint` on any bytes, well formed or not.
use zt_edge.Common.{
  ℕ, ◌+◌, ◌*◌, ◌%◌, ◌^◌, ◌≤◌, ◌<◌, ◌≡◌, refl, bit_and, bit_or, none, some, List, [], ◌∷◌, ◌++◌,
  length, All, arith,
}
use zt_edge.Common.Bits.{bit_and-top_bit}
use zt_edge.NativeApi.Codec.{peek_loop, peek_varint}
use zt_edge.NativeApi.Codec.Encode.{Continues}

abbrev next_result : ℕ → ℕ → ℕ → ℕ
next_result byte result shift = bit_or result ((bit_and byte 0x7f * 2 ^ shift) % 2 ^ 64)

-- Without a byte that ends it, a varint is never read.
pub peek_loop-Continues :
    (bytes : List ℕ) (i result shift : ℕ)
    → All Continues bytes
    → peek_loop bytes i result shift ≡ none
unfolding peek_loop
peek_loop-Continues [] i result shift h = refl
peek_loop-Continues (b ∷ bs) i result shift h = ground (
  arith,
  bit_and-top_bit b,
  peek_loop-Continues bs (i + 1) (next_result b result shift) (shift + 7) h.1,
)

-- After ten bytes that do not end it, a varint is not read, whatever follows.
peek_loop_too_long :
    (bytes more : List ℕ) (i result shift : ℕ)
    → All Continues bytes
    → 10 ≤ i + length bytes
    → i < 10
    → shift ≡ 7 * i
    → peek_loop (bytes ++ more) i result shift ≡ none
unfolding peek_loop
peek_loop_too_long [] more i result shift h long in_range at = absurd (omega arith)
peek_loop_too_long (b ∷ bs) more i result shift h long in_range at = ground (
  arith,
  bit_and-top_bit b,
  peek_loop_too_long bs more (i + 1) (next_result b result shift) (shift + 7) h.1,
)

pub peek_varint_too_long :
    (bytes more : List ℕ)
    → All Continues bytes
    → 10 ≤ length bytes
    → peek_varint (bytes ++ more) ≡ none
unfolding peek_varint
peek_varint_too_long bytes more h long =
    peek_loop_too_long bytes more 0 0 0 h (omega arith) (omega arith) refl

-- What has been read does not change when more bytes arrive.
peek_loop-append :
    (src more : List ℕ) (i result shift v n : ℕ)
    → peek_loop src i result shift ≡ some (v, n)
    → peek_loop (src ++ more) i result shift ≡ some (v, n)
unfolding peek_loop
peek_loop-append [] more i result shift v n e = cc
peek_loop-append (b ∷ bs) more i result shift v n e =
    ground (arith, peek_loop-append bs more (i + 1) (next_result b result shift) (shift + 7) v n)

-- A varint that is read takes at least one byte, at most ten, and at most those that are there.
peek_loop_takes :
    (src : List ℕ) (i result shift v n : ℕ)
    → peek_loop src i result shift ≡ some (v, n)
    → (i < n) × (n ≤ i + length src) × (n ≤ 10)
unfolding peek_loop
peek_loop_takes [] i result shift v n e = cc
peek_loop_takes (b ∷ bs) i result shift v n e =
    ground (arith, peek_loop_takes bs (i + 1) (next_result b result shift) (shift + 7) v n)

pub peek_varint_takes :
    (src : List ℕ) (v n : ℕ) → peek_varint src ≡ some (v, n) → (0 < n) × (n ≤ length src) × (n ≤ 10)
unfolding peek_varint
peek_varint_takes src v n e = omega (arith, peek_loop_takes src 0 0 0 v n e)

pub peek_varint-append :
    (src more : List ℕ) (v n : ℕ)
    → peek_varint src ≡ some (v, n)
    → peek_varint (src ++ more) ≡ some (v, n)
unfolding peek_varint
peek_varint-append src more v n e = peek_loop-append src more 0 0 0 v n e
