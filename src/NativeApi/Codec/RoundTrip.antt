-- ===== src/NativeApi/Codec/RoundTrip.antt =====
-- crates/rshome-native-api/src/codec.rs: `decode` after `encode`.
use mathlib.Core.List.{append_assoc}
use native.Mathlib.Nat.{add_assoc, div-add-mod, mod-eq_of_lt}
use native.Mathlib.Numerals.{one-add, towards_suc}
use zt_edge.Common.{
  ℕ, zero, suc, ◌+◌, ◌*◌, ◌/◌, ◌%◌, ◌^◌, ◌≤◌, ◌<◌, ◌≡◌, refl, ap, ◌∙◌, bit_and, bit_or, some, List,
  ◌∷◌, ◌++◌, length, drop, length-append, drop-length-append, drop_past-append, take-length-append,
  arith,
}
use zt_edge.Common.Bits.{bit_and-low_seven, bit_and-top_bit, bit_or_disjoint}
use zt_edge.NativeApi.Codec.{
  peek_loop, peek_varint, decode_payload, decode_type, decode_length, decode, encode, frame,
  max_frame_payload,
}
use zt_edge.NativeApi.Codec.Encode.{groups, length-groups, frame_bytes, encode-frame_bytes}

-- The `|=` of one round, where the group fits below bit 64.
merge_group :
    (byte g result shift : ℕ)
    → byte % 128 ≡ g
    → result < 2 ^ shift
    → result + g * 2 ^ shift < 2 ^ 64
    → bit_or result ((bit_and byte 0x7f * 2 ^ shift) % 2 ^ 64) ≡ result + g * 2 ^ shift
merge_group byte g result shift e below fits = ground (
  arith,
  bit_and-low_seven byte,
  mod-eq_of_lt {n = g * 2 ^ shift} {m = 2 ^ 64},
  bit_or_disjoint shift result g,
)

last_byte :
    (w i result shift : ℕ) (rest : List ℕ)
    → w < 128
    → i < 10
    → result < 2 ^ shift
    → result + w * 2 ^ shift < 2 ^ 64
    → peek_loop (w ∷ rest) i result shift ≡ some (result + w * 2 ^ shift, i + 1)
unfolding peek_loop
last_byte w i result shift rest hw hi below fits =
    ground (arith, merge_group w w result shift, bit_and-top_bit w)

inner_byte :
    (g i result shift : ℕ) (rest : List ℕ)
    → g < 128
    → i < 10
    → shift < 57
    → result < 2 ^ shift
    → result + g * 2 ^ shift < 2 ^ 64
    → peek_loop ((g + 128) ∷ rest) i result shift
      ≡ peek_loop rest (i + 1) (result + g * 2 ^ shift) (shift + 7)
unfolding peek_loop
inner_byte g i result shift rest hg hi hs below fits =
    ground (arith, merge_group (g + 128) g result shift, bit_and-top_bit (g + 128))

seven_further : (s : ℕ) → 2 ^ (s + 7) ≡ 128 * 2 ^ s
seven_further s = simp towards_suc (omega arith)

next_below : (g result s : ℕ) → g < 128 → result < 2 ^ s → result + g * 2 ^ s < 2 ^ (s + 7)
next_below g result s hg below = grind (arith, seven_further s)

lowest_group : (w s : ℕ) → w * 2 ^ s ≡ w % 128 * 2 ^ s + w / 128 * 2 ^ (s + 7)
lowest_group w s = omega (
  arith,
  ap (λ (t : ℕ). t * 2 ^ s) (div-add-mod w 128),
  ap (λ (t : ℕ). w / 128 * t) (seven_further s),
)

-- `i` bytes have been read, and `w` counts from bit `7 * i` on.
peek_loop-groups :
    (k w i result shift : ℕ) (rest : List ℕ)
    → w < 128 ^ suc k
    → i + k ≤ 9
    → shift ≡ 7 * i
    → result < 2 ^ shift
    → result + w * 2 ^ shift < 2 ^ 64
    → peek_loop (groups k w ++ rest) i result shift
      ≡ some (result + w * 2 ^ shift, i + length (groups k w))
unfolding groups
peek_loop-groups zero w i result shift rest hw hi at below fits =
    last_byte w i result shift rest hw (omega arith) below fits
peek_loop-groups (suc k) w i result shift rest hw hi at below fits = ground (
  arith,
  last_byte w i result shift rest,
  lowest_group w shift,
  inner_byte (w % 128) i result shift (groups k (w / 128) ++ rest),
  next_below (w % 128) result shift,
  peek_loop-groups k (w / 128) (i + 1) (result + w % 128 * 2 ^ shift) (shift + 7) rest
      (omega arith),
)

pub peek_varint-groups :
    (v : ℕ) (rest : List ℕ)
    → v < 2 ^ 64
    → peek_varint (groups 9 v ++ rest) ≡ some (v, length (groups 9 v))
unfolding peek_varint
peek_varint-groups v rest h =
    ground (arith, peek_loop-groups 9 v 0 0 0 rest (omega arith) (omega arith) refl)

module _ (msg_type : ℕ) (payload rest : List ℕ) where
  abbrev length_part : List ℕ
  length_part = groups 9 (length payload)

  abbrev type_part : List ℕ
  type_part = groups 9 msg_type

  -- The buffer that starts with the frame, bracketed to the right.
  abbrev input : List ℕ
  input = 0 ∷ (length_part ++ (type_part ++ (payload ++ rest)))

  past_length : drop (1 + length length_part) input ≡ type_part ++ (payload ++ rest)
  past_length = rw one-add (drop-length-append length_part _)

  past_type : drop (1 + length length_part + length type_part) input ≡ payload ++ rest
  past_type =
      rw (add_assoc, one-add) (drop_past-append length_part _ _ ∙ drop-length-append type_part _)

  length-input :
      length input ≡ 1 + length length_part + length type_part + length payload + length rest
  length-input = omega (
    arith,
    length-append length_part (type_part ++ (payload ++ rest)),
    length-append type_part (payload ++ rest),
    length-append payload rest,
  )

  decode_payload-input :
      msg_type < 2 ^ 32
      → decode_payload input (length payload) (1 + length length_part + length type_part) msg_type
        ≡ (frame msg_type payload, rest)
  unfolding decode_payload
  decode_payload-input ht = ground (
    arith,
    length-input,
    past_type,
    take-length-append payload rest,
    drop-length-append payload rest,
  )

  decode_type-input :
      msg_type < 2 ^ 32
      → decode_type input (length payload) (1 + length length_part) ≡ (frame msg_type payload, rest)
  unfolding decode_type
  decode_type-input ht = ground (
    arith,
    length-input,
    length-groups 9 msg_type,
    past_length,
    peek_varint-groups msg_type (payload ++ rest) (omega arith),
    decode_payload-input ht,
  )

  decode-input :
      msg_type < 2 ^ 32
      → length payload ≤ max_frame_payload
      → decode input ≡ (frame msg_type payload, rest)
  unfolding decode decode_length
  decode-input ht hp = ground (
    arith,
    length-input,
    length-groups 9 (length payload),
    peek_varint-groups (length payload) (type_part ++ (payload ++ rest)) (omega arith),
    decode_type-input ht,
  )

pub decode-frame_bytes :
    (msg_type : ℕ) (payload rest : List ℕ)
    → msg_type < 2 ^ 32
    → length payload ≤ max_frame_payload
    → decode (frame_bytes msg_type payload ++ rest) ≡ (frame msg_type payload, rest)
decode-frame_bytes msg_type payload rest ht hp =
    simp append_assoc (decode-input msg_type payload rest ht hp)

-- Encoding any message whose type is a `u32` and whose payload is within the limit succeeds, and
-- decoding what it appended, with anything behind it, gives the message back and leaves exactly
-- what stood behind it.
pub decode-encode :
    (msg_type : ℕ) (payload dst rest : List ℕ)
    → msg_type < 2 ^ 32
    → length payload ≤ max_frame_payload
    → (bytes : List ℕ) × (encode msg_type payload dst ≡ some (dst ++ bytes))
      × (decode (bytes ++ rest) ≡ (frame msg_type payload, rest))
decode-encode msg_type payload dst rest ht hp = (
  frame_bytes msg_type payload,
  encode-frame_bytes msg_type payload dst ht (omega arith),
  decode-frame_bytes msg_type payload rest ht hp,
)
