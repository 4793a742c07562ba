-- ===== src/NativeApi/Codec.antt =====
-- crates/rshome-native-api/src/codec.rs: frames `0x00 | varint(len) | varint(type) | payload`.
-- A buffer is a list of bytes; a `u64` and a `u32` are numbers with their wrap-around written out.
pub mod Encode
pub mod Peek
pub mod RoundTrip
pub mod Stream
pub mod Partial
use zt_edge.Common.{
  ℕ, zero, suc, ◌+◌, ◌*◌, ◌/◌, ◌%◌, ◌^◌, ◌<◌, ◌≡◌, bit_and, bit_or, Bool, true, false, Option, none,
  some, List, [], ◌∷◌, ◌++◌, length, take, drop, ltb, leb, ◌==◌, if◌then◌else◌, not,
}

-- 64 KiB.
abbrev pub max_frame_payload : ℕ
max_frame_payload = 64 * 1024

abbrev pub max_varint_bytes : ℕ
max_varint_bytes = 10

abbrev pub IsByte : ℕ → Type 0
IsByte b = b < 256

-- The loop of `peek_varint`: `i` is the counter of `enumerate`. A left shift of a `u64` drops the
-- bits that it moves out.
unfoldable pub peek_loop : List ℕ → ℕ → ℕ → ℕ → Option (ℕ × ℕ)
peek_loop [] i result shift = none
peek_loop (byte ∷ rest) i result shift =
    let result' = bit_or result ((bit_and byte 0x7f * 2 ^ shift) % 2 ^ 64) in
    let more = peek_loop rest (i + 1) result' (shift + 7) in
    if leb max_varint_bytes i
    then none
    else if bit_and byte 0x80 == 0
    then some (result', i + 1)
    else if leb 64 (shift + 7)
    then none
    else more

-- The value and the number of bytes that it takes; `none` is incomplete or too long.
unfoldable pub peek_varint : List ℕ → Option (ℕ × ℕ)
peek_varint src = peek_loop src 0 0 0

-- The `loop` of `write_varint`, in rounds; `none` means that the rounds ran out.
unfoldable pub write_loop : ℕ → ℕ → List ℕ → Option (List ℕ)
write_loop zero v dst = none
write_loop (suc rounds) v dst =
    let byte = bit_and v 0x7f % 256 in
    let v' = v / 2 ^ 7 in
    let more = write_loop rounds v' (dst ++ (bit_or byte 0x80 ∷ [])) in
    if v' == 0 then some (dst ++ (byte ∷ [])) else more

-- A `u64` takes at most ten rounds.
unfoldable pub write_varint : ℕ → List ℕ → Option (List ℕ)
write_varint value dst = write_loop max_varint_bytes value dst

-- The two `InvalidData` errors of `decode`.
pub data DecodeError : Type 0 where
  invalid_preamble : ℕ → DecodeError
  payload_too_large : ℕ → DecodeError

-- `Ok(None)`, `Ok(Some((msg_type, payload)))` and `Err(e)`.
pub data Decoded : Type 0 where
  need_more : Decoded
  frame : ℕ → List ℕ → Decoded
  failed : DecodeError → Decoded

-- The end of `decode`: the whole header has been read, `payload_len` is within the limit, so the
-- cast to `usize` and the sum do not wrap.
unfoldable pub decode_payload : List ℕ → ℕ → ℕ → ℕ → Decoded × List ℕ
decode_payload src payload_len header_len msg_type =
    if ltb (length src) (header_len + payload_len) then (need_more, src) else (
      frame (msg_type % 2 ^ 32) (take payload_len (drop header_len src)),
      drop payload_len (drop header_len src),
    )

unfoldable pub decode_type : List ℕ → ℕ → ℕ → Decoded × List ℕ
decode_type src payload_len type_offset =
    if leb (length src) type_offset
    then (need_more, src)
    else elim (peek_varint (drop type_offset src)) [
      | none ↦ (need_more, src)
      | some (msg_type, type_bytes) ↦
          decode_payload src payload_len (type_offset + type_bytes) msg_type
    ]

unfoldable pub decode_length : List ℕ → Decoded × List ℕ
decode_length src = elim (peek_varint (drop 1 src)) [
  | none ↦ (need_more, src)
  | some (payload_len, len_bytes) ↦
      if ltb max_frame_payload payload_len
      then (failed (payload_too_large payload_len), src)
      else decode_type src payload_len (1 + len_bytes)
]

-- `Decoder::decode`: the answer, and the buffer that is left.
unfoldable pub decode : List ℕ → Decoded × List ℕ
decode [] = (need_more, [])
decode (byte ∷ rest) =
    if not (byte == 0)
    then (failed (invalid_preamble byte), byte ∷ rest)
    else if ltb (length (byte ∷ rest)) 2
    then (need_more, byte ∷ rest)
    else decode_length (byte ∷ rest)

-- `Encoder::encode`, with `payload.len() as u64` on a 64-bit target.
unfoldable pub encode : ℕ → List ℕ → List ℕ → Option (List ℕ)
encode msg_type payload dst = elim (write_varint (length payload) (dst ++ (0 ∷ []))) [
  | none ↦ none
  | some dst' ↦ elim (write_varint msg_type dst') [
    | none ↦ none
    | some dst'' ↦ some (dst'' ++ payload)
  ]
]
