-- ===== src/NativeApi/Codec/Stream.antt =====
-- crates/rshome-native-api/src/codec.rs: `decode` on any buffer.
use zt_edge.Common.{
  ℕ, ◌+◌, ◌^◌, ◌≤◌, ◌<◌, ◌≡◌, ◌≢◌, inl, inr, List, [], ◌∷◌, ◌++◌, length, take, drop, length-append,
  length-take, length-drop, take-append-drop, take-append_within, drop-append_within, ltb, leb,
  ◌==◌, Bool-cases, Option-cases, arith,
}
use zt_edge.NativeApi.Codec.{
  peek_varint, decode_payload, decode_type, decode_length, decode, need_more, frame, failed,
  payload_too_large, invalid_preamble, Decoded, DecodeError, max_frame_payload,
}
use zt_edge.NativeApi.Codec.Peek.{peek_varint_takes}

-- What a frame that `decode` returns takes from the buffer.
pub record Taken (src : List ℕ) (msg_type : ℕ) (payload rest : List ℕ) : Type 0 where
  pub header : List ℕ
  pub split : src ≡ header ++ (payload ++ rest)
  pub header_bounds : (3 ≤ length header) × (length header ≤ 21)
  pub within : length payload ≤ max_frame_payload
  pub type_fits : msg_type < 2 ^ 32

-- The three answers, with the buffer that each leaves.
pub data Outcome (src : List ℕ) : Decoded × List ℕ → Type 0 where
  waits : Outcome src (need_more, src)
  refuses : (e : DecodeError) → Outcome src (failed e, src)
  takes : (t : ℕ) (p rest : List ℕ) → Taken src t p rest → Outcome src (frame t p, rest)

Taken-cut :
    (src : List ℕ) (len header_len t : ℕ)
    → 3 ≤ header_len
    → header_len ≤ 21
    → len ≤ max_frame_payload
    → t < 2 ^ 32
    → header_len + len ≤ length src
    → Taken src t (take len (drop header_len src)) (drop len (drop header_len src))
Taken-cut src len header_len t lo hi fits ht h = record {
  header = take header_len src;
  split = rw (take-append-drop len (drop header_len src)) (rw (take-append-drop header_len src));
  header_bounds = omega (arith, length-take header_len src);
  within = omega (arith, length-take len (drop header_len src), length-drop header_len src);
  type_fits = ht;
}

decode_payload-Outcome :
    (src : List ℕ) (len header_len t : ℕ)
    → 3 ≤ header_len
    → header_len ≤ 21
    → len ≤ max_frame_payload
    → Outcome src (decode_payload src len header_len t)
unfolding decode_payload
decode_payload-Outcome src len header_len t lo hi fits =
    elim (Bool-cases (ltb (length src) (header_len + len))) [
      | inl short ↦ rw short waits
      | inr whole ↦
          rw whole
            (takes _ _ _ (Taken-cut src len header_len _ lo hi fits (omega arith) (ground arith)))
    ]

decode_type-Outcome :
    (src : List ℕ) (len type_offset : ℕ)
    → 2 ≤ type_offset
    → type_offset ≤ 11
    → len ≤ max_frame_payload
    → Outcome src (decode_type src len type_offset)
unfolding decode_type
decode_type-Outcome src len type_offset lo hi fits =
    elim (Bool-cases (leb (length src) type_offset)) [
      | inl short ↦ rw short waits
      | inr long ↦ rw long (elim (Option-cases (peek_varint (drop type_offset src))) [
        | inl open_end ↦ rw (open_end, decode_type) waits
        | inr ((t, n), read) ↦
            let taken = peek_varint_takes (drop type_offset src) t n read in
            rw (read, decode_type)
              (decode_payload-Outcome src len (type_offset + n) t (omega arith) (omega arith) fits)
      ])
    ]

decode_length-Outcome : (src : List ℕ) → Outcome src (decode_length src)
unfolding decode_length
decode_length-Outcome src = elim (Option-cases (peek_varint (drop 1 src))) [
  | inl open_end ↦ rw (open_end, decode_length) waits
  | inr ((len, n), read) ↦
      let taken = peek_varint_takes (drop 1 src) len n read in
      rw (read, decode_length)
        (elim (Bool-cases (ltb max_frame_payload len)) [
          | inl large ↦ rw large (refuses (payload_too_large len))
          | inr small ↦
              rw small
                (decode_type-Outcome src len (1 + n) (omega arith) (omega arith) (ground arith))
        ])
]

-- Whatever the buffer holds, `decode` waits or refuses and leaves the buffer as it was, or it
-- returns a frame and takes exactly a header of 3 to 21 bytes and a payload within the limit from
-- the front of the buffer.
pub decode-Outcome : (src : List ℕ) → Outcome src (decode src)
unfolding decode
decode-Outcome [] = waits
decode-Outcome (b ∷ src) = elim (Bool-cases (b == 0)) [
  | inl preamble ↦ rw preamble (elim (Bool-cases (ltb (length (b ∷ src)) 2)) [
    | inl short ↦ rw short waits
    | inr long ↦ rw long (decode_length-Outcome (b ∷ src))
  ])
  | inr other ↦ rw other (refuses (invalid_preamble b))
]

-- More bytes do not change an answer that has been given.
pub decode_payload-append :
    (src more : List ℕ) (len header_len t : ℕ)
    → (decode_payload src len header_len t).0 ≢ need_more
    → decode_payload (src ++ more) len header_len t
      ≡ ((decode_payload src len header_len t).0, (decode_payload src len header_len t).1 ++ more)
unfolding decode_payload
decode_payload-append src more len header_len t settled = ground (
  arith,
  length-append src more,
  length-drop header_len src,
  drop-append_within header_len src more,
  take-append_within len (drop header_len src) more,
  drop-append_within len (drop header_len src) more,
)
