-- ===== src/NativeApi/Codec/Partial.antt =====
-- crates/rshome-native-api/src/codec.rs: `decode` between two reads of the
-- socket, on a part of a frame and on what follows it.
use mathlib.Core.List.{append-nil}
use zt_edge.Common.{
  ℕ, ◌+◌, ◌^◌, ◌≤◌, ◌<◌, ◌≡◌, refl, ap, false, ◌≢◌, inl, inr, some, List, [], ◌∷◌, ◌++◌, length,
  take, drop, All, length-append, length-drop, take-append-drop, drop-append_within, ltb, leb, ◌==◌,
  Bool-cases, Option-cases, arith,
}
use zt_edge.NativeApi.Codec.{
  peek_varint, decode_type, decode_length, decode, need_more, frame, failed, Decoded,
  max_frame_payload,
}
use zt_edge.NativeApi.Codec.Encode.{Continues, frame_bytes}
use zt_edge.NativeApi.Codec.Peek.{peek_varint_too_long, peek_varint-append}
use zt_edge.NativeApi.Codec.Stream.{
  Outcome, waits, refuses, takes, decode-Outcome, decode_payload-append,
}
use zt_edge.NativeApi.Codec.RoundTrip.{decode-frame_bytes}

-- The answer `r` stands, with `more` left behind what it leaves.
abbrev pub Stands : Decoded × List ℕ → List ℕ → Decoded × List ℕ → Type 0
Stands r more r' = r.0 ≢ need_more → r' ≡ (r.0, r.1 ++ more)

decode_type-append :
    (src more : List ℕ) (len off : ℕ)
    → Stands (decode_type src len off) more (decode_type (src ++ more) len off)
unfolding decode_type
decode_type-append src more len off = elim (Bool-cases (leb (length src) off)) [
  | inl short ↦ rw short (λ settled. absurd (settled refl))
  | inr long ↦ elim (Option-cases (peek_varint (drop off src))) [
    | inl open_end ↦ rw (long, open_end, decode_type) (λ settled. absurd (settled refl))
    | inr ((t, n), read) ↦
        let beyond : leb (length (src ++ more)) off ≡ false =
          ground (arith, length-append src more) in
        let kept : peek_varint (drop off (src ++ more)) ≡ some (t, n) =
          rw (drop-append_within off src more (ground arith))
            (peek_varint-append (drop off src) more t n read) in
        rw (long, beyond, read, kept, decode_type) (decode_payload-append src more len (off + n) t)
  ]
]

decode_length-append :
    (src more : List ℕ)
    → 1 ≤ length src
    → Stands (decode_length src) more (decode_length (src ++ more))
unfolding decode_length
decode_length-append src more some_bytes = elim (Option-cases (peek_varint (drop 1 src))) [
  | inl open_end ↦ rw (open_end, decode_length) (λ settled. absurd (settled refl))
  | inr ((len, n), read) ↦
      let kept : peek_varint (drop 1 (src ++ more)) ≡ some (len, n) =
        rw (drop-append_within 1 src more some_bytes)
          (peek_varint-append (drop 1 src) more len n read) in
      elim (Bool-cases (ltb max_frame_payload len)) [
        | inl large ↦ rw (read, kept, large, decode_length) (λ settled. refl)
        | inr small ↦
            rw (read, kept, small, decode_length) (decode_type-append src more len (1 + n))
      ]
]

-- Once `decode` has answered with a frame or an error, bytes that arrive later do not change the
-- answer: they are found behind what it leaves.
pub decode-append :
    (src more : List ℕ)
    → (decode src).0 ≢ need_more
    → decode (src ++ more) ≡ ((decode src).0, (decode src).1 ++ more)
unfolding decode
decode-append [] more = λ settled. absurd (settled refl)
decode-append (b ∷ src) more = elim (Bool-cases (b == 0)) [
  | inl preamble ↦ elim (Bool-cases (ltb (length (b ∷ src)) 2)) [
    | inl short ↦ rw (preamble, short) (λ settled. absurd (settled refl))
    | inr long ↦
        let longer : ltb (length (b ∷ (src ++ more))) 2 ≡ false =
          ground (arith, length-append src more) in
        rw (preamble, long, longer) (decode_length-append (b ∷ src) more (omega arith))
  ]
  | inr other ↦ rw other (λ settled. refl)
]

-- Ten bytes that do not end the length are never refused: the decoder asks for more and keeps the
-- whole buffer, whatever follows them.
pub decode_stalls :
    (bytes more : List ℕ)
    → All Continues bytes
    → 10 ≤ length bytes
    → decode (0 ∷ (bytes ++ more)) ≡ (need_more, 0 ∷ (bytes ++ more))
unfolding decode decode_length
decode_stalls bytes more h long =
    ground (arith, length-append bytes more, peek_varint_too_long bytes more h long)

-- An answer on a part of a buffer that decodes to a frame with nothing left behind it.
part_waits :
    (front back p : List ℕ) (t : ℕ) {r : Decoded × List ℕ}
    → decode front ≡ r
    → Outcome front r
    → decode (front ++ back) ≡ (frame t p, [])
    → 0 < length back
    → r ≡ (need_more, front)
part_waits front back p t e waits whole more = refl
part_waits front back p t e (refuses x) whole more =
    let stands : decode (front ++ back) ≡ (failed x, front ++ back) =
      rw e at (decode-append front back (rw e (λ same. cc))) in
    cc
part_waits front back p t e (takes t' p' rest cut) whole more =
    let stands : decode (front ++ back) ≡ (frame t' p', rest ++ back) =
      rw e at (decode-append front back (rw e (λ same. cc))) in
    let nothing : rest ++ back ≡ [] = cc in
    absurd (omega (arith, ap length nothing, length-append rest back))

-- A proper part of an encoded message is never taken for a message nor refused: `decode` asks for
-- more and keeps the part.
pub decode_part :
    (msg_type n : ℕ) (payload : List ℕ)
    → msg_type < 2 ^ 32
    → length payload ≤ max_frame_payload
    → n < length (frame_bytes msg_type payload)
    → decode (take n (frame_bytes msg_type payload))
      ≡ (need_more, take n (frame_bytes msg_type payload))
decode_part msg_type n payload ht hp short =
    let bytes : List ℕ = frame_bytes msg_type payload in
    let whole : decode (take n bytes ++ drop n bytes) ≡ (frame msg_type payload, []) =
      rw (take-append-drop n bytes)
        (rw append-nil at (decode-frame_bytes msg_type payload [] ht hp)) in
    part_waits (take n bytes) (drop n bytes) payload msg_type refl (decode-Outcome (take n bytes))
      whole (omega (arith, length-drop n bytes))
