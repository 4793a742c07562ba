-- ===== src/Examples/Frames.antt =====
-- Frames of the native API, and hashes of entity names.
use zt_edge.Common.{ℕ, ◌≡◌, some, List, [], ◌∷◌, ◌++◌, take, arith}
use zt_edge.NativeApi.Codec.{
  encode, decode, decode_length, decode_type, decode_payload, peek_varint, peek_loop, frame,
  need_more,
}
use zt_edge.NativeApi.Codec.Encode.{frame_bytes, groups}
use zt_edge.NativeApi.Codec.RoundTrip.{decode-encode}
use zt_edge.NativeApi.Codec.Stream.{Outcome, decode-Outcome}
use zt_edge.NativeApi.Codec.Partial.{decode-append, decode_stalls, decode_part}

abbrev payload : List ℕ
payload = 1 ∷ 2 ∷ 3 ∷ []

abbrev endless : List ℕ
endless = 128 ∷ 129 ∷ 130 ∷ 131 ∷ 132 ∷ 133 ∷ 134 ∷ 135 ∷ 136 ∷ 137 ∷ []

decode-encode_example :
    (bytes : List ℕ) × (encode 300 payload (9 ∷ []) ≡ some ((9 ∷ []) ++ bytes))
    × (decode (bytes ++ (0 ∷ 5 ∷ [])) ≡ (frame 300 payload, 0 ∷ 5 ∷ []))
decode-encode_example = decode-encode 300 payload (9 ∷ []) (0 ∷ 5 ∷ []) (omega arith) (omega arith)

decode_part_example :
    decode (take 4 (frame_bytes 300 payload)) ≡ (need_more, take 4 (frame_bytes 300 payload))
unfolding groups
decode_part_example = decode_part 300 4 payload (omega arith) (omega arith) (omega arith)

decode-Outcome_example : Outcome (0 ∷ 1 ∷ 7 ∷ 42 ∷ 0 ∷ []) (decode (0 ∷ 1 ∷ 7 ∷ 42 ∷ 0 ∷ []))
decode-Outcome_example = decode-Outcome (0 ∷ 1 ∷ 7 ∷ 42 ∷ 0 ∷ [])

decode-append_example :
    decode ((0 ∷ 1 ∷ 7 ∷ 42 ∷ []) ++ (0 ∷ 2 ∷ []))
    ≡ ((decode (0 ∷ 1 ∷ 7 ∷ 42 ∷ [])).0, (decode (0 ∷ 1 ∷ 7 ∷ 42 ∷ [])).1 ++ (0 ∷ 2 ∷ []))
unfolding decode decode_length decode_type decode_payload peek_varint peek_loop
decode-append_example = decode-append (0 ∷ 1 ∷ 7 ∷ 42 ∷ []) (0 ∷ 2 ∷ []) (λ e. cc)

decode_stalls_example : decode (0 ∷ (endless ++ (1 ∷ []))) ≡ (need_more, 0 ∷ (endless ++ (1 ∷ [])))
decode_stalls_example = decode_stalls endless (1 ∷ []) (omega arith) (omega arith)
