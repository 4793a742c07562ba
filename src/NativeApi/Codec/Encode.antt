-- ===== src/NativeApi/Codec/Encode.antt =====
-- crates/rshome-native-api/src/codec.rs: what `write_varint` and `encode` write.
use mathlib.Core.List.{append_assoc}
use zt_edge.Common.{
  ℕ, zero, suc, ◌+◌, ◌/◌, ◌%◌, ◌^◌, ◌≤◌, ◌<◌, ◌≡◌, ap, bit_and, bit_or, some, List, [], ◌∷◌, ◌++◌,
  length, take, All, ltb, if◌then◌else◌, Bool-cases, inl, inr, arith,
}
use zt_edge.Common.Bits.{bit_and-low_seven, bit_or-top_bit}
use zt_edge.NativeApi.Codec.{write_loop, write_varint, encode}

-- The groups of seven digits of `v` below 128 ^ (k + 1), lowest first, all but the last marked.
unfoldable pub groups : ℕ → ℕ → List ℕ
groups zero v = v ∷ []
groups (suc k) v =
    let higher = groups k (v / 128) in if ltb v 128 then v ∷ [] else (v % 128 + 128) ∷ higher

abbrev pub Continues : ℕ → Type 0
Continues b = (128 ≤ b) × (b < 256)

low_group : (v : ℕ) → bit_and v 0x7f % 256 ≡ v % 128
low_group v = omega (arith, bit_and-low_seven v)

marked_group : (v : ℕ) → bit_or (bit_and v 0x7f % 256) 0x80 ≡ v % 128 + 128
marked_group v = ground (arith, low_group v, bit_or-top_bit (v % 128))

write_loop-groups :
    (k v : ℕ) (dst : List ℕ) → v < 128 ^ suc k → write_loop (suc k) v dst ≡ some (dst ++ groups k v)
unfolding write_loop groups
write_loop-groups zero v dst h = ground (arith, low_group v)
write_loop-groups (suc k) v dst h =
    let marked : List ℕ = (v % 128 + 128) ∷ [] in
    ground (
      arith,
      low_group v,
      marked_group v,
      write_loop-groups k (v / 128) (dst ++ marked) (omega arith),
      append_assoc dst marked (groups k (v / 128)),
    )

-- Ten rounds are enough for every `u64`.
pub write_varint-groups :
    (v : ℕ) (dst : List ℕ) → v < 2 ^ 64 → write_varint v dst ≡ some (dst ++ groups 9 v)
unfolding write_varint
write_varint-groups v dst h = write_loop-groups 9 v dst (omega arith)

pub length-groups : (k v : ℕ) → (1 ≤ length (groups k v)) × (length (groups k v) ≤ k + 1)
unfolding groups
length-groups zero v = omega arith
length-groups (suc k) v = ground (arith, length-groups k (v / 128))

-- Every proper prefix of the groups is made of marked bytes.
pub take-groups-Continues :
    (k v n : ℕ) → n < length (groups k v) → v < 128 ^ suc k → All Continues (take n (groups k v))
unfolding groups
take-groups-Continues k v zero h b = tt
take-groups-Continues zero v (suc n) h b = absurd (omega arith)
take-groups-Continues (suc k) v (suc n) h b = elim (Bool-cases (ltb v 128)) [
  | inl small ↦ absurd (ground arith)
  | inr large ↦
      let higher : All Continues (take n (groups k (v / 128))) =
        take-groups-Continues k (v / 128) n (ground arith) (omega arith) in
      rw large ((omega arith), higher)
]

-- The frame of a message.
abbrev pub frame_bytes : ℕ → List ℕ → List ℕ
frame_bytes msg_type payload = 0 ∷ (groups 9 (length payload) ++ (groups 9 msg_type ++ payload))

pub encode-frame_bytes :
    (msg_type : ℕ) (payload dst : List ℕ)
    → msg_type < 2 ^ 32
    → length payload < 2 ^ 64
    → encode msg_type payload dst ≡ some (dst ++ frame_bytes msg_type payload)
unfolding encode
encode-frame_bytes msg_type payload dst ht hp =
    let start : List ℕ = dst ++ (0 ∷ []) in
    let after : List ℕ = start ++ groups 9 (length payload) in
    rw (write_varint-groups (length payload) start hp, encode)
      (rw (write_varint-groups msg_type after (omega arith), encode) (ap some (simp append_assoc)))
