-- ===== src/NativeApi/Fnv.antt =====
-- crates/rshome-native-api/src/fnv.rs: the 32-bit FNV-1a hash of a text's bytes.
use zt_edge.Common.{ℕ, ◌*◌, ◌%◌, ◌^◌, ◌<◌, ◌≡◌, refl, bit_xor, List, [], ◌∷◌, ◌++◌, arith}

abbrev pub offset_basis : ℕ
offset_basis = 0x811c9dc5

abbrev pub prime : ℕ
prime = 0x01000193

-- One round of the loop: `hash ^= byte`, then a multiplication that wraps at 32 bits.
pub hash_byte : ℕ → ℕ → ℕ
hash_byte hash byte = (bit_xor hash byte * prime) % 2 ^ 32

pub hash_from : ℕ → List ℕ → ℕ
hash_from hash [] = hash
hash_from hash (byte ∷ rest) = hash_from (hash_byte hash byte) rest

unfoldable pub fnv1a_32 : List ℕ → ℕ
unfolding hash_from hash_byte
fnv1a_32 s = hash_from offset_basis s

hash_from-append : (h : ℕ) (s t : List ℕ) → hash_from h (s ++ t) ≡ hash_from (hash_from h s) t
unfolding hash_from
hash_from-append h [] t = refl
hash_from-append h (b ∷ s) t = hash_from-append (hash_byte h b) s t

hash_from_bounded : (h : ℕ) (s : List ℕ) → h < 2 ^ 32 → hash_from h s < 2 ^ 32
unfolding hash_from hash_byte
hash_from_bounded h [] b = b
hash_from_bounded h (x ∷ s) b = hash_from_bounded (hash_byte h x) s (omega arith)

-- The hash of any text is a 32-bit number, and hashing a text whose bytes are `s` followed by `t`
-- is hashing `t` from the hash of `s`.
pub fnv1a_32_incremental :
    (s t : List ℕ) → (fnv1a_32 (s ++ t) < 2 ^ 32) × (fnv1a_32 (s ++ t) ≡ hash_from (fnv1a_32 s) t)
unfolding fnv1a_32
fnv1a_32_incremental s t =
    (hash_from_bounded offset_basis (s ++ t) (omega arith), hash_from-append offset_basis s t)
