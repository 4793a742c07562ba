-- ===== src/WasmHost/Capability/Handles.antt =====
-- crates/rshome-wasm-host/src/capability.rs: the layout of a handle.
use zt_edge.Common.{ℕ, ◌+◌, ◌*◌, ◌/◌, ◌%◌, ◌^◌, ◌<◌, ◌≡◌, ◌∙◌, arith}
use zt_edge.Common.Bits.{bit_and-low_sixteen, bit_or_upper}
use zt_edge.WasmHost.Capability.{RightsOps, encode_handle, decode_handle, invalid_handle}

encode_handle-eq-sum :
    (id gen rights : ℕ)
    → id < 2 ^ 32
    → gen < 2 ^ 16
    → rights < 2 ^ 16
    → encode_handle id gen rights ≡ id * 2 ^ 32 + gen * 2 ^ 16 + rights
unfolding encode_handle
encode_handle-eq-sum id gen rights hi hg hr =
    rw (small, small', bit_or_upper 32 id (gen * 2 ^ 16) (omega arith), join)
      (bit_or_upper 16 (id * 2 ^ 16 + gen) rights hr ∙ omega arith)
  where
    small : (id * 2 ^ 32) % 2 ^ 64 ≡ id * 2 ^ 32
    small = omega arith

    small' : (gen * 2 ^ 16) % 2 ^ 64 ≡ gen * 2 ^ 16
    small' = omega arith

    join : id * 2 ^ 32 + gen * 2 ^ 16 ≡ (id * 2 ^ 16 + gen) * 2 ^ 16
    join = omega arith

-- Decoding the handle of a 32-bit id, a 16-bit generation and valid rights gives the three back; the
-- handle is a 64-bit number, and it is the invalid handle only if all three are zero.
pub decode_handle-encode_handle :
    (ops : RightsOps) (id gen rights : ℕ)
    → id < 2 ^ 32
    → gen < 2 ^ 16
    → rights < 16
    → (decode_handle ops (encode_handle id gen rights) ≡ (id, gen, rights))
      × (encode_handle id gen rights < 2 ^ 64)
      × (encode_handle id gen rights ≡ invalid_handle → (id ≡ 0) × (gen ≡ 0) × (rights ≡ 0))
unfolding decode_handle
decode_handle-encode_handle ops id gen rights hi hg hr =
    let sum = encode_handle-eq-sum id gen rights hi hg (omega arith) in
    let parts : decode_handle ops (encode_handle id gen rights) ≡ (id, gen, rights) = ground (
      arith,
      sum,
      bit_and-low_sixteen (encode_handle id gen rights / 2 ^ 16),
      bit_and-low_sixteen (encode_handle id gen rights),
      ops.truncate_valid rights hr,
    ) in
    (parts, omega arith, λ e. omega arith)
