-- ===== src/Examples/Objects.antt =====
-- One object and its handle.
use zt_edge.Common.{
  ℕ, ◌%◌, String, ◌<◌, ◌^◌, ◌≡◌, ◌≢◌, refl, lookup, insert, ℕ_discrete, ◌==◌, bit_and, err, arith,
}
use zt_edge.WasmHost.Capability.{
  RightsOps, ObjectRegistry, invalid_handle, encode_handle, decode_handle, new, alloc, get, get_any,
  revoke, revoked,
}
use zt_edge.WasmHost.Capability.Handles.{decode_handle-encode_handle}
use zt_edge.WasmHost.Capability.Lifetime.{IsFresh, revoke_final}

truncated : (bits : ℕ) → bits < 16 → bits % 16 ≡ bits
truncated bits h = omega arith

abbrev rights_ops : RightsOps
rights_ops = record {
  from_bits_truncate = λ bits. bits % 16;
  contains = λ have required. bit_and have required == required;
  truncate_valid = truncated;
}

abbrev timer : String
timer = "timer"

abbrev id : ℕ
id = 7

abbrev gen : ℕ
gen = 3

abbrev rights : ℕ
rights = 5

-- A registry with one object, one text, that may be read and invoked.
abbrev issued : ObjectRegistry String × ℕ
issued = alloc new timer 5

abbrev registry : ObjectRegistry String
registry = issued.0

abbrev handle : ℕ
handle = issued.1

decode_handle-encode_handle_example :
    (decode_handle rights_ops (encode_handle id gen rights) ≡ (id, gen, rights))
    × (encode_handle id gen rights < 2 ^ 64)
    × (encode_handle id gen rights ≡ invalid_handle → (id ≡ 0) × (gen ≡ 0) × (rights ≡ 0))
decode_handle-encode_handle_example =
    decode_handle-encode_handle rights_ops id gen rights (omega arith) (omega arith) (omega arith)

fresh : IsFresh {T = String} new
unfolding new lookup
fresh = record { positive = omega arith; unissued = λ id h. refl }

fresh_registry : IsFresh registry
unfolding new alloc lookup insert
fresh_registry = record { positive = omega arith; unissued = λ id h. ground arith }

abbrev after_revoke : ObjectRegistry String
after_revoke = (revoke rights_ops registry handle).0

revoke_final_example :
    (get rights_ops after_revoke handle 1 ≡ err revoked)
    × (get_any rights_ops after_revoke handle ≡ err revoked)
    × (revoke rights_ops after_revoke handle ≡ (after_revoke, err revoked))
    × ((decode_handle rights_ops 0).0 ≢ (decode_handle rights_ops handle).0
        → get rights_ops after_revoke 0 1 ≡ get rights_ops registry 0 1)
unfolding new alloc revoke lookup insert decode_handle encode_handle ℕ_discrete
revoke_final_example = revoke_final rights_ops registry after_revoke handle 0 1 refl
