-- ===== src/WasmHost/Capability.antt =====
-- crates/rshome-wasm-host/src/capability.rs: capability handles and the registry that issues them.
-- A handle is a `u64`, an object id a `u32`, a generation and rights are `u16`s. Each operation is
-- one step; what other threads do between an operation's own loads and stores is not modelled.
pub mod Handles
pub mod Lifetime
use zt_edge.Common.{
  ℕ, ◌+◌, ◌*◌, ◌/◌, ◌%◌, ◌^◌, ◌<◌, ◌≡◌, bit_and, bit_or, Bool, true, false, not, Option, none, some,
  List, [], ◌∷◌, length, Dict, lookup, insert, remove as erase, ℕ_discrete, ◌==◌, if◌then◌else◌,
  Result, ok, err,
}

-- What the code uses of the `bitflags` type `Rights`: values are their bits; `READ`, `WRITE`,
-- `INVOKE` and `ADMIN` are the four lowest.
pub record RightsOps : Type 0 where
  pub from_bits_truncate : ℕ → ℕ
  pub contains : ℕ → ℕ → Bool
  pub truncate_valid : (bits : ℕ) → bits < 16 → from_bits_truncate bits ≡ bits

abbrev pub invalid_handle : ℕ
invalid_handle = 0

unfoldable pub encode_handle : ℕ → ℕ → ℕ → ℕ
encode_handle object_id generation rights =
    bit_or (bit_or ((object_id * 2 ^ 32) % 2 ^ 64) ((generation * 2 ^ 16) % 2 ^ 64)) rights

pub data CapError : Type 0 where
  not_found revoked : CapError
  insufficient_rights : ℕ → ℕ → CapError

pub record ObjectEntry (T : Type 0) : Type 0 where
  pub value : T
  pub generation : ℕ

pub record ObjectRegistry (T : Type 0) : Type 0 where
  pub inner : Dict ℕ (ObjectEntry T)
  pub next_id : ℕ

module _ {T : Type 0} where
  unfoldable pub new : ObjectRegistry T
  new = record { inner = []; next_id = 1 }

  -- `fetch_add` wraps.
  unfoldable pub alloc : ObjectRegistry T → T → ℕ → ObjectRegistry T × ℕ
  alloc s value rights = (
    record {
      inner = insert ℕ_discrete s.next_id (record { value = value; generation = 1 }) s.inner;
      next_id = (s.next_id + 1) % 2 ^ 32;
    },
    encode_handle s.next_id 1 rights,
  )

  unfoldable pub len : ObjectRegistry T → ℕ
  len s = length s.inner

module _ (ops : RightsOps) where
  unfoldable pub decode_handle : ℕ → ℕ × ℕ × ℕ
  decode_handle handle = (
    (handle / 2 ^ 32) % 2 ^ 32,
    bit_and (handle / 2 ^ 16) 0xffff % 2 ^ 16,
    ops.from_bits_truncate (bit_and handle 0xffff % 2 ^ 16),
  )

  module _ {T : Type 0} where
    unfoldable pub get_any : ObjectRegistry T → ℕ → Result CapError (ObjectEntry T)
    get_any s handle =
        let (id, gen, _) = decode_handle handle in
        elim (lookup ℕ_discrete id s.inner) [
          | none ↦ err not_found
          | some entry ↦ if not (entry.generation == gen) then err revoked else ok entry
        ]

    unfoldable pub get : ObjectRegistry T → ℕ → ℕ → Result CapError (ObjectEntry T)
    get s handle required =
        let (id, gen, have) = decode_handle handle in
        elim (lookup ℕ_discrete id s.inner) [
          | none ↦ err not_found
          | some entry ↦
              if not (entry.generation == gen)
              then err revoked
              else if not (ops.contains have required)
              then err (insufficient_rights required have)
              else ok entry
        ]

    -- `fetch_add` wraps here too.
    unfoldable pub revoke : ObjectRegistry T → ℕ → ObjectRegistry T × Result CapError (Unit {0})
    revoke s handle =
        let (id, gen, _) = decode_handle handle in
        elim (lookup ℕ_discrete id s.inner) [
          | none ↦ (s, err not_found)
          | some entry ↦ if not (entry.generation == gen) then (s, err revoked) else (
            record s {
              inner =
                  insert ℕ_discrete id
                    (record entry { generation = (entry.generation + 1) % 2 ^ 16 }) s.inner;
            },
            ok tt,
          )
        ]

    unfoldable pub remove : ObjectRegistry T → ℕ → ObjectRegistry T × Result CapError (Unit {0})
    remove s handle =
        let (id, gen, _) = decode_handle handle in
        elim (lookup ℕ_discrete id s.inner) [
          | none ↦ (s, err not_found)
          | some entry ↦ (
            record s { inner = erase ℕ_discrete id s.inner },
            if not (entry.generation == gen) then err revoked else ok tt,
          )
        ]
