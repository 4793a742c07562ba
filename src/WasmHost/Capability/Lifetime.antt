-- ===== src/WasmHost/Capability/Lifetime.antt =====
-- crates/rshome-wasm-host/src/capability.rs: a handle that is issued, used, revoked, removed.
use mathlib.Core.Logic.{ite}
use zt_edge.Common.{
  ℕ, ◌+◌, ◌%◌, ◌^◌, ◌≤◌, ◌<◌, ◌≡◌, ◌≢◌, refl, none, some, lookup, insert, lookup-insert,
  lookup-remove, ℕ_discrete, if◌then◌else◌, ok, err, Option-cases, Bool-cases, ◌==◌, inl, inr,
  arith,
}
use zt_edge.WasmHost.Capability.{
  new, RightsOps, ObjectEntry, ObjectRegistry, revoked, insufficient_rights, decode_handle, alloc,
  get, get_any, revoke, remove,
}
use zt_edge.WasmHost.Capability.Handles.{decode_handle-encode_handle}

bump_differs : (g : ℕ) → (g + 1) % 2 ^ 16 ≢ g
bump_differs g = omega arith

-- No object has an id that has not been issued.
pub record IsFresh {T : Type 0} (s : ObjectRegistry T) : Type 0 where
  pub positive : 1 ≤ s.next_id
  pub unissued : (id : ℕ) → s.next_id ≤ id → lookup ℕ_discrete id s.inner ≡ none

module _ (ops : RightsOps) {T : Type 0} where
  -- While fewer than 2^32 - 1 ids have been issued, a new object is found by its handle, with
  -- exactly the rights that it was issued with.
  pub get-alloc :
      (s : ObjectRegistry T) (value : T) (rights required : ℕ)
      → s.next_id < 2 ^ 32
      → rights < 16
      → let (s', handle) = alloc s value rights in
        get ops s' handle required ≡ (
          if ops.contains rights required
          then ok (record { value = value; generation = 1 })
          else err (insufficient_rights required rights))
  unfolding get alloc
  get-alloc s value rights required hs hr = ground (
    arith,
    decode_handle-encode_handle ops s.next_id 1 rights hs (omega arith) hr,
    lookup-insert ℕ_discrete s.next_id s.next_id
        (let e : ObjectEntry T = record { value = value; generation = 1 } in e) s.inner,
  )

  -- No operation gives an object an id that has not been issued: a new registry has none, and
  -- issuing a handle, while fewer than 2^32 - 2 ids have been issued, revoking and removing
  -- keep it so.
  pub IsFresh-kept :
      (s : ObjectRegistry T) (value : T) (rights handle : ℕ)
      → IsFresh s
      → IsFresh {T = T} new
        × (s.next_id + 1 < 2 ^ 32 → IsFresh (alloc s value rights).0)
        × IsFresh (revoke ops s handle).0
        × IsFresh (remove ops s handle).0
  unfolding new alloc revoke remove lookup
  IsFresh-kept s value rights handle v = (
    record { positive = omega arith; unissued = λ id above. refl },
    λ room. record {
      positive = omega (arith, v.positive);
      unissued = λ id above.
          rw (lookup-insert ℕ_discrete s.next_id id _ s.inner)
            (ground (arith, v.unissued id (omega arith)));
    },
    elim (Option-cases (lookup ℕ_discrete (decode_handle ops handle).0 s.inner)) [
      | inl e ↦ rw (e, revoke) v
      | inr (entry, e) ↦ elim (Bool-cases (entry.generation == (decode_handle ops handle).1)) [
        | inr old ↦ rw (e, old, revoke) v
        | inl now ↦
            rw (e, now, revoke)
              record {
                positive = v.positive;
                unissued = λ id above.
                    rw (lookup-insert ℕ_discrete (decode_handle ops handle).0 id _ s.inner) (
                      ground
                        (arith, e, v.unissued id above, v.unissued (decode_handle ops handle).0));
              }
      ]
    ],
    elim (Option-cases (lookup ℕ_discrete (decode_handle ops handle).0 s.inner)) [
      | inl e ↦ rw (e, remove) v
      | inr (entry, e) ↦
          rw (e, remove)
            record {
              positive = v.positive;
              unissued = λ id above. ground (
                arith,
                v.unissued id above,
                lookup-remove ℕ_discrete (decode_handle ops handle).0 id s.inner,
              );
            }
    ],
  )

  -- In a registry where no object has an id that has not been issued, an object that a handle
  -- gives is what it gives after another handle has been issued.
  pub get-alloc_old :
      (s : ObjectRegistry T) (value : T) (rights handle required : ℕ) (entry : ObjectEntry T)
      → IsFresh s
      → get ops s handle required ≡ ok entry
      → get ops (alloc s value rights).0 handle required ≡ ok entry
  unfolding get alloc
  get-alloc_old s value rights handle required entry v h =
      let id = (decode_handle ops handle).0 in
      ground (
        arith,
        lookup-insert ℕ_discrete s.next_id id
            (let e : ObjectEntry T = record { value = value; generation = 1 } in e) s.inner,
        v.unissued id,
      )

  revoke-eq-ok :
      (s s' : ObjectRegistry T) (handle : ℕ)
      → revoke ops s handle ≡ (s', ok tt)
      → (entry : ObjectEntry T) × (lookup ℕ_discrete (decode_handle ops handle).0 s.inner
          ≡ some entry)
        × (entry.generation ≡ (decode_handle ops handle).1)
        × (s' ≡ record s {
          inner =
              insert ℕ_discrete
                (decode_handle ops handle).0
                (record entry { generation = (entry.generation + 1) % 2 ^ 16 })
                s.inner;
        })
  unfolding revoke
  revoke-eq-ok s s' handle h =
      elim (Option-cases (lookup ℕ_discrete (decode_handle ops handle).0 s.inner)) [
        | inl e ↦ ground (arith, rw (e, revoke) at h)
        | inr (a, e) ↦
            (a, e, ground (arith, rw (e, revoke) at h), ground (arith, rw (e, revoke) at h))
      ]

  -- Once a handle has been revoked, `get`, `get_any` and `revoke` itself refuse it as revoked, and `get`
  -- answers as before on handles of other objects.
  pub revoke_final :
      (s s' : ObjectRegistry T) (handle other required : ℕ)
      → revoke ops s handle ≡ (s', ok tt)
      → (get ops s' handle required ≡ err revoked)
        × (get_any ops s' handle ≡ err revoked)
        × (revoke ops s' handle ≡ (s', err revoked))
        × ((decode_handle ops other).0 ≢ (decode_handle ops handle).0
            → get ops s' other required ≡ get ops s other required)
  unfolding revoke get get_any
  revoke_final s s' handle other required h =
      let (entry, found, now, is) = revoke-eq-ok s s' handle h in
      let fresh = bump_differs entry.generation in
      let after : (k : ℕ)
          → lookup ℕ_discrete k (
              insert ℕ_discrete (decode_handle ops handle).0
                (let e : ObjectEntry T = record entry {
                  generation = (entry.generation + 1) % 2 ^ 16;
                } in
                  e)
                s.inner)
            ≡ ite (ℕ_discrete (decode_handle ops handle).0 k)
                (some (
                  let e : ObjectEntry T = record entry {
                    generation = (entry.generation + 1) % 2 ^ 16;
                  } in
                  e))
                (lookup ℕ_discrete k s.inner) =
        λ k.
          lookup-insert ℕ_discrete (decode_handle ops handle).0 k
            (let e : ObjectEntry T = record entry {
              generation = (entry.generation + 1) % 2 ^ 16;
            } in
              e)
            s.inner in
      (
        rw is (ground (arith, after (decode_handle ops handle).0, now, fresh)),
        rw is (ground (arith, after (decode_handle ops handle).0, now, fresh)),
        rw is (ground (arith, after (decode_handle ops handle).0, now, fresh)),
        λ apart. rw is (ground (arith, after (decode_handle ops other).0, apart)),
      )
