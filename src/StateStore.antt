-- ===== src/StateStore.antt =====
-- crates/rshome-state/src/store.rs: the store of entity states. An entity state only passes through,
-- so its type is a parameter, with its value `Unavailable`; a time is a number. The watch channels
-- of tokio are a record of operations with their documented laws. Each call holds the lock
-- throughout.
pub mod Latest
pub mod Channels
use zt_edge.Common.{
  ◌<>◌, ℕ, ◌+◌, ◌-◌, suc, ◌==◌, ◌≡◌, if◌then◌else◌, String, Option, none, some, List, [], ◌∷◌, map,
  length, Dict, lookup, insert, text_discrete,
}
use mathlib.Core.Option.{map as option_map}
use zt_edge.Common.Cut.{cut}

-- What the code uses of a watch channel, which is seen from the sender that keeps it. `channel` has
-- one receiver; `release` is the end of a receiver. A value that is sent while no receiver is left
-- is not stored.
pub record Watch (V : Type 0) : Type 1 where
  pub Channel : Type 0
  pub channel : V → Channel
  pub send : V → Channel → Channel
  pub subscribe : Channel → Channel
  pub release : Channel → Channel
  pub borrow : Channel → V
  pub receivers : Channel → ℕ
  pub borrow-channel : (v : V) → borrow (channel v) ≡ v
  pub borrow-send :
      (v : V) (c : Channel) → borrow (send v c) ≡ (if receivers c == 0 then borrow c else v)
  pub borrow-subscribe : (c : Channel) → borrow (subscribe c) ≡ borrow c
  pub borrow-release : (c : Channel) → borrow (release c) ≡ borrow c
  pub receivers-channel : (v : V) → receivers (channel v) ≡ 1
  pub receivers-send : (v : V) (c : Channel) → receivers (send v c) ≡ receivers c
  pub receivers-subscribe : (c : Channel) → receivers (subscribe c) ≡ receivers c + 1
  pub receivers-release : (c : Channel) → receivers (release c) ≡ receivers c - 1

pub record StateSnapshot (State : Type 0) : Type 0 where
  pub entity_id : String
  pub state : State
  pub last_updated : ℕ

module _ {State : Type 0} (watch : Watch (Option State)) where
  pub record Entry : Type 0 where
    pub state : State
    pub updated_at : ℕ
    pub sender : watch.Channel

  abbrev pub Inner : Type 0
  Inner = Dict String Entry

  -- The receiver of a new channel ends with the call.
  unfoldable pub update : ℕ → Inner → String → State → Inner
  update now s id state = elim (lookup text_discrete id s) [
    | some entry ↦
        insert text_discrete id
          (record {
            state = state;
            updated_at = now;
            sender = watch.send (some state) entry.sender;
          })
          s
    | none ↦
        insert text_discrete id
          (record {
            state = state;
            updated_at = now;
            sender = watch.release (watch.channel (some state));
          })
          s
  ]

  unfoldable pub get : Inner → String → Option State
  get s id = option_map (λ e. e.state) (lookup text_discrete id s)

  unfoldable pub get_all : Inner → Dict String State
  get_all s = map (λ e. (e.0, e.1.state)) s

  -- The store, and the value that the new receiver finds.
  unfoldable pub subscribe : State → ℕ → Inner → String → Inner × Option State
  subscribe unavailable now s id = elim (lookup text_discrete id s) [
    | some entry ↦ (
      insert text_discrete id (record entry { sender = watch.subscribe entry.sender }) s,
      watch.borrow (watch.subscribe entry.sender),
    )
    | none ↦ (
      insert text_discrete id
          (record { state = unavailable; updated_at = now; sender = watch.channel none }) s,
      watch.borrow (watch.channel none),
    )
  ]

  -- The end of a receiver of an entity, which its holder decides.
  unfoldable pub release : Inner → String → Inner
  release s id = elim (lookup text_discrete id s) [
    | some entry ↦ insert text_discrete id (record entry { sender = watch.release entry.sender }) s
    | none ↦ s
  ]

  unfoldable pub last_updated : Inner → String → Option ℕ
  last_updated s id = option_map (λ e. e.updated_at) (lookup text_discrete id s)

  unfoldable pub count : Inner → ℕ
  count s = length s

  unfoldable pub list_ids : Inner → List String
  list_ids s = map (λ e. e.0) s

  unfoldable pub snapshot : Inner → String → Option (StateSnapshot State)
  snapshot s id =
      option_map (λ e. (record { entity_id = id; state = e.state; last_updated = e.updated_at }))
        (lookup text_discrete id s)

  -- The loop of `restore_snapshot` over what was read: each text with its state, if serde reads one.
  unfoldable pub restore_snapshot : ℕ → Inner → List (String × Option State) → Inner × ℕ
  restore_snapshot now s [] = (s, 0)
  restore_snapshot now s ((id_str, none) ∷ rest) = restore_snapshot now s rest
  restore_snapshot now s ((id_str, some state) ∷ rest) = elim (cut "." id_str) [
    | none ↦ restore_snapshot now s rest
    | some (domain, object_id) ↦
        let (after, n) =
          restore_snapshot now (update now s (domain <> "." <> object_id) state) rest in
        (after, suc n)
  ]
