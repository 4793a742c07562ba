-- ===== src/StateStore/Latest.antt =====
-- crates/rshome-state/src/store.rs: what a reader and a receiver find after any calls.
use zt_edge.Common.{
  ℕ, ◌+◌, ◌-◌, ◌==◌, ◌≡◌, refl, sym, ◌∙◌, String, Bool, true, false, ◌&&◌, Option, none, some, List,
  [], ◌∷◌, ◌++◌, map, lookup, insert, text_discrete, ite, or_else, unwrap_or, lookup-insert,
  Option-cases, inl, inr, arith, if◌then◌else◌,
}
use mathlib.Core.Option.{map as option_map}
use zt_edge.StateStore.{Watch, Entry, Inner, update, get, subscribe, release}

-- The calls that change the store, with their times, and the ends of receivers.
pub data Call (State : Type 0) : Type 0 where
  updates : ℕ → String → State → Call State
  subscribes : ℕ → String → Call State
  releases : String → Call State

module _ {State : Type 0} where
  -- The last state that a history, whose last call stands first, gives an entity.
  unfoldable pub last_update : String → List (Call State) → Option State
  last_update id [] = none
  last_update id (updates now k state ∷ cs) =
      ite (text_discrete k id) (some state) (last_update id cs)
  last_update id (subscribes now k ∷ cs) = last_update id cs
  last_update id (releases k ∷ cs) = last_update id cs

  -- Whether an entity was updated or subscribed to.
  unfoldable pub is_known : String → List (Call State) → Bool
  is_known id [] = false
  is_known id (updates now k state ∷ cs) = ite (text_discrete k id) true (is_known id cs)
  is_known id (subscribes now k ∷ cs) = ite (text_discrete k id) true (is_known id cs)
  is_known id (releases k ∷ cs) = is_known id cs

  -- How many receivers of an entity there are.
  unfoldable pub alive : String → List (Call State) → ℕ
  alive id [] = 0
  alive id (updates now k state ∷ cs) = alive id cs
  alive id (subscribes now k ∷ cs) = let n = alive id cs in ite (text_discrete k id) (n + 1) n
  alive id (releases k ∷ cs) = let n = alive id cs in ite (text_discrete k id) (n - 1) n

  -- The last state of an entity that was stored in its channel: an update reaches the channel if it
  -- makes the entity known or if there is a receiver.
  unfoldable pub last_sent : String → List (Call State) → Option State
  last_sent id [] = none
  last_sent id (updates now k state ∷ cs) =
      let before = last_sent id cs in
      ite (text_discrete k id) (if is_known id cs && (alive id cs == 0) then before else some state)
        before
  last_sent id (subscribes now k ∷ cs) = last_sent id cs
  last_sent id (releases k ∷ cs) = last_sent id cs

module _ {State : Type 0} (watch : Watch (Option State)) (unavailable : State) where
  abbrev pub serve : Inner watch → Call State → Inner watch
  serve s (updates now id state) = update watch now s id state
  serve s (subscribes now id) = (subscribe watch unavailable now s id).0
  serve s (releases id) = release watch s id

  -- The store that a history leaves, from an empty one.
  unfoldable pub after : List (Call State) → Inner watch
  after [] = []
  after (c ∷ cs) = serve (after cs) c

  -- What is known of one entity: its state, what a receiver sees, and how many there are.
  abbrev View : Type 0
  View = Option (State × Option State × ℕ)

  abbrev entry_view : Entry watch → State × Option State × ℕ
  entry_view e = (e.state, watch.borrow e.sender, watch.receivers e.sender)

  abbrev view : Inner watch → String → View
  view s id = option_map entry_view (lookup text_discrete id s)

  -- What the history says of it.
  abbrev told : String → List (Call State) → View
  told id cs =
      if is_known id cs
      then some (unwrap_or (last_update id cs) unavailable, last_sent id cs, alive id cs)
      else none

  view-insert :
      (s : Inner watch) (k id : String) (e : Entry watch)
      → view (insert text_discrete k e s) id
        ≡ ite (text_discrete k id) (some (entry_view e)) (view s id)
  view-insert s k id e = ground (arith, lookup-insert text_discrete k id e s)

  -- The three calls on what is known of an entity.
  abbrev updated : State → View → View
  updated state none = some (state, some state, 0)
  updated state (some (old, sent, n)) = some (state, if n == 0 then sent else some state, n)

  abbrev subscribed : View → View
  subscribed none = some (unavailable, none, 1)
  subscribed (some (old, sent, n)) = some (old, sent, n + 1)

  abbrev released : View → View
  released none = none
  released (some (old, sent, n)) = some (old, sent, n - 1)

  view-update :
      (s : Inner watch) (now : ℕ) (k id : String) (state : State)
      → view (update watch now s k state) id
        ≡ ite (text_discrete k id) (updated state (view s id)) (view s id)
  unfolding update
  view-update s now k id state = elim (Option-cases (lookup text_discrete k s)) [
    | inl e ↦
        rw (e, update)
          (view-insert s k id _
            ∙ ground (
              arith,
              e,
              watch.borrow-release (watch.channel (some state)),
              watch.borrow-channel (some state),
              watch.receivers-release (watch.channel (some state)),
              watch.receivers-channel (some state),
            ))
    | inr (entry, e) ↦
        rw (e, update)
          (view-insert s k id _
            ∙ ground (
              arith,
              e,
              watch.borrow-send (some state) entry.sender,
              watch.receivers-send (some state) entry.sender,
            ))
  ]

  view-subscribe :
      (s : Inner watch) (now : ℕ) (k id : String)
      → view (subscribe watch unavailable now s k).0 id
        ≡ ite (text_discrete k id) (subscribed (view s id)) (view s id)
  unfolding subscribe
  view-subscribe s now k id = elim (Option-cases (lookup text_discrete k s)) [
    | inl e ↦
        rw (e, subscribe)
          (view-insert s k id _
            ∙ (ground (arith, e, watch.borrow-channel none, watch.receivers-channel none)))
    | inr (entry, e) ↦
        rw (e, subscribe)
          (view-insert s k id _
            ∙ (ground (
              arith,
              e,
              watch.borrow-subscribe entry.sender,
              watch.receivers-subscribe entry.sender,
            )))
  ]

  view-release :
      (s : Inner watch) (k id : String)
      → view (release watch s k) id ≡ ite (text_discrete k id) (released (view s id)) (view s id)
  unfolding release
  view-release s k id = elim (Option-cases (lookup text_discrete k s)) [
    | inl e ↦ rw (e, release) (ground (arith, e))
    | inr (entry, e) ↦
        rw (e, release)
          (view-insert s k id _
            ∙ (ground (
              arith,
              e,
              watch.borrow-release entry.sender,
              watch.receivers-release entry.sender,
            )))
  ]

  -- An entity that nobody has named.
  unknown :
      (id : String) (cs : List (Call State))
      → is_known id cs ≡ false
      → (alive id cs ≡ 0) × (last_sent id cs ≡ none) × (last_update id cs ≡ none)
  unfolding is_known alive last_sent last_update
  unknown id [] h = (refl, refl, refl)
  unknown id (updates now k state ∷ cs) h = ground (arith, unknown id cs)
  unknown id (subscribes now k ∷ cs) h = ground (arith, unknown id cs)
  unknown id (releases k ∷ cs) h = ground (arith, unknown id cs)

  view-after : (id : String) (cs : List (Call State)) → view (after cs) id ≡ told id cs
  unfolding after is_known alive last_sent last_update lookup
  view-after id [] = refl
  view-after id (updates now k state ∷ cs) =
      view-update (after cs) now k id state ∙ ground (arith, view-after id cs, unknown id cs)
  view-after id (subscribes now k ∷ cs) =
      view-subscribe (after cs) now k id ∙ ground (arith, view-after id cs, unknown id cs)
  view-after id (releases k ∷ cs) =
      view-release (after cs) k id ∙ ground (arith, view-after id cs, unknown id cs)

  receiver_sees :
      (s : Inner watch) (now : ℕ) (id : String)
      → (subscribe watch unavailable now s id).1
        ≡ elim (view s id) [ none ↦ none | some (state, sent, n) ↦ sent ]
  unfolding subscribe
  receiver_sees s now id = elim (Option-cases (lookup text_discrete id s)) [
    | inl e ↦ rw (e, subscribe) (watch.borrow-channel none)
    | inr (entry, e) ↦ rw (e, subscribe) (watch.borrow-subscribe entry.sender)
  ]

  -- After any history of updates, subscriptions and ends of receivers from an empty store, a reader
  -- finds the last state that an update gave the entity, `Unavailable` if it was only subscribed
  -- to, and nothing if neither happened. A new receiver sees the last state that reached the
  -- channel: that of the last update that found a receiver or made the entity known.
  pub get-after :
      (id : String) (now : ℕ) (cs : List (Call State))
      → (get watch (after cs) id
          ≡ or_else (last_update id cs) (if is_known id cs then some unavailable else none))
        × ((subscribe watch unavailable now (after cs) id).1 ≡ last_sent id cs)
  unfolding get
  get-after id now cs =
      let known = view-after id cs in
      (
        ground (arith, known, unknown id cs),
        receiver_sees (after cs) now id ∙ ground (arith, known, unknown id cs),
      )

  last_sent_kept :
      (id : String) (cs : List (Call State)) (states : List (ℕ × State))
      → is_known id cs ≡ true
      → alive id cs ≡ 0
      → let more = map (λ p. updates p.0 id p.1) states ++ cs in
        (last_sent id more ≡ last_sent id cs) × (is_known id more ≡ true) × (alive id more ≡ 0)
  unfolding is_known alive last_sent
  last_sent_kept id cs [] k a = (refl, k, a)
  last_sent_kept id cs (p ∷ states) k a = ground (arith, last_sent_kept id cs states k a)

  -- Where an entity is known and its receivers have all ended, updates change what a reader finds,
  -- which is the last of them, and not what the next receiver sees, however many they are.
  pub update_unheard :
      (id : String) (now last : ℕ) (state : State) (states : List (ℕ × State))
      (cs : List (Call State))
      → is_known id cs ≡ true
      → alive id cs ≡ 0
      → let s = after (updates last id state ∷ (map (λ p. updates p.0 id p.1) states ++ cs)) in
        (get watch s id ≡ some state)
        × ((subscribe watch unavailable now s id).1
            ≡ (subscribe watch unavailable now (after cs) id).1)
  unfolding last_update
  update_unheard id now last state states cs k a =
      let all = (last, state) ∷ states in
      let more = map (λ p. updates p.0 id p.1) all ++ cs in
      let (found, seen) = get-after id now more in
      (found ∙ ground arith, seen ∙ (last_sent_kept id cs all k a).0 ∙ sym (get-after id now cs).1)
