-- ===== src/DeviceLink/Manager/Staleness.antt =====
-- crates/rshome-device-link/src/manager.rs: the periodic check, and announcements over time.
use mathlib.Core.Option.{map as option_map}
use zt_edge.Common.{
  ℕ, ◌≡◌, refl, ◌∙◌, String, true, false, none, some, List, [], ◌∷◌, Dict, lookup, remove,
  text_discrete, lookup-insert, lookup-remove, arith, All, has, if◌then◌else◌,
}
use zt_edge.DeviceLink.Manager.{DiscoveredDevice, Manager, Env, eviction_threshold, elapsed_reaches}
use zt_edge.DeviceLink.Manager.Handlers.{evict, stop_and_remove, check_staleness, device_discovered}
use zt_edge.DeviceLink.Manager.Steps.{age, age_one, mark_stale, is_evictable, to_evict}
use zt_edge.DeviceLink.Manager.Records.{IsOwn-age, IsOwn-lookup, to_evict-unidentified}
use zt_edge.DeviceLink.Manager.Valid.{IsValid}

lookup-age_some :
    (now : ℕ) (id : String) (m : Dict String DiscoveredDevice)
    → lookup text_discrete id (age now m) ≡ option_map (age_one now) (lookup text_discrete id m)
unfolding age lookup
lookup-age_some now id [] = refl
lookup-age_some now id ((k, e) ∷ m) = ground (arith, lookup-age_some now id m)

-- A record that is due is on the list.
to_evict-has :
    (now : ℕ) (identified : Dict String String) (id : String) (d : DiscoveredDevice)
    (m : Dict String DiscoveredDevice)
    → lookup text_discrete id m ≡ some d
    → is_evictable now identified d ≡ true
    → has (to_evict now identified m) id ≡ true
unfolding to_evict lookup has
to_evict-has now identified id d [] h due = ground (arith, h)
to_evict-has now identified id d ((k, e) ∷ m) h due =
    ground (arith, h, due, to_evict-has now identified id d m)

has-All :
    (m : Dict String String) (ids : List String) (id c : String)
    → All (λ k. lookup text_discrete k m ≡ none) ids
    → lookup text_discrete id m ≡ some c
    → has ids id ≡ false
unfolding has
has-All m [] id c h k = refl
has-All m (x ∷ ids) id c (h, hs) k = ground (arith, h, k, has-All m ids id c hs k)

-- A record of a device that was never identified is due after ten minutes of silence.
age_one-evictable :
    (now : ℕ) (identified : Dict String String) (d : DiscoveredDevice)
    → elapsed_reaches now d.last_seen_at eviction_threshold ≡ true
    → lookup text_discrete d.device_id identified ≡ none
    → is_evictable now identified (age_one now d) ≡ true
unfolding age_one mark_stale is_evictable elapsed_reaches
age_one-evictable now identified d old plain = ground (arith, old, plain)

module _ (State : Type 0) where
  -- Evicting takes the listed devices' records and sessions, and nothing else.
  lookup-evict :
      (ids : List String) (s : Manager) (id : String)
      → let s' = (evict {State = State} s ids).0 in
        (lookup text_discrete id s'.discovered
          ≡ (if has ids id then none else lookup text_discrete id s.discovered))
        × (lookup text_discrete id s'.sessions
            ≡ (if has ids id then none else lookup text_discrete id s.sessions))
  unfolding evict stop_and_remove has
  lookup-evict [] s id = (refl, refl)
  lookup-evict (k ∷ ids) s id =
      let after : Manager = record s {
        discovered = remove text_discrete k s.discovered;
        sessions = remove text_discrete k s.sessions;
      } in
      let (d, r) = lookup-evict ids after id in
      (
        d ∙ ground (arith, lookup-remove text_discrete k id s.discovered),
        r ∙ ground (arith, lookup-remove text_discrete k id s.sessions),
      )

  -- With the records in order, the periodic check never evicts a device that is identified: its
  -- session stays, and its discovery record, if it is silent for 90 seconds marked as stale.
  pub check_staleness_keeps :
      (env : Env) (s : Manager) (id c : String)
      → IsValid s
      → lookup text_discrete id s.provisional_to_canonical ≡ some c
      → let s' = (check_staleness {State = State} env s).0 in
        (lookup text_discrete id s'.sessions ≡ lookup text_discrete id s.sessions)
        × (lookup text_discrete id s'.discovered
            ≡ option_map (age_one env.now) (lookup text_discrete id s.discovered))
  unfolding check_staleness
  check_staleness_keeps env s id c v h =
      let aged = age env.now s.discovered in
      let (d, r) =
        lookup-evict (to_evict env.now s.provisional_to_canonical aged)
          (record s { discovered = aged }) id in
      let spared =
        has-All s.provisional_to_canonical (to_evict env.now s.provisional_to_canonical aged) id c
          (to_evict-unidentified env.now s.provisional_to_canonical aged
            (IsOwn-age env.now s.discovered v.own))
          h in
      (r ∙ rw spared refl, d ∙ rw spared (lookup-age_some env.now id s.discovered))

  -- With the records in order, a device that is not identified and has not been announced for ten
  -- minutes loses its record and its session at the next check.
  pub check_staleness_evicts :
      (env : Env) (s : Manager) (id : String) (d : DiscoveredDevice)
      → IsValid s
      → lookup text_discrete id s.discovered ≡ some d
      → elapsed_reaches env.now d.last_seen_at eviction_threshold ≡ true
      → lookup text_discrete id s.provisional_to_canonical ≡ none
      → let s' = (check_staleness {State = State} env s).0 in
        (lookup text_discrete id s'.discovered ≡ none)
        × (lookup text_discrete id s'.sessions ≡ none)
  unfolding check_staleness
  check_staleness_evicts env s id d v h old plain =
      let aged = age env.now s.discovered in
      let (gone, stopped) =
        lookup-evict (to_evict env.now s.provisional_to_canonical aged)
          (record s { discovered = aged }) id in
      let due : is_evictable env.now s.provisional_to_canonical (age_one env.now d) ≡ true =
        age_one-evictable env.now s.provisional_to_canonical d old
          (rw (IsOwn-lookup id d s.discovered v.own h) plain) in
      let listed =
        to_evict-has env.now s.provisional_to_canonical id (age_one env.now d) aged
          (lookup-age_some env.now id s.discovered ∙ rw h refl) due in
      (gone ∙ rw listed refl, stopped ∙ rw listed refl)

  -- A device that announces itself again keeps everything but the time it was last seen and the
  -- stale mark: no second session is started, and the time it was first seen stays.
  pub device_discovered_again :
      (env : Env) (s : Manager) (device old : DiscoveredDevice)
      → lookup text_discrete device.device_id s.discovered ≡ some old
      → let (s', sent) = device_discovered {State = State} env s device in
        (sent ≡ [])
        × (s' ≡ record s { discovered = s'.discovered })
        × (lookup text_discrete device.device_id s'.discovered
            ≡ some (record old { last_seen_at = env.now; is_stale = false }))
  unfolding device_discovered
  device_discovered_again env s device old h =
      rw (h, device_discovered)
        (
          refl,
          refl,
          ground (
            arith,
            lookup-insert text_discrete device.device_id device.device_id
                (let d : DiscoveredDevice = record old {
                  last_seen_at = env.now;
                  is_stale = false;
                } in
                  d)
                s.discovered,
          ),
        )
