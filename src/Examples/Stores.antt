-- ===== src/Examples/Stores.antt =====
-- A store with one lamp that is switched on and off, and a sensor that is only watched.
use zt_edge.Common.{
  ◌≡◌, refl, ℕ, String, none, some, Option, List, [], ◌∷◌, ◌++◌, or_else, if◌then◌else◌, lookup,
  insert, map, text_discrete,
}
use zt_edge.Common.Cut.{cut, strip}
use zt_edge.StateStore.{
  Watch, Inner, update, get, get_all, release, subscribe, snapshot, restore_snapshot, last_updated,
  count, list_ids,
}
use zt_edge.StateStore.Channels.{counted}
use zt_edge.StateStore.Latest.{
  Call, updates, subscribes, releases, after, last_update, last_sent, is_known, alive, get-after,
  update_unheard,
}

-- A state is a text.
abbrev gone : String
gone = "unavailable"

abbrev channels : Watch (Option String)
channels = counted

-- The last call stands first: the lamp is switched off when nobody listens.
abbrev calls : List (Call String)
calls =
    updates 5 "light.hall" "off"
    ∷ releases "light.hall"
    ∷ updates 4 "light.hall" "on"
    ∷ subscribes 3 "light.hall"
    ∷ updates 2 "light.hall" "dim"
    ∷ subscribes 1 "sensor.door"
    ∷ []

get-after_example :
    (get channels (after channels gone calls) "light.hall"
      ≡ or_else
          (last_update "light.hall" calls)
          (if is_known "light.hall" calls then some gone else none))
    × ((subscribe channels gone 6 (after channels gone calls) "light.hall").1
        ≡ last_sent "light.hall" calls)
get-after_example = get-after channels gone "light.hall" 6 calls

update_unheard_example :
    let s = after channels gone (
      updates 8 "light.hall" "on"
      ∷ (map {A = ℕ × String} (λ p. updates p.0 "light.hall" p.1) ((7, "red") ∷ []) ++ calls)) in
    (get channels s "light.hall" ≡ some "on")
    × ((subscribe channels gone 9 s "light.hall").1
        ≡ (subscribe channels gone 9 (after channels gone calls) "light.hall").1)
unfolding alive is_known text_discrete
update_unheard_example =
    update_unheard channels gone "light.hall" 9 8 "on" ((7, "red") ∷ []) calls refl refl

missed : (subscribe channels gone 6 (after channels gone calls) "light.hall").1 ≡ some "on"
unfolding after update subscribe insert lookup release text_discrete
missed = refl

-- A snapshot with a state that cannot be read and a text without a dot.
abbrev restored : Inner channels × ℕ
restored =
    restore_snapshot channels 9 []
      (("light.hall", some "on") ∷ ("door", some "open") ∷ ("sensor.door", none) ∷ [])

restored_lamp :
    (restored.1 ≡ 1)
    × (get channels restored.0 "light.hall" ≡ some "on")
    × (get_all channels restored.0 ≡ ("light.hall", "on") ∷ [])
    × (last_updated channels restored.0 "light.hall" ≡ some 9)
    × (count channels restored.0 ≡ 1)
    × (list_ids channels restored.0 ≡ "light.hall" ∷ [])
    × (snapshot channels restored.0 "light.hall"
        ≡ some (record { entity_id = "light.hall"; state = "on"; last_updated = 9 }))
unfolding restore_snapshot cut strip get lookup update insert text_discrete get_all last_updated
    count list_ids snapshot
restored_lamp = (refl, refl, refl, refl, refl, refl, refl)
