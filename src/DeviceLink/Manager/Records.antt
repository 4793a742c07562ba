-- ===== src/DeviceLink/Manager/Records.antt =====
-- crates/rshome-device-link/src/manager.rs: facts about the discovery records and their ageing.
use zt_edge.Common.{
  ℕ, ◌≡◌, refl, String, none, some, [], ◌∷◌, length, Dict, lookup, insert, remove, text_discrete,
  All, arith,
}
use zt_edge.DeviceLink.Manager.{DiscoveredDevice}
use zt_edge.DeviceLink.Manager.Steps.{age, age_one, mark_stale, to_evict, is_evictable}

-- Each discovery record stands under its own device id.
unfoldable pub IsOwn : Dict String DiscoveredDevice → Type 0
IsOwn m = All (λ e. e.1.device_id ≡ e.0) m

pub IsOwn-insert :
    (id : String) (d : DiscoveredDevice) (m : Dict String DiscoveredDevice)
    → d.device_id ≡ id
    → IsOwn m
    → IsOwn (insert text_discrete id d m)
unfolding IsOwn insert
IsOwn-insert id d [] h v = ground (arith, h)
IsOwn-insert id d ((k, e) ∷ m) h (v, w) = ground (arith, IsOwn-insert id d m h w)

pub IsOwn-remove :
    (id : String) (m : Dict String DiscoveredDevice) → IsOwn m → IsOwn (remove text_discrete id m)
unfolding IsOwn remove
IsOwn-remove id [] v = v
IsOwn-remove id ((k, e) ∷ m) (v, w) = ground (arith, IsOwn-remove id m w)

pub IsOwn-lookup :
    (id : String) (d : DiscoveredDevice) (m : Dict String DiscoveredDevice)
    → IsOwn m
    → lookup text_discrete id m ≡ some d
    → d.device_id ≡ id
unfolding IsOwn lookup
IsOwn-lookup id d [] v h = ground (arith, h)
IsOwn-lookup id d ((k, e) ∷ m) (v, w) h = ground (arith, IsOwn-lookup id d m w)

pub IsOwn-age : (now : ℕ) (m : Dict String DiscoveredDevice) → IsOwn m → IsOwn (age now m)
unfolding IsOwn age age_one mark_stale
IsOwn-age now [] v = v
IsOwn-age now ((k, e) ∷ m) (v, w) = ground (arith, IsOwn-age now m w)

pub length-age : (now : ℕ) (m : Dict String DiscoveredDevice) → length (age now m) ≡ length m
unfolding age
length-age now [] = refl
length-age now ((k, e) ∷ m) = ground (arith, length-age now m)

pub lookup-age :
    (now : ℕ) (id : String) (m : Dict String DiscoveredDevice)
    → lookup text_discrete id (age now m) ≡ none
    → lookup text_discrete id m ≡ none
unfolding age lookup
lookup-age now id [] h = refl
lookup-age now id ((k, e) ∷ m) h = ground (arith, lookup-age now id m)

-- No identified device is evicted.
pub to_evict-unidentified :
    (now : ℕ) (identified : Dict String String) (m : Dict String DiscoveredDevice)
    → IsOwn m
    → All (λ id. lookup text_discrete id identified ≡ none) (to_evict now identified m)
unfolding IsOwn to_evict is_evictable
to_evict-unidentified now identified [] v = tt
to_evict-unidentified now identified ((k, d) ∷ more) (v, w) =
    ground (arith, to_evict-unidentified now identified more w)
