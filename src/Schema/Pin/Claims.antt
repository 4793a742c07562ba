-- ===== src/Schema/Pin/Claims.antt =====
-- crates/rshome-schema/src/pin.rs: the claims of a tracker after any sequence of requests.
use zt_edge.Common.{
  ℕ, ◌≡◌, refl, ◌≢◌, none, List, [], ◌∷◌, ◌++◌, map, All, Distinct, Distinct-append_one,
  Option-cases, inl, inr, arith,
}
use zt_edge.Schema.Pin.{
  ComponentId, PinAllocation, ResourceTracker, new, find_pin, find_owner, allocate_pin,
  allocate_i2c, allocate_uart,
}

-- The calls that claim something.
pub data Request : Type 0 where
  claim_pin : PinAllocation → Request
  claim_i2c claim_uart : ℕ → ComponentId → Request

abbrev pub serve : ResourceTracker → Request → ResourceTracker
serve t (claim_pin a) = (allocate_pin t a).0
serve t (claim_i2c addr c) = (allocate_i2c t addr c).0
serve t (claim_uart port c) = (allocate_uart t port c).0

unfoldable pub serve_all : ResourceTracker → List Request → ResourceTracker
serve_all t [] = t
serve_all t (r ∷ rs) = serve_all (serve t r) rs

abbrev pub gpios : List PinAllocation → List ℕ
gpios = map (λ a. a.gpio_num)

abbrev pub numbers : List (ℕ × ComponentId) → List ℕ
numbers = map (λ e. e.0)

-- No GPIO, no bus address and no port is claimed twice.
pub record IsExclusive (t : ResourceTracker) : Type 0 where
  pub pins : Distinct (gpios t.pin_allocations)
  pub addresses : Distinct (numbers t.i2c_addresses)
  pub ports : Distinct (numbers t.uart_ports)

pub gpios-append_one :
    (xs : List PinAllocation) (a : PinAllocation)
    → gpios (xs ++ (a ∷ [])) ≡ gpios xs ++ (a.gpio_num ∷ [])
gpios-append_one [] a = refl
gpios-append_one (x ∷ xs) a = cc (gpios-append_one xs a)

numbers-append_one :
    (xs : List (ℕ × ComponentId)) (n : ℕ) (c : ComponentId)
    → numbers (xs ++ ((n, c) ∷ [])) ≡ numbers xs ++ (n ∷ [])
numbers-append_one [] n c = refl
numbers-append_one (x ∷ xs) n c = cc (numbers-append_one xs n c)

find_pin_none :
    (g : ℕ) (xs : List PinAllocation) → find_pin g xs ≡ none → All (λ x. x ≢ g) (gpios xs)
unfolding find_pin
find_pin_none g [] e = tt
find_pin_none g (x ∷ xs) e = ground (arith, find_pin_none g xs)

find_owner_none :
    (n : ℕ) (xs : List (ℕ × ComponentId)) → find_owner n xs ≡ none → All (λ x. x ≢ n) (numbers xs)
unfolding find_owner
find_owner_none n [] e = tt
find_owner_none n ((m, c) ∷ xs) e = ground (arith, find_owner_none n xs)

pub pins_grow :
    (xs : List PinAllocation) (a : PinAllocation)
    → find_pin a.gpio_num xs ≡ none
    → Distinct (gpios xs)
    → Distinct (gpios (xs ++ (a ∷ [])))
pins_grow xs a free d =
    rw (gpios-append_one xs a)
      (Distinct-append_one (gpios xs) a.gpio_num d (find_pin_none a.gpio_num xs free))

numbers_grow :
    (xs : List (ℕ × ComponentId)) (n : ℕ) (c : ComponentId)
    → find_owner n xs ≡ none
    → Distinct (numbers xs)
    → Distinct (numbers (xs ++ ((n, c) ∷ [])))
numbers_grow xs n c free d =
    rw (numbers-append_one xs n c)
      (Distinct-append_one (numbers xs) n d (find_owner_none n xs free))

serve-IsExclusive : (t : ResourceTracker) (r : Request) → IsExclusive t → IsExclusive (serve t r)
unfolding allocate_pin allocate_i2c allocate_uart
serve-IsExclusive t (claim_pin a) v = elim (Option-cases (find_pin a.gpio_num t.pin_allocations)) [
  | inl free ↦
      rw (free, serve, allocate_pin)
        (record {
          pins = pins_grow t.pin_allocations a free v.pins;
          addresses = v.addresses;
          ports = v.ports;
        })
  | inr (x, taken) ↦ rw (taken, serve, allocate_pin) v
]
serve-IsExclusive t (claim_i2c n c) v = elim (Option-cases (find_owner n t.i2c_addresses)) [
  | inl free ↦
      rw (free, serve, allocate_i2c)
        (record {
          pins = v.pins;
          addresses = numbers_grow t.i2c_addresses n c free v.addresses;
          ports = v.ports;
        })
  | inr (x, taken) ↦ rw (taken, serve, allocate_i2c) v
]
serve-IsExclusive t (claim_uart n c) v = elim (Option-cases (find_owner n t.uart_ports)) [
  | inl free ↦
      rw (free, serve, allocate_uart)
        (record {
          pins = v.pins;
          addresses = v.addresses;
          ports = numbers_grow t.uart_ports n c free v.ports;
        })
  | inr (x, taken) ↦ rw (taken, serve, allocate_uart) v
]

serve_all-IsExclusive :
    (t : ResourceTracker) (rs : List Request) → IsExclusive t → IsExclusive (serve_all t rs)
unfolding serve_all
serve_all-IsExclusive t [] v = v
serve_all-IsExclusive t (r ∷ rs) v = serve_all-IsExclusive (serve t r) rs (serve-IsExclusive t r v)

-- After any requests to a new tracker, granted or refused, no GPIO, no I2C address and no UART
-- port stands twice among the claims.
pub serve_all-new-IsExclusive : (rs : List Request) → IsExclusive (serve_all new rs)
unfolding new
serve_all-new-IsExclusive rs =
    serve_all-IsExclusive new rs (record { pins = tt; addresses = tt; ports = tt })
