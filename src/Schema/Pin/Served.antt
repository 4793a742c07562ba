-- ===== src/Schema/Pin/Served.antt =====
-- crates/rshome-schema/src/pin.rs: what a new tracker holds and answers after any requests.
use mathlib.Core.List.{append_assoc, append-nil}
use zt_edge.Common.{
  ℕ, ◌≡◌, refl, sym, ap, ◌∙◌, Option, none, some, List, [], ◌∷◌, ◌++◌, ◌==◌, ◌||◌, Bool, true,
  false, if◌then◌else◌, or_else, is_some, Option-cases, Bool-cases, inl, inr, Result, ok, err,
  arith,
}
use zt_edge.Schema.Pin.{
  ComponentId, PinAllocation, PinConflict, BusConflict, ResourceTracker, new, find_pin, find_owner,
  allocate_pin, allocate_i2c, allocate_uart,
}
use zt_edge.Schema.Pin.Claims.{Request, claim_pin, claim_i2c, claim_uart, serve_all}

-- The requests of each kind.
unfoldable pub pin_claims : List Request → List PinAllocation
pin_claims [] = []
pin_claims (claim_pin a ∷ rs) = a ∷ pin_claims rs
pin_claims (claim_i2c _ _ ∷ rs) = pin_claims rs
pin_claims (claim_uart _ _ ∷ rs) = pin_claims rs

unfoldable pub i2c_claims : List Request → List (ℕ × ComponentId)
i2c_claims [] = []
i2c_claims (claim_i2c n c ∷ rs) = (n, c) ∷ i2c_claims rs
i2c_claims (claim_pin _ ∷ rs) = i2c_claims rs
i2c_claims (claim_uart _ _ ∷ rs) = i2c_claims rs

unfoldable pub uart_claims : List Request → List (ℕ × ComponentId)
uart_claims [] = []
uart_claims (claim_uart n c ∷ rs) = (n, c) ∷ uart_claims rs
uart_claims (claim_pin _ ∷ rs) = uart_claims rs
uart_claims (claim_i2c _ _ ∷ rs) = uart_claims rs

-- The first claim of each number, in their order.
module _ {A : Type 0} (key : A → ℕ) where
  unfoldable pub others : ℕ → List A → List A
  others n [] = []
  others n (x ∷ xs) = let rest = others n xs in if key x == n then rest else x ∷ rest

  unfoldable pub firsts : List A → List A
  firsts [] = []
  firsts (x ∷ xs) = x ∷ others (key x) (firsts xs)

  -- Those whose number is not found by some search.
  unfoldable free_ones : (ℕ → Bool) → List A → List A
  free_ones taken [] = []
  free_ones taken (x ∷ xs) =
      let rest = free_ones taken xs in if taken (key x) then rest else x ∷ rest

  free_ones-others :
      (taken later : ℕ → Bool) (n : ℕ) (xs : List A)
      → ((k : ℕ) → later k ≡ (taken k || (n == k)))
      → free_ones later xs ≡ free_ones taken (others n xs)
  unfolding free_ones others
  free_ones-others taken later n [] h = refl
  free_ones-others taken later n (x ∷ xs) h =
      ground (arith, h (key x), free_ones-others taken later n xs h)

  -- A number that is taken already.
  free_ones_taken :
      (taken : ℕ → Bool) (n : ℕ) (xs : List A)
      → taken n ≡ true
      → free_ones taken (others n xs) ≡ free_ones taken xs
  unfolding free_ones others
  free_ones_taken taken n [] h = refl
  free_ones_taken taken n (x ∷ xs) h = elim (Bool-cases (key x == n)) [
    | inl same ↦
        let at : taken (key x) ≡ true = ap taken (ground arith) ∙ h in
        ground (arith, at, free_ones_taken taken n xs h)
    | inr other ↦ ground (arith, other, free_ones_taken taken n xs h)
  ]

  free_ones_all :
      (taken : ℕ → Bool) (xs : List A) → ((k : ℕ) → taken k ≡ false) → free_ones taken xs ≡ xs
  unfolding free_ones
  free_ones_all taken [] h = refl
  free_ones_all taken (x ∷ xs) h = ground (arith, h (key x), free_ones_all taken xs h)

  module _ (xs : List A) (x : A) (claims : List A) (taken : ℕ → Bool) where
    added :
        (later : ℕ → Bool)
        → taken (key x) ≡ false
        → ((k : ℕ) → later k ≡ (taken k || (key x == k)))
        → (xs ++ (x ∷ [])) ++ free_ones later (firsts claims)
          ≡ xs ++ free_ones taken (firsts (x ∷ claims))
    unfolding firsts free_ones
    added later free h =
        append_assoc xs (x ∷ []) _
        ∙ ap (λ ys. xs ++ (x ∷ ys)) (free_ones-others taken later (key x) (firsts claims) h)
        ∙ rw (free, free_ones) refl

    refused :
        taken (key x) ≡ true
        → xs ++ free_ones taken (firsts claims) ≡ xs ++ free_ones taken (firsts (x ∷ claims))
    unfolding firsts free_ones
    refused h = rw (h, free_ones, free_ones_taken taken (key x) (firsts claims) h) refl

find_pin-append_one :
    (g : ℕ) (xs : List PinAllocation) (a : PinAllocation)
    → find_pin g (xs ++ (a ∷ []))
      ≡ or_else (find_pin g xs) (if a.gpio_num == g then some a else none)
unfolding find_pin
find_pin-append_one g [] a = refl
find_pin-append_one g (x ∷ xs) a = ground (arith, find_pin-append_one g xs a)

find_owner-append_one :
    (n : ℕ) (xs : List (ℕ × ComponentId)) (m : ℕ) (c : ComponentId)
    → find_owner n (xs ++ ((m, c) ∷ []))
      ≡ or_else (find_owner n xs) (if m == n then some c else none)
unfolding find_owner
find_owner-append_one n [] m c = refl
find_owner-append_one n ((k, d) ∷ xs) m c = ground (arith, find_owner-append_one n xs m c)

abbrev pin_taken : List PinAllocation → ℕ → Bool
pin_taken xs g = is_some (find_pin g xs)

abbrev owner_taken : List (ℕ × ComponentId) → ℕ → Bool
owner_taken xs n = is_some (find_owner n xs)

abbrev pub gpio_of : PinAllocation → ℕ
gpio_of a = a.gpio_num

abbrev pub number_of : ℕ × ComponentId → ℕ
number_of e = e.0

-- What the requests make of the claims that are there.
abbrev pins_left : List PinAllocation → List PinAllocation → List PinAllocation
pins_left xs claims = xs ++ free_ones gpio_of (pin_taken xs) (firsts gpio_of claims)

abbrev owners_left : List (ℕ × ComponentId) → List (ℕ × ComponentId) → List (ℕ × ComponentId)
owners_left xs claims = xs ++ free_ones number_of (owner_taken xs) (firsts number_of claims)

pins_left-allocate :
    (t : ResourceTracker) (a : PinAllocation) (claims : List PinAllocation)
    → pins_left (allocate_pin t a).0.pin_allocations claims
      ≡ pins_left t.pin_allocations (a ∷ claims)
unfolding allocate_pin
pins_left-allocate t a claims = elim (Option-cases (find_pin a.gpio_num t.pin_allocations)) [
  | inl free ↦
      rw (free, allocate_pin)
        (added gpio_of t.pin_allocations a claims (pin_taken t.pin_allocations) _ (ap is_some free)
          λ k. ground (arith, find_pin-append_one k t.pin_allocations a))
  | inr (x, taken) ↦
      rw (taken, allocate_pin)
        (refused gpio_of t.pin_allocations a claims (pin_taken t.pin_allocations)
          (ap is_some taken))
]

i2c_left-allocate :
    (t : ResourceTracker) (n : ℕ) (c : ComponentId) (claims : List (ℕ × ComponentId))
    → owners_left (allocate_i2c t n c).0.i2c_addresses claims
      ≡ owners_left t.i2c_addresses ((n, c) ∷ claims)
unfolding allocate_i2c
i2c_left-allocate t n c claims = elim (Option-cases (find_owner n t.i2c_addresses)) [
  | inl free ↦
      rw (free, allocate_i2c)
        (added number_of t.i2c_addresses (n, c) claims (owner_taken t.i2c_addresses) _
          (ap is_some free) λ k. ground (arith, find_owner-append_one k t.i2c_addresses n c))
  | inr (x, taken) ↦
      rw (taken, allocate_i2c)
        (refused number_of t.i2c_addresses (n, c) claims (owner_taken t.i2c_addresses)
          (ap is_some taken))
]

uart_left-allocate :
    (t : ResourceTracker) (n : ℕ) (c : ComponentId) (claims : List (ℕ × ComponentId))
    → owners_left (allocate_uart t n c).0.uart_ports claims
      ≡ owners_left t.uart_ports ((n, c) ∷ claims)
unfolding allocate_uart
uart_left-allocate t n c claims = elim (Option-cases (find_owner n t.uart_ports)) [
  | inl free ↦
      rw (free, allocate_uart)
        (added number_of t.uart_ports (n, c) claims (owner_taken t.uart_ports) _ (ap is_some free)
          λ k. ground (arith, find_owner-append_one k t.uart_ports n c))
  | inr (x, taken) ↦
      rw (taken, allocate_uart)
        (refused number_of t.uart_ports (n, c) claims (owner_taken t.uart_ports) (ap is_some taken))
]

allocate_pin_others :
    (t : ResourceTracker) (a : PinAllocation)
    → ((allocate_pin t a).0.i2c_addresses ≡ t.i2c_addresses)
      × ((allocate_pin t a).0.uart_ports ≡ t.uart_ports)
unfolding allocate_pin
allocate_pin_others t a = ground arith

allocate_i2c_others :
    (t : ResourceTracker) (n : ℕ) (c : ComponentId)
    → ((allocate_i2c t n c).0.pin_allocations ≡ t.pin_allocations)
      × ((allocate_i2c t n c).0.uart_ports ≡ t.uart_ports)
unfolding allocate_i2c
allocate_i2c_others t n c = ground arith

allocate_uart_others :
    (t : ResourceTracker) (n : ℕ) (c : ComponentId)
    → ((allocate_uart t n c).0.pin_allocations ≡ t.pin_allocations)
      × ((allocate_uart t n c).0.i2c_addresses ≡ t.i2c_addresses)
unfolding allocate_uart
allocate_uart_others t n c = ground arith

serve_all_left :
    (t : ResourceTracker) (rs : List Request)
    → ((serve_all t rs).pin_allocations ≡ pins_left t.pin_allocations (pin_claims rs))
      × ((serve_all t rs).i2c_addresses ≡ owners_left t.i2c_addresses (i2c_claims rs))
      × ((serve_all t rs).uart_ports ≡ owners_left t.uart_ports (uart_claims rs))
unfolding serve_all pin_claims i2c_claims uart_claims
serve_all_left t [] =
    unfold firsts free_ones in (sym (append-nil _), sym (append-nil _), sym (append-nil _))
serve_all_left t (claim_pin a ∷ rs) =
    let (p, i, u) = serve_all_left (allocate_pin t a).0 rs in
    let (same_i, same_u) = allocate_pin_others t a in
    (
      p ∙ pins_left-allocate t a (pin_claims rs),
      i ∙ ap (λ xs. owners_left xs (i2c_claims rs)) same_i,
      u ∙ ap (λ xs. owners_left xs (uart_claims rs)) same_u,
    )
serve_all_left t (claim_i2c n c ∷ rs) =
    let (p, i, u) = serve_all_left (allocate_i2c t n c).0 rs in
    let (same_p, same_u) = allocate_i2c_others t n c in
    (
      p ∙ ap (λ xs. pins_left xs (pin_claims rs)) same_p,
      i ∙ i2c_left-allocate t n c (i2c_claims rs),
      u ∙ ap (λ xs. owners_left xs (uart_claims rs)) same_u,
    )
serve_all_left t (claim_uart n c ∷ rs) =
    let (p, i, u) = serve_all_left (allocate_uart t n c).0 rs in
    let (same_p, same_i) = allocate_uart_others t n c in
    (
      p ∙ ap (λ xs. pins_left xs (pin_claims rs)) same_p,
      i ∙ ap (λ xs. owners_left xs (i2c_claims rs)) same_i,
      u ∙ uart_left-allocate t n c (uart_claims rs),
    )

find_pin-others :
    (g n : ℕ) (xs : List PinAllocation)
    → (n == g) ≡ false
    → find_pin g (others gpio_of n xs) ≡ find_pin g xs
unfolding find_pin others
find_pin-others g n [] h = refl
find_pin-others g n (x ∷ xs) h = ground (arith, find_pin-others g n xs)

find_pin-firsts : (g : ℕ) (xs : List PinAllocation) → find_pin g (firsts gpio_of xs) ≡ find_pin g xs
unfolding find_pin firsts
find_pin-firsts g [] = refl
find_pin-firsts g (x ∷ xs) =
    ground (arith, find_pin-others g x.gpio_num (firsts gpio_of xs), find_pin-firsts g xs)

find_owner-others :
    (g n : ℕ) (xs : List (ℕ × ComponentId))
    → (n == g) ≡ false
    → find_owner g (others number_of n xs) ≡ find_owner g xs
unfolding find_owner others
find_owner-others g n [] h = refl
find_owner-others g n ((m, c) ∷ xs) h = ground (arith, find_owner-others g n xs)

find_owner-firsts :
    (g : ℕ) (xs : List (ℕ × ComponentId)) → find_owner g (firsts number_of xs) ≡ find_owner g xs
unfolding find_owner firsts
find_owner-firsts g [] = refl
find_owner-firsts g ((m, c) ∷ xs) =
    ground (arith, find_owner-others g m (firsts number_of xs), find_owner-firsts g xs)

-- The answers to a request, by the first earlier request for the same number.
abbrev pub pin_answer : Option PinAllocation → PinAllocation → Result PinConflict (Unit {0})
pin_answer none a = ok tt
pin_answer (some x) a = err (record {
  gpio_num = a.gpio_num;
  existing_owner = x.component;
  existing_mode = x.mode;
  new_owner = a.component;
  new_mode = a.mode;
})

abbrev pub bus_answer : Option ComponentId → ℕ → ComponentId → Result BusConflict (Unit {0})
bus_answer none n c = ok tt
bus_answer (some owner) n c = err (record { address = n; existing_owner = owner; new_owner = c })

allocate_pin_answer :
    (t : ResourceTracker) (a : PinAllocation)
    → (allocate_pin t a).1 ≡ pin_answer (find_pin a.gpio_num t.pin_allocations) a
unfolding allocate_pin
allocate_pin_answer t a = ground arith

allocate_i2c_answer :
    (t : ResourceTracker) (n : ℕ) (c : ComponentId)
    → (allocate_i2c t n c).1 ≡ bus_answer (find_owner n t.i2c_addresses) n c
unfolding allocate_i2c
allocate_i2c_answer t n c = ground arith

allocate_uart_answer :
    (t : ResourceTracker) (n : ℕ) (c : ComponentId)
    → (allocate_uart t n c).1 ≡ bus_answer (find_owner n t.uart_ports) n c
unfolding allocate_uart
allocate_uart_answer t n c = ground arith

-- What a new tracker holds.
serve_all-new :
    (rs : List Request)
    → ((serve_all new rs).pin_allocations ≡ firsts gpio_of (pin_claims rs))
      × ((serve_all new rs).i2c_addresses ≡ firsts number_of (i2c_claims rs))
      × ((serve_all new rs).uart_ports ≡ firsts number_of (uart_claims rs))
unfolding new find_pin find_owner
serve_all-new rs =
    let (p, i, u) = serve_all_left new rs in
    (
      p ∙ free_ones_all gpio_of (pin_taken []) (firsts gpio_of (pin_claims rs)) (λ k. refl),
      i ∙ free_ones_all number_of (owner_taken []) (firsts number_of (i2c_claims rs)) (λ k. refl),
      u ∙ free_ones_all number_of (owner_taken []) (firsts number_of (uart_claims rs)) (λ k. refl),
    )

-- After any requests to a new tracker, it holds exactly the first request for each GPIO, each I2C
-- address and each UART port, in their order. A further request is granted exactly if no earlier
-- one was for the same GPIO, address or port; otherwise the answer names the owner of the first of
-- them, and for a GPIO its mode.
pub serve_all_first :
    (rs : List Request) (a : PinAllocation) (n : ℕ) (c : ComponentId)
    → ((serve_all new rs).pin_allocations ≡ firsts gpio_of (pin_claims rs))
      × ((serve_all new rs).i2c_addresses ≡ firsts number_of (i2c_claims rs))
      × ((serve_all new rs).uart_ports ≡ firsts number_of (uart_claims rs))
      × ((allocate_pin (serve_all new rs) a).1 ≡ pin_answer (find_pin a.gpio_num (pin_claims rs)) a)
      × ((allocate_i2c (serve_all new rs) n c).1 ≡ bus_answer (find_owner n (i2c_claims rs)) n c)
      × ((allocate_uart (serve_all new rs) n c).1 ≡ bus_answer (find_owner n (uart_claims rs)) n c)
serve_all_first rs a n c =
    let (p, i, u) = serve_all-new rs in
    let g = a.gpio_num in
    (
      p,
      i,
      u,
      allocate_pin_answer (serve_all new rs) a
          ∙ ap (λ o. pin_answer o a) (ap (find_pin g) p ∙ find_pin-firsts g (pin_claims rs)),
      allocate_i2c_answer (serve_all new rs) n c
          ∙ ap (λ o. bus_answer o n c) (ap (find_owner n) i ∙ find_owner-firsts n (i2c_claims rs)),
      allocate_uart_answer (serve_all new rs) n c
          ∙ ap (λ o. bus_answer o n c) (ap (find_owner n) u ∙ find_owner-firsts n (uart_claims rs)),
    )
