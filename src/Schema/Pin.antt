-- ===== src/Schema/Pin.antt =====
-- crates/rshome-schema/src/pin.rs: the GPIO, I2C and UART claims of a device configuration.
-- A `u8` is a number; `&mut self` is the tracker before and after.
pub mod Claims
pub mod Served
pub mod Capability
use zt_edge.Common.{
  ℕ, ◌+◌, Bool, true, false, Option, some, String, List, [], ◌∷◌, ◌++◌, contains, ltb, ◌==◌, ◌&&◌,
  if◌then◌else◌, Result, ok, err,
}
use zt_edge.Schema.Chip.{ChipTarget, ChipCapabilities, capabilities_for}

abbrev pub ComponentId : Type 0
ComponentId = String

pub data PinMode : Type 0 where
  input output input_output analog pwm_output i2c_sda i2c_scl : PinMode
  spi_mosi spi_miso spi_clk spi_cs uart touch : PinMode

unfoldable pub requires_output : PinMode → Bool
requires_output output = true
requires_output input_output = true
requires_output pwm_output = true
requires_output i2c_sda = true
requires_output i2c_scl = true
requires_output spi_mosi = true
requires_output spi_clk = true
requires_output spi_cs = true
requires_output uart = true
requires_output _ = false

pub data PullMode : Type 0 where
  up down none : PullMode

pub record PinAllocation : Type 0 where
  pub gpio_num : ℕ
  pub mode : PinMode
  pub component : ComponentId
  pub pull_mode : Option PullMode
  pub inverted : Bool

pub record PinConflict : Type 0 where
  pub gpio_num : ℕ
  pub existing_owner : ComponentId
  pub existing_mode : PinMode
  pub new_owner : ComponentId
  pub new_mode : PinMode

pub record BusConflict : Type 0 where
  pub address : ℕ
  pub existing_owner : ComponentId
  pub new_owner : ComponentId

pub data PinError : Type 0 where
  input_only_pin_used_as_output : ℕ → ChipTarget → ComponentId → PinMode → PinError
  gpio_out_of_range : ℕ → ChipTarget → ℕ → PinError
  strapping_pin_warning : ℕ → ChipTarget → ComponentId → PinError
  flash_reserved_pin : ℕ → ChipTarget → ComponentId → PinError

pub record ResourceTracker : Type 0 where
  pub pin_allocations : List PinAllocation
  pub i2c_addresses : List (ℕ × ComponentId)
  pub spi_cs_pins : List (ℕ × ComponentId)
  pub uart_ports : List (ℕ × ComponentId)

unfoldable pub new : ResourceTracker
new = record { pin_allocations = []; i2c_addresses = []; spi_cs_pins = []; uart_ports = [] }

-- The loop of `allocate_pin`: the first allocation of the GPIO.
unfoldable pub find_pin : ℕ → List PinAllocation → Option PinAllocation
find_pin gpio [] = Option.none
find_pin gpio (existing ∷ rest) =
    if existing.gpio_num == gpio then some existing else find_pin gpio rest

-- The loops of `allocate_i2c` and `allocate_uart`: the owner of the first equal number.
unfoldable pub find_owner : ℕ → List (ℕ × ComponentId) → Option ComponentId
find_owner n [] = Option.none
find_owner n ((existing, owner) ∷ rest) = if existing == n then some owner else find_owner n rest

unfoldable pub allocate_pin :
    ResourceTracker → PinAllocation → ResourceTracker × Result PinConflict (Unit {0})
allocate_pin t alloc = elim (find_pin alloc.gpio_num t.pin_allocations) [
  | Option.none ↦ (record t { pin_allocations = t.pin_allocations ++ (alloc ∷ []) }, ok tt)
  | some existing ↦ (
    t,
    err (record {
      gpio_num = alloc.gpio_num;
      existing_owner = existing.component;
      existing_mode = existing.mode;
      new_owner = alloc.component;
      new_mode = alloc.mode;
    }),
  )
]

unfoldable pub allocate_i2c :
    ResourceTracker → ℕ → ComponentId → ResourceTracker × Result BusConflict (Unit {0})
allocate_i2c t addr component = elim (find_owner addr t.i2c_addresses) [
  | Option.none ↦ (record t { i2c_addresses = t.i2c_addresses ++ ((addr, component) ∷ []) }, ok tt)
  | some owner ↦ (t, err (record { address = addr; existing_owner = owner; new_owner = component }))
]

unfoldable pub allocate_uart :
    ResourceTracker → ℕ → ComponentId → ResourceTracker × Result BusConflict (Unit {0})
allocate_uart t port component = elim (find_owner port t.uart_ports) [
  | Option.none ↦ (record t { uart_ports = t.uart_ports ++ ((port, component) ∷ []) }, ok tt)
  | some owner ↦ (t, err (record { address = port; existing_owner = owner; new_owner = component }))
]

-- The last two checks of one round of `validate_pin_capabilities`, which both run.
unfoldable pub input_only_check : ChipTarget → ChipCapabilities → PinAllocation → List PinError
input_only_check target caps alloc =
    if contains caps.input_only alloc.gpio_num && requires_output alloc.mode
    then input_only_pin_used_as_output alloc.gpio_num target alloc.component alloc.mode ∷ []
    else []

unfoldable pub strapping_check : ChipTarget → ChipCapabilities → PinAllocation → List PinError
strapping_check target caps alloc =
    if contains caps.strapping alloc.gpio_num
    then strapping_pin_warning alloc.gpio_num target alloc.component ∷ []
    else []

-- One round of the loop: the errors that it pushes. Each `continue` ends the round.
unfoldable pub check_allocation : ChipTarget → ChipCapabilities → PinAllocation → List PinError
unfolding input_only_check strapping_check
check_allocation target caps alloc =
    if ltb caps.max_gpio alloc.gpio_num
    then gpio_out_of_range alloc.gpio_num target caps.max_gpio ∷ []
    else if contains caps.flash_reserved alloc.gpio_num
    then flash_reserved_pin alloc.gpio_num target alloc.component ∷ []
    else input_only_check target caps alloc ++ strapping_check target caps alloc

unfoldable pub check_allocations :
    ChipTarget → ChipCapabilities → List PinAllocation → List PinError
check_allocations target caps [] = []
check_allocations target caps (alloc ∷ rest) =
    check_allocation target caps alloc ++ check_allocations target caps rest

unfoldable pub result_of : List PinError → Result (List PinError) (Unit {0})
result_of [] = ok tt
result_of (e ∷ es) = err (e ∷ es)

unfoldable pub validate_pin_capabilities :
    ResourceTracker → ChipTarget → Result (List PinError) (Unit {0})
unfolding check_allocations result_of
validate_pin_capabilities t target =
    result_of (check_allocations target (capabilities_for target) t.pin_allocations)
