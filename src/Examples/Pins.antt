-- ===== src/Examples/Pins.antt =====
-- Pins, buses and retries of one device.
use zt_edge.Common.{◌≡◌, false, List, [], ◌∷◌}
use zt_edge.Schema.Pin.{
  PinAllocation, output, analog, new, find_pin, find_owner, allocate_pin, allocate_i2c,
  allocate_uart,
}
use zt_edge.Schema.Pin.Claims.{Request, claim_pin, claim_i2c, claim_uart, serve_all}
use zt_edge.Schema.Pin.Served.{
  pin_claims, i2c_claims, uart_claims, firsts, gpio_of, number_of, pin_answer, bus_answer,
  serve_all_first,
}
use mathlib.Core.Option.{none as nothing}

abbrev relay : PinAllocation
relay = record {
  gpio_num = 16;
  mode = output;
  component = "relay";
  pull_mode = nothing;
  inverted = false;
}

abbrev probe : PinAllocation
probe = record {
  gpio_num = 16;
  mode = analog;
  component = "probe";
  pull_mode = nothing;
  inverted = false;
}

abbrev boot : PinAllocation
boot = record {
  gpio_num = 2;
  mode = output;
  component = "led";
  pull_mode = nothing;
  inverted = false;
}

abbrev requests : List Request
requests =
    claim_pin relay
    ∷ claim_pin probe
    ∷ claim_pin boot
    ∷ claim_i2c 118 "bme280"
    ∷ claim_i2c 118 "bmp280"
    ∷ claim_uart 1 "gps"
    ∷ []

serve_all_first_example :
    ((serve_all new requests).pin_allocations ≡ firsts gpio_of (pin_claims requests))
    × ((serve_all new requests).i2c_addresses ≡ firsts number_of (i2c_claims requests))
    × ((serve_all new requests).uart_ports ≡ firsts number_of (uart_claims requests))
    × ((allocate_pin (serve_all new requests) probe).1
        ≡ pin_answer (find_pin 16 (pin_claims requests)) probe)
    × ((allocate_i2c (serve_all new requests) 118 "bmp280").1
        ≡ bus_answer (find_owner 118 (i2c_claims requests)) 118 "bmp280")
    × ((allocate_uart (serve_all new requests) 118 "bmp280").1
        ≡ bus_answer (find_owner 118 (uart_claims requests)) 118 "bmp280")
serve_all_first_example = serve_all_first requests probe 118 "bmp280"
