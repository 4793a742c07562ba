-- ===== src/Schema/Chip.antt =====
-- The chips of crates/rshome-schema/src/platform.rs, and the capability tables of
-- crates/rshome-schema/src/pin.rs.
use zt_edge.Common.{ℕ, List, [], ◌∷◌}

pub data ChipTarget : Type 0 where
  esp32 esp32_s2 esp32_s3 esp32_c2 esp32_c3 esp32_c5 esp32_c6 esp32_c61 esp32_h2 esp32_p4 :
      ChipTarget

pub record ChipCapabilities : Type 0 where
  pub max_gpio : ℕ
  pub input_only : List ℕ
  pub flash_reserved : List ℕ
  pub strapping : List ℕ

unfoldable pub capabilities_for : ChipTarget → ChipCapabilities
capabilities_for esp32 = record {
  max_gpio = 39;
  input_only = 34 ∷ 35 ∷ 36 ∷ 37 ∷ 38 ∷ 39 ∷ [];
  flash_reserved = 6 ∷ 7 ∷ 8 ∷ 9 ∷ 10 ∷ 11 ∷ [];
  strapping = 0 ∷ 2 ∷ 5 ∷ 12 ∷ 15 ∷ [];
}
capabilities_for esp32_s2 = record {
  max_gpio = 46;
  input_only = 46 ∷ [];
  flash_reserved = 26 ∷ 27 ∷ 28 ∷ 29 ∷ 30 ∷ 31 ∷ 32 ∷ [];
  strapping = 0 ∷ 45 ∷ 46 ∷ [];
}
capabilities_for esp32_s3 = record {
  max_gpio = 48;
  input_only = [];
  flash_reserved = 26 ∷ 27 ∷ 28 ∷ 29 ∷ 30 ∷ 31 ∷ 32 ∷ [];
  strapping = 0 ∷ 3 ∷ 45 ∷ 46 ∷ [];
}
capabilities_for esp32_c2 = record {
  max_gpio = 20;
  input_only = [];
  flash_reserved = 12 ∷ 13 ∷ 14 ∷ 15 ∷ 16 ∷ 17 ∷ [];
  strapping = 8 ∷ 9 ∷ [];
}
capabilities_for esp32_c3 = record {
  max_gpio = 21;
  input_only = [];
  flash_reserved = 11 ∷ 12 ∷ 13 ∷ 14 ∷ 15 ∷ 16 ∷ 17 ∷ [];
  strapping = 2 ∷ 8 ∷ 9 ∷ [];
}
capabilities_for esp32_c5 = record {
  max_gpio = 28;
  input_only = [];
  flash_reserved = 24 ∷ 25 ∷ 26 ∷ 27 ∷ 28 ∷ [];
  strapping = 7 ∷ 8 ∷ 27 ∷ [];
}
capabilities_for esp32_c6 = record {
  max_gpio = 30;
  input_only = [];
  flash_reserved = 24 ∷ 25 ∷ 26 ∷ 27 ∷ 28 ∷ 29 ∷ 30 ∷ [];
  strapping = 8 ∷ 9 ∷ 15 ∷ [];
}
capabilities_for esp32_c61 = record {
  max_gpio = 24;
  input_only = [];
  flash_reserved = 12 ∷ 13 ∷ 14 ∷ 15 ∷ 16 ∷ 17 ∷ [];
  strapping = 5 ∷ 8 ∷ 9 ∷ [];
}
capabilities_for esp32_h2 = record {
  max_gpio = 27;
  input_only = [];
  flash_reserved = 15 ∷ 16 ∷ 17 ∷ 18 ∷ 19 ∷ 20 ∷ 21 ∷ [];
  strapping = 8 ∷ 9 ∷ 25 ∷ [];
}
capabilities_for esp32_p4 = record {
  max_gpio = 54;
  input_only = [];
  flash_reserved = [];
  strapping = 34 ∷ 35 ∷ [];
}
