-- ===== src/StateStore/Channels.antt =====
-- A channel as its value with the number of its receivers, which meets the laws of tokio's watch
-- channels.
use zt_edge.Common.{ℕ, ◌+◌, ◌-◌, ◌==◌, refl, if◌then◌else◌}
use zt_edge.StateStore.{Watch}

abbrev pub counted : {V : Type 0} → Watch V
counted {V} = record {
  Channel = V × ℕ;
  channel = λ v. (v, 1);
  send = λ v c. (if c.1 == 0 then c.0 else v, c.1);
  subscribe = λ c. (c.0, c.1 + 1);
  release = λ c. (c.0, c.1 - 1);
  borrow = λ c. c.0;
  receivers = λ c. c.1;
  borrow-channel = λ v. refl;
  borrow-send = λ v c. refl;
  borrow-subscribe = λ c. refl;
  borrow-release = λ c. refl;
  receivers-channel = λ v. refl;
  receivers-send = λ v c. refl;
  receivers-subscribe = λ c. refl;
  receivers-release = λ c. refl;
}
