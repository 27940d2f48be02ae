-- ===== src/Tests/Bringup.antt =====
-- The probe of the HI-3593 (driver/devices/hi3593.c) on a chip, and on one whose second receiver is
-- refused its interrupt.
use driver_arinc.Prelude.{ℕ, ◌+◌, ◌≡◌, ◌≢◌, ap, true, ◌==◌, if◌then◌else◌, not, ok, value_or, arith}
use driver_arinc.Hi3593.Bringup.{Answers, probe, remove}
use driver_arinc.Hi3593.Bringup.Probe.{IsReleased, is_ok, probe-IsReleased}
use driver_arinc.Tests.Chip.{chip, idle}

abbrev refusing : Answers
refusing = record {
  memory = true;
  reset_gpio = 0;
  gpio_is_valid = true;
  gpio_request = ok tt;
  aclk = ok 1000000;
  irq = λ i. ok (40 + i);
  workqueue = true;
  netdev = λ i. true;
  request_irq = λ i. not (i == 1);
  register_netdev = λ i. true;
}

numbered : (i n : ℕ) → refusing.irq i ≡ ok n → n ≢ 0
numbered i n h z = omega (arith, ap (value_or 0) h, z)

probe-IsReleased_example :
    let (r, b) = probe chip 100 refusing idle in
    IsReleased (if is_ok r then remove chip 100 b else b)
probe-IsReleased_example = probe-IsReleased chip 100 refusing idle numbered
