-- ===== src/Tests/Removal.antt =====
-- The probes of the HI-6138 and of the HI-3717A (driver/devices/hi6138.c, hi3717a.c) where a network
-- device cannot be registered.
use driver_arinc.Prelude.{refl, true, false, [], if◌then◌else◌, ok, arith}
use driver_arinc.Hi6138.{Monitor}
use driver_arinc.Hi6138.Probe.{Answers, probe, remove}
use driver_arinc.Hi6138.Probe.Laws.{IsReleased, probe_releases}
use driver_arinc.Hi3593.Bringup.Probe.{is_ok}
use driver_arinc.Tests.Chip.{no_stats}
use driver_arinc.Tests.Words.{words}
use driver_arinc.Tests.Frames.{frames, idle_frames}
use driver_arinc.Hi3717a.Bringup as FrameBringup
use driver_arinc.Hi3717a.Bringup.Laws as FrameLaws
use driver_arinc.Hi3717a.Bringup.Laws.{probe_gives_back}

abbrev cleared : Monitor words
cleared = record {
  world = record { pointer = 0; contents = λ a. 0x3100; status = λ a. 0 };
  is_avionics = true;
  lock_depth = 0;
  irq_depth = 0;
  work_pending = false;
  ackirq_gpio = 0;
  bm_enabled = false;
  smt_last_addr = 0;
  queue_awake = true;
  stats = no_stats;
  delivered = [];
}

abbrev unregistered : Answers
unregistered = record {
  memory = true;
  reset_gpio = 8;
  ackirq_gpio = 9;
  gpio_is_valid = λ gpio. true;
  gpio_request = λ gpio. ok tt;
  irq = 40;
  request_irq = true;
  workqueue = true;
  netdev = true;
  register_netdev = false;
}

probe_releases_example :
    let (r, b) = probe words unregistered cleared in
    IsReleased (if is_ok r then remove words b else b)
probe_releases_example = probe_releases unregistered cleared (omega arith) refl

abbrev unregistered_rx : FrameBringup.Answers
unregistered_rx = record {
  memory = true;
  reset_gpio = 8;
  gpio_is_valid = true;
  gpio_request = ok tt;
  irq = 40;
  workqueue = true;
  tx_netdev = true;
  rx_netdev = true;
  request_irq = true;
  register_tx = true;
  register_rx = false;
}

probe_gives_back_example :
    let (r, b) = FrameBringup.probe frames unregistered_rx idle_frames in
    FrameLaws.IsReleased (if is_ok r then FrameBringup.remove frames b else b)
probe_gives_back_example = probe_gives_back unregistered_rx idle_frames (omega arith)
