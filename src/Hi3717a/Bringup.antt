-- ===== src/Hi3717a/Bringup.antt =====
-- Bring-up and removal of the HI-3717A: `hi3717a_probe`, `_get_config`, `_reset`, `_create_netdevs`
-- and `_remove` of driver/devices/hi3717a.c, with what they take from the kernel and give back.
pub mod Laws
use driver_arinc.Prelude.{
  ℕ, ◌+◌, ◌-◌, ◌/◌, Bool, true, false, [], Option, none, some, ltb, ◌==◌, if◌then◌else◌, Result, ok,
  err, einval, enodev, enomem, Step, pure, ◌>>=◌, ◌>>◌, modify, gets, require,
}
use driver_arinc.Kernel.{Kernel}
use driver_arinc.Hi3593.Bringup.{no_counts}
use driver_arinc.Hi3717a.{Port}
use driver_arinc.Hi3717a.Control.{set_arinc717rx, set_arinc717tx}

-- What the device tree says and what the kernel answers to each request. A GPIO of 0 stands for one
-- that is not positive. `irq_of_parse_and_map` returns an unsigned number, so that the test for less
-- than 0 behind it never holds.
pub record Answers : Type 0 where
  pub memory : Bool
  pub reset_gpio : ℕ
  pub gpio_is_valid : Bool
  pub gpio_request : Result (Unit {0})
  pub irq : ℕ
  pub workqueue : Bool
  pub tx_netdev : Bool
  pub rx_netdev : Bool
  pub request_irq : Bool
  pub register_tx : Bool
  pub register_rx : Bool

-- A network device with its private structure; `irq` is 0 before the interrupt is requested. A work
-- is active from when it is queued until it has run to its end.
pub record NetDev (k : Kernel) : Type 0 where
  pub port : Port k
  pub irq : ℕ
  pub registered : Bool
  pub worker_active : Bool

-- `struct hi3717a`, with the numbers of things that the kernel holds for the driver, and of the
-- works that are active after their device was freed.
pub record Board (k : Kernel) : Type 0 where
  pub world : k.World
  pub reset_gpio : ℕ
  pub irq : ℕ
  pub period_usec : ℕ
  pub wq : Bool
  pub tx : Option (NetDev k)
  pub rx : Option (NetDev k)
  pub workqueues : ℕ
  pub netdevs : ℕ
  pub registered : ℕ
  pub irqs : ℕ
  pub orphans : ℕ

-- The default settings.
abbrev pub rx_default : ℕ
rx_default = 0

abbrev pub tx_default : ℕ
tx_default = 0x02

module _ (k : Kernel) where
  unfoldable pub get_config : Answers → Step (Board k) (Unit {0})
  get_config a = do
    modify λ b. record b { reset_gpio = a.reset_gpio }
    if ltb 0 a.reset_gpio
        then (do require a.gpio_is_valid einval; λ b. (a.gpio_request, b))
        else pure tt
    modify λ b. record b { irq = a.irq }

  -- The reset line is pulled low and let go, and the transmit FIFO has to be empty.
  unfoldable pub reset : Step (Board k) (Unit {0})
  reset b =
      let w1 = k.sleep 10 100 (k.set_gpio b.reset_gpio 0 b.world) in
      let (r, w2) = k.w8r8 0xe8 (k.set_gpio b.reset_gpio 1 w1) in
      (
        elim r [ ok status ↦ if status == 0x20 then ok tt else err enodev | err _ ↦ err enodev ],
        record b { world = w2 },
      )

  -- The private structure of a new device. The period, and whether the port is enabled, are the
  -- board's.
  unfoldable pub new_port : Board k → Port k
  new_port b = record {
    world = b.world;
    is_avionics = true;
    lock_depth = 0;
    reset_gpio = b.reset_gpio;
    tx_buffer = none;
    memory = λ a. [];
    next_block = 0;
    tx_buffer_size = 0;
    tx_enabled = false;
    rx_enabled = false;
    period_usec = b.period_usec;
    irq_depth = 0;
    work_pending = false;
    stats = no_counts;
    delivered = [];
    queue_awake = true;
    faulted = false;
  }

  -- The end of a block of `hi3717a_create_netdevs`: the device is registered if its settings could
  -- be set; each error becomes EINVAL.
  unfoldable pub finish :
      (registers : Bool) (irq : ℕ) → Result (Unit {0}) × Port k → Result (Unit {0}) × NetDev k
  finish registers irq (ok _, port) = (
    if registers then ok tt else err einval,
    record { port = port; irq = irq; registered = registers; worker_active = false },
  )
  finish registers irq (err _, port) =
      (err einval, record { port = port; irq = irq; registered = false; worker_active = false })

  unfoldable pub create_tx : Answers → Step (Board k) (Unit {0})
  unfolding new_port finish
  create_tx a b =
      let (r, d) = finish a.register_tx 0 (set_arinc717tx k tx_default (new_port b)) in
      if a.tx_netdev
      then (
        r,
        record b {
          world = d.port.world;
          tx = some d;
          netdevs = b.netdevs + 1;
          registered = b.registered + (if d.registered then 1 else 0);
        },
      )
      else (err enomem, b)

  -- The same for the receiver, whose interrupt is requested and disabled.
  unfoldable pub create_rx : Answers → Step (Board k) (Unit {0})
  unfolding new_port finish
  create_rx a b =
      let port = record (new_port b) { irq_depth = 1 } in
      let (r, d) = finish a.register_rx b.irq (set_arinc717rx k rx_default port) in
      let bare : NetDev k = record {
        port = new_port b;
        irq = 0;
        registered = false;
        worker_active = false;
      } in
      if a.rx_netdev
      then (if a.request_irq
          then (
            r,
            record b {
              world = d.port.world;
              rx = some d;
              netdevs = b.netdevs + 1;
              irqs = b.irqs + 1;
              registered = b.registered + (if d.registered then 1 else 0);
            },
          )
          else (err einval, record b { rx = some bare; netdevs = b.netdevs + 1 }))
      else (err enomem, b)

  unfoldable pub create_netdevs : Answers → Step (Board k) (Unit {0})
  unfolding create_tx create_rx
  create_netdevs a = do
    modify λ b. record b { period_usec = 1000000 / 64 }
    require a.workqueue enomem
    modify λ b. record b { wq = true; workqueues = b.workqueues + 1 }
    create_tx a
    create_rx a

  -- The transmitter's device is freed; its worker is left alone.
  unfoldable pub remove_tx : Board k → Board k
  remove_tx b = elim b.tx [
    | none ↦ b
    | some d ↦ record b {
      tx = none;
      registered = b.registered - (if d.registered then 1 else 0);
      netdevs = b.netdevs - 1;
      orphans = b.orphans + (if d.worker_active then 1 else 0);
    }
  ]

  -- The receiver's interrupt is freed and its worker is cancelled.
  unfoldable pub remove_rx : Board k → Board k
  remove_rx b = elim b.rx [
    | none ↦ b
    | some d ↦ record b {
      rx = none;
      irqs = b.irqs - (if d.irq == 0 then 0 else 1);
      registered = b.registered - (if d.registered then 1 else 0);
      netdevs = b.netdevs - 1;
    }
  ]

  unfoldable pub remove : Board k → Board k
  unfolding remove_tx remove_rx
  remove b =
      let b1 = remove_rx (remove_tx b) in
      let b2 : Board k =
        if ltb 0 b1.reset_gpio
        then record b1 { world = k.set_gpio b1.reset_gpio 1 b1.world; reset_gpio = 0 }
        else b1 in
      if b2.wq then record b2 { workqueues = b2.workqueues - 1 } else b2

  -- The steps of a probe.
  unfoldable pub bring_up : Answers → Step (Board k) (Unit {0})
  unfolding get_config reset create_netdevs
  bring_up a = do get_config a; reset; create_netdevs a

  -- The board of a chip that was found.
  unfoldable pub new_board : k.World → Board k
  new_board w = record {
    world = w;
    reset_gpio = 0;
    irq = 0;
    period_usec = 0;
    wq = false;
    tx = none;
    rx = none;
    workqueues = 0;
    netdevs = 0;
    registered = 0;
    irqs = 0;
    orphans = 0;
  }

  unfoldable pub probe : Answers → k.World → Result (Unit {0}) × Board k
  unfolding bring_up remove new_board
  probe a w =
      let (r, b) = bring_up a (new_board w) in
      if a.memory
      then elim r [ ok _ ↦ (ok tt, b) | err e ↦ (err e, remove b) ]
      else (err enomem, new_board w)
