-- ===== src/Hi3593/Bringup.antt =====
-- Bring-up and removal of the HI-3593: `hi3593_probe`, `_get_config`, `_reset`, `_set_aclk`,
-- `_create_netdevs` and `_remove` of driver/devices/hi3593.c, with what they take from the kernel and
-- give back.
pub mod Laws
pub mod Probe
use driver_arinc.Prelude.{
  ℕ, zero, suc, ◌+◌, ◌-◌, ◌*◌, ◌/◌, ◌%◌, Bool, true, false, List, [], ◌∷◌, ◌++◌, Option, none, some,
  ltb, ◌==◌, ◌||◌, not, if◌then◌else◌, ℤ, pos, negsuc, Result, Errno, ok, err, einval, enodev,
  enomem, Step, pure, fail, ◌>>=◌, ◌>>◌, modify, gets, require,
}
use driver_arinc.Kernel.{Kernel}
use driver_arinc.Hi3593.{Port, Stats, fifo_depth, rx_delay_multiplier_max, rx_delay_multiplier_min}
use driver_arinc.Hi3593.Settings.{Arinc429rx, set_arinc429rx, set_arinc429tx, tx_hiz}

-- What the device tree says and what the kernel answers to each request, by the number of the
-- device: 0 is the transmitter, 1 and 2 are the receivers.
pub record Answers : Type 0 where
  pub memory : Bool
  -- `of_get_named_gpio`, where 0 stands for what is not positive.
  pub reset_gpio : ℕ
  pub gpio_is_valid : Bool
  pub gpio_request : Result (Unit {0})
  pub aclk : Result ℕ
  pub irq : ℕ → Result ℕ
  pub workqueue : Bool
  pub netdev : ℕ → Bool
  pub request_irq : ℕ → Bool
  pub register_netdev : ℕ → Bool

-- A network device with its private structure; `irq` is 0 before the interrupt is requested.
pub record NetDev (k : Kernel) : Type 0 where
  pub port : Port k
  pub irq : ℕ
  pub registered : Bool

-- `struct hi3593`, with the numbers of things that the kernel holds for the driver.
pub record Board (k : Kernel) : Type 0 where
  pub world : k.World
  pub reset_gpio : ℕ
  pub aclk : ℕ
  pub irq0 : ℕ
  pub irq1 : ℕ
  pub wq : Bool
  pub tx : List (NetDev k)
  pub rx : List (NetDev k)
  pub workqueues : ℕ
  pub netdevs : ℕ
  pub registered : ℕ
  pub irqs : ℕ

abbrev pub no_counts : Stats
no_counts = record {
  tx_packets = 0;
  tx_bytes = 0;
  tx_dropped = 0;
  tx_errors = 0;
  tx_fifo_errors = 0;
  rx_packets = 0;
  rx_bytes = 0;
  rx_errors = 0;
  rx_fifo_errors = 0;
  rx_crc_errors = 0;
}

-- The default settings.
abbrev pub rx_default : Arinc429rx
rx_default = record {
  flags = 0x88;
  priority_labels = 0 ∷ 0 ∷ 0 ∷ [];
  label_filters =
      0 ∷ 0 ∷ 0 ∷ 0 ∷ 0 ∷ 0 ∷ 0 ∷ 0 ∷ 0 ∷ 0 ∷ 0 ∷ 0 ∷ 0 ∷ 0 ∷ 0 ∷ 0 ∷ 0 ∷ 0 ∷ 0 ∷ 0 ∷ 0 ∷ 0 ∷ 0 ∷ 0
      ∷ 0 ∷ 0 ∷ 0 ∷ 0 ∷ 0 ∷ 0 ∷ 0 ∷ 0 ∷ [];
}

abbrev pub tx_default : ℕ
tx_default = 0xc4

module _ (k : Kernel) (hz : ℕ) where
  -- The private structure that a new device starts with; `hz` is the kernel's ticks per second.
  unfoldable pub new_port : (tx_index rx_index : ℤ) → k.World → Port k
  new_port tx_index rx_index w = record {
    world = w;
    is_avionics = true;
    tx_index = tx_index;
    rx_index = rx_index;
    even_parity = 0;
    check_parity = 0;
    rate = 12500;
    rx_udelay_min = rx_delay_multiplier_min / 12500;
    rx_udelay_max = rx_delay_multiplier_max / 12500;
    rx_wrk_delay = (fifo_depth / 2 + 2) * 4 * hz / 12500;
    skbq = [];
    held = [];
    rx_enabled = false;
    irq_depth = 0;
    work_pending = false;
    stats = no_counts;
    delivered = [];
    queue_awake = true;
  }

  unfoldable pub get_config : Answers → Step (Board k) (Unit {0})
  get_config a = do
    modify λ b. record b { reset_gpio = a.reset_gpio }
    if ltb 0 a.reset_gpio
        then (do require a.gpio_is_valid einval; λ b. (a.gpio_request, b))
        else pure tt
    aclk ← λ b. (a.aclk, b)
    modify λ b. record b { aclk = aclk }
    irq0 ← λ b. (a.irq 0, b)
    modify λ b. record b { irq0 = irq0 }
    irq1 ← λ b. (a.irq 1, b)
    modify λ b. record b { irq1 = irq1 }

  write_board : List ℕ → Step (Board k) (Unit {0})
  write_board bytes b = let (r, w) = k.write bytes b.world in (r, record b { world = w })

  -- `status = spi_w8r8(spi, op); if (status != value) return -ENODEV;`
  expect : (op value : ℕ) → Step (Board k) (Unit {0})
  expect op value b =
      let (r, w) = k.w8r8 op b.world in
      (
        elim r [ ok status ↦ if status == value then ok tt else err enodev | err _ ↦ err enodev ],
        record b { world = w },
      )

  unfoldable pub reset : Step (Board k) (Unit {0})
  unfolding write_board expect
  reset = do
    gpio ← gets (λ b. b.reset_gpio)
    if gpio == 0
        then write_board (0x04 ∷ [])
        else modify (λ b. record b { world = k.set_gpio b.reset_gpio 0 (k.sleep 100 150 b.world) })
    write_board (0x08 ∷ tx_hiz ∷ [])
    expect 0x80 0x01

  -- The byte of the clock divider.
  unfoldable pub aclk_byte : (aclk : ℕ) → Result ℕ
  aclk_byte aclk =
      if ltb aclk 1000000 || ltb 30000000 aclk
      then err einval
      else if aclk == 1000000
      then ok 0x00
      else if aclk % 2000000 == 0
      then ok (aclk / 1000000)
      else err einval

  unfoldable pub set_aclk : Step (Board k) (Unit {0})
  unfolding write_board expect aclk_byte
  set_aclk = do
    aclk ← gets (λ b. b.aclk)
    byte ← λ b. (aclk_byte aclk, b)
    write_board (0x38 ∷ byte ∷ [])
    expect 0xd4 byte

  -- The end of a round: the device is stored, and it is registered if its settings could be set.
  unfoldable pub add_tx : Answers → Result (Unit {0}) × Port k → Step (Board k) (Unit {0})
  add_tx a (ok _, port) b =
      let d : NetDev k = record { port = port; irq = 0; registered = a.register_netdev 0 } in
      (
        if a.register_netdev 0 then ok tt else err einval,
        record b {
          world = port.world;
          tx = b.tx ++ d ∷ [];
          netdevs = b.netdevs + 1;
          registered = b.registered + (if a.register_netdev 0 then 1 else 0);
        },
      )
  add_tx a (err _, port) b =
      let d : NetDev k = record { port = port; irq = 0; registered = false } in
      (err einval, record b { world = port.world; tx = b.tx ++ d ∷ []; netdevs = b.netdevs + 1 })

  unfoldable pub create_tx : Answers → Step (Board k) (Unit {0})
  unfolding new_port add_tx
  create_tx a b =
      if a.netdev 0
      then add_tx a (set_arinc429tx k tx_default (new_port (pos 0) (negsuc 0) b.world)) b
      else (err enomem, b)

  -- The same for receiver `i`, whose interrupt is requested.
  unfoldable pub add_rx :
      Answers → (i irq : ℕ) → Result (Unit {0}) × Port k → Step (Board k) (Unit {0})
  add_rx a i irq (ok _, port) b =
      let d : NetDev k = record {
        port = port;
        irq = irq;
        registered = a.register_netdev (i + 1);
      } in
      (
        if a.register_netdev (i + 1) then ok tt else err einval,
        record b {
          world = port.world;
          rx = b.rx ++ d ∷ [];
          netdevs = b.netdevs + 1;
          irqs = b.irqs + 1;
          registered = b.registered + (if a.register_netdev (i + 1) then 1 else 0);
        },
      )
  add_rx a i irq (err _, port) b =
      let d : NetDev k = record { port = port; irq = irq; registered = false } in
      (
        err einval,
        record b {
          world = port.world;
          rx = b.rx ++ d ∷ [];
          netdevs = b.netdevs + 1;
          irqs = b.irqs + 1;
        },
      )

  unfoldable pub create_rx : Answers → (i irq : ℕ) → Step (Board k) (Unit {0})
  unfolding new_port add_rx
  create_rx a i irq b =
      let port = new_port (negsuc 0) (pos i) b.world in
      let d : NetDev k = record { port = port; irq = 0; registered = false } in
      if a.netdev (i + 1)
      then (if a.request_irq i
          then add_rx a i irq (set_arinc429rx k rx_default (record port { irq_depth = 1 })) b
          else (err einval, record b { rx = b.rx ++ d ∷ []; netdevs = b.netdevs + 1 }))
      else (err enomem, b)

  unfoldable pub create_netdevs : Answers → Step (Board k) (Unit {0})
  unfolding create_tx create_rx
  create_netdevs a = do
    require a.workqueue enomem
    modify λ b. record b { wq = true; workqueues = b.workqueues + 1 }
    create_tx a
    irq0 ← gets (λ b. b.irq0)
    create_rx a 0 irq0
    irq1 ← gets (λ b. b.irq1)
    create_rx a 1 irq1

  -- What is given back for the devices of an array.
  unfoldable pub remove_all : List (NetDev k) → Board k → Board k
  remove_all [] b = b
  remove_all (d ∷ ds) b = remove_all ds (record b {
    irqs = b.irqs - (if d.irq == 0 then 0 else 1);
    registered = b.registered - (if d.registered then 1 else 0);
    netdevs = b.netdevs - 1;
  })

  unfoldable pub remove : Board k → Board k
  unfolding remove_all
  remove b =
      let b1 = record (remove_all b.tx b) { tx = [] } in
      let b2 = record (remove_all b.rx b1) { rx = [] } in
      let b3 : Board k =
        if ltb 0 b.reset_gpio
        then record b2 { world = k.set_gpio b.reset_gpio 1 b2.world; reset_gpio = 0 }
        else b2 in
      if b.wq then record b3 { workqueues = b3.workqueues - 1 } else b3

  -- The steps of a probe.
  unfoldable pub bring_up : Answers → Step (Board k) (Unit {0})
  unfolding get_config reset set_aclk create_netdevs
  bring_up a = do get_config a; reset; set_aclk; create_netdevs a

  -- The board of a chip that was found.
  unfoldable pub new_board : k.World → Board k
  new_board w = record {
    world = w;
    reset_gpio = 0;
    aclk = 0;
    irq0 = 0;
    irq1 = 0;
    wq = false;
    tx = [];
    rx = [];
    workqueues = 0;
    netdevs = 0;
    registered = 0;
    irqs = 0;
  }

  unfoldable pub probe : Answers → k.World → Result (Unit {0}) × Board k
  unfolding bring_up remove new_board
  probe a w =
      let (r, b) = bring_up a (new_board w) in
      if a.memory
      then elim r [ ok _ ↦ (ok tt, b) | err e ↦ (err e, remove b) ]
      else (err enomem, new_board w)
