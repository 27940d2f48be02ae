-- ===== src/Hi6138/Probe.antt =====
-- Probe and removal of the HI-6138: `hi6138_probe`, `_get_config`, `_create_netdevs` and `_remove` of
-- driver/devices/hi6138.c, with what they take from the kernel and give back.
pub mod Laws
use driver_arinc.Prelude.{
  ℕ, ◌+◌, ◌-◌, ◌≡◌, ◌≢◌, refl, Bool, true, false, Bool-cases, inl, inr, List, [], ltb, ◌==◌,
  if◌then◌else◌, Result, ok, err, einval, enomem, Step, pure, ◌>>=◌, ◌>>◌, modify, gets, require,
  arith,
}
use driver_arinc.Kernel.{Kernel}
use driver_arinc.Hi6138.{Monitor}
use driver_arinc.Hi6138.Monitoring.{set_mil1553bm}
use driver_arinc.Hi6138.Bringup.{reset}

-- What the device tree says and what the kernel answers to each request. A GPIO of 0 stands for one
-- that is not positive. `irq_of_parse_and_map` returns an unsigned number, so that the test for less
-- than 0 behind it never holds.
pub record Answers : Type 0 where
  pub memory : Bool
  pub reset_gpio : ℕ
  pub ackirq_gpio : ℕ
  pub gpio_is_valid : ℕ → Bool
  pub gpio_request : ℕ → Result (Unit {0})
  pub irq : ℕ
  pub request_irq : Bool
  pub workqueue : Bool
  pub netdev : Bool
  pub register_netdev : Bool

-- `struct hi6138`, with the numbers of things that the kernel holds for the driver, and of the calls
-- of request_irq that succeeded and of free_irq.
pub record Board (k : Kernel) : Type 0 where
  pub port : Monitor k
  pub reset_gpio : ℕ
  pub irq : ℕ
  pub wq : Bool
  pub bm : Bool
  pub bm_registered : Bool
  pub workqueues : ℕ
  pub netdevs : ℕ
  pub registered : ℕ
  pub requests : ℕ
  pub frees : ℕ

module _ (k : Kernel) where
  -- An operation on the monitor.
  unfoldable pub on_port : {A : Type 0} → Step (Monitor k) A → Step (Board k) A
  on_port m b = let (r, p) = m b.port in (r, record b { port = p })

  unfoldable pub take_gpio : Answers → (gpio : ℕ) → Step (Board k) (Unit {0})
  take_gpio a gpio =
      if ltb 0 gpio
      then (do require (a.gpio_is_valid gpio) einval; λ b. (a.gpio_request gpio, b))
      else pure tt

  unfoldable pub get_config : Answers → Step (Board k) (Unit {0})
  unfolding take_gpio
  get_config a = do
    modify λ b. record b { reset_gpio = a.reset_gpio }
    take_gpio a a.reset_gpio
    modify λ b. record b { port = record b.port { ackirq_gpio = a.ackirq_gpio } }
    take_gpio a a.ackirq_gpio
    modify λ b. record b { irq = a.irq }
    require a.request_irq einval
    modify λ b. record b {
      requests = b.requests + 1;
      port = record b.port { irq_depth = b.port.irq_depth + 1 };
    }

  -- Every error of the settings becomes EINVAL.
  unfoldable pub set_default : Step (Board k) (Unit {0})
  unfolding on_port
  set_default b =
      let (r, b') = on_port (set_mil1553bm k) b in
      (elim r [ ok _ ↦ ok tt | err _ ↦ err einval ], b')

  unfoldable pub create_netdevs : Answers → Step (Board k) (Unit {0})
  unfolding set_default
  create_netdevs a = do
    require a.workqueue enomem
    modify λ b. record b { wq = true; workqueues = b.workqueues + 1 }
    require a.netdev enomem
    modify λ b. record b {
      bm = true;
      netdevs = b.netdevs + 1;
      port = record b.port { is_avionics = true };
    }
    set_default
    require a.register_netdev einval
    modify λ b. record b { bm_registered = true; registered = b.registered + 1 }

  unfoldable pub remove_bm : Board k → Board k
  remove_bm b =
      if b.bm
      then record b {
        bm = false;
        bm_registered = false;
        registered = b.registered - (if b.bm_registered then 1 else 0);
        netdevs = b.netdevs - 1;
      }
      else b

  unfoldable pub remove : Board k → Board k
  unfolding remove_bm
  remove b =
      let b1 = remove_bm b in
      let b2 : Board k = record b1 {
        frees = b1.frees + (if b1.irq == 0 then 0 else 1);
        port = record b1.port { work_pending = false };
      } in
      let b3 : Board k =
        if ltb 0 b2.reset_gpio
        then record b2 {
          port = record b2.port { world = k.set_gpio b2.reset_gpio 1 b2.port.world };
          reset_gpio = 0;
        }
        else b2 in
      if b3.wq then record b3 { workqueues = b3.workqueues - 1 } else b3

  -- The steps of a probe.
  unfoldable pub bring_up : Answers → Step (Board k) (Unit {0})
  unfolding get_config on_port create_netdevs
  bring_up a = do
    get_config a
    gpio ← gets (λ b. b.reset_gpio)
    on_port (reset k gpio)
    create_netdevs a

  -- The board of a chip that was found, `p` being its cleared memory.
  unfoldable pub new_board : Monitor k → Board k
  new_board p = record {
    port = p;
    reset_gpio = 0;
    irq = 0;
    wq = false;
    bm = false;
    bm_registered = false;
    workqueues = 0;
    netdevs = 0;
    registered = 0;
    requests = 0;
    frees = 0;
  }

  unfoldable pub probe : Answers → Monitor k → Result (Unit {0}) × Board k
  unfolding bring_up remove new_board
  probe a p =
      let (r, b) = bring_up a (new_board p) in
      if a.memory
      then elim r [
        | ok _ ↦ (ok tt, record b { port = record b.port { irq_depth = b.port.irq_depth - 1 } })
        | err e ↦ (err e, remove b)
      ]
      else (err enomem, new_board p)
