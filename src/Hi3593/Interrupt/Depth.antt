-- ===== src/Hi3593/Interrupt/Depth.antt =====
-- The depth of the receive interrupt through the histories of a receiver
-- (driver/devices/hi3593.c).
use driver_arinc.Prelude.{ℕ, ◌+◌, ◌≡◌, ap, true, false, if◌then◌else◌, some, arith}
use driver_arinc.Bytes.{Endian}
use driver_arinc.Kernel.{Kernel}
use driver_arinc.Hi3593.{Port, mtu}
use driver_arinc.Hi3593.Receive.{RxOps, rx_ops, rx_worker}
use driver_arinc.Hi3593.Receive.Counters.{rx_worker_irq, rx_worker-keeps}
use driver_arinc.Hi3593.Interrupt.{rx_open, rx_stop, rx_irq, clear_enabled, disable_irq}

module _ (k : Kernel) (e : Endian) (ops : RxOps) where
  -- What happens to a receiver: it is opened, it is stopped while it is open, its interrupt fires
  -- while it is enabled, and its pending work runs. The number is 1 where that run has no memory for
  -- its buffer.
  pub data Event : ℕ → Port k → Port k → Type 0 where
    opened : (p : Port k) → Event 0 p (rx_open k p).1
    stopped : (p : Port k) → p.rx_enabled ≡ true → Event 0 p (rx_stop k p).1
    fired : (p : Port k) → p.irq_depth ≡ 0 → Event 0 p (rx_irq k true p)
    worked :
        (p : Port k)
        → p.work_pending ≡ true
        → (k.alloc mtu p.world).0 ≡ true
        → Event 0 p (rx_worker k e (record p { work_pending = false }))
    starved :
        (p : Port k)
        → p.work_pending ≡ true
        → (k.alloc mtu p.world).0 ≡ false
        → Event 1 p (rx_worker k e (record p { work_pending = false }))

  -- A history, with the number of runs that had no memory.
  pub data History (start : Port k) : ℕ → Port k → Type 0 where
    here : History start 0 start
    next : {m n : ℕ} {p q : Port k} → History start m p → Event n p q → History start (m + n) q

  -- The interrupt is disabled once for a receiver that is not open, once for pending work, and
  -- `lost` times more.
  pub record IsBalanced (lost : ℕ) (p : Port k) : Type 0 where
    pub typed : p.is_avionics ≡ true
    pub depth :
        p.irq_depth ≡ (if p.rx_enabled then 0 else 1) + (if p.work_pending then 1 else 0) + lost
    pub indexed : rx_ops p.rx_index ≡ some ops

  rx_open-IsBalanced : (m : ℕ) (p : Port k) → IsBalanced m p → IsBalanced m (rx_open k p).1
  unfolding rx_open
  rx_open-IsBalanced m p h = ground arith

  rx_stop-IsBalanced :
      (m : ℕ) (p : Port k) → p.rx_enabled ≡ true → IsBalanced m p → IsBalanced m (rx_stop k p).1
  unfolding rx_stop
  rx_stop-IsBalanced m p on h = ground arith

  rx_irq-IsBalanced :
      (m : ℕ) (p : Port k) → p.irq_depth ≡ 0 → IsBalanced m p → IsBalanced m (rx_irq k true p)
  unfolding rx_irq
  rx_irq-IsBalanced m p on h = ground arith

  rx_worker-IsBalanced :
      (m n : ℕ) (p : Port k)
      → p.work_pending ≡ true
      → (if (k.alloc mtu p.world).0 then 0 else 1) ≡ n
      → IsBalanced m p
      → IsBalanced (m + n) (rx_worker k e (record p { work_pending = false }))
  rx_worker-IsBalanced m n p pending room h =
      let p1 = record p { work_pending = false } in
      ground (
        arith,
        rx_worker-keeps k e p1,
        rx_worker_irq k e ops p1 h.typed h.indexed,
        ap rx_ops (rx_worker-keeps k e p1).3,
      )

  Event-IsBalanced :
      (m : ℕ) {n : ℕ} {p q : Port k} → Event n p q → IsBalanced m p → IsBalanced (m + n) q
  Event-IsBalanced m (opened p) h = ground (arith, rx_open-IsBalanced m p h)
  Event-IsBalanced m (stopped p on) h = ground (arith, rx_stop-IsBalanced m p on h)
  Event-IsBalanced m (fired p enabled) h = ground (arith, rx_irq-IsBalanced m p enabled h)
  Event-IsBalanced m (worked p pending room) h =
      rx_worker-IsBalanced m 0 p pending (ground (arith, room)) h
  Event-IsBalanced m (starved p pending none_left) h =
      rx_worker-IsBalanced m 1 p pending (ground (arith, none_left)) h

  -- Through every history of openings, stops, interrupts and runs of the worker, each of them taken
  -- as one step, the interrupt stays disabled once for a receiver that is not open, once for pending
  -- work, and once for each run of the worker that had no memory for its buffer: such a run never
  -- enables it again.
  pub History-IsBalanced :
      {p : Port k} {n : ℕ} {q : Port k} → IsBalanced 0 p → History p n q → IsBalanced n q
  History-IsBalanced h here = h
  History-IsBalanced h (next {m} past event) = Event-IsBalanced m event (History-IsBalanced h past)

  -- An interrupt between the two halves of `hi3593_rx_stop` is not paired: the receiver is deaf
  -- after it is opened again, with its interrupt disabled and no work pending that would enable it.
  -- This holds for every open receiver whose interrupt is enabled.
  pub rx_stop_race :
      (p : Port k)
      → IsBalanced 0 p
      → p.rx_enabled ≡ true
      → p.work_pending ≡ false
      → let q = (rx_open k (disable_irq k (rx_irq k true (clear_enabled k p)))).1 in
        (q.rx_enabled ≡ true) × (q.work_pending ≡ false) × (q.irq_depth ≡ 1)
  unfolding rx_open rx_irq clear_enabled disable_irq
  rx_stop_race p h on none_pending = ground arith
