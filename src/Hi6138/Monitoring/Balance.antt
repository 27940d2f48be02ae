-- ===== src/Hi6138/Monitoring/Balance.antt =====
-- The lock and the interrupt of the HI-6138 around its worker (hi6138_irq and hi6138_irq_worker of
-- driver/devices/hi6138.c).
use driver_arinc.Prelude.{
  ℕ, zero, suc, ◌+◌, ◌-◌, ◌/◌, ◌%◌, ◌^◌, ◌≡◌, ◌∙◌, refl, Bool, true, false, leb, ltb, if◌then◌else◌,
  value_or, arith,
}
use driver_arinc.Kernel.{Kernel}
use driver_arinc.Hi6138.{Monitor, cmd_stack_end, hirq_pending, smtirq_pending, smtlast}
use driver_arinc.Hi6138.Memory.{get_fastaccess, set_fastaccess, get_mem, get_reg}
use driver_arinc.Hi6138.Monitoring.{
  Outcome, allocate, get_rest, hand_over, read_message, wrap, next_entry, walk, start_at, walk_to,
  from_last, from_status, irq_bm, acknowledge, finish, irq_worker, irq,
}

-- The lock and the interrupt are as they were.
record Keeps {k : Kernel} (p p' : Monitor k) : Type 0 where
  lock : p'.lock_depth ≡ p.lock_depth
  interrupt : p'.irq_depth ≡ p.irq_depth

module _ {k : Kernel} where
  Keeps-trans : {p p' p'' : Monitor k} → Keeps p p' → Keeps p' p'' → Keeps p p''
  Keeps-trans h h' = record { lock = h'.lock ∙ h.lock; interrupt = h'.interrupt ∙ h.interrupt }

  get_mem-Keeps : (a n : ℕ) (p : Monitor k) → Keeps p (get_mem k a n p).1
  unfolding get_mem set_fastaccess
  get_mem-Keeps a n p = record { lock = ground arith; interrupt = ground arith }

  get_reg-Keeps : (a : ℕ) (p : Monitor k) → Keeps p (get_reg k a p).1
  unfolding get_reg
  get_reg-Keeps a p =
      let h = get_mem-Keeps a 1 p in
      record { lock = ground (arith, h.lock); interrupt = ground (arith, h.interrupt) }

  get_fastaccess-Keeps : (a : ℕ) (p : Monitor k) → Keeps p (get_fastaccess k a p).1
  unfolding get_fastaccess
  get_fastaccess-Keeps a p = record { lock = ground arith; interrupt = ground arith }

  get_rest-Keeps : (a n : ℕ) (p : Monitor k) → Keeps p (get_rest k a n p).1
  unfolding get_rest
  get_rest-Keeps a n p =
      let h = get_mem-Keeps a ((n - 2) / 2) p in
      record { lock = ground (arith, h.lock); interrupt = ground (arith, h.interrupt) }

  allocate-Keeps : (n : ℕ) (p : Monitor k) → Keeps p (allocate k n p).1
  unfolding allocate
  allocate-Keeps n p = record { lock = refl; interrupt = refl }

  read_message-Keeps : (p : Monitor k) → Keeps p (read_message k p).1
  unfolding read_message hand_over
  read_message-Keeps p =
      let last = p.smt_last_addr in
      let (r1, p1) = get_reg k ((last + 6) % 2 ^ 16) p in
      let h1 : Keeps p p1 = get_reg-Keeps ((last + 6) % 2 ^ 16) p in
      let (r2, p2) = get_reg k ((last + 5) % 2 ^ 16) p1 in
      let h2 : Keeps p1 p2 = get_reg-Keeps ((last + 5) % 2 ^ 16) p1 in
      let len = value_or 0 r2 in
      let (r3, p3) = allocate k len p2 in
      let h3 : Keeps p2 p3 = allocate-Keeps len p2 in
      let (r4, p4) = get_reg k ((last + 7) % 2 ^ 16) p3 in
      let h4 : Keeps p3 p4 = get_reg-Keeps ((last + 7) % 2 ^ 16) p3 in
      let h5 = get_rest-Keeps (value_or 0 r1) len p4 in
      record {
        lock = ground (arith, h1.lock, h2.lock, h3.lock, h4.lock, h5.lock);
        interrupt =
            ground (arith, h1.interrupt, h2.interrupt, h3.interrupt, h4.interrupt, h5.interrupt);
      }

  walk-Keeps :
      (fuel : ℕ) (wrapped : Bool) (cmd_addr : ℕ) (p : Monitor k)
      → Keeps p (walk k fuel wrapped cmd_addr p).1
  unfolding walk wrap next_entry
  walk-Keeps zero wrapped cmd_addr p = record { lock = refl; interrupt = refl }
  walk-Keeps (suc fuel) wrapped cmd_addr p =
      let p1 = (read_message k (wrap k p)).1 in
      let still = if leb cmd_stack_end p.smt_last_addr then false else wrapped in
      let h1 = read_message-Keeps (wrap k p) in
      let h2 = walk-Keeps fuel still cmd_addr (next_entry k p1) in
      record {
        lock = ground (arith, h1.lock, h2.lock);
        interrupt = ground (arith, h1.interrupt, h2.interrupt);
      }

  walk_to-Keeps : (fuel cmd_addr : ℕ) (p : Monitor k) → Keeps p (walk_to k fuel cmd_addr p).1
  unfolding walk_to start_at
  walk_to-Keeps fuel cmd_addr p =
      let p1 = start_at k cmd_addr p in
      let h = walk-Keeps fuel (ltb cmd_addr p1.smt_last_addr) cmd_addr p1 in
      record { lock = ground (arith, h.lock); interrupt = ground (arith, h.interrupt) }

  irq_bm-Keeps : (fuel : ℕ) (p : Monitor k) → Keeps p (irq_bm k fuel p).1
  unfolding irq_bm from_status from_last
  irq_bm-Keeps fuel p =
      let h1 = get_fastaccess-Keeps smtirq_pending p in
      let p1 = (get_fastaccess k smtirq_pending p).1 in
      let h2 = get_reg-Keeps smtlast p1 in
      let (r, p2) = get_reg k smtlast p1 in
      let h3 = walk_to-Keeps fuel (value_or 0 r) p2 in
      record {
        lock = ground (arith, h1.lock, h2.lock, h3.lock);
        interrupt = ground (arith, h1.interrupt, h2.interrupt, h3.interrupt);
      }

  finish-Keeps :
      (o : Outcome) (p : Monitor k)
      → let (r, p') = finish k (o, p) in
        (r ≡ Outcome.returned)
        → (p'.lock_depth ≡ p.lock_depth - 1) × (p'.irq_depth ≡ p.irq_depth - 1)
  unfolding finish acknowledge
  finish-Keeps Outcome.returned p h = (refl, refl)
  finish-Keeps (Outcome.failed e) p h = (refl, refl)
  finish-Keeps Outcome.faulted p h = cc
  finish-Keeps Outcome.unfinished p h = cc

  -- A run of the worker after an interrupt of the device, once it returns, has unlocked what it locked
  -- and enabled what the interrupt disabled, whichever SPI access fails.
  pub irq_worker_balance :
      (fuel : ℕ) (p : Monitor k)
      → let (r, p') = irq_worker k fuel (irq k true p) in
        r ≡ Outcome.returned → (p'.lock_depth ≡ p.lock_depth) × (p'.irq_depth ≡ p.irq_depth)
  unfolding irq_worker irq
  irq_worker_balance fuel p returned =
      let p0 = irq k true p in
      let locked = record p0 { lock_depth = p0.lock_depth + 1 } in
      let p1 = (get_fastaccess k hirq_pending locked).1 in
      let h1 = get_fastaccess-Keeps hirq_pending locked in
      let (o, p2) = irq_bm k fuel p1 in
      let h2 = irq_bm-Keeps fuel p1 in
      ground (
        arith,
        returned,
        h1.lock,
        h1.interrupt,
        h2.lock,
        h2.interrupt,
        finish-Keeps o p2,
        finish-Keeps Outcome.returned p1,
      )
