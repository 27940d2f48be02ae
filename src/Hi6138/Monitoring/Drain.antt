-- ===== src/Hi6138/Monitoring/Drain.antt =====
-- The worker of the HI-6138 from the interrupt to its acknowledgement (hi6138_irq, hi6138_irq_worker
-- and hi6138_irq_bm of driver/devices/hi6138.c).
use mathlib.Core.Path.{subst}
use driver_arinc.Prelude.{
  ℕ, ◌+◌, ◌*◌, ◌<◌, ◌≤◌, ◌≡◌, ◌⊎◌, refl, sym, ap, ◌∙◌, true, false, ltb, ◌++◌, [], ◌∷◌, ok, has,
  arith, bit_and,
}
use driver_arinc.Kernel.{Kernel}
use driver_arinc.Kernel.WordMemory.{HasMemory, HasPending}
use driver_arinc.Hi6138.{
  Monitor, hirq_pending, hirq_mtip, smtirq_pending, smtirq_smteon, smtlast, cmd_stack_start,
  read_bytes,
}
use driver_arinc.Hi6138.Memory.{bytes_of, all_words, get_fastaccess, get_reg}
use driver_arinc.Hi6138.Memory.Laws.{get_reg-word}
use driver_arinc.Hi6138.Monitoring.{
  Outcome, start_at, walk, walk_to, from_last, from_status, irq_bm, acknowledge, finish, irq_worker,
  irq,
}
use driver_arinc.Hi6138.Monitoring.Balance.{irq_worker_balance}
use driver_arinc.Hi6138.Monitoring.Ring.{entry, ring}
use driver_arinc.Hi6138.Monitoring.Walk.{AllFit, span, Walked, walk_to-walks}

-- The driver stands at entry `i`, or begins at the last entry `j`.
unfoldable pub Stands : (last i j : ℕ) → Type 0
Stands last i j = (last ≡ entry i) ⊎ ((last ≡ 0) × (i ≡ j))

module _ {k : Kernel} {mem : k.World → ℕ → ℕ} (chip : HasMemory k mem)
    (status : HasPending k mem) where
  -- A register that is read by its own command.
  get_fastaccess-pending :
      (a : ℕ) (p : Monitor k)
      → a < 16
      → bit_and a 0x0f ≡ a
      → get_fastaccess k a p ≡ (
        ok (status.pending p.world a),
        record p { world = (k.write_then_read (a * 4 ∷ []) 2 p.world).1 },
      )
  unfolding get_fastaccess read_bytes all_words bytes_of
  get_fastaccess-pending a p small same =
      ground (arith, same, status.reads_pending a p.world small, status.is_status a p.world)

  start_at-idempotent :
      (j : ℕ) (p : Monitor k)
      → start_at k (entry j) (start_at k (entry j) p) ≡ start_at k (entry j) p
  unfolding start_at
  start_at-idempotent j p = ground arith

  walk_to-start_at :
      (fuel j : ℕ) (p : Monitor k)
      → walk_to k fuel (entry j) p ≡ walk_to k fuel (entry j) (start_at k (entry j) p)
  unfolding walk_to
  walk_to-start_at fuel j p =
      let behind : ltb (entry j) cmd_stack_start ≡ false = ground arith in
      rw behind (
        ap (λ q. walk k fuel (ltb (entry j) q.smt_last_addr) (entry j) q)
          (sym (start_at-idempotent j p)))

  -- The walk of `irq_bm`, from the last entry after a restart of the monitor.
  walk_to-drains :
      (memory : (n : ℕ) (w : k.World) → (k.alloc n w).0 ≡ true) (i j : ℕ) (p : Monitor k)
      → AllFit (mem p.world)
      → i ≤ 160
      → j < 160
      → Stands p.smt_last_addr i j
      → (p' : Monitor k) × (walk_to k 162 (entry j) p ≡ (Outcome.returned, p'))
        × Walked mem i (span i j) j (start_at k (entry j) p) p'
  unfolding start_at Stands
  walk_to-drains memory i j p fit near inside stands =
      let p0 = start_at k (entry j) p in
      let at : p0.smt_last_addr ≡ entry i = ground (arith, stands) in
      let (p', ran, walked) = walk_to-walks chip memory i j p0 fit near inside at in
      (p', walk_to-start_at 162 j p ∙ ran, walked)

  -- The bus monitor's part, with the monitor's interrupt pending.
  irq_bm-drains :
      (memory : (n : ℕ) (w : k.World) → (k.alloc n w).0 ≡ true) (i j : ℕ) (p : Monitor k)
      → AllFit (mem p.world)
      → p.is_avionics ≡ true
      → has (status.pending p.world smtirq_pending) smtirq_smteon ≡ true
      → mem p.world smtlast ≡ entry j
      → i ≤ 160
      → j < 160
      → Stands p.smt_last_addr i j
      → (p' : Monitor k) × (irq_bm k 162 p ≡ (Outcome.returned, p'))
        × (p'.smt_last_addr ≡ entry (j + 1))
        × (p'.delivered ≡ p.delivered ++ ring (mem p.world) i (span i j))
        × (p'.stats.rx_packets ≡ p.stats.rx_packets + span i j)
  unfolding irq_bm from_status from_last start_at AllFit
  irq_bm-drains memory i j p fit typed ended last near inside stands =
      let ran1 = get_fastaccess-pending smtirq_pending p (omega arith) refl in
      let w1 = (k.write_then_read (smtirq_pending * 4 ∷ []) 2 p.world).1 in
      let kept1 : mem w1 ≡ mem p.world =
        status.pending_keeps smtirq_pending p.world (omega arith) in
      let (w2, ran2, kept2) = get_reg-word chip smtlast (record p { world = w1 }) (omega arith) in
      let kept : mem w2 ≡ mem p.world = kept2 ∙ kept1 in
      let p2 = record p { world = w2 } in
      let p1 = record p { world = w1 } in
      let own : irq_bm k 162 p ≡ from_status k 162 (get_fastaccess k smtirq_pending p) =
        rw typed refl in
      let pending : from_status k 162 (ok (status.pending p.world smtirq_pending), p1)
          ≡ from_last k 162 (get_reg k smtlast p1) =
        rw ended refl in
      let fit2 : AllFit (mem p2.world) = subst AllFit (sym kept) fit in
      let (p', ran, walked) = walk_to-drains memory i j p2 fit2 near inside stands in
      (
        p',
        own
            ∙ ap (from_status k 162) ran1
            ∙ pending
            ∙ ap (from_last k 162) ran2
            ∙ ap (λ a. walk_to k 162 a p2) (ap (λ m. m smtlast) kept1 ∙ last)
            ∙ ran,
        walked.position,
        walked.packets ∙ ap (λ m. p.delivered ++ ring m i (span i j)) kept,
        walked.counted,
      )

  -- After an interrupt of the device, with the monitor's interrupt pending: where the driver stands
  -- at entry `i` of the ring, or begins at the last entry, and the chip has written entry `j` last,
  -- the worker ends. It has handed up one packet for each entry from `i` to `j`, in the order of the
  -- ring, and stands behind `j`; it has unlocked what it locked and enabled what the interrupt
  -- disabled. Each message fits the driver's buffer of 72 bytes, no memory is short, and 162 rounds
  -- are enough. The chip is a memory with a pointer, with pending registers beside it.
  pub irq_worker-drains :
      (memory : (n : ℕ) (w : k.World) → (k.alloc n w).0 ≡ true) (i j : ℕ) (p : Monitor k)
      → AllFit (mem p.world)
      → p.is_avionics ≡ true
      → has (status.pending p.world hirq_pending) hirq_mtip ≡ true
      → has (status.pending p.world smtirq_pending) smtirq_smteon ≡ true
      → mem p.world smtlast ≡ entry j
      → i ≤ 160
      → j < 160
      → Stands p.smt_last_addr i j
      → let (r, p') = irq_worker k 162 (irq k true p) in
        (r ≡ Outcome.returned)
        × (p'.delivered ≡ p.delivered ++ ring (mem p.world) i (span i j))
        × (p'.stats.rx_packets ≡ p.stats.rx_packets + span i j)
        × (p'.smt_last_addr ≡ entry (j + 1))
        × (p'.lock_depth ≡ p.lock_depth)
        × (p'.irq_depth ≡ p.irq_depth)
  unfolding irq_worker irq finish acknowledge
  irq_worker-drains memory i j p fit typed own ended last near inside stands =
      let q = irq k true p in
      let locked = record q { lock_depth = q.lock_depth + 1 } in
      let w1 = (k.write_then_read (hirq_pending * 4 ∷ []) 2 p.world).1 in
      let p1 = record locked { world = w1 } in
      let ran1 = get_fastaccess-pending hirq_pending locked (omega arith) refl in
      let kept : mem w1 ≡ mem p.world = status.pending_keeps hirq_pending p.world (omega arith) in
      let left =
        status.read_leaves hirq_pending smtirq_pending p.world (omega arith) (omega arith) in
      let fit1 : AllFit (mem p1.world) = subst AllFit (sym kept) fit in
      let (p2, ran2, at, packets, counted) =
        irq_bm-drains memory i j p1 fit1 typed (ap (λ s. has s smtirq_smteon) left ∙ ended)
          (ap (λ m. m smtlast) kept ∙ last) near inside stands in
      let handled : irq_worker k 162 q ≡ finish k (irq_bm k 162 p1) =
        rw (irq_worker, ran1, own) (ap (λ x. finish k (irq_bm k 162 x.1)) ran1) in
      let ran : irq_worker k 162 q ≡ (Outcome.returned, acknowledge k p2) =
        handled ∙ ap (finish k) ran2 in
      let returned : (irq_worker k 162 q).0 ≡ Outcome.returned = ap (λ x. x.0) ran in
      let balance = irq_worker_balance 162 p returned in
      (
        returned,
        ap (λ x. x.1.delivered) ran ∙ packets ∙ ap (λ m. p.delivered ++ ring m i (span i j)) kept,
        ap (λ x. x.1.stats.rx_packets) ran ∙ counted,
        ap (λ x. x.1.smt_last_addr) ran ∙ at,
        balance.0,
        balance.1,
      )
