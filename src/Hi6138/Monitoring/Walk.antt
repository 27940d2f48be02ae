-- ===== src/Hi6138/Monitoring/Walk.antt =====
-- The loop of hi6138_irq_bm (driver/devices/hi6138.c) ends and hands up the messages of its entries
-- in the order of the ring.
use mathlib.Core.Path.{subst}
use driver_arinc.Prelude.{
  ℕ, zero, suc, ◌+◌, ◌-◌, ◌%◌, ◌<◌, ◌≤◌, ◌≡◌, refl, sym, ap, ◌∙◌, Bool, true, false, Bool-cases,
  inl, inr, [], ◌∷◌, ◌++◌, append-nil, append_assoc, arith, ltb, leb, ◌||◌, if◌then◌else◌,
}
use driver_arinc.Kernel.{Kernel}
use driver_arinc.Kernel.WordMemory.{HasMemory}
use driver_arinc.Hi6138.{Monitor}
use driver_arinc.Hi6138.Monitoring.{
  Outcome, hand_over, wrap_addr, wrap, next_entry, walk, start_at, walk_to,
}
use driver_arinc.Hi6138.Monitoring.Ring.{entry, packet_at, ring, handed, read_message-hands}

-- The messages of the entries of the ring fit the driver's buffer.
unfoldable pub AllFit : (ℕ → ℕ) → Type 0
AllFit m = (i : ℕ) → i < 160 → m (entry i + 5) ≤ 72

-- The walk handed up the packets of `n` entries from entry `i` on, and stands behind entry `j`.
pub record Walked {k : Kernel} (mem : k.World → ℕ → ℕ) (i n j : ℕ) (p p' : Monitor k) : Type 0 where
  pub memory_kept : mem p'.world ≡ mem p.world
  pub position : p'.smt_last_addr ≡ entry (j + 1)
  pub packets : p'.delivered ≡ p.delivered ++ ring (mem p.world) i n
  pub counted : p'.stats.rx_packets ≡ p.stats.rx_packets + n
  pub typed : p'.is_avionics ≡ p.is_avionics

-- The number of entries from entry `i` to entry `j`, over the end of the ring where `j` is in front
-- of `i`.
unfoldable pub span : (i j : ℕ) → ℕ
span i j = if ltb j i then 160 - i + (j + 1) else j + 1 - i

module _ {k : Kernel} {mem : k.World → ℕ → ℕ} (chip : HasMemory k mem)
    (memory : (n : ℕ) (w : k.World) → (k.alloc n w).0 ≡ true) where
  -- One round, at entry `i` or, behind the end of the ring, at its beginning.
  round :
      (fuel cmd_addr i : ℕ) (wrapped : Bool) (p : Monitor k)
      → AllFit (mem p.world)
      → i ≤ 160
      → p.smt_last_addr ≡ entry i
      → (leb p.smt_last_addr cmd_addr || wrapped) ≡ true
      → (p1 : Monitor k) × (walk k (suc fuel) wrapped cmd_addr p
          ≡ walk k fuel (if leb 160 i then false else wrapped) cmd_addr p1)
        × (mem p1.world ≡ mem p.world)
        × (p1.smt_last_addr ≡ entry (i % 160 + 1))
        × (p1.delivered ≡ p.delivered ++ packet_at (mem p.world) (entry (i % 160)) ∷ [])
        × (p1.stats.rx_packets ≡ p.stats.rx_packets + 1)
        × (p1.is_avionics ≡ p.is_avionics)
  unfolding walk wrap wrap_addr next_entry handed hand_over AllFit
  round fuel cmd_addr i wrapped p fit inside at more =
      let p0 = wrap k p in
      let here : p0.smt_last_addr ≡ entry (i % 160) = ground arith in
      let fits : mem p0.world (p0.smt_last_addr + 5) ≤ 72 =
        ground (arith, here, fit (i % 160) (omega arith)) in
      let (w, ran, kept) = read_message-hands chip memory p0 (omega (arith, here)) fits in
      (
        next_entry k (handed chip memory (packet_at (mem p0.world) p0.smt_last_addr) w p0),
        ground (arith, ran),
        kept,
        omega (arith, here),
        ground (arith, here),
        refl,
        refl,
      )

  -- A round and a walk behind it.
  Walked-round :
      (i i' n j : ℕ) (p p1 p2 : Monitor k)
      → mem p1.world ≡ mem p.world
      → p1.delivered ≡ p.delivered ++ packet_at (mem p.world) (entry (i % 160)) ∷ []
      → p1.stats.rx_packets ≡ p.stats.rx_packets + 1
      → p1.is_avionics ≡ p.is_avionics
      → ring (mem p.world) i' n ≡ ring (mem p.world) (i + 1) n
      → Walked mem i' n j p1 p2
      → Walked mem i (suc n) j p p2
  unfolding ring
  Walked-round i i' n j p p1 p2 m1 d1 c1 t1 same walked =
      let first = packet_at (mem p.world) (entry (i % 160)) ∷ [] in
      record {
        memory_kept = walked.memory_kept ∙ m1;
        position = walked.position;
        packets = ground (
          arith,
          walked.packets,
          d1,
          m1,
          same,
          append_assoc p.delivered first (ring (mem p.world) (i + 1) n),
        );
        counted = omega (arith, walked.counted, c1);
        typed = walked.typed ∙ t1;
      }

  -- From entry `i`, in front of or behind entry `j`, with no wrap.
  walk_straight :
      (n fuel i j : ℕ) (p : Monitor k)
      → AllFit (mem p.world)
      → j < 160
      → i + n ≡ j + 1
      → n < fuel
      → p.smt_last_addr ≡ entry i
      → (p' : Monitor k) × (walk k fuel false (entry j) p ≡ (Outcome.returned, p'))
        × Walked mem i n j p p'
  unfolding walk ring AllFit
  walk_straight n zero i j p fit inside sum enough at = absurd (omega arith)
  walk_straight zero (suc fuel) i j p fit inside sum enough at = (
    p,
    ground arith,
    record {
      memory_kept = refl;
      position = omega arith;
      packets = sym (append-nil p.delivered);
      counted = omega arith;
      typed = refl;
    },
  )
  walk_straight (suc n) (suc fuel) i j p fit inside sum enough at =
      let (p1, ran, m1, at1, d1, c1, t1) =
        round fuel (entry j) i false p fit (omega arith) at (ground arith) in
      let fit1 : AllFit (mem p1.world) = subst AllFit (sym m1) fit in
      let next : i % 160 + 1 ≡ i + 1 = omega arith in
      let (p2, ran2, walked) =
        walk_straight n fuel (i + 1) j p1 fit1 inside (omega arith) (omega arith)
          (omega (arith, at1)) in
      (p2, ground (arith, ran, ran2), Walked-round i (i + 1) n j p p1 p2 m1 d1 c1 t1 refl walked)

  -- The ring begins again behind its last entry.
  ring_again : (m : ℕ → ℕ) (i n : ℕ) → ring m i n ≡ ring m (160 + i) n
  unfolding ring
  ring_again m i zero = refl
  ring_again m i (suc n) =
      let same : i % 160 ≡ (160 + i) % 160 = omega arith in
      let next : 160 + i + 1 ≡ 160 + (i + 1) = omega arith in
      ground (arith, same, next, ring_again m (i + 1) n)

  -- From entry `i` over the end of the ring to entry `j`: `n` entries to the end, and `j + 1`.
  walk_wrapped :
      (n fuel i j : ℕ) (p : Monitor k)
      → AllFit (mem p.world)
      → j < 160
      → i + n ≡ 160
      → n + j + 1 < fuel
      → p.smt_last_addr ≡ entry i
      → (p' : Monitor k) × (walk k fuel true (entry j) p ≡ (Outcome.returned, p'))
        × Walked mem i (n + (j + 1)) j p p'
  unfolding AllFit
  walk_wrapped n zero i j p fit inside sum enough at = absurd (omega arith)
  walk_wrapped zero (suc fuel) i j p fit inside sum enough at =
      let (p1, ran, m1, at1, d1, c1, t1) =
        round fuel (entry j) i true p fit (omega arith) at (ground arith) in
      let fit1 : AllFit (mem p1.world) = subst AllFit (sym m1) fit in
      let (p2, ran2, walked) =
        walk_straight j fuel 1 j p1 fit1 inside (omega arith) (omega arith) (omega (arith, at1)) in
      let again = ring_again (mem p.world) 1 j ∙ ap (λ x. ring (mem p.world) x j) (omega arith) in
      (
        p2,
        ground (arith, ran, ran2),
        subst (λ x. Walked mem i x j p p2) (omega arith)
            (Walked-round i 1 j j p p1 p2 m1 d1 c1 t1 again walked),
      )
  walk_wrapped (suc n) (suc fuel) i j p fit inside sum enough at =
      let (p1, ran, m1, at1, d1, c1, t1) =
        round fuel (entry j) i true p fit (omega arith) at (ground arith) in
      let fit1 : AllFit (mem p1.world) = subst AllFit (sym m1) fit in
      let (p2, ran2, walked) =
        walk_wrapped n fuel (i + 1) j p1 fit1 inside (omega arith) (omega arith)
          (omega (arith, at1)) in
      (
        p2,
        ground (arith, ran, ran2),
        subst (λ x. Walked mem i x j p p2) (omega arith)
            (Walked-round i (i + 1) (n + (j + 1)) j p p1 p2 m1 d1 c1 t1 refl walked),
      )

  -- The walk begins where the driver stands, wrapped where `j` is in front of `i`.
  walk_to-walk :
      (i j fuel : ℕ) (p : Monitor k)
      → p.smt_last_addr ≡ entry i
      → walk_to k fuel (entry j) p ≡ walk k fuel (ltb j i) (entry j) p
  unfolding walk_to start_at
  walk_to-walk i j fuel p at =
      let stays : start_at k (entry j) p ≡ p = ground (arith, at) in
      let ordered : ltb (entry j) (entry i) ≡ ltb j i = ground arith in
      ground (arith, stays, ordered, at)

  -- Where the driver stands at entry `i` of the ring, or behind its end, and the chip has written
  -- entry `j` last, the walk ends and hands up one packet for each entry from `i` to `j`, in the
  -- order of the ring, over its end where `j` is in front of `i`; it stands behind `j`. Each message
  -- fits the driver's buffer of 72 bytes, no memory is short, and 161 rounds are enough fuel.
  pub walk_to-walks :
      (i j : ℕ) (p : Monitor k)
      → AllFit (mem p.world)
      → i ≤ 160
      → j < 160
      → p.smt_last_addr ≡ entry i
      → (p' : Monitor k) × (walk_to k 162 (entry j) p ≡ (Outcome.returned, p'))
        × Walked mem i (span i j) j p p'
  unfolding span
  walk_to-walks i j p fit near inside at = elim (Bool-cases (ltb j i)) [
    | inl over ↦
        let (p', ran, walked) =
          walk_wrapped (160 - i) 162 i j p fit inside (omega arith) (ground arith) at in
        let count : 160 - i + (j + 1) ≡ span i j = rw over refl in
        (
          p',
          walk_to-walk i j 162 p at ∙ ap (λ b. walk k 162 b (entry j) p) over ∙ ran,
          subst (λ x. Walked mem i x j p p') count walked,
        )
    | inr before ↦
        let (p', ran, walked) =
          walk_straight (j + 1 - i) 162 i j p fit inside (ground arith) (ground arith) at in
        let count : j + 1 - i ≡ span i j = rw before refl in
        (
          p',
          walk_to-walk i j 162 p at ∙ ap (λ b. walk k 162 b (entry j) p) before ∙ ran,
          subst (λ x. Walked mem i x j p p') count walked,
        )
  ]

  -- A second interrupt with no message between the two: the driver stands behind the last entry,
  -- takes that for a wrap of the ring, and hands up all 160 entries of the ring again.
  pub walk_to-replays :
      (i j : ℕ) (p : Monitor k)
      → AllFit (mem p.world)
      → i ≤ 160
      → j < 160
      → p.smt_last_addr ≡ entry i
      → let p' = (walk_to k 162 (entry j) p).1 in
        let p'' = (walk_to k 162 (entry j) p').1 in
        (p''.delivered ≡ p'.delivered ++ ring (mem p.world) (j + 1) 160)
        × (p''.stats.rx_packets ≡ p'.stats.rx_packets + 160)
  unfolding span AllFit
  walk_to-replays i j p fit near inside at =
      let (p', ran, first) = walk_to-walks i j p fit near inside at in
      let fit1 : AllFit (mem p'.world) = subst AllFit (sym first.memory_kept) fit in
      let (p'', ran2, second) =
        walk_to-walks (j + 1) j p' fit1 (omega arith) inside first.position in
      let count : span (j + 1) j ≡ 160 = ground arith in
      (
        ground (arith, ran, ran2, second.packets, count, first.memory_kept),
        ground (arith, ran, ran2, second.counted, count),
      )
