-- ===== src/Hi6138/Monitoring/Ring.antt =====
-- The walk of hi6138_irq_bm (driver/devices/hi6138.c) over the command stack: a ring of 160 entries
-- of 8 words.
use driver_arinc.Prelude.{
  ℕ, zero, suc, ◌+◌, ◌-◌, ◌*◌, ◌/◌, ◌%◌, ◌^◌, ◌<◌, ◌≤◌, ◌≡◌, refl, ◌∙◌, true, Bool-cases, inl, inr,
  List, [], ◌∷◌, ok, arith, ltb, if◌then◌else◌,
}
use driver_arinc.Kernel.{Kernel}
use driver_arinc.Kernel.WordMemory.{block, HasMemory}
use driver_arinc.Hi6138.{Monitor, Packet}
use driver_arinc.Hi6138.Memory.Laws.{get_reg-word, get_mem-block}
use driver_arinc.Hi6138.Monitoring.{allocate, get_rest, hand_over, read_message}

-- The address of an entry.
abbrev pub entry : ℕ → ℕ
entry i = 0x600 + 8 * i

-- The packet of the entry at an address.
unfoldable pub packet_at : (ℕ → ℕ) → (address : ℕ) → Packet
unfolding block
packet_at m a = record {
  len = m (a + 5);
  words = m (a + 7) ∷ (if ltb 2 (m (a + 5)) then block m (m (a + 6)) ((m (a + 5) - 2) / 2) else []);
}

-- The packets of the entries `i`, `i + 1`, … of the ring, `n` in number.
unfoldable pub ring : (ℕ → ℕ) → (i n : ℕ) → List Packet
ring m i zero = []
ring m i (suc n) = packet_at m (entry (i % 160)) ∷ ring m (i + 1) n

module _ {k : Kernel} {mem : k.World → ℕ → ℕ} (chip : HasMemory k mem)
    (memory : (n : ℕ) (w : k.World) → (k.alloc n w).0 ≡ true) where
  -- A message was handed up, and nothing else but the counters of the device changed.
  unfoldable pub handed : Packet → k.World → Monitor k → Monitor k
  unfolding hand_over
  handed packet w p = hand_over k packet (record p { world = w })

  get_rest-block :
      (a len : ℕ) (p : Monitor k)
      → a < 65536
      → (w : k.World) × (get_rest k a len p ≡ (
        ok (if ltb 2 len then block (mem p.world) a ((len - 2) / 2) else []),
        record p { world = w },
      ))
        × (mem w ≡ mem p.world)
  unfolding get_rest
  get_rest-block a len p small =
      let (w, ran, kept) = get_mem-block chip a ((len - 2) / 2) p small in
      elim (Bool-cases (ltb 2 len)) [
        | inl more ↦ (w, ground (arith, ran), kept)
        | inr none_more ↦ (p.world, ground arith, refl)
      ]

  pub read_message-hands :
      (p : Monitor k)
      → p.smt_last_addr < 65000
      → mem p.world (p.smt_last_addr + 5) ≤ 72
      → (w : k.World) × (read_message k p
          ≡ (ok true, handed (packet_at (mem p.world) p.smt_last_addr) w p))
        × (mem w ≡ mem p.world)
  unfolding read_message allocate handed packet_at
  read_message-hands p small fits =
      let a = p.smt_last_addr in
      let m = mem p.world in
      let a6 : (a + 6) % 2 ^ 16 ≡ a + 6 = omega arith in
      let a5 : (a + 5) % 2 ^ 16 ≡ a + 5 = omega arith in
      let a7 : (a + 7) % 2 ^ 16 ≡ a + 7 = omega arith in
      let (w1, ran1, kept1) = get_reg-word chip (a + 6) p (omega arith) in
      let p1 = record p { world = w1 } in
      let (w2, ran2, kept2) = get_reg-word chip (a + 5) p1 (omega arith) in
      let p2 = record p { world = (k.alloc (m (a + 5)) w2).1 } in
      let kept3 = chip.alloc_keeps (m (a + 5)) w2 in
      let (w4, ran4, kept4) = get_reg-word chip (a + 7) p2 (omega arith) in
      let p4 = record p { world = w4 } in
      let (w5, ran5, kept5) =
        get_rest-block (m (a + 6)) (m (a + 5)) p4 (chip.is_word (a + 6) p.world) in
      let m2 : mem w2 ≡ m = kept2 ∙ kept1 in
      let m4 : mem w4 ≡ m = kept4 ∙ kept3 ∙ m2 in
      (
        w5,
        ground (
          arith,
          a5,
          a6,
          a7,
          ran1,
          ran2,
          ran4,
          ran5,
          kept1,
          m4,
          kept3,
          m2,
          memory (m (a + 5)) w2,
          fits,
        ),
        kept5 ∙ m4,
      )
