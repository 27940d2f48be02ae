-- ===== src/Hi3593/Transmit/Laws.antt =====
-- One run of hi3593_tx_worker (driver/devices/hi3593.c), whatever the chip answers.
use driver_arinc.Prelude.{
  ℕ, zero, suc, ◌+◌, ◌/◌, ◌≡◌, refl, true, false, ok, List, [], ◌∷◌, is_index, Errno, ◌-◌, ◌≤◌, err,
  arith,
}
use driver_arinc.Bytes.{Endian}
use driver_arinc.Kernel.{Kernel}
use driver_arinc.Hi3593.{Sample, Skb, Port, sample_size}
use driver_arinc.Hi3593.Transmit.{
  tx_ready, sleep_offset, tx_wait, tx_word, tx_loop, consume, tx_finish, tx_serve, tx_worker,
}

module _ (k : Kernel) (e : Endian) where
  tx_ready-frame : (p : Port k) → (tx_ready k e p).1 ≡ record p { world = (tx_ready k e p).1.world }
  unfolding tx_ready
  tx_ready-frame p = ground arith

  sleep_offset-frame :
      (o : _) (p : Port k)
      → (sleep_offset k e o p).1 ≡ record p { world = (sleep_offset k e o p).1.world }
  unfolding sleep_offset
  sleep_offset-frame o p = ground arith

  tx_word-frame :
      (s : Sample) (p : Port k)
      → (tx_word k e s p).1 ≡ record p { world = (tx_word k e s p).1.world }
  unfolding tx_word tx_wait
  tx_word-frame s p = ground (arith, tx_ready-frame p)

  pub tx_loop-frame :
      (n i : ℕ) (f : ℕ → Sample) (p : Port k)
      → (tx_loop k e n i f p).1 ≡ record p { world = (tx_loop k e n i f p).1.world }
  unfolding tx_loop
  tx_loop-frame zero i f p = refl
  tx_loop-frame (suc n) i f p =
      ground (arith, tx_word-frame (f i) p, tx_loop-frame n (i + 1) f (tx_word k e (f i) p).1)

  tx_serve-indices :
      (q : List Skb) (p : Port k)
      → ((tx_serve k e q p).is_avionics ≡ p.is_avionics)
        × ((tx_serve k e q p).tx_index ≡ p.tx_index)
  unfolding tx_serve tx_finish consume
  tx_serve-indices [] p = (refl, refl)
  tx_serve-indices (skb ∷ rest) p =
      let start = record p { skbq = rest; held = skb ∷ p.held } in
      ground (arith, tx_loop-frame (skb.len / sample_size) 0 skb.samples start)

  tx_loop-fails :
      (n : ℕ) (f : ℕ → Sample) (p : Port k) (x : Errno)
      → (k.w8r8 0x80 p.world).0 ≡ err x
      → tx_loop k e (suc n) 0 f p ≡ (err x, record p { world = (k.w8r8 0x80 p.world).1 })
  unfolding tx_loop tx_word tx_ready
  tx_loop-fails n f p x fails = ground arith

  pub tx_worker_outcomes :
      (skb : Skb) (rest : List Skb) (p : Port k)
      → p.is_avionics ≡ true
      → is_index p.tx_index 0 ≡ true
      → p.skbq ≡ skb ∷ rest
      → let p' = tx_worker k e p in
        let start = record p { skbq = rest; held = skb ∷ p.held } in
        let r = (tx_loop k e (skb.len / sample_size) 0 skb.samples start).0 in
        (p'.skbq ≡ rest)
        × (p'.work_pending ≡ p.work_pending)
        × (r ≡ ok true
            → (p'.stats ≡ record p.stats {
              tx_packets = p.stats.tx_packets + 1;
              tx_bytes = p.stats.tx_bytes + skb.len;
            })
              × (p'.held ≡ p.held))
        × (r ≡ ok false
            → (p'.stats ≡ record p.stats { tx_dropped = p.stats.tx_dropped + 1 })
              × (p'.held ≡ p.held))
        × ((x : Errno) → r ≡ err x → (p'.stats ≡ p.stats) × (p'.held ≡ skb ∷ p.held))
  unfolding tx_worker tx_serve tx_finish consume
  tx_worker_outcomes skb rest p av ix q =
      let start = record p { skbq = rest; held = skb ∷ p.held } in
      let frame = tx_loop-frame (skb.len / sample_size) 0 skb.samples start in
      (
        ground (arith, frame),
        ground (arith, frame),
        λ sent. ground (arith, frame, sent),
        λ full. ground (arith, frame, full),
        λ x fails. ground (arith, frame, fails),
      )

  pub tx_worker-indices :
      (p : Port k)
      → ((tx_worker k e p).is_avionics ≡ p.is_avionics) × ((tx_worker k e p).tx_index ≡ p.tx_index)
  unfolding tx_worker
  tx_worker-indices p = ground (arith, tx_serve-indices p.skbq p)

  -- A failing status read loses the packet: it leaves the queue, is never sent, is neither counted
  -- nor freed. This holds for every packet of at least one sample.
  pub tx_worker-leaks :
      (skb : Skb) (rest : List Skb) (p : Port k) (x : Errno)
      → p.is_avionics ≡ true
      → is_index p.tx_index 0 ≡ true
      → p.skbq ≡ skb ∷ rest
      → sample_size ≤ skb.len
      → (k.w8r8 0x80 p.world).0 ≡ err x
      → let p' = tx_worker k e p in
        (p'.skbq ≡ rest) × (p'.held ≡ skb ∷ p.held) × (p'.stats ≡ p.stats)
  unfolding tx_worker tx_serve tx_finish
  tx_worker-leaks skb rest p x av ix q len fails =
      let start = record p { skbq = rest; held = skb ∷ p.held } in
      let some_rounds : skb.len / sample_size ≡ suc (skb.len / sample_size - 1) = omega arith in
      ground
        (arith, tx_loop-fails (skb.len / sample_size - 1) skb.samples start x fails, some_rounds)
