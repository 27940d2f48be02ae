-- ===== src/Hi3593/Transmit/Fifo.antt =====
-- What hi3593_tx_worker (driver/devices/hi3593.c) writes to the transmit FIFO.
use driver_arinc.Prelude.{
  ℕ, zero, suc, ◌+◌, ◌/◌, ◌≡◌, refl, true, List, [], ◌∷◌, ◌++◌, is_index, append-nil, append_assoc,
  sym, ok, arith,
}
use driver_arinc.Bytes.{Endian}
use driver_arinc.Kernel.{Kernel}
use driver_arinc.Kernel.Transmitter.{IsTransmitter}
use driver_arinc.Hi3593.{Sample, Skb, Port, sample_size}
use driver_arinc.Hi3593.Transmit.{
  fifo_bytes, tx_ready, sleep_offset, tx_wait, tx_word, tx_loop, consume, tx_finish, tx_serve,
  tx_worker,
}
use driver_arinc.Hi3593.Transmit.Laws.{tx_loop-frame}

-- The bytes of the samples `i`, `i + 1`, … of a packet, `n` in number.
unfoldable pub words : Endian → (n i : ℕ) → (ℕ → Sample) → List (List ℕ)
words e zero i samples = []
words e (suc n) i samples = fifo_bytes e (samples i).value ∷ words e n (i + 1) samples

module _ {k : Kernel} (e : Endian) {sent : k.World → List (List ℕ)}
    (chip : IsTransmitter k sent) where
  tx_ready-sent :
      (p : Port k) → ((tx_ready k e p).0 ≡ ok true) × (sent (tx_ready k e p).1.world ≡ sent p.world)
  unfolding tx_ready
  tx_ready-sent p =
      ground (arith, chip.reads_status p.world, chip.has_room p.world, chip.status_keeps p.world)

  tx_wait-sent :
      (t : ℕ) (p : Port k)
      → ((tx_wait k e t p).0 ≡ ok tt) × (sent (tx_wait k e t p).1.world ≡ sent p.world)
  unfolding tx_wait sleep_offset
  tx_wait-sent t p = grind (arith, chip.clock_keeps, chip.sleep_keeps)

  tx_word-sent :
      (s : Sample) (p : Port k)
      → ((tx_word k e s p).0 ≡ ok true)
        × (sent (tx_word k e s p).1.world ≡ sent p.world ++ fifo_bytes e s.value ∷ [])
  unfolding tx_word
  tx_word-sent s p =
      let p1 = (tx_ready k e p).1 in
      let p2 = (tx_wait k e s.time_msecs p1).1 in
      ground (
        arith,
        tx_ready-sent p,
        tx_wait-sent s.time_msecs p1,
        chip.writes (fifo_bytes e s.value) p2.world,
        chip.write_appends (fifo_bytes e s.value) p2.world,
      )

  tx_loop-sent :
      (n i : ℕ) (f : ℕ → Sample) (p : Port k)
      → ((tx_loop k e n i f p).0 ≡ ok true)
        × (sent (tx_loop k e n i f p).1.world ≡ sent p.world ++ words e n i f)
  unfolding tx_loop words
  tx_loop-sent zero i f p = (refl, sym (append-nil (sent p.world)))
  tx_loop-sent (suc n) i f p =
      let q = (tx_word k e (f i) p).1 in
      ground (
        arith,
        tx_word-sent (f i) p,
        tx_loop-sent n (i + 1) f q,
        append_assoc (sent p.world) (fifo_bytes e (f i).value ∷ []) (words e n (i + 1) f),
      )

  -- With room in the FIFO and no SPI error, one run of the worker sends every sample of the first
  -- packet, in order and behind what was sent before; it counts and frees the packet.
  -- The port is a transmitter's.
  pub tx_worker-sends :
      (skb : Skb) (rest : List Skb) (p : Port k)
      → p.is_avionics ≡ true
      → is_index p.tx_index 0 ≡ true
      → p.skbq ≡ skb ∷ rest
      → let p' = tx_worker k e p in
        (sent p'.world ≡ sent p.world ++ words e (skb.len / sample_size) 0 skb.samples)
        × (p'.stats.tx_packets ≡ p.stats.tx_packets + 1)
        × (p'.stats.tx_bytes ≡ p.stats.tx_bytes + skb.len)
        × (p'.stats.tx_dropped ≡ p.stats.tx_dropped)
        × (p'.held ≡ p.held)
  unfolding tx_worker tx_serve tx_finish consume
  tx_worker-sends skb rest p av ix q =
      let start = record p { skbq = rest; held = skb ∷ p.held } in
      ground (
        arith,
        tx_loop-sent (skb.len / sample_size) 0 skb.samples start,
        tx_loop-frame k e (skb.len / sample_size) 0 skb.samples start,
      )
