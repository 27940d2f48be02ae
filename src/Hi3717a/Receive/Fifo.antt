-- ===== src/Hi3717a/Receive/Fifo.antt =====
-- What hi3717a_rx_worker (driver/devices/hi3717a.c) makes of the words in the receive FIFO.
use driver_arinc.Prelude.{
  ℕ, zero, suc, ◌+◌, ◌-◌, ◌*◌, ◌<◌, ◌≤◌, ◌≡◌, refl, ap, ◌∙◌, true, false, List, [], ◌∷◌, ◌++◌, map,
  length, length-append, ok, some, arith,
}
use driver_arinc.Bytes.{Endian, Quad, word_of_bytes}
use driver_arinc.Kernel.{Kernel, msecs}
use driver_arinc.Kernel.ReceiveFifo.{is_empty}
use driver_arinc.Kernel.FrameChip.{HasRxFifo, word_buffer}
use driver_arinc.Hi3593.{Sample}
use driver_arinc.Hi3717a.{Port, read_byte, sync, read_clock, mutex_lock, mutex_unlock, mtu}
use driver_arinc.Hi3717a.Receive.{
  sample_in, next_sample, read_next, join, read_all_loop, rxfifo_read, rxfifo_read_all,
  rxfifo_is_empty, alloc_skb, rx_send_upstream, rx_words, leave, ended, rx_read, rx_serve,
  rx_worker, enable_irq, block_message, next_message,
}

-- A word with the time of its read.
pub sample_of : Endian → (time_msecs : ℕ) → Quad → Sample
sample_of e time q = record { time_msecs = time; value = word_of_bytes e q }

sample_in-word_buffer :
    (e : Endian) (time idle : ℕ) (qs : List Quad)
    → map (sample_in e time) (map (word_buffer idle) qs) ≡ map (sample_of e time) qs
unfolding sample_in sample_of
sample_in-word_buffer e time idle [] = refl
sample_in-word_buffer e time idle (q ∷ qs) =
    ap (λ xs. sample_of e time q ∷ xs) (sample_in-word_buffer e time idle qs)

module _ {k : Kernel} (e : Endian) {fifo : k.World → List Quad} (chip : HasRxFifo k fifo) where
  read_next-takes :
      (time : ℕ) (q : Quad) (rest : List Quad) (p : Port k)
      → fifo p.world ≡ q ∷ rest
      → (read_next k e time p ≡ (
        ok (sample_of e time q ∷ [], is_empty rest),
        record p { world = (k.spi_sync next_message p.world).1 },
      ))
  unfolding read_next next_sample sample_in sync sample_of
  read_next-takes time q rest p held = ground (
    arith,
    chip.reads_next q rest p.world held,
    chip.shows_empty (q ∷ rest),
    chip.shows_empty rest,
  )

  read_next-none :
      (time : ℕ) (p : Port k)
      → fifo p.world ≡ []
      → (read_next k e time p
          ≡ (ok ([], true), record p { world = (k.spi_sync next_message p.world).1 }))
  unfolding read_next next_sample sync
  read_next-none time p held = ground (arith, chip.reads_none p.world held, chip.shows_empty [])

  -- The loop reads the words that are left, where they are no more than it has room for.
  read_all_loop-reads :
      (time : ℕ) (qs : List Quad) (fuel count : ℕ) (p : Port k)
      → fifo p.world ≡ qs
      → count + length qs ≤ 32
      → count < 32
      → length qs < fuel
      → (w : k.World) × (read_all_loop k e fuel count time p
          ≡ (ok (some (map (sample_of e time) qs)), record p { world = w }))
        × (fifo w ≡ [])
  unfolding read_all_loop join
  read_all_loop-reads time qs zero count p held room early enough = absurd (omega arith)
  read_all_loop-reads time [] (suc fuel) count p held room early enough = (
    (k.spi_sync next_message p.world).1,
    ground (arith, read_next-none time p held),
    chip.none_takes p.world held,
  )
  read_all_loop-reads time (q ∷ []) (suc fuel) count p held room early enough = (
    (k.spi_sync next_message p.world).1,
    ground (arith, read_next-takes time q [] p held),
    chip.next_takes q [] p.world held,
  )
  read_all_loop-reads time (q ∷ r ∷ qs) (suc fuel) count p held room early enough =
      let p1 = record p { world = (k.spi_sync next_message p.world).1 } in
      let left = chip.next_takes q (r ∷ qs) p.world held in
      let (w, ran, none_left) =
        read_all_loop-reads time (r ∷ qs) fuel (count + 1) p1 left (omega arith) (omega arith)
          (omega arith) in
      (w, ground (arith, read_next-takes time q (r ∷ qs) p held, ran), none_left)

  length-map : (f : Quad → Sample) (qs : List Quad) → length (map f qs) ≡ length qs
  length-map f [] = refl
  length-map f (q ∷ qs) = omega (arith, length-map f qs)

  -- The samples of a packet.
  packet_of : (t1 t2 : ℕ) (first rest : List Quad) → List Sample
  packet_of t1 t2 first rest = map (sample_of e t1) first ++ map (sample_of e t2) rest

  length-packet_of :
      (t1 t2 : ℕ) (first rest : List Quad)
      → length (packet_of t1 t2 first rest) ≡ length first + length rest
  unfolding packet_of
  length-packet_of t1 t2 first rest = ground (
    arith,
    length-append (map (sample_of e t1) first) (map (sample_of e t2) rest),
    length-map (sample_of e t1) first,
    length-map (sample_of e t2) rest,
  )

  -- The port after a packet was handed up.
  handed : List Sample → k.World → Port k → Port k
  handed samples w p = record p {
    world = w;
    stats = record p.stats {
      rx_packets = p.stats.rx_packets + 1;
      rx_bytes = p.stats.rx_bytes + length samples * 12;
    };
    delivered = p.delivered ++ samples ∷ [];
  }

  rx_send_upstream-hands :
      (samples : List Sample) (p : Port k)
      → ((n : ℕ) (w : k.World) → (k.alloc n w).0 ≡ true)
      → rx_send_upstream k samples p
        ≡ (ok tt, handed samples (k.alloc (length samples * 12) p.world).1 p)
  unfolding rx_send_upstream alloc_skb handed
  rx_send_upstream-hands samples p memory = ground (arith, memory (length samples * 12) p.world)

  rxfifo_read-reads :
      (first rest : List Quad) (p : Port k)
      → fifo p.world ≡ first ++ rest
      → (t : ℕ) × (w : k.World) × (rxfifo_read k e (length first) p
          ≡ (ok (map (sample_of e t) first), record p { world = w }))
        × (fifo w ≡ rest)
  unfolding rxfifo_read read_clock sync
  rxfifo_read-reads first rest p held =
      let t = msecs (k.real_time p.world).0 in
      let w1 = (k.real_time p.world).1 in
      let held1 : fifo w1 ≡ first ++ rest = chip.clock_keeps p.world ∙ held in
      let w2 = (k.spi_sync (block_message (length first)) w1).1 in
      (
        t,
        w2,
        ground (
          arith,
          chip.reads_block first rest w1 held1,
          sample_in-word_buffer e t chip.idle first,
        ),
        chip.block_takes first rest w1 held1,
      )

  rxfifo_read_all-reads :
      (rest : List Quad) (fuel : ℕ) (p : Port k)
      → fifo p.world ≡ rest
      → length rest ≤ 32
      → length rest < fuel
      → (t : ℕ) × (w : k.World) × (rxfifo_read_all k e fuel p
          ≡ (ok (some (map (sample_of e t) rest)), record p { world = w }))
        × (fifo w ≡ [])
  unfolding rxfifo_read_all read_clock
  rxfifo_read_all-reads rest fuel p held room enough =
      let t = msecs (k.real_time p.world).0 in
      let p1 = record p { world = (k.real_time p.world).1 } in
      let (w, ran, none_left) =
        read_all_loop-reads t rest fuel 0 p1 (chip.clock_keeps p.world ∙ held) (omega arith)
          (omega arith) enough in
      (t, w, ran, none_left)

  rx_words-delivers :
      (first rest : List Quad) (fuel : ℕ) (p : Port k)
      → fifo p.world ≡ first ++ rest
      → length first ≡ 16
      → length rest ≤ 32
      → length rest < fuel
      → ((n : ℕ) (w : k.World) → (k.alloc n w).0 ≡ true)
      → (t1 t2 : ℕ) × (w : k.World) × (rx_words k e fuel false p
          ≡ (ok true, handed (packet_of t1 t2 first rest) w p))
        × (fifo w ≡ [])
  unfolding rx_words packet_of handed
  rx_words-delivers first rest fuel p held sixteen room enough memory =
      let (t1, w1, ran1, left) = rxfifo_read-reads first rest p held in
      let p1 = record p { world = w1 } in
      let (t2, w2, ran2, none_left) = rxfifo_read_all-reads rest fuel p1 left room enough in
      let samples = packet_of t1 t2 first rest in
      let p2 = record p { world = w2 } in
      (
        t1,
        t2,
        (k.alloc (length samples * 12) w2).1,
        ground (arith, sixteen, ran1, ran2, rx_send_upstream-hands samples p2 memory),
        chip.alloc_keeps (length samples * 12) w2 ∙ none_left,
      )

  rxfifo_is_empty-finds :
      (q : Quad) (qs : List Quad) (p : Port k)
      → fifo p.world ≡ q ∷ qs
      → rxfifo_is_empty k p ≡ (ok 0, record p { world = (k.w8r8 0xe6 p.world).1 })
  unfolding rxfifo_is_empty read_byte
  rxfifo_is_empty-finds q qs p held =
      let here = chip.reads_status p.world ∙ ap (λ x. ok (chip.status x)) held in
      ground
        (arith, here, chip.in_sync (q ∷ qs), chip.no_overflow (q ∷ qs), chip.shows_empty (q ∷ qs))

  rx_read-delivers :
      (first rest : List Quad) (fuel : ℕ) (p : Port k)
      → fifo p.world ≡ first ++ rest
      → length first ≡ 16
      → length rest ≤ 32
      → 32 < fuel
      → ((n : ℕ) (w : k.World) → (k.alloc n w).0 ≡ true)
      → (t1 t2 : ℕ) × (w : k.World) × (rx_read k e fuel 0 p
          ≡ (true, leave k (handed (packet_of t1 t2 first rest) w p)))
        × (fifo w ≡ [])
  unfolding rx_read ended handed
  rx_read-delivers first rest fuel p held sixteen room enough memory =
      let p1 = record p { world = (k.alloc mtu p.world).1 } in
      let (t1, t2, w, ran, none_left) =
        rx_words-delivers first rest fuel p1 (chip.alloc_keeps mtu p.world ∙ held) sixteen room
          (omega arith) memory in
      (t1, t2, w, ground (arith, ran, memory mtu p.world), none_left)

  -- A run of the worker on a FIFO of 16 words or more, 48 at most, returns: it hands up one packet
  -- of all the words in order, with two times, and the FIFO is empty. It counts the packet and its
  -- bytes, has let the lock go and undone one disabling of the interrupt. The receiver is in sync,
  -- no memory is short, and 33 messages are enough fuel.
  pub rx_worker-delivers :
      (first rest : List Quad) (fuel : ℕ) (p : Port k)
      → p.is_avionics ≡ true
      → fifo p.world ≡ first ++ rest
      → length first ≡ 16
      → length rest ≤ 32
      → 32 < fuel
      → ((n : ℕ) (w : k.World) → (k.alloc n w).0 ≡ true)
      → (t1 t2 : ℕ) × (p' : Port k) × (rx_worker k e fuel p ≡ (true, p'))
        × (p'.delivered
            ≡ p.delivered ++ (map (sample_of e t1) first ++ map (sample_of e t2) rest) ∷ [])
        × (fifo p'.world ≡ [])
        × (p'.stats.rx_packets ≡ p.stats.rx_packets + 1)
        × (p'.stats.rx_bytes ≡ p.stats.rx_bytes + (length first + length rest) * 12)
        × (p'.stats.rx_errors ≡ p.stats.rx_errors)
        × (p'.lock_depth ≡ p.lock_depth)
        × (p'.irq_depth ≡ p.irq_depth - 1)
  unfolding rx_worker rx_serve leave mutex_lock mutex_unlock enable_irq packet_of handed
  rx_worker-delivers [] rest fuel p av held sixteen room enough memory = absurd (omega arith)
  rx_worker-delivers (q ∷ qs) rest fuel p av held sixteen room enough memory =
      let p0 = mutex_lock k p in
      let p1 = record p0 { world = (k.w8r8 0xe6 p.world).1 } in
      let held1 = chip.status_keeps p.world ∙ held in
      let (t1, t2, w, ran, none_left) =
        rx_read-delivers (q ∷ qs) rest fuel p1 held1 sixteen room enough memory in
      let found = rxfifo_is_empty-finds q (qs ++ rest) p0 held in
      (
        t1,
        t2,
        leave k (handed (packet_of t1 t2 (q ∷ qs) rest) w p1),
        ground (arith, found, ran),
        refl,
        none_left,
        refl,
        rw (length-packet_of t1 t2 (q ∷ qs) rest) refl,
        refl,
        omega arith,
        refl,
      )
