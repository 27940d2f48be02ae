-- ===== src/Tests/Hi3717a.antt =====
-- The theorems about driver/devices/hi3717a.c at concrete ports, and concrete runs.
use driver_arinc.Prelude.{
  ℕ, ◌+◌, ◌-◌, ◌*◌, ◌/◌, ◌<◌, ◌≡◌, refl, true, List, [], ◌∷◌, ◌++◌, map, get_or, length, ◌≤◌,
  Option, none, Result, err, bit_and, ok, some, arith,
}
use driver_arinc.Bytes.{Endian, Quad, arinc717_word, arinc717_word_count, arinc717_frame}
use driver_arinc.Kernel.{Kernel}
use driver_arinc.Hi3593.{Skb}
use driver_arinc.Hi3717a.{Port, mutex_lock, mutex_unlock, locked, read_byte, write_bytes}
use driver_arinc.Hi3717a.Control.{rate_value, period_of, set_rate, get_rate, get_cntrl}
use driver_arinc.Hi3717a.Control.Rate.{get_rate-set_rate717}
use driver_arinc.Hi3717a.Transmit.{
  Worker, Outcome, be16_bytes, count_empty, advance, tx_word, fill, tx_worker, tx_open, tx_stop,
  start_xmit,
}
use driver_arinc.Hi3717a.Transmit.Stream.{bus_bytes, Advances, fill-sends}
use driver_arinc.Hi3717a.Transmit.Rounds.{tx_rounds, frame_stream, tx_worker-streams}
use driver_arinc.Hi3717a.Transmit.Frames.{FitsFrame, HasMarkers, marker, place, AllFit}
use driver_arinc.Hi3717a.Transmit.Packets.{IsLast, start_xmit-stores, start_xmit-overwrites}
use driver_arinc.Hi3717a.Transmit.Lifecycle.{tx_stop-crashes}
use driver_arinc.Hi3717a.Receive.{rx_worker}
use driver_arinc.Hi3717a.Receive.Fifo.{sample_of, rx_worker-delivers}
use driver_arinc.Tests.Frames.{
  Frames, frames, idle_frames, frame_port, registers_of, has_registers, frames_sent, has_tx_fifo,
  frames_fifo, has_rx_fifo, room_of, frames_taken, send-taken,
}

abbrev e : Endian
e = Endian.little

abbrev idle_port : Port frames
idle_port = frame_port idle_frames

period_1536 : idle_port.period_usec ≡ period_of (get_rate frames 0 idle_port).0
unfolding get_rate get_cntrl period_of
period_1536 = refl

value_384 : rate_value 384 ≡ ok 0x08
unfolding rate_value
value_384 = refl

get_rate-set_rate717_example :
    let (r, p') = set_rate frames 384 idle_port in
    (r ≡ ok tt)
    × ((get_rate frames 0 p').0 ≡ 384)
    × (p'.period_usec ≡ period_of 384)
    × (bit_and (registers_of p'.world).ctrl0 0x07
        ≡ bit_and (registers_of idle_port.world).ctrl0 0x07)
    × ((registers_of p'.world).ctrl1 ≡ (registers_of idle_port.world).ctrl1)
    × ((registers_of p'.world).fspin ≡ (registers_of idle_port.world).fspin)
    × ((registers_of p'.world).wrdcnt ≡ (registers_of idle_port.world).wrdcnt)
    × (p'.lock_depth ≡ 0)
get_rate-set_rate717_example =
    get_rate-set_rate717 has_registers 384 0x08 0 idle_port refl refl value_384 period_1536

-- A transmitter whose buffer has two words in each of its frames, and a worker at its last word.
abbrev buffer_words : List ℕ
buffer_words = 0x247 ∷ 11 ∷ 0x5b8 ∷ 21 ∷ 0xa47 ∷ 31 ∷ 0xdb8 ∷ 41 ∷ []

abbrev tx_port : Port frames
tx_port = record idle_port {
  tx_buffer = some 1;
  memory = λ a. buffer_words;
  tx_buffer_size = 8;
  tx_enabled = true;
}

abbrev at_last : Worker
at_last = record { buffer = 1; delay = 5; i = 7 }

-- A chip that takes no word while the driver accesses it.
module _ {k : Kernel} {taken : k.World → ℕ}
    (read_keeps : (w : k.World) → taken (k.w8r8 0xe8 w).1 ≡ taken w)
    (write_keeps : (bs : List ℕ) (w : k.World) → taken (k.write (0x74 ∷ bs) w).1 ≡ taken w) where
  tx_word-taken : (v : Worker) (p : Port k) → taken (tx_word k e v p).1.world ≡ taken p.world
  unfolding tx_word locked mutex_lock mutex_unlock read_byte write_bytes count_empty advance
  tx_word-taken v p =
      let bs = be16_bytes e (get_or (p.memory v.buffer) v.i 0) in
      let w1 = (k.w8r8 0xe8 p.world).1 in ground (arith, read_keeps p.world, write_keeps bs w1)

  stepped :
      (fuel : ℕ) (v : Worker) (p p1 : Port k) (r : Result (Option Worker))
      → tx_word k e v p ≡ (r, p1)
      → taken p1.world ≡ taken p.world
      → ((u : Worker) (q : Port k) → taken (fill k e fuel u q).1.world ≡ taken q.world)
      → taken (fill k e (ℕ.suc fuel) v p).1.world ≡ taken p.world
  unfolding fill
  stepped fuel v p p1 (ok (some v1)) ran kept rest = ground (arith, ran, kept, rest v1 p1)
  stepped fuel v p p1 (ok none) ran kept rest = ground (arith, ran, kept)
  stepped fuel v p p1 (err x) ran kept rest = ground (arith, ran, kept)

  fill-taken :
      (fuel : ℕ) (v : Worker) (p : Port k) → taken (fill k e fuel v p).1.world ≡ taken p.world
  unfolding fill
  fill-taken ℕ.zero v p = refl
  fill-taken (ℕ.suc fuel) v p =
      stepped fuel v p (tx_word k e v p).1 (tx_word k e v p).0 refl (tx_word-taken v p)
        (fill-taken fuel)

frames-taken :
    (fuel : ℕ) (v : Worker) (p : Port frames)
    → (fill frames e fuel v p).1.world.taken ≡ p.world.taken
frames-taken fuel v p =
    fill-taken {k = frames} {taken = frames_taken} (λ w. refl) send-taken fuel v p

fill-sends_example :
    (m : ℕ) × (v' : Worker) × (p' : Port frames) × (fill frames e 33 at_last tx_port
      ≡ (ok (some v'), p'))
    × (5 ≤ m)
    × (room_of p'.world + 0 + m ≡ 5 + p'.world.taken)
    × (0 ≤ p'.world.taken)
    × Advances e frames_sent buffer_words 8 15 m at_last v' tx_port p'
fill-sends_example =
    fill-sends e has_tx_fifo 0 33 15 at_last tx_port (omega arith) refl
      (omega (arith, frames-taken 33 at_last tx_port)) (omega arith)

tx_worker-streams_example :
    (m : ℕ) × (v v' : Worker) × (p1 p2 : Port frames) × (tx_worker frames e tx_port
      ≡ (Outcome.running v, p1))
    × (tx_rounds frames e 33 3 v p1 ≡ (some (Outcome.running v'), p2))
    × (frames_sent p2.world ≡ [] ++ map (bus_bytes e) (frame_stream 2 buffer_words 0 m))
    × (0 < 3 → 5 ≤ m)
    × (room_of p2.world + 0 + m ≡ 5 + p2.world.taken)
    × (p2.stats.tx_bytes ≡ 0 + 2 * m)
    × (p2.stats.tx_packets ≡ 0 + m / 8)
tx_worker-streams_example =
    tx_worker-streams e has_tx_fifo 0 33 3 2 1 tx_port (λ u q. omega (arith, frames-taken 33 u q))
      (omega arith) refl refl refl (omega arith) refl refl

-- Word 2 of frame 1 is 0x123; the sample behind it has word 2 of frame 3.
abbrev tx_packet : Skb
tx_packet = record {
  protocol = 0x001d;
  len = 24;
  samples = λ i. record { time_msecs = 0; value = 0x01230011 + 2 * i };
}

marked_buffer : HasMarkers 2 buffer_words
unfolding HasMarkers marker
marked_buffer ℕ.zero h = refl
marked_buffer (ℕ.suc ℕ.zero) h = refl
marked_buffer (ℕ.suc (ℕ.suc ℕ.zero)) h = refl
marked_buffer (ℕ.suc (ℕ.suc (ℕ.suc ℕ.zero))) h = refl
marked_buffer (ℕ.suc (ℕ.suc (ℕ.suc (ℕ.suc f)))) h = absurd (omega arith)

fits_first : FitsFrame 2 0x01230011
unfolding arinc717_word_count
fits_first = record { behind_sync = omega arith; within = omega arith }

fits_second : FitsFrame 2 0x01230013
unfolding arinc717_word_count
fits_second = record { behind_sync = omega arith; within = omega arith }

packet_fits : AllFit 2 2 0 tx_packet.samples
unfolding AllFit
packet_fits ℕ.zero h = fits_first
packet_fits (ℕ.suc ℕ.zero) h = fits_second
packet_fits (ℕ.suc (ℕ.suc i)) h = absurd (omega arith)

first-IsLast : IsLast 2 tx_packet.samples 2 0
unfolding IsLast place arinc717_word_count arinc717_frame
first-IsLast ℕ.zero a b eq = absurd (omega arith)
first-IsLast (ℕ.suc ℕ.zero) a b eq = omega (arith, eq)
first-IsLast (ℕ.suc (ℕ.suc i)) a b eq = absurd (omega arith)

start_xmit-stores_example :
    let words = (start_xmit frames e tx_packet tx_port).memory 1 in
    HasMarkers 2 words
    × (length words ≡ 8)
    × (get_or words (place 2 0x01230011) 0 ≡ arinc717_word 0x01230011)
start_xmit-stores_example =
    start_xmit-stores e 2 2 0 1 tx_packet tx_port refl refl refl refl marked_buffer refl refl
      (omega arith) packet_fits (omega arith) first-IsLast

-- Word 3 of frame 1, where frames have two words.
abbrev long_packet : Skb
long_packet = record {
  protocol = 0x001d;
  len = 12;
  samples = λ i. record { time_msecs = 0; value = 0x01230019 };
}

long_count : arinc717_word_count 0x01230019 ≡ 2 + 1
unfolding arinc717_word_count
long_count = refl

long_frame : arinc717_frame 0x01230019 < 3
unfolding arinc717_frame
long_frame = omega arith

start_xmit-overwrites_example :
    get_or
      ((start_xmit frames e long_packet tx_port).memory 1)
      (2 * (arinc717_frame 0x01230019 + 1))
      0
    ≡ arinc717_word 0x01230019
start_xmit-overwrites_example =
    start_xmit-overwrites e 2 1 long_packet tx_port refl refl refl refl (omega arith) refl refl
      long_count long_frame

tx_stop-crashes_example :
    let (r, p1) = tx_open frames e 0 idle_port in
    let (r', p2) = tx_stop frames e p1 in
    (r ≡ ok tt)
    × (r' ≡ ok tt)
    × (p2.work_pending ≡ true)
    × ((tx_worker frames e p2).0 ≡ Outcome.crashed)
tx_stop-crashes_example = tx_stop-crashes e 0 idle_port refl refl (λ n w. refl)

-- A word, and a receiver that holds 17 of them.
abbrev rx_word : Quad
rx_word = record { b0 = 0x01; b1 = 0x23; b2 = 0x00; b3 = 0x11 }

abbrev block_of_words : List Quad
block_of_words =
    rx_word ∷ rx_word ∷ rx_word ∷ rx_word ∷ rx_word ∷ rx_word ∷ rx_word ∷ rx_word ∷ rx_word
    ∷ rx_word ∷ rx_word ∷ rx_word ∷ rx_word ∷ rx_word ∷ rx_word ∷ rx_word ∷ []

abbrev rx_port : Port frames
rx_port = frame_port (record idle_frames { fifo = block_of_words ++ rx_word ∷ [] })

rx_worker-delivers_example :
    (t1 t2 : ℕ) × (p' : Port frames) × (rx_worker frames e 33 rx_port ≡ (true, p'))
    × (p'.delivered
        ≡ [] ++ (map (sample_of e t1) block_of_words ++ map (sample_of e t2) (rx_word ∷ [])) ∷ [])
    × (frames_fifo p'.world ≡ [])
    × (p'.stats.rx_packets ≡ 0 + 1)
    × (p'.stats.rx_bytes ≡ 0 + (16 + 1) * 12)
    × (p'.stats.rx_errors ≡ 0)
    × (p'.lock_depth ≡ 0)
    × (p'.irq_depth ≡ 1 - 1)
rx_worker-delivers_example =
    rx_worker-delivers e has_rx_fifo block_of_words (rx_word ∷ []) 33 rx_port refl refl refl
      (omega arith) (omega arith) (λ n w. refl)
