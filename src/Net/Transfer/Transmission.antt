-- ===== src/Net/Transfer/Transmission.antt =====
-- What the HI-3593 transmits of a raw message: driver/net and driver/devices/hi3593.c together.
use driver_arinc.Prelude.{
  ℕ, zero, suc, ◌+◌, ◌*◌, ◌/◌, ◌%◌, ◌^◌, ◌≤◌, ◌<◌, ◌≡◌, ◌∙◌, refl, true, false, List, [], ◌∷◌, ◌++◌,
  Option, is_index, ok, arith,
}
use driver_arinc.Bytes.{Endian, split_bytes, bytes_of_word, swap_be32}
use driver_arinc.Bytes.Order.{split_bytes_lem}
use driver_arinc.Kernel.{Kernel}
use driver_arinc.Kernel.Transmitter.{IsTransmitter}
use driver_arinc.Hi3593.{Skb, Port, mtu}
use driver_arinc.Hi3593.Transmit.{fifo_bytes, start_xmit, run_work}
use driver_arinc.Hi3593.Transmit.Fifo.{words, tx_worker-sends}
use driver_arinc.Net.{Packet, Net}
use driver_arinc.Net.Protocol.{Address, protocol_get_dev_from_msg}
use driver_arinc.Net.Messages.{Memory, Answers, copy, protocol_raw_sendmsg}
use driver_arinc.Net.Messages.Samples.{expand_value, copy_inside}
use driver_arinc.Net.Messages.Buffers.{can_send}
use driver_arinc.Net.Transfer.Frames.{raw_packet, sendmsg_succeeds}
use driver_arinc.Net.Transfer.Layout.{word_at, word_at-eq, skb_of}

-- The words of a message on the transmit FIFO, from the word `i` on, `n` in number: the last of the
-- four bytes of a word in the caller's memory goes over the bus first.
pub message_words : (n i : ℕ) → Memory → List (List ℕ)
message_words zero i msg = []
message_words (suc n) i msg =
    (msg (4 * i + 3) ∷ msg (4 * i + 2) ∷ msg (4 * i + 1) ∷ msg (4 * i) ∷ [])
    ∷ message_words n (i + 1) msg

split_bytes_parts :
    (b0 b1 b2 b3 : ℕ)
    → b0 < 256
    → b1 < 256
    → b2 < 256
    → b3 < 256
    → split_bytes (b0 + b1 * 2 ^ 8 + b2 * 2 ^ 16 + b3 * 2 ^ 24)
      ≡ record { b0 = b0; b1 = b1; b2 = b2; b3 = b3 }
split_bytes_parts b0 b1 b2 b3 h0 h1 h2 h3 =
    let v = b0 + b1 * 2 ^ 8 + b2 * 2 ^ 16 + b3 * 2 ^ 24 in
    let c0 : v % 2 ^ 8 ≡ b0 = omega arith in
    let c1 : v / 2 ^ 8 % 2 ^ 8 ≡ b1 = omega arith in
    let c2 : v / 2 ^ 16 % 2 ^ 8 ≡ b2 = omega arith in
    let c3 : v / 2 ^ 24 ≡ b3 = omega arith in
    ground (arith, split_bytes_lem v (omega arith), c0, c1, c2, c3)

-- The bus order of a word in memory, on a processor of either byte order.
fifo_bytes-word_at :
    (e : Endian) (m : Memory) (a : ℕ)
    → ((j : ℕ) → m j < 256)
    → fifo_bytes e (word_at e m a) ≡ m (a + 3) ∷ m (a + 2) ∷ m (a + 1) ∷ m a ∷ []
unfolding fifo_bytes bytes_of_word swap_be32 word_at
fifo_bytes-word_at Endian.little m a h =
    let v = m a + m (a + 1) * 2 ^ 8 + m (a + 2) * 2 ^ 16 + m (a + 3) * 2 ^ 24 in
    let swapped : v % 2 ^ 8 * 2 ^ 24
          + v / 2 ^ 8 % 2 ^ 8 * 2 ^ 16
          + v / 2 ^ 16 % 2 ^ 8 * 2 ^ 8
          + v / 2 ^ 24 % 2 ^ 8
        ≡ m (a + 3) + m (a + 2) * 2 ^ 8 + m (a + 1) * 2 ^ 16 + m a * 2 ^ 24 =
      omega (arith, h a, h (a + 1), h (a + 2), h (a + 3)) in
    rw
      (
        swapped,
        split_bytes_parts (m (a + 3)) (m (a + 2)) (m (a + 1)) (m a) (h (a + 3)) (h (a + 2))
            (h (a + 1)) (h a),
      )
      refl
fifo_bytes-word_at Endian.big m a h =
    rw
      (split_bytes_parts (m (a + 3)) (m (a + 2)) (m (a + 1)) (m a) (h (a + 3)) (h (a + 2))
        (h (a + 1)) (h a))
      refl

written : (size j : ℕ) (msg garbage : Memory) → j < size → copy size msg 0 garbage 0 j ≡ msg j
written size j msg garbage h = ground (arith, copy_inside size j msg 0 garbage 0 h)

-- The samples of a raw message have its words as their values.
raw_packet_value :
    (e : Endian) (size i : ℕ) (msg garbage : Memory)
    → i < size / 4
    → word_at e (raw_packet size msg garbage).bytes (12 * i + 8) ≡ word_at e msg (4 * i)
raw_packet_value e size i msg garbage h =
    word_at-eq e (raw_packet size msg garbage).bytes msg (12 * i + 8) (4 * i) (λ b small.
      expand_value (size / 4) i b (copy size msg 0 garbage 0) h small
      ∙ written size (4 * i + b) msg garbage (omega arith))

words-message_words :
    (e : Endian) (time : ℕ → ℕ) (size n i : ℕ) (msg garbage : Memory)
    → ((j : ℕ) → msg j < 256)
    → i + n ≤ size / 4
    → words e n i (skb_of e time (raw_packet size msg garbage)).samples ≡ message_words n i msg
unfolding words message_words skb_of
words-message_words e time size zero i msg garbage bytes h = refl
words-message_words e time size (suc n) i msg garbage bytes h = rw (
  raw_packet_value e size i msg garbage (omega arith),
  fifo_bytes-word_at e msg (4 * i) bytes,
  words-message_words e time size n (i + 1) msg garbage bytes (omega arith),
)

skb_of_lem :
    (e : Endian) (time : ℕ → ℕ) (size : ℕ) (msg garbage : Memory)
    → let skb = skb_of e time (raw_packet size msg garbage) in
      (skb.protocol ≡ 0x001d) × (skb.len ≡ size / 4 * 12)
unfolding skb_of
skb_of_lem e time size msg garbage = (refl, refl)

module _ {k : Kernel} (e : Endian) {sent : k.World → List (List ℕ)}
    (chip : IsTransmitter k sent) where
  start_xmit_queues :
      (skb : Skb) (p : Port k)
      → skb.protocol ≡ 0x001d
      → skb.len ≤ mtu
      → skb.len % 12 ≡ 0
      → p.is_avionics ≡ true
      → let p' = start_xmit k e skb p in
        (p' ≡ record p { skbq = p.skbq ++ skb ∷ []; work_pending = true })
  unfolding start_xmit
  start_xmit_queues skb p proto fits whole av = ground arith

  -- A raw message that a program sends on an idle transmitter of the HI-3593 goes to the transmit
  -- FIFO word for word, in order and behind what was sent before: all its whole words, and of each
  -- word the last of its four bytes first, on a processor of either byte order. The message has at
  -- most 256 words; nothing fails on the way, and the FIFO has room.
  pub run_work-protocol_raw_sendmsg :
      (a : Answers) (from size dev : ℕ) (name : Option Address) (msg : Memory) (n : Net)
      (time : ℕ → ℕ) (p : Port k)
      → (protocol_get_dev_from_msg from name size n).0 ≡ ok dev
      → can_send dev n ≡ true
      → a.room ≡ true
      → a.copied ≡ ok tt
      → a.queued ≡ ok tt
      → ((j : ℕ) → msg j < 256)
      → size / 4 ≤ 256
      → p.is_avionics ≡ true
      → is_index p.tx_index 0 ≡ true
      → p.skbq ≡ []
      → let (r, n') = protocol_raw_sendmsg a from name size msg n in
        (packet : Packet) × (r ≡ ok size)
        × (n'.sent ≡ (dev, packet) ∷ n.sent)
        × (sent (run_work k e (start_xmit k e (skb_of e time packet) p)).world
            ≡ sent p.world ++ message_words (size / 4) 0 msg)
  unfolding run_work
  run_work-protocol_raw_sendmsg a from size dev name msg n time p found able room copied queued
        bytes small av ix idle =
      let packet = raw_packet size msg a.garbage in
      let skb = skb_of e time packet in
      let (proto, len) = skb_of_lem e time size msg a.garbage in
      let (result, put, kept) =
        sendmsg_succeeds a from size dev name msg n found able room copied queued in
      let started = start_xmit_queues skb p proto (omega (arith, len)) (omega (arith, len)) av in
      let p1 = record p { skbq = skb ∷ []; work_pending = false } in
      let counted : skb.len / 12 ≡ size / 4 = omega (arith, len) in
      let worked = tx_worker-sends e chip skb [] p1 av ix refl in
      let same = words-message_words e time size (size / 4) 0 msg a.garbage bytes (omega arith) in
      (packet, result, put, ground (arith, started, idle, counted, worked, same))
