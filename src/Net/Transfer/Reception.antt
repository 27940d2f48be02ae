-- ===== src/Net/Transfer/Reception.antt =====
-- What a program reads of the words that the HI-3593 received: driver/devices/hi3593.c and driver/net
-- together.
use driver_arinc.Prelude.{
  ℕ, zero, suc, ◌+◌, ◌*◌, ◌/◌, ◌^◌, ◌≤◌, ◌<◌, ◌≡◌, ◌∙◌, refl, sym, true, false, List, [], ◌∷◌, ◌++◌,
  map, length, get_or, ok, if◌then◌else◌, append_assoc, append-nil, arith,
}
use driver_arinc.Bytes.{Endian, Quad, word_of_bytes}
use driver_arinc.Bytes.Order.{word_of_bytes-lt}
use driver_arinc.Kernel.{Kernel}
use driver_arinc.Kernel.ReceiveFifo.{IsReceiveFifo}
use driver_arinc.Hi3593.{Sample, Port}
use driver_arinc.Hi3593.Receive.{RxOps, rx_fifo, parity_accepts, parity_clear}
use driver_arinc.Hi3593.Receive.Fifo.{
  readable, received, readable-received, AllBytes, values, all_values, rx_fifo-readable,
}
use driver_arinc.Net.{SocketList, Packet, Net}
use driver_arinc.Net.Sockets.{get_list}
use driver_arinc.Net.Sockets.Invariant.{IsSound}
use driver_arinc.Net.Sockets.Listens.{listens}
use driver_arinc.Net.Protocol.{entry_of}
use driver_arinc.Net.Messages.{Memory, compress, received_size, raw_received}
use driver_arinc.Net.Messages.Samples.{compress_value}
use driver_arinc.Net.Family.{RxAnswers, avionics_packet_rx}
use driver_arinc.Net.Family.Delivery.{takes, avionics_packet_rx-delivers}
use driver_arinc.Net.System.Quiet.{Quiet-IsSound, Quiet-get_list, Quiet-listens}
use driver_arinc.Net.System.Steady.{packet_rx-Quiet}
use driver_arinc.Net.Transfer.{receive_all}
use driver_arinc.Net.Transfer.Layout.{
  word_at, no_sample, sample_bytes, packet_of, word_at-eq, word_at-sample_bytes,
}

-- The words of a raw message in the caller's memory, from the word `i` on, `n` in number.
unfoldable pub words_from : Endian → (n i : ℕ) → Memory → List ℕ
words_from e zero i m = []
words_from e (suc n) i m = word_at e m (4 * i) ∷ words_from e n (i + 1) m

-- What a program reads of a packet, with a buffer as long as the packet.
unfoldable pub read_words : Endian → (garbage : Memory) → Packet → List ℕ
read_words e garbage p = let r = raw_received p.len garbage p in words_from e (r.size / 4) 0 r.bytes

-- What it reads of all the packets in its queue, one call of recvmsg after the other.
unfoldable pub read_all : Endian → (garbage : Memory) → List Packet → List ℕ
read_all e garbage [] = []
read_all e garbage (p ∷ rest) = read_words e garbage p ++ read_all e garbage rest

abbrev AllWords : List ℕ → Type 0
AllWords [] = Unit {0}
AllWords (v ∷ rest) = (v < 2 ^ 32) × AllWords rest

AllWords-append : (xs ys : List ℕ) → AllWords (xs ++ ys) → AllWords xs × AllWords ys
AllWords-append [] ys h = (tt, h)
AllWords-append (x ∷ xs) ys h = let (a, b) = AllWords-append xs ys h.1 in ((h.0, a), b)

readable-AllWords : (e : Endian) (c ev : ℕ) (qs : List Quad) → AllWords (readable e c ev qs)
unfolding readable
readable-AllWords e c ev [] = tt
readable-AllWords e c ev (q ∷ rest) =
    let word = word_of_bytes-lt e (record q { b0 = parity_clear c ev q.b0 }) in
    elim (parity_accepts c ev q.b0)
      as (λ t. AllWords (
        (if t then word_of_bytes e (record q { b0 = parity_clear c ev q.b0 }) ∷ [] else [])
        ++ readable e c ev rest)) [
          | true ↦ (word, readable-AllWords e c ev rest)
          | false ↦ readable-AllWords e c ev rest
        ]

get_or-AllWords :
    (xs : List Sample) (i : ℕ) → AllWords (values xs) → (get_or xs i no_sample).value < 2 ^ 32
get_or-AllWords [] i h = omega arith
get_or-AllWords (x ∷ xs) zero h = h.0
get_or-AllWords (x ∷ xs) (suc i) h = get_or-AllWords xs i h.1

words_from-values :
    (e : Endian) (ys : List Sample) (i : ℕ) (m : Memory)
    → ((j a : ℕ) → j < length ys → a ≡ i + j → word_at e m (4 * a) ≡ (get_or ys j no_sample).value)
    → words_from e (length ys) i m ≡ values ys
unfolding words_from
words_from-values e [] i m h = refl
words_from-values e (y ∷ ys) i m h =
    let first = h 0 i (omega arith) (omega arith) in
    let rest =
      words_from-values e ys (i + 1) m
        (λ j a small at. h (suc j) a (omega arith) (omega (arith, at))) in
    ground (arith, first, rest)

-- What the loop of recvmsg collects.
compress-word :
    (e : Endian) (n a : ℕ) (samples garbage : Memory)
    → a < n
    → word_at e (compress n samples garbage) (4 * a) ≡ word_at e samples (12 * a + 8)
compress-word e n a samples garbage h =
    word_at-eq e (compress n samples garbage) samples (4 * a) (12 * a + 8)
      (λ b small. compress_value n a b samples garbage h small)

read_words_lem :
    (e : Endian) (garbage : Memory) (dev n : ℕ) (m : Memory)
    → read_words e garbage (record { len = n * 12; bytes = m; ifindex = dev })
      ≡ words_from e n 0 (compress n m garbage)
unfolding read_words raw_received received_size
read_words_lem e garbage dev n m =
    let count : received_size (n * 12) (n * 12) / 12 ≡ n = ground arith in
    let words : n * 4 / 4 ≡ n = omega arith in ground (arith, count, words)

-- A packet of samples reads as their values.
read_words-packet_of :
    (e : Endian) (garbage : Memory) (dev : ℕ) (xs : List Sample)
    → AllWords (values xs)
    → read_words e garbage (record (packet_of e xs) { ifindex = dev }) ≡ values xs
unfolding packet_of
read_words-packet_of e garbage dev xs h =
    let m = sample_bytes e xs in
    read_words_lem e garbage dev (length xs) m
    ∙ words_from-values e xs 0 (compress (length xs) m garbage) (λ j a small at.
      let here : a ≡ j = omega (arith, at) in
      rw here (
        compress-word e (length xs) j m garbage small
        ∙ word_at-sample_bytes e xs j (get_or-AllWords xs j h)))

-- The copies of packets that a socket gets.
abbrev copies_of : (dev : ℕ) → List Packet → List Packet
copies_of dev [] = []
copies_of dev (p ∷ rest) = record p { ifindex = dev } ∷ copies_of dev rest

read_all-packets :
    (e : Endian) (garbage : Memory) (dev : ℕ) (xss : List (List Sample))
    → AllWords (all_values xss)
    → read_all e garbage (copies_of dev (map (packet_of e) xss)) ≡ all_values xss
unfolding read_all
read_all-packets e garbage dev [] h = refl
read_all-packets e garbage dev (xs ∷ xss) h =
    let (here, there) = AllWords-append (values xs) (all_values xss) h in
    rw (read_words-packet_of e garbage dev xs here, read_all-packets e garbage dev xss there) refl

receive_all-queue :
    (rx : RxAnswers) (dev sk : ℕ) (packets : List Packet) (list : SocketList) (n : Net)
    → IsSound n
    → get_list dev n ≡ ok list
    → listens (entry_of sk) dev n ≡ true
    → takes rx sk ≡ true
    → ((receive_all rx dev packets n).socks sk).receive_queue
      ≡ (n.socks sk).receive_queue ++ copies_of dev packets
unfolding receive_all
receive_all-queue rx dev sk [] list n sound there listening taken =
    sym (append-nil (n.socks sk).receive_queue)
receive_all-queue rx dev sk (p ∷ rest) list n sound there listening taken =
    let quiet = packet_rx-Quiet rx dev p n in
    let n1 = (avionics_packet_rx true rx dev p n).1 in
    let later =
      receive_all-queue rx dev sk rest list n1 (Quiet-IsSound quiet sound)
        (Quiet-get_list dev quiet ∙ there) (Quiet-listens (entry_of sk) dev quiet ∙ listening)
        taken in
    ground (
      arith,
      later,
      avionics_packet_rx-delivers rx dev sk p list n sound there,
      listening,
      taken,
      append_assoc (n.socks sk).receive_queue (record p { ifindex = dev } ∷ [])
          (copies_of dev rest),
    )

module _ {k : Kernel} (e : Endian) {rd_cmd status_cmd : ℕ} {fifo : k.World → List Quad}
    (chip : IsReceiveFifo k rd_cmd status_cmd fifo) where
  -- The words in the receive FIFO of the HI-3593 come to a program, in order: what it reads from its
  -- queue, over all packets, is the words of the FIFO. With the parity check on and even parity off,
  -- the words whose parity bit is set are left out; with both on, every word comes with its parity
  -- bit cleared; all other bits are as they are in the FIFO. The FIFO has 1 to 256 words, memory is
  -- there, and no word arrives during the run; nothing was delivered before, and the program's socket
  -- listens to the device, can take packets, and has an empty queue.
  pub read_all-rx_fifo :
      (ops : RxOps) (q : Quad) (rest : List Quad) (p : Port k) (rx : RxAnswers) (dev sk : ℕ)
      (garbage : Memory) (list : SocketList) (n : Net)
      → ops.rd_cmd ≡ rd_cmd
      → ops.status_cmd ≡ status_cmd
      → fifo p.world ≡ q ∷ rest
      → AllBytes (q ∷ rest)
      → length (q ∷ rest) ≤ 256
      → ((size : ℕ) (w : k.World) → (k.alloc size w).0 ≡ true)
      → p.delivered ≡ []
      → IsSound n
      → get_list dev n ≡ ok list
      → listens (entry_of sk) dev n ≡ true
      → takes rx sk ≡ true
      → (n.socks sk).receive_queue ≡ []
      → let p' = (rx_fifo k e ops p).1 in
        let n' = receive_all rx dev (map (packet_of e) p'.delivered) n in
        read_all e garbage (n'.socks sk).receive_queue
        ≡ received e p.check_parity p.even_parity (q ∷ rest)
  read_all-rx_fifo ops q rest p rx dev sk garbage list n rd st full bytes fits room fresh sound
        there listening taken idle =
      let p' = (rx_fifo k e ops p).1 in
      let words = readable e p.check_parity p.even_parity (q ∷ rest) in
      let delivered : all_values p'.delivered ≡ words =
        ground (arith, rx_fifo-readable e chip ops q rest p rd st full fits room, fresh) in
      let small : AllWords (all_values p'.delivered) =
        rw delivered (readable-AllWords e p.check_parity p.even_parity (q ∷ rest)) in
      let packets = map (packet_of e) p'.delivered in
      let queue = receive_all-queue rx dev sk packets list n sound there listening taken in
      rw (queue, idle)
        (read_all-packets e garbage dev p'.delivered small
          ∙ delivered
          ∙ readable-received e p.check_parity p.even_parity (q ∷ rest) bytes)
