-- ===== src/Hi3593/Receive/Counters.antt =====
-- The counters of a receiver and the depth of its interrupt through hi3593_rx_worker
-- (driver/devices/hi3593.c).
use driver_arinc.Prelude.{
  value_or, ℕ, zero, suc, ◌+◌, ◌-◌, ◌*◌, ◌/◌, ◌≡◌, true, List, [], ◌∷◌, ◌++◌, length, get_or,
  length-append, some, Option-cases, inl, inr, if◌then◌else◌, arith,
}
use driver_arinc.Bytes.{Endian, Quad}
use driver_arinc.Kernel.{Kernel}
use driver_arinc.Hi3593.{Sample, Port, sample_size, mtu, read_byte}
use driver_arinc.Hi3593.Receive.{
  RxOps, rx_ops, deliver, alloc_skb, hand_over, take_sample, rx_label, fifo_drained, rx_word,
  rx_loop, rx_fifo, rx_body, rx_labels, rx_words, read_labels, count_full, rx_serve, rx_worker,
  count_crc_error, enable_irq,
}

-- The number of samples in some packets.
abbrev pub total : List (List Sample) → ℕ
total [] = 0
total (xs ∷ xss) = length xs + total xss

total-append : (xss yss : List (List Sample)) → total (xss ++ yss) ≡ total xss + total yss
total-append [] yss = omega arith
total-append (xs ∷ xss) yss = omega (arith, total-append xss yss)

pub record IsCounted {k : Kernel} (p : Port k) : Type 0 where
  pub packets : p.stats.rx_packets ≡ length p.delivered
  pub bytes : p.stats.rx_bytes ≡ total p.delivered * sample_size

-- Between two moments `start` and `p` of a run of the worker: what was delivered was counted, and
-- the rest of the port that the interrupt depends on is as it was.
record IsServing {k : Kernel} (start p : Port k) : Type 0 where
  packets :
      p.stats.rx_packets + length start.delivered ≡ start.stats.rx_packets + length p.delivered
  bytes :
      p.stats.rx_bytes + total start.delivered * sample_size
      ≡ start.stats.rx_bytes + total p.delivered * sample_size
  disabled : p.irq_depth ≡ start.irq_depth
  enabled : p.rx_enabled ≡ start.rx_enabled
  pending : p.work_pending ≡ start.work_pending
  typed : p.is_avionics ≡ start.is_avionics
  index : p.rx_index ≡ start.rx_index

module _ (k : Kernel) (e : Endian) where
  take_sample-frame :
      (q : Quad) (p : Port k)
      → (take_sample k e q p).1 ≡ record p { world = (take_sample k e q p).1.world }
  unfolding take_sample
  take_sample-frame q p = ground arith

module _ (k : Kernel) (e : Endian) {d : Port k} where
  hand_over-IsServing :
      (samples : List Sample) (p : Port k) → IsServing d p → IsServing d (hand_over k e samples p)
  unfolding hand_over
  hand_over-IsServing samples p h =
      ground
        (arith, length-append p.delivered (samples ∷ []), total-append p.delivered (samples ∷ []))

  alloc_skb-IsServing :
      (size : ℕ) (p : Port k) → IsServing d p → IsServing d (alloc_skb k e size p).1
  unfolding alloc_skb
  alloc_skb-IsServing size p h = ground arith

  deliver-IsServing :
      (samples : List Sample) (p : Port k) → IsServing d p → IsServing d (deliver k e samples p).1
  unfolding deliver
  deliver-IsServing samples p h =
      ground
        (arith, length-append p.delivered (samples ∷ []), total-append p.delivered (samples ∷ []))

  rx_label-IsServing :
      (status bit pl_cmd label : ℕ) (p : Port k)
      → IsServing d p
      → IsServing d (rx_label k e status bit pl_cmd label p).1
  unfolding rx_label count_crc_error
  rx_label-IsServing status bit pl_cmd label p h =
      grind (arith, take_sample-frame k e, hand_over-IsServing)

  rx_word-IsServing :
      (rd_cmd : ℕ) (samples : List Sample) (p : Port k)
      → IsServing d p
      → IsServing d (rx_word k e rd_cmd samples p).1
  unfolding rx_word count_crc_error
  rx_word-IsServing rd_cmd samples p h = grind (arith, take_sample-frame k e)

  fifo_drained-IsServing :
      (status_cmd : ℕ) (p : Port k) → IsServing d p → IsServing d (fifo_drained k e status_cmd p).1
  unfolding fifo_drained
  fifo_drained-IsServing status_cmd p h = ground arith

  rx_loop-IsServing :
      (n : ℕ) (ops : RxOps) (samples : List Sample) (p : Port k)
      → IsServing d p
      → IsServing d (rx_loop k e n ops samples p).1
  unfolding rx_loop
  rx_loop-IsServing zero ops samples p h = h
  rx_loop-IsServing (suc n) ops samples p h =
      let read = rx_word k e ops.rd_cmd samples p in
      let test = fifo_drained k e ops.status_cmd read.1 in
      let h1 = rx_word-IsServing ops.rd_cmd samples p h in
      let h2 = fifo_drained-IsServing ops.status_cmd read.1 h1 in
      ground (arith, h1, h2, rx_loop-IsServing n ops (value_or samples read.0) test.1 h2)

  rx_fifo-IsServing : (ops : RxOps) (p : Port k) → IsServing d p → IsServing d (rx_fifo k e ops p).1
  unfolding rx_fifo
  rx_fifo-IsServing ops p h =
      let read = rx_loop k e (mtu / sample_size) ops [] p in
      let h1 = rx_loop-IsServing (mtu / sample_size) ops [] p h in
      ground (arith, h1, deliver-IsServing (value_or [] read.0) read.1 h1)

  rx_labels-IsServing :
      (status : ℕ) (pl : List ℕ) (ops : RxOps) (p : Port k)
      → IsServing d p
      → IsServing d (rx_labels k e status pl ops p).1
  unfolding rx_labels
  rx_labels-IsServing status pl ops p h =
      let h1 = rx_label-IsServing status 0x08 ops.pl_cmd0 (get_or pl 2 0) p h in
      let p1 = (rx_label k e status 0x08 ops.pl_cmd0 (get_or pl 2 0) p).1 in
      let h2 = rx_label-IsServing status 0x10 ops.pl_cmd1 (get_or pl 1 0) p1 h1 in
      let p2 = (rx_label k e status 0x10 ops.pl_cmd1 (get_or pl 1 0) p1).1 in
      let h3 = rx_label-IsServing status 0x20 ops.pl_cmd2 (get_or pl 0 0) p2 h2 in
      ground (arith, h1, h2, h3)

  read_labels-IsServing :
      (status pl_rd : ℕ) (p : Port k)
      → IsServing d p
      → IsServing d (read_labels k e status pl_rd p).1
  unfolding read_labels
  read_labels-IsServing status pl_rd p h = ground arith

  count_full-IsServing :
      (status : ℕ) (p : Port k) → IsServing d p → IsServing d (count_full k e status p)
  unfolding count_full
  count_full-IsServing status p h = ground arith

  rx_words-IsServing :
      (status : ℕ) (ops : RxOps) (p : Port k)
      → IsServing d p
      → IsServing d (rx_words k e status ops p).1
  unfolding rx_words
  rx_words-IsServing status ops p h =
      let read = read_labels k e status ops.pl_rd p in
      let h1 = read_labels-IsServing status ops.pl_rd p h in
      let pl = value_or [] read.0 in
      let h2 = rx_labels-IsServing status pl ops read.1 h1 in
      ground (arith, h1, h2, rx_fifo-IsServing ops (rx_labels k e status pl ops read.1).1 h2)

  rx_body-IsServing : (ops : RxOps) (p : Port k) → IsServing d p → IsServing d (rx_body k e ops p).1
  unfolding rx_body read_byte
  rx_body-IsServing ops p h =
      let read = read_byte k ops.status_cmd p in
      let status = value_or 0 read.0 in
      let h1 : IsServing d read.1 = record {
        packets = h.packets;
        bytes = h.bytes;
        disabled = h.disabled;
        enabled = h.enabled;
        pending = h.pending;
        typed = h.typed;
        index = h.index;
      } in
      let h2 = count_full-IsServing status read.1 h1 in
      ground (arith, h1, rx_words-IsServing status ops (count_full k e status read.1) h2)

module _ (k : Kernel) (e : Endian) where
  IsServing-start : (p : Port k) → IsServing p p
  IsServing-start p = ground arith

  -- One run of the worker as it concerns the interrupt.
  rx_worker-IsServing :
      (p : Port k)
      → let p' = rx_worker k e p in IsServing (record p { irq_depth = p'.irq_depth }) p'
  unfolding rx_worker rx_serve enable_irq
  rx_worker-IsServing p =
      let p1 = record p { world = (k.alloc mtu p.world).1 } in
      elim (Option-cases (rx_ops p.rx_index)) [
        | inl none_selected ↦ ground arith
        | inr (ops, selected) ↦ ground (arith, rx_body-IsServing k e ops p1 (IsServing-start p1))
      ]

  -- If the counted packets and bytes are those that were handed to the network layer, they still
  -- are after a run of the receive worker, on every error path of it.
  pub rx_worker-IsCounted : (p : Port k) → IsCounted p → IsCounted (rx_worker k e p)
  rx_worker-IsCounted p h = ground (arith, rx_worker-IsServing p)

  pub rx_worker-keeps :
      (p : Port k)
      → let p' = rx_worker k e p in
        (p'.rx_enabled ≡ p.rx_enabled)
        × (p'.work_pending ≡ p.work_pending)
        × (p'.is_avionics ≡ p.is_avionics)
        × (p'.rx_index ≡ p.rx_index)
  rx_worker-keeps p = ground (arith, rx_worker-IsServing p)

  -- A run of the worker on a receiver undoes one disabling of the interrupt, whatever fails in it,
  -- unless its buffer cannot be allocated: then the interrupt stays disabled as often as it was.
  pub rx_worker_irq :
      (ops : RxOps) (p : Port k)
      → p.is_avionics ≡ true
      → rx_ops p.rx_index ≡ some ops
      → (rx_worker k e p).irq_depth
        ≡ (if (k.alloc mtu p.world).0 then p.irq_depth - 1 else p.irq_depth)
  unfolding rx_worker rx_serve enable_irq
  rx_worker_irq ops p av selected =
      let p1 = record p { world = (k.alloc mtu p.world).1 } in
      ground (arith, rx_body-IsServing k e ops p1 (IsServing-start p1))
