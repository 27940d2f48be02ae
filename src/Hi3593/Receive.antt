-- ===== src/Hi3593/Receive.antt =====
-- Reception: `hi3593_rx_worker` reads the priority labels and the receive FIFO of its port and hands
-- the words to the network layer.
pub mod Parity
pub mod Counters
pub mod Fifo
use driver_arinc.Prelude.{
  ℕ, zero, suc, ◌+◌, ◌-◌, ◌*◌, ◌/◌, Bool, true, false, not, ◌&&◌, ◌||◌, List, [], ◌∷◌, ◌++◌, get_or,
  length, Option, none, some, bit_and, ◌==◌, has, ℤ, is_index, if◌then◌else◌, Result, ok, err,
  enomem, Step, pure, fail, ◌>>=◌, ◌>>◌, modify,
}
use driver_arinc.Bytes.{Endian, Quad, word_of_bytes}
use driver_arinc.Kernel.{Kernel}
use driver_arinc.Hi3593.{
  Sample, Stats, Port, fifo_full, fifo_empty, fifo_depth, sample_size, mtu, read_byte, read_bytes,
  sleep_delay, read_clock,
}

-- The opcodes that the worker chooses by the port's index.
pub record RxOps : Type 0 where
  pub rd_cmd : ℕ
  pub status_cmd : ℕ
  pub pl_cmd0 : ℕ
  pub pl_cmd1 : ℕ
  pub pl_cmd2 : ℕ
  pub pl_rd : ℕ

unfoldable pub rx_ops : ℤ → Option RxOps
rx_ops rx_index =
    if is_index rx_index 0
    then some (record {
      rd_cmd = 0xa0;
      status_cmd = 0x90;
      pl_cmd0 = 0xa4;
      pl_cmd1 = 0xa8;
      pl_cmd2 = 0xac;
      pl_rd = 0x9c;
    })
    else if is_index rx_index 1
    then some (record {
      rd_cmd = 0xc0;
      status_cmd = 0xb0;
      pl_cmd0 = 0xc4;
      pl_cmd1 = 0xc8;
      pl_cmd2 = 0xcc;
      pl_rd = 0xbc;
    })
    else none

-- `!check_parity || (even_parity && (0x80&b0)) || ((0x80&b0) == 0x00)`
unfoldable pub parity_accepts : (check_parity even_parity b0 : ℕ) → Bool
parity_accepts check_parity even_parity b0 =
    (check_parity == 0) || (not (even_parity == 0) && has 0x80 b0) || not (has 0x80 b0)

-- `if (check_parity && even_parity) buffer[0] &= 0x7f;`
unfoldable pub parity_clear : (check_parity even_parity b0 : ℕ) → ℕ
parity_clear check_parity even_parity b0 =
    if not (check_parity == 0) && not (even_parity == 0) then bit_and b0 0x7f else b0

-- Four bytes of a buffer; a missing byte reads as 0.
unfoldable pub quad_of : List ℕ → Quad
quad_of buffer = record {
  b0 = get_or buffer 0 0;
  b1 = get_or buffer 1 0;
  b2 = get_or buffer 2 0;
  b3 = get_or buffer 3 0;
}

module _ (k : Kernel) (e : Endian) where
  count_fifo_error : Port k → Port k
  count_fifo_error p = record p {
    stats = record p.stats {
      rx_errors = p.stats.rx_errors + 1;
      rx_fifo_errors = p.stats.rx_fifo_errors + 1;
    };
  }

  count_full : (status : ℕ) → Port k → Port k
  unfolding count_fifo_error
  count_full status p = if has status fifo_full then count_fifo_error p else p

  count_crc_error : Port k → Port k
  count_crc_error p = record p {
    stats = record p.stats {
      rx_errors = p.stats.rx_errors + 1;
      rx_crc_errors = p.stats.rx_crc_errors + 1;
    };
  }

  -- `avionics_device_alloc_skb(dev, size)`
  alloc_skb : (size : ℕ) → Step (Port k) (Unit {0})
  alloc_skb size p =
      let (room, w) = k.alloc size p.world in
      (if room then ok tt else err enomem, record p { world = w })

  -- The samples are counted and given to `netif_rx_ni`.
  hand_over : List Sample → Port k → Port k
  hand_over samples p = record p {
    stats = record p.stats {
      rx_packets = p.stats.rx_packets + 1;
      rx_bytes = p.stats.rx_bytes + length samples * sample_size;
    };
    delivered = p.delivered ++ samples ∷ [];
  }

  deliver : List Sample → Step (Port k) (Unit {0})
  unfolding alloc_skb hand_over
  deliver samples = do alloc_skb (length samples * sample_size); modify (hand_over samples)

  -- The sample of a word that passed the parity test.
  take_sample : Quad → Step (Port k) Sample
  unfolding read_clock
  take_sample q p =
      let b0 = parity_clear p.check_parity p.even_parity q.b0 in
      let (now, p') = read_clock k p in
      (
        elim now [
          | ok msecs ↦
              ok (record { time_msecs = msecs; value = word_of_bytes e (record q { b0 = b0 }) })
          | err x ↦ err x
        ],
        p',
      )

  -- The priority label `i`, whose label byte is `label`.
  rx_label : (status bit pl_cmd label : ℕ) → Step (Port k) (Unit {0})
  unfolding read_bytes alloc_skb hand_over
  rx_label status bit pl_cmd label =
      if has status bit
      then (do
        buffer ← read_bytes k pl_cmd 3
        let q : Quad = record (quad_of buffer) { b3 = label }
        accepted ← λ p. (ok (parity_accepts p.check_parity p.even_parity q.b0), p)
        if accepted
            then (do alloc_skb sample_size; s ← take_sample q; modify (hand_over (s ∷ [])))
            else modify count_crc_error)
      else pure tt

  -- The test at the end of a round: `true` where the FIFO is empty, also after the sleep.
  fifo_drained : (status_cmd : ℕ) → Step (Port k) Bool
  unfolding read_byte sleep_delay
  fifo_drained status_cmd = do
    status ← read_byte k status_cmd
    if has status fifo_empty
        then (do sleep_delay k; status' ← read_byte k status_cmd; pure (has status' fifo_empty))
        else pure false

  -- One word of the FIFO, behind those that were read.
  rx_word : (rd_cmd : ℕ) → List Sample → Step (Port k) (List Sample)
  unfolding read_bytes
  rx_word rd_cmd samples = do
    buffer ← read_bytes k rd_cmd 4
    let q = quad_of buffer
    accepted ← λ p. (ok (parity_accepts p.check_parity p.even_parity q.b0), p)
    if accepted
        then (do s ← take_sample q; pure (samples ++ s ∷ []))
        else (do modify count_crc_error; pure samples)

  -- The loop over the FIFO, for `n` rounds at most.
  rx_loop : (n : ℕ) (ops : RxOps) → List Sample → Step (Port k) (List Sample)
  rx_loop zero ops samples = pure samples
  rx_loop (suc n) ops samples = do
    samples' ← rx_word ops.rd_cmd samples
    drained ← fifo_drained ops.status_cmd
    elim drained [ true ↦ pure samples' | false ↦ rx_loop n ops samples' ]

  -- The words of the FIFO in one packet, if there are any.
  pub rx_fifo : RxOps → Step (Port k) (Unit {0})
  rx_fifo ops = do
    samples ← rx_loop (mtu / sample_size) ops []
    if length samples == 0 then pure tt else deliver samples

  -- The three priority labels, whose label bytes are in `pl`.
  rx_labels : (status : ℕ) → List ℕ → RxOps → Step (Port k) (Unit {0})
  rx_labels status pl ops = do
    rx_label status 0x08 ops.pl_cmd0 (get_or pl 2 0)
    rx_label status 0x10 ops.pl_cmd1 (get_or pl 1 0)
    rx_label status 0x20 ops.pl_cmd2 (get_or pl 0 0)

  -- The label bytes, which are read if any priority label is there.
  read_labels : (status pl_rd : ℕ) → Step (Port k) (List ℕ)
  unfolding read_bytes
  read_labels status pl_rd = if has status 0x38 then read_bytes k pl_rd 3 else pure []

  -- What follows a successful read of the status.
  rx_words : (status : ℕ) → RxOps → Step (Port k) (Unit {0})
  rx_words status ops = do
    pl ← read_labels status ops.pl_rd
    rx_labels status pl ops
    if has status fifo_empty then pure tt else rx_fifo ops

  rx_body : RxOps → Step (Port k) (Unit {0})
  unfolding read_byte
  rx_body ops = do
    status ← read_byte k ops.status_cmd
    modify (count_full status)
    rx_words status ops

  enable_irq : Port k → Port k
  enable_irq p = record p { irq_depth = p.irq_depth - 1 }

  -- The worker from the allocation of its buffer on. An error goes to `done`, which enables the
  -- interrupt; the failure of this allocation returns before.
  rx_serve : RxOps → Port k → Port k
  rx_serve ops p =
      let (room, w) = k.alloc mtu p.world in
      let p1 = record p { world = w } in if room then enable_irq (rx_body ops p1).1 else p1

  pub rx_worker : Port k → Port k
  rx_worker p =
      if p.is_avionics then elim (rx_ops p.rx_index) [ none ↦ p | some ops ↦ rx_serve ops p ] else p
