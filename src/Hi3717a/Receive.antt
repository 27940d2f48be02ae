-- ===== src/Hi3717a/Receive.antt =====
-- Reception on the HI-3717A: `hi3717a_rx_open`, `_rx_stop`, `_rx_irq` and `_rx_worker` of
-- driver/devices/hi3717a.c. The interrupt schedules the worker, which reads a block of words and
-- then the words that are left, and hands one packet up.
pub mod Worker
pub mod Fifo
use driver_arinc.Prelude.{
  ℕ, zero, suc, ◌+◌, ◌-◌, ◌*◌, Bool, true, false, List, [], ◌∷◌, ◌++◌, map, Option, none, some, ltb,
  ◌==◌, has, if◌then◌else◌, Result, ok, err, einval, enomem, Step, pure, fail, ◌>>=◌, ◌>>◌, modify,
  get_or, length,
}
use driver_arinc.Bytes.{Endian, Quad, word_of_bytes}
use driver_arinc.Kernel.{Kernel}
use driver_arinc.Hi3593.{Sample, Stats}
use driver_arinc.Hi3717a.{
  Port, mutex_lock, mutex_unlock, read_byte, sync, read_clock, require_priv, mtu, sample_size,
  fifo_depth, rxfifo_insync, rxfifo_empty, rxfifo_ovf,
}

abbrev pub rx_words_per : ℕ
rx_words_per = 16

-- The transfers of `hi3717a_rxfifo_read`.
unfoldable pub block_message : ℕ → List (ℕ × ℕ)
block_message zero = []
block_message (suc n) = (0xfe, 5) ∷ block_message n

-- The transfers of `hi3717a_rxfifo_read_all`: the status, a word, the status.
abbrev pub next_message : List (ℕ × ℕ)
next_message = (0xe6, 2) ∷ (0xfe, 5) ∷ (0xe6, 2) ∷ []

-- The sample in the buffer of a transfer that read a word, behind the byte of the opcode.
unfoldable pub sample_in : Endian → (time_msecs : ℕ) → List ℕ → Sample
unfolding word_of_bytes
sample_in e time buffer = record {
  time_msecs = time;
  value = word_of_bytes e (record {
    b0 = get_or buffer 1 0;
    b1 = get_or buffer 2 0;
    b2 = get_or buffer 3 0;
    b3 = get_or buffer 4 0;
  });
}

module _ (k : Kernel) where
  -- `enable_irq(priv->irq)` and `disable_irq(priv->irq)`
  unfoldable pub enable_irq : Port k → Port k
  enable_irq p = record p { irq_depth = p.irq_depth - 1 }

  unfoldable pub disable_irq : Port k → Port k
  disable_irq p = record p { irq_depth = p.irq_depth + 1 }

  unfoldable pub rx_open : Step (Port k) (Unit {0})
  unfolding enable_irq require_priv
  rx_open = do
    require_priv k einval
    modify λ p. (if p.rx_enabled then p else enable_irq (record p { rx_enabled = true }))

  unfoldable pub rx_stop : Step (Port k) (Unit {0})
  unfolding disable_irq require_priv
  rx_stop = do
    modify λ p. record p { queue_awake = false }
    require_priv k einval
    modify λ p. record p { rx_enabled = false }
    modify disable_irq

  -- The handler; `is_own` tells whether it is called for the interrupt of this port.
  unfoldable pub rx_irq : (is_own : Bool) → Port k → Port k
  unfolding disable_irq
  rx_irq is_own p =
      let p1 = disable_irq p in
      if is_own then (if p.rx_enabled then record p1 { work_pending = true } else p1) else p

  count_error : Port k → Port k
  count_error p = record p {
    stats = record p.stats {
      rx_errors = p.stats.rx_errors + 1;
      rx_fifo_errors = p.stats.rx_fifo_errors + 1;
    };
  }

  -- 0 where there are words to read.
  unfoldable pub rxfifo_is_empty : Step (Port k) ℕ
  unfolding count_error read_byte
  rxfifo_is_empty = do
    status ← read_byte k 0xe6
    modify λ p. (if has status rxfifo_insync then p else count_error p)
    if has status rxfifo_empty
        then pure rxfifo_empty
        else (if has status rxfifo_ovf then (do modify count_error; pure rxfifo_ovf) else pure 0)

  unfoldable pub rxfifo_read : Endian → (num_reads : ℕ) → Step (Port k) (List Sample)
  unfolding block_message sample_in read_clock sync
  rxfifo_read e num_reads = do
    time ← read_clock k
    buffers ← sync k (block_message num_reads)
    pure (map (sample_in e time) buffers)

  -- The word of a message, where the FIFO had one before it.
  unfoldable pub next_sample : Endian → (time_msecs : ℕ) → List (List ℕ) → List Sample
  unfolding sample_in
  next_sample e time buffers =
      if has (get_or (get_or buffers 0 []) 1 0) rxfifo_empty
      then []
      else sample_in e time (get_or buffers 1 []) ∷ []

  -- One message: the samples it gives, and whether the FIFO is empty after it.
  unfoldable pub read_next : Endian → (time_msecs : ℕ) → Step (Port k) (List Sample × Bool)
  unfolding next_sample sync
  read_next e time = do
    buffers ← sync k next_message
    pure (next_sample e time buffers, has (get_or (get_or buffers 2 []) 1 0) rxfifo_empty)

  -- The samples behind those that were read before.
  unfoldable pub join : List Sample → Option (List Sample) → Option (List Sample)
  join got none = none
  join got (some more) = some (got ++ more)

  -- The loop, with `count` samples so far and at most `fuel` messages; `none` is a loop that has not
  -- ended. It stores the samples behind `data[count]`.
  unfoldable pub read_all_loop :
      Endian → (fuel count time_msecs : ℕ) → Step (Port k) (Option (List Sample))
  unfolding read_next join
  read_all_loop e zero count time = pure none
  read_all_loop e (suc fuel) count time =
      if ltb count fifo_depth
      then (do
        (got, last) ← read_next e time
        more ← elim last [
          | true ↦ pure (some [])
          | false ↦ read_all_loop e fuel (count + length got) time
        ]
        pure (join got more))
      else pure (some [])

  unfoldable pub rxfifo_read_all : Endian → (fuel : ℕ) → Step (Port k) (Option (List Sample))
  unfolding read_all_loop read_clock
  rxfifo_read_all e fuel = do time ← read_clock k; read_all_loop e fuel 0 time

  -- `avionics_device_alloc_skb(dev, size)`
  unfoldable pub alloc_skb : (size : ℕ) → Step (Port k) (Unit {0})
  alloc_skb size p =
      let (fits, w) = k.alloc size p.world in
      (if fits then ok tt else err enomem, record p { world = w })

  unfoldable pub rx_send_upstream : List Sample → Step (Port k) (Unit {0})
  unfolding alloc_skb
  rx_send_upstream samples = do
    alloc_skb (length samples * sample_size)
    modify λ p. record p {
      stats = record p.stats {
        rx_packets = p.stats.rx_packets + 1;
        rx_bytes = p.stats.rx_bytes + length samples * sample_size;
      };
      delivered = p.delivered ++ samples ∷ [];
    }

  -- The worker with its data buffer, up to the label `done`: `false` is a loop that has not ended.
  unfoldable pub rx_words : Endian → (fuel : ℕ) → (fifo_error : Bool) → Step (Port k) Bool
  unfolding rxfifo_read rxfifo_read_all rx_send_upstream
  rx_words e fuel fifo_error = do
    block ← rxfifo_read e rx_words_per
    rest ← rxfifo_read_all e fuel
    elim rest [
      | some more ↦
          if fifo_error then pure true else (do rx_send_upstream (block ++ more); pure true)
      | none ↦ pure false
    ]

  -- `done_mutex` and `done_irq`
  unfoldable pub leave : Port k → Port k
  unfolding mutex_unlock enable_irq
  leave p = enable_irq (mutex_unlock k p)

  -- Whether the code goes on to a label: errors do.
  unfoldable pub ended : Result Bool → Bool
  ended (ok b) = b
  ended (err e) = true

  -- The worker once it has found words; without a buffer it returns with the lock.
  unfoldable pub rx_read : Endian → (fuel status : ℕ) → Port k → Bool × Port k
  unfolding rx_words leave ended
  rx_read e fuel status p =
      let (fits, w) = k.alloc mtu p.world in
      let p1 = record p { world = w } in
      let (r, p2) = rx_words e fuel (status == rxfifo_ovf) p1 in
      if fits then (if ended r then (true, leave p2) else (false, p2)) else (true, p1)

  -- The worker with the lock, from the result of `rxfifo_is_empty`.
  unfoldable pub rx_serve : Endian → (fuel : ℕ) → Result ℕ → Port k → Bool × Port k
  unfolding rx_read leave
  rx_serve e fuel (err _) p = (true, leave p)
  rx_serve e fuel (ok status) p =
      if status == rxfifo_empty then (true, leave p) else rx_read e fuel status p

  -- `true` is a worker that returns. One without private data reads `priv->irq` through the NULL
  -- pointer at `done_irq`.
  unfoldable pub rx_worker : Endian → (fuel : ℕ) → Port k → Bool × Port k
  unfolding rxfifo_is_empty rx_serve mutex_lock enable_irq
  rx_worker e fuel p =
      if p.is_avionics
      then (let (r, p1) = rxfifo_is_empty (mutex_lock k p) in rx_serve e fuel r p1)
      else (false, p)
