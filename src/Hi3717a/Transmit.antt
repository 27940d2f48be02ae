-- ===== src/Hi3717a/Transmit.antt =====
-- Transmission on the HI-3717A: `hi3717a_tx_open`, `_tx_stop`, `_tx_start_xmit` and `_tx_worker` of
-- driver/devices/hi3717a.c. A packet's words are put into a buffer of four frames, and the worker
-- sends the buffer over and over. The worker's outer loop ends only when the transmitter is stopped,
-- so that a round of it, which fills the FIFO of the chip and sleeps, is a step of its own, and the
-- other operations run between rounds.
pub mod Frames
pub mod Stream
pub mod Rounds
pub mod Packets
pub mod Lifecycle
use driver_arinc.Prelude.{
  update, ℕ, zero, suc, ◌+◌, ◌-◌, ◌*◌, ◌/◌, ◌%◌, ◌^◌, Bool, true, false, List, [], ◌∷◌, Option,
  none, some, ltb, ◌==◌, has, ◌&&◌, ◌||◌, if◌then◌else◌, Result, ok, err, einval, enomem, Step,
  pure, ◌>>=◌, ◌>>◌, modify, require, bit_and, get_or,
}
use driver_arinc.Bytes.{Endian, arinc717_word, arinc717_word_count, arinc717_frame}
use driver_arinc.Kernel.{Kernel}
use driver_arinc.Hi3593.{Skb, Sample, Stats}
use driver_arinc.Hi3717a.{
  Port, mutex_lock, mutex_unlock, locked, read_byte, write_bytes, require_priv, mtu, sample_size,
  txfifo_empty, txfifo_full,
}
use driver_arinc.Hi3717a.Control.{get_rate}

-- A store into an array; one behind its end is lost.
unfoldable pub set_at : ℕ → ℕ → List ℕ → List ℕ
set_at i x [] = []
set_at zero x (y ∷ ys) = x ∷ ys
set_at (suc i) x (y ∷ ys) = y ∷ set_at i x ys

-- `kzalloc` of so many words.
unfoldable pub zeros : ℕ → List ℕ
zeros zero = []
zeros (suc n) = 0 ∷ zeros n

-- The local variables of a running worker.
pub record Worker : Type 0 where
  -- The address in `tx_buffer`.
  pub buffer : ℕ
  pub delay : ℕ
  pub i : ℕ

-- What a call of the worker, or a round of it, comes to.
pub data Outcome : Type 0 where
  -- It stores through a NULL pointer.
  crashed : Outcome
  returned : Outcome
  running : Worker → Outcome

-- The words that separate the frames: octal 01107, 02670, 05107 and 06670.
unfoldable pub set_markers : (frame_size : ℕ) → List ℕ → List ℕ
unfolding set_at
set_markers frame_size words =
    let words1 = set_at (frame_size * 0) 0x247 words in
    let words2 = set_at (frame_size * 1) 0x5b8 words1 in
    let words3 = set_at (frame_size * 2) 0xa47 words2 in set_at (frame_size * 3) 0xdb8 words3

-- The bytes of a write to the FIFO behind its opcode: the low and the high byte of
-- `cpu_to_be16(word)`.
unfoldable pub be16_bytes : Endian → ℕ → List ℕ
be16_bytes Endian.little word = word / 2 ^ 8 % 2 ^ 8 ∷ word % 2 ^ 8 ∷ []
be16_bytes Endian.big word = word % 2 ^ 8 ∷ word / 2 ^ 8 % 2 ^ 8 ∷ []

-- The index of a word in the buffer, where `start_xmit` stores it.
unfoldable pub offset_of : (tx_buffer_size value : ℕ) → Option ℕ
unfolding arinc717_word_count arinc717_frame
offset_of tx_buffer_size value =
    let word_count = arinc717_word_count value in
    let offset = arinc717_frame value * tx_buffer_size / 4 + (word_count - 1) in
    if ltb 1 word_count && ltb offset tx_buffer_size then some offset else none

-- The words of a packet, stored one after the other: the samples `j`, `j + 1`, …, `n` in number.
unfoldable pub store_words : (n j : ℕ) (tx_buffer_size : ℕ) (samples : ℕ → Sample) → List ℕ → List ℕ
unfolding offset_of set_at arinc717_word
store_words zero j size samples words = words
store_words (suc n) j size samples words =
    let value = (samples j).value in
    store_words n (j + 1) size samples
      (elim (offset_of size value) [ some i ↦ set_at i (arinc717_word value) words | none ↦ words ])

-- Whether any word of a packet is stored.
unfoldable pub stores_any : (n j : ℕ) (tx_buffer_size : ℕ) (samples : ℕ → Sample) → Bool
unfolding offset_of
stores_any zero j size samples = false
stores_any (suc n) j size samples =
    let rest = stores_any n (j + 1) size samples in
    elim (offset_of size (samples j).value) [ some i ↦ true | none ↦ rest ]

module _ (k : Kernel) (e : Endian) where
  unfoldable pub tx_drop : Port k → Port k
  tx_drop p = record p { stats = record p.stats { tx_dropped = p.stats.tx_dropped + 1 } }

  -- The stores through `priv->tx_buffer`, which is NULL where the buffer could not be allocated or
  -- the transmitter was stopped; in the first case the size is not 0, so that words are stored.
  unfoldable pub store : (n : ℕ) → (ℕ → Sample) → Option ℕ → Port k → Port k
  unfolding store_words stores_any
  store n samples none p = record p {
    faulted = p.faulted || stores_any n 0 p.tx_buffer_size samples;
  }
  store n samples (some a) p = record p {
    memory = update a (store_words n 0 p.tx_buffer_size samples (p.memory a)) p.memory;
  }

  -- The result is NETDEV_TX_OK on every path. The loop steps by the size of a sample over a length
  -- that is a multiple of 4, so that the last sample may lie behind the packet.
  unfoldable pub start_xmit : Skb → Port k → Port k
  unfolding tx_drop store
  start_xmit skb p =
      if skb.protocol == 0x001d
      then (if ltb mtu skb.len
          then tx_drop p
          else if skb.len % 4 == 0
          then (if p.is_avionics
              then store ((skb.len + (sample_size - 1)) / sample_size) skb.samples p.tx_buffer p
              else tx_drop p)
          else tx_drop p)
      else tx_drop p

  -- `kzalloc`, and what follows it.
  unfoldable pub open_buffer : Step (Port k) (Unit {0})
  unfolding zeros
  open_buffer p =
      let (fits, w) = k.alloc (p.tx_buffer_size * 2) p.world in
      let p1 = record p { world = w } in
      if fits
      then (
        ok tt,
        record p1 {
          tx_buffer = some p.next_block;
          memory = update p.next_block (zeros p.tx_buffer_size) p.memory;
          next_block = p.next_block + 1;
          tx_enabled = true;
          queue_awake = true;
          work_pending = true;
        },
      )
      else (err enomem, record p1 { tx_buffer = none })

  -- `stale` is what the variable `rate` holds, which is not initialised.
  unfoldable pub tx_open : (stale : ℕ) → Step (Port k) (Unit {0})
  unfolding open_buffer require_priv
  tx_open stale = do
    require_priv k einval
    λ p.
        (if p.tx_enabled
          then (ok tt, p)
          else let (rate_hz, p1) = get_rate k stale p in
            open_buffer (record p1 { tx_buffer_size = rate_hz / 12 * 4 }))

  unfoldable pub tx_stop : Step (Port k) (Unit {0})
  unfolding require_priv
  tx_stop = do
    modify λ p. record p { queue_awake = false }
    require_priv k einval
    modify λ p. record p { tx_enabled = false; tx_buffer_size = 0; tx_buffer = none }

  -- `kfree(tx_buffer)`
  unfoldable pub free : ℕ → Port k → Port k
  free a p = record p { memory = update a [] p.memory }

  -- The worker up to its loop.
  unfoldable pub tx_worker : Port k → Outcome × Port k
  unfolding set_markers
  tx_worker p =
      if p.is_avionics
      then elim p.tx_buffer [
        | none ↦ (crashed, p)
        | some a ↦ (
          running (record { buffer = a; delay = p.period_usec * 8; i = 0 }),
          record p { memory = update a (set_markers (p.tx_buffer_size / 4) (p.memory a)) p.memory },
        )
      ]
      else (returned, p)

  unfoldable pub count_empty : ℕ → Port k → Port k
  count_empty status p =
      if has status txfifo_empty
      then record p {
        stats = record p.stats {
          tx_errors = p.stats.tx_errors + 1;
          tx_fifo_errors = p.stats.tx_fifo_errors + 1;
        };
      }
      else p

  -- The index and the counters behind a word that was sent.
  unfoldable pub advance : Worker → Port k → Worker × Port k
  advance v p =
      let p1 = record p { stats = record p.stats { tx_bytes = p.stats.tx_bytes + 2 } } in
      if ltb v.i (p.tx_buffer_size - 1) then (record v { i = v.i + 1 }, p1) else (
        record v { i = 0 },
        record p1 { stats = record p1.stats { tx_packets = p.stats.tx_packets + 1 } },
      )

  -- One word: `none` is a FIFO that is full.
  unfoldable pub tx_word : Worker → Step (Port k) (Option Worker)
  unfolding locked read_byte write_bytes count_empty advance be16_bytes
  tx_word v = do
    status ← locked k (read_byte k 0xe8)
    modify (count_empty status)
    if has status txfifo_full then pure none else (do
      λ p. locked k (write_bytes k (0x74 ∷ be16_bytes e (get_or (p.memory v.buffer) v.i 0))) p
      λ p. let (v', p') = advance v p in (ok (some v'), p'))

  -- The inner loop, at most `fuel` words: `none` is a loop that has not ended.
  unfoldable pub fill : (fuel : ℕ) → Worker → Step (Port k) (Option Worker)
  unfolding tx_word
  fill zero v = pure none
  fill (suc fuel) v = do
    next ← tx_word v
    elim next [ some v' ↦ fill fuel v' | none ↦ pure (some v) ]

  -- A round of the outer loop.
  unfoldable pub tx_round : (fuel : ℕ) → Worker → Port k → Option Outcome × Port k
  unfolding fill free
  tx_round fuel v p =
      if p.tx_enabled
      then (let (r, p1) = fill fuel v p in
          elim r [
            | ok (some v') ↦
                (some (running v'), record p1 { world = k.sleep v.delay (v.delay + 100) p1.world })
            | ok none ↦ (none, p1)
            | err _ ↦ (some returned, free v.buffer p1)
          ])
      else (some returned, free v.buffer p)
