-- ===== src/Hi3593/Transmit.antt =====
-- Transmission: `hi3593_tx_start_xmit` puts a packet in the queue of its port and schedules the
-- worker, and `hi3593_tx_worker` takes one packet from the queue and writes its words to the
-- transmit FIFO. The scheduler is a sequence of events: a delayed work that is queued again before
-- it starts runs once.
pub mod Laws
pub mod Queue
pub mod Timing
pub mod Fifo
use driver_arinc.Prelude.{
  ℕ, zero, suc, ◌+◌, ◌-◌, ◌*◌, ◌/◌, ◌%◌, Bool, true, false, not, ◌&&◌, List, [], ◌∷◌, ◌++◌, drop,
  Option, none, some, ltb, ◌==◌, has, is_index, if◌then◌else◌, Result, ok, err, Step, pure, ◌>>=◌,
  ◌>>◌,
}
use driver_arinc.Bytes.{Endian, Quad, bytes_of_word}
use driver_arinc.Kernel.{Kernel}
use driver_arinc.Hi3593.{
  Sample, Skb, Port, fifo_full, sample_size, mtu, read_byte, write_bytes, sleep_delay, read_clock,
}

-- The wait, in milliseconds, before a word with this time is sent; `none` is no wait.
unfoldable pub wait_offset : (now time_msecs : ℕ) → Option ℕ
wait_offset now time_msecs =
    if ltb now time_msecs
    then (let offset = time_msecs - now in
        if ltb 360000 offset then none else if ltb 2 offset then some offset else none)
    else none

-- The bytes of a write to the transmit FIFO, behind the opcode.
unfoldable pub fifo_bytes : Endian → ℕ → List ℕ
fifo_bytes e value = let q = bytes_of_word e value in q.b0 ∷ q.b1 ∷ q.b2 ∷ q.b3 ∷ []

module _ (k : Kernel) (e : Endian) where
  -- Whether the transmit FIFO takes a word, now or after one sleep.
  tx_ready : Step (Port k) Bool
  unfolding read_byte sleep_delay
  tx_ready = do
    status ← read_byte k 0x80
    if has status fifo_full
        then (do sleep_delay k; status' ← read_byte k 0x80; pure (not (has status' fifo_full)))
        else pure true

  sleep_offset : Option ℕ → Step (Port k) (Unit {0})
  sleep_offset none p = (ok tt, p)
  sleep_offset (some offset) p =
      (ok tt, record p { world = k.sleep (offset * 1000 - 500) (offset * 1000 + 500) p.world })

  tx_wait : (time_msecs : ℕ) → Step (Port k) (Unit {0})
  unfolding sleep_offset read_clock
  tx_wait time_msecs =
      if time_msecs == 0
      then pure tt
      else do now ← read_clock k; sleep_offset (wait_offset now time_msecs)

  -- One round of the loop; `false` is a FIFO that stayed full.
  tx_word : Sample → Step (Port k) Bool
  unfolding write_bytes
  tx_word s = do
    ready ← tx_ready
    if ready
        then (do tx_wait s.time_msecs; write_bytes k (0x0c ∷ fifo_bytes e s.value); pure true)
        else pure false

  -- The rounds `i`, `i + 1`, … of the loop, `n` in number.
  pub tx_loop : (n i : ℕ) (samples : ℕ → Sample) → Step (Port k) Bool
  tx_loop zero i samples = pure true
  tx_loop (suc n) i samples = do
    more ← tx_word (samples i)
    elim more [ true ↦ tx_loop n (i + 1) samples | false ↦ pure false ]

  -- `consume_skb` of the packet that the worker holds.
  consume : Port k → Port k
  consume p = record p { held = drop 1 p.held }

  tx_finish : Skb → Result Bool × Port k → Port k
  unfolding consume
  tx_finish skb (ok true, p) = consume (record p {
    stats = record p.stats {
      tx_packets = p.stats.tx_packets + 1;
      tx_bytes = p.stats.tx_bytes + skb.len;
    };
  })
  tx_finish skb (ok false, p) =
      consume (record p { stats = record p.stats { tx_dropped = p.stats.tx_dropped + 1 } })
  tx_finish skb (err _, p) = p

  -- The worker once it has a queue: `skb_dequeue`, the loop, and what follows it.
  tx_serve : List Skb → Port k → Port k
  tx_serve [] p = p
  tx_serve (skb ∷ rest) p = tx_finish skb (
      tx_loop (skb.len / sample_size) 0 skb.samples (record p { skbq = rest; held = skb ∷ p.held }))

  pub tx_worker : Port k → Port k
  tx_worker p =
      if p.is_avionics then (if is_index p.tx_index 0 then tx_serve p.skbq p else p) else p

  tx_drop : Port k → Port k
  tx_drop p = record p { stats = record p.stats { tx_dropped = p.stats.tx_dropped + 1 } }

  -- The result is NETDEV_TX_OK on every path.
  unfoldable pub start_xmit : Skb → Port k → Port k
  unfolding tx_drop
  start_xmit skb p =
      if skb.protocol == 0x001d
      then (if ltb mtu skb.len
          then tx_drop p
          else if skb.len % sample_size == 0
          then (if p.is_avionics
              then record p { skbq = p.skbq ++ skb ∷ []; work_pending = true }
              else tx_drop p)
          else tx_drop p)
      else tx_drop p

  -- The workqueue starts the work that is pending.
  unfoldable pub run_work : Port k → Port k
  run_work p = if p.work_pending then tx_worker (record p { work_pending = false }) else p
