-- ===== src/Hi3717a/Transmit/Lifecycle.antt =====
-- Starting and stopping the transmitter (hi3717a_tx_open, _tx_stop and the start of _tx_worker of
-- driver/devices/hi3717a.c).
use mathlib.Core.Path.{subst}
use driver_arinc.Prelude.{
  update, ℕ, zero, suc, ◌+◌, ◌*◌, ◌/◌, ◌<◌, ◌≤◌, ◌≡◌, refl, sym, ap, ◌∙◌, true, false, List, some,
  ok, get_or, length, arith,
}
use driver_arinc.Bytes.{Endian}
use driver_arinc.Kernel.{Kernel}
use driver_arinc.Hi3717a.{Port, require_priv, read_byte}
use driver_arinc.Hi3717a.Control.{get_rate, get_cntrl}
use driver_arinc.Hi3717a.Transmit.{
  Outcome, zeros, set_at, set_markers, open_buffer, tx_open, tx_stop, tx_worker,
}
use driver_arinc.Hi3717a.Transmit.Frames.{
  length-set_at, get_or-set_at, get_or-set_at_other, HasMarkers, marker,
}

length-zeros : (n : ℕ) → length (zeros n) ≡ n
unfolding zeros
length-zeros zero = refl
length-zeros (suc n) = ap (λ m. suc m) (length-zeros n)

length-set_markers : (fs : ℕ) (ws : List ℕ) → length (set_markers fs ws) ≡ length ws
unfolding set_markers
length-set_markers fs ws =
    length-set_at _ _ _ ∙ length-set_at _ _ _ ∙ length-set_at _ _ _ ∙ length-set_at _ _ ws

-- What is stored at the beginning of a frame is there, also after a store at another beginning.
stored_at : (i x : ℕ) (ws : List ℕ) (n : ℕ) → length ws ≡ n → i < n → get_or (set_at i x ws) i 0 ≡ x
stored_at i x ws n len small = get_or-set_at i x ws (omega (arith, len, small))

-- The worker's four stores put the sync words at the beginning of the frames.
set_markers-HasMarkers :
    (fs : ℕ) (ws : List ℕ) → 0 < fs → length ws ≡ 4 * fs → HasMarkers fs (set_markers fs ws)
unfolding set_markers HasMarkers marker
set_markers-HasMarkers fs ws pos len (suc (suc (suc (suc f)))) small = absurd (omega arith)
set_markers-HasMarkers fs ws pos len (suc (suc (suc zero))) small =
    let w1 = set_at (fs * 0) 0x247 ws in
    let w2 = set_at (fs * 1) 0x5b8 w1 in
    let l3 =
      length-set_at (fs * 2) 0xa47 w2
      ∙ length-set_at (fs * 1) 0x5b8 w1
      ∙ length-set_at (fs * 0) 0x247 ws
      ∙ len in
    stored_at (fs * 3) 0xdb8 (set_at (fs * 2) 0xa47 w2) (4 * fs) l3 (omega arith)
set_markers-HasMarkers fs ws pos len (suc (suc zero)) small =
    let w1 = set_at (fs * 0) 0x247 ws in
    let w2 = set_at (fs * 1) 0x5b8 w1 in
    let l2 = length-set_at (fs * 1) 0x5b8 w1 ∙ length-set_at (fs * 0) 0x247 ws ∙ len in
    get_or-set_at_other (fs * 3) (fs * 2) 0xdb8 _ (λ e. omega (arith, e))
    ∙ stored_at (fs * 2) 0xa47 w2 (4 * fs) l2 (omega arith)
set_markers-HasMarkers fs ws pos len (suc zero) small =
    let w1 = set_at (fs * 0) 0x247 ws in
    let l1 = length-set_at (fs * 0) 0x247 ws ∙ len in
    get_or-set_at_other (fs * 3) (fs * 1) 0xdb8 _ (λ e. omega (arith, e))
    ∙ get_or-set_at_other (fs * 2) (fs * 1) 0xa47 _ (λ e. omega (arith, e))
    ∙ stored_at (fs * 1) 0x5b8 w1 (4 * fs) l1 (omega arith)
set_markers-HasMarkers fs ws pos len zero small =
    get_or-set_at_other (fs * 3) (fs * 0) 0xdb8 _ (λ e. omega (arith, e))
    ∙ get_or-set_at_other (fs * 2) (fs * 0) 0xa47 _ (λ e. omega (arith, e))
    ∙ get_or-set_at_other (fs * 1) (fs * 0) 0x5b8 _ (λ e. omega (arith, e))
    ∙ stored_at (fs * 0) 0x247 ws (4 * fs) len (omega arith)

module _ {k : Kernel} (e : Endian) where
  -- The port after it was opened.
  opened : (size : ℕ) → k.World → Port k → Port k
  opened size w p = record p {
    world = w;
    tx_buffer = some p.next_block;
    memory = update p.next_block (zeros size) p.memory;
    next_block = p.next_block + 1;
    tx_buffer_size = size;
    tx_enabled = true;
    queue_awake = true;
    work_pending = true;
  }

  tx_open-opened :
      (stale : ℕ) (p : Port k)
      → p.is_avionics ≡ true
      → p.tx_enabled ≡ false
      → ((n : ℕ) (w : k.World) → (k.alloc n w).0 ≡ true)
      → let size = (get_rate k stale p).0 / 12 * 4 in
        (w : k.World) × (tx_open k e stale p ≡ (ok tt, opened size w p))
  unfolding tx_open require_priv open_buffer get_rate get_cntrl read_byte opened
  tx_open-opened stale p av down memory =
      let (rate, p1) = get_rate k stale p in
      let size = rate / 12 * 4 in
      ((k.alloc (size * 2) p1.world).1, ground (arith, memory (size * 2) p1.world))

  -- Opening a transmitter that is down, and the start of its worker: the buffer has four frames of
  -- as many words as the rate has in a second, and begins each with its sync word; the worker runs
  -- at the first word. There is memory for the buffer, and the rate is 12 Hz or more.
  pub tx_open-starts :
      (stale : ℕ) (p : Port k)
      → p.is_avionics ≡ true
      → p.tx_enabled ≡ false
      → ((n : ℕ) (w : k.World) → (k.alloc n w).0 ≡ true)
      → 12 ≤ (get_rate k stale p).0
      → let (r, p1) = tx_open k e stale p in
        let (o, p2) = tx_worker k e p1 in
        let frame_size = (get_rate k stale p).0 / 12 in
        (r ≡ ok tt)
        × (p1.work_pending ≡ true)
        × (o ≡ Outcome.running (record { buffer = p.next_block; delay = p.period_usec * 8; i = 0 }))
        × (p2.tx_buffer ≡ some p.next_block)
        × (p2.tx_enabled ≡ true)
        × (p2.tx_buffer_size ≡ 4 * frame_size)
        × (length (p2.memory p.next_block) ≡ 4 * frame_size)
        × HasMarkers frame_size (p2.memory p.next_block)
  unfolding tx_worker opened
  tx_open-starts stale p av down memory fast =
      let frame_size = (get_rate k stale p).0 / 12 in
      let (w, ran) = tx_open-opened stale p av down memory in
      let size = length-zeros (frame_size * 4) in
      let quarter : frame_size * 4 / 4 ≡ frame_size = omega arith in
      let words = zeros (frame_size * 4) in
      let mem : (tx_worker k e (tx_open k e stale p).1).1.memory p.next_block
          ≡ set_markers frame_size words =
        ground (arith, ran, quarter) in
      (
        ground (arith, ran),
        ground (arith, ran),
        ground (arith, ran),
        ground (arith, ran),
        ground (arith, ran),
        ground (arith, ran),
        ap (λ ws. length ws) mem ∙ length-set_markers frame_size words ∙ size ∙ omega arith,
        subst (HasMarkers frame_size) (sym mem)
            (set_markers-HasMarkers frame_size words (omega arith) (omega (arith, size))),
      )

  -- A transmitter that is stopped before its worker has started: the worker stores through a NULL
  -- pointer. This holds for every transmitter that is down, where there is memory for the buffer.
  pub tx_stop-crashes :
      (stale : ℕ) (p : Port k)
      → p.is_avionics ≡ true
      → p.tx_enabled ≡ false
      → ((n : ℕ) (w : k.World) → (k.alloc n w).0 ≡ true)
      → let (r, p1) = tx_open k e stale p in
        let (r', p2) = tx_stop k e p1 in
        (r ≡ ok tt)
        × (r' ≡ ok tt)
        × (p2.work_pending ≡ true)
        × ((tx_worker k e p2).0 ≡ Outcome.crashed)
  unfolding tx_worker tx_stop require_priv opened
  tx_stop-crashes stale p av down memory =
      let (w, ran) = tx_open-opened stale p av down memory in ground (arith, ran)
