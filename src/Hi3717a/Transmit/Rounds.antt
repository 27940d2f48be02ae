-- ===== src/Hi3717a/Transmit/Rounds.antt =====
-- The worker of driver/devices/hi3717a.c over any number of rounds: it refines an endless
-- repetition of its buffer.
use driver_arinc.Prelude.{
  ◌≤◌, ◌==◌, Bool-cases, inl, inr, if◌then◌else◌, [], ◌∷◌, get_or, length, update, ℕ, zero, suc,
  ◌+◌, ◌*◌, ◌/◌, ◌%◌, ◌<◌, ◌≡◌, refl, ap, ◌∙◌, true, List, map, ◌++◌, some, none, Option, arith,
}
use driver_arinc.Bytes.{Endian}
use driver_arinc.Kernel.{Kernel}
use driver_arinc.Kernel.FrameChip.{HasTxFifo}
use driver_arinc.Hi3717a.{Port}
use driver_arinc.Hi3717a.Transmit.{Worker, Outcome, set_at, set_markers, fill, tx_round, tx_worker}
use driver_arinc.Hi3717a.Transmit.Frames.{length-set_at, get_or-set_at, get_or-set_at_other}
use driver_arinc.Hi3717a.Transmit.Stream.{
  stream, bus_bytes, Advances, Advances-trans, Flows, Flows-trans, stays, round-Advances,
}

-- A run of the worker of so many rounds, where it does not return before.
pub tx_rounds : (k : Kernel) → Endian → (fuel n : ℕ) → Worker → Port k → Option Outcome × Port k
tx_rounds k e fuel zero v p = (some (Outcome.running v), p)
tx_rounds k e fuel (suc n) v p =
    let (r, p') = tx_round k e fuel v p in
    elim r [
      | some o ↦ elim o [
        | Outcome.running v' ↦ tx_rounds k e fuel n v' p'
        | Outcome.returned ↦ (some Outcome.returned, p')
        | Outcome.crashed ↦ (some Outcome.crashed, p')
      ]
      | none ↦ (none, p')
    ]

-- The word at index `i` of four frames of `frame_size` words: a frame begins with its sync word, and
-- the others are the buffer's. The sync words are those of ARINC 717, octal 1107, 2670, 5107, 6670.
unfoldable pub frame_word : (frame_size : ℕ) (buffer : List ℕ) (i : ℕ) → ℕ
frame_word frame_size buffer i =
    if i == frame_size * 3
    then 3512
    else if i == frame_size * 2
    then 2631
    else if i == frame_size * 1
    then 1464
    else if i == frame_size * 0
    then 583
    else get_or buffer i 0

-- The words at the positions `t`, `t + 1`, … of the endless repetition of the four frames.
unfoldable pub frame_stream : (frame_size : ℕ) (buffer : List ℕ) (t n : ℕ) → List ℕ
frame_stream frame_size buffer t zero = []
frame_stream frame_size buffer t (suc n) =
    frame_word frame_size buffer (t % (4 * frame_size)) ∷ frame_stream frame_size buffer (suc t) n

set_at_value :
    (j i x : ℕ) (ws : List ℕ)
    → j < length ws
    → get_or (set_at j x ws) i 0 ≡ (if i == j then x else get_or ws i 0)
set_at_value j i x ws inside = elim (Bool-cases (i == j)) [
  | inl same ↦
      let here : i ≡ j = ground (arith, same) in
      rw (here) (get_or-set_at j x ws inside ∙ ground arith)
  | inr other ↦ get_or-set_at_other j i x ws (λ e. ground (arith, e, other)) ∙ ground (arith, other)
]

set_markers-frame_word :
    (frame_size i : ℕ) (buffer : List ℕ)
    → 0 < frame_size
    → length buffer ≡ 4 * frame_size
    → get_or (set_markers frame_size buffer) i 0 ≡ frame_word frame_size buffer i
unfolding set_markers frame_word
set_markers-frame_word q i buffer pos long =
    let b1 = set_at (q * 0) 0x247 buffer in
    let b2 = set_at (q * 1) 0x5b8 b1 in
    let b3 = set_at (q * 2) 0xa47 b2 in
    let l1 : length b1 ≡ 4 * q = length-set_at (q * 0) 0x247 buffer ∙ long in
    let l2 : length b2 ≡ 4 * q = length-set_at (q * 1) 0x5b8 b1 ∙ l1 in
    let l3 : length b3 ≡ 4 * q = length-set_at (q * 2) 0xa47 b2 ∙ l2 in
    rw
      (
        set_at_value (q * 3) i 0xdb8 b3 (omega (arith, l3)),
        set_at_value (q * 2) i 0xa47 b2 (omega (arith, l2)),
        set_at_value (q * 1) i 0x5b8 b1 (omega (arith, l1)),
        set_at_value (q * 0) i 0x247 buffer (omega (arith, long)),
      )
      refl

stream-frame_stream :
    (frame_size t n : ℕ) (buffer : List ℕ)
    → 0 < frame_size
    → length buffer ≡ 4 * frame_size
    → stream (set_markers frame_size buffer) (4 * frame_size) t n
      ≡ frame_stream frame_size buffer t n
unfolding stream frame_stream
stream-frame_stream q t zero buffer pos long = refl
stream-frame_stream q t (suc n) buffer pos long =
    rw
      (
        set_markers-frame_word q (t % (4 * q)) buffer pos long,
        stream-frame_stream q (suc t) n buffer pos long,
      )
      refl

module _ {k : Kernel} (e : Endian) {room taken : k.World → ℕ} {sent : k.World → List (List ℕ)}
    (chip : HasTxFifo k room taken sent) where
  rounds-Advances :
      (d fuel n t : ℕ) (v : Worker) (p : Port k)
      → ((u : Worker) (q : Port k) → taken (fill k e fuel u q).1.world ≤ taken q.world + d)
      → 32 + d < fuel
      → p.tx_enabled ≡ true
      → 0 < p.tx_buffer_size
      → v.i ≡ t % p.tx_buffer_size
      → (m : ℕ) × (v' : Worker) × (p' : Port k) × (tx_rounds k e fuel n v p
          ≡ (some (Outcome.running v'), p'))
        × Advances e sent (p.memory v.buffer) p.tx_buffer_size t m v v' p p'
        × Flows room taken m p.world p'.world
        × (0 < n → room p.world ≤ m)
  unfolding tx_rounds
  rounds-Advances d fuel zero t v p slow enough on pos at = (
    0,
    v,
    p,
    refl,
    stays e chip t v p at,
    record { balance = omega arith; takes = omega arith },
    λ some_round. absurd (omega arith),
  )
  rounds-Advances d fuel (suc n) t v p slow enough on pos at =
      let (m1, v1, p1, ran1, a1, f1, much) =
        round-Advances e chip d fuel t v p slow enough on pos at in
      let size1 : p1.tx_buffer_size ≡ p.tx_buffer_size = ap (λ q. q.tx_buffer_size) a1.port in
      let on1 : p1.tx_enabled ≡ true = ap (λ q. q.tx_enabled) a1.port ∙ on in
      let (m2, v2, p2, ran2, a2, f2, more) =
        rounds-Advances d fuel n (t + m1) v1 p1 slow enough on1 (omega (arith, size1))
          (ground (arith, a1.index, size1)) in
      (
        m1 + m2,
        v2,
        p2,
        ground (arith, ran1, ran2),
        Advances-trans e sent t m1 m2 v v1 v2 p p1 p2 a1 a2,
        Flows-trans room taken m1 m2 p.world p1.world p2.world f1 f2,
        λ some_round. omega (arith, much),
      )

  -- While the transmitter stays up and no packet comes, the worker keeps running, and over any
  -- number of rounds the words that it writes to the FIFO are the beginning of the endless
  -- repetition of its four frames: the sync words of ARINC 717 and, behind each, the words of the
  -- buffer. Each word goes over the bus as two bytes, the high byte first on a little-endian
  -- processor. It writes at least as many words as the FIFO had room for, and exactly as many as
  -- went into that room and into the room made by the words that the chip took; the packets that it
  -- counts are the whole buffers written. The buffer has four frames of one word or more, as
  -- `hi3717a_tx_open` makes it; the chip takes at most `d` words while the FIFO is filled once, and
  -- the fuel is more than `d` and the 32 words of the FIFO.
  pub tx_worker-streams :
      (d fuel n frame_size a : ℕ) (p : Port k)
      → ((u : Worker) (q : Port k) → taken (fill k e fuel u q).1.world ≤ taken q.world + d)
      → 32 + d < fuel
      → p.is_avionics ≡ true
      → p.tx_buffer ≡ some a
      → p.tx_enabled ≡ true
      → 0 < frame_size
      → p.tx_buffer_size ≡ 4 * frame_size
      → length (p.memory a) ≡ 4 * frame_size
      → (m : ℕ) × (v v' : Worker) × (p1 p2 : Port k) × (tx_worker k e p ≡ (Outcome.running v, p1))
        × (tx_rounds k e fuel n v p1 ≡ (some (Outcome.running v'), p2))
        × (sent p2.world
            ≡ sent p.world ++ map (bus_bytes e) (frame_stream frame_size (p.memory a) 0 m))
        × (0 < n → room p.world ≤ m)
        × (room p2.world + taken p.world + m ≡ room p.world + taken p2.world)
        × (p2.stats.tx_bytes ≡ p.stats.tx_bytes + 2 * m)
        × (p2.stats.tx_packets ≡ p.stats.tx_packets + m / (4 * frame_size))
  unfolding tx_worker
  tx_worker-streams d fuel n frame_size a p slow enough av buffer on pos size long =
      let words = set_markers frame_size (p.memory a) in
      let v : Worker = record { buffer = a; delay = p.period_usec * 8; i = 0 } in
      let p1 = record p { memory = update a words p.memory } in
      let some_words : 0 < p.tx_buffer_size = omega (arith, size) in
      let start : 0 ≡ 0 % p.tx_buffer_size = omega arith in
      let content : p1.memory a ≡ words = ground arith in
      let none_yet : 0 / p.tx_buffer_size ≡ 0 = omega arith in
      let quarter : p.tx_buffer_size / 4 ≡ frame_size = omega (arith, size) in
      let (m, v', p2, ran, adv, flow, much) =
        rounds-Advances d fuel n 0 v p1 slow enough on some_words start in
      let same = stream-frame_stream frame_size 0 m (p.memory a) pos long in
      (
        m,
        v,
        v',
        p1,
        p2,
        ground (arith, buffer, av, quarter),
        ran,
        ground (arith, adv.sends, content, size, same),
        much,
        flow.balance,
        adv.bytes,
        ground (arith, adv.packets, none_yet, size),
      )
