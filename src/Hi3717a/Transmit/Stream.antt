-- ===== src/Hi3717a/Transmit/Stream.antt =====
-- What the worker of driver/devices/hi3717a.c writes to the transmit FIFO: the abstract transmitter
-- is a position in the endless repetition of the buffer.
use mathlib.Core.Path.{subst}
use native.Mathlib.Nat.{
  div-add-mod, mod-lt, mul-add-mod_self_left, mul-add-div, mod-eq_of_lt, div-eq_of_lt,
}
use driver_arinc.Prelude.{
  ℕ, zero, suc, ◌+◌, ◌-◌, ◌*◌, ◌/◌, ◌%◌, ◌<◌, ◌≤◌, ◌≡◌, ◌⊎◌, ◌==◌, refl, sym, ap, ◌∙◌, true, List,
  [], ◌∷◌, ◌++◌, map, append-nil, append_assoc, map-append, get_or, ltb, ok, some, none, arith,
  if◌then◌else◌, Bool-cases, inl, inr,
}
use driver_arinc.Bytes.{Endian}
use driver_arinc.Kernel.{Kernel}
use driver_arinc.Kernel.FrameChip.{HasTxFifo}
use driver_arinc.Hi3717a.{Port, mutex_lock, mutex_unlock, locked, read_byte, write_bytes}
use driver_arinc.Hi3717a.Transmit.{
  Worker, Outcome, be16_bytes, count_empty, advance, tx_word, fill, tx_round,
}

-- The words at the positions `t`, `t + 1`, … of the endless repetition of the first `size` words,
-- `n` in number.
unfoldable pub stream : (words : List ℕ) (size t n : ℕ) → List ℕ
stream words size t zero = []
stream words size t (suc n) = get_or words (t % size) 0 ∷ stream words size (suc t) n

-- The two bytes of a word, as the bus has them: the high byte first on a little-endian processor, the
-- low byte first on a big-endian one.
unfoldable pub bus_bytes : Endian → ℕ → List ℕ
bus_bytes Endian.little word = word / 256 % 256 ∷ word % 256 ∷ []
bus_bytes Endian.big word = word % 256 ∷ word / 256 % 256 ∷ []

be16_bytes-bus_bytes : (e : Endian) (word : ℕ) → be16_bytes e word ≡ bus_bytes e word
unfolding be16_bytes bus_bytes
be16_bytes-bus_bytes Endian.little word = refl
be16_bytes-bus_bytes Endian.big word = refl

-- A number that is known by its quotient and its rest.
divided : (size x q r : ℕ) → r < size → x ≡ size * q + r → (x % size ≡ r) × (x / size ≡ q)
divided size x q r small e = (
  ap (λ y. y % size) e ∙ mul-add-mod_self_left size q r ∙ mod-eq_of_lt small,
  ap (λ y. y / size) e ∙ mul-add-div (omega arith) q r ∙ omega (arith, div-eq_of_lt small),
)

-- The position behind a position, in a buffer of `size` words.
next_position :
    (size t : ℕ)
    → 0 < size
    → (suc t % size ≡ (if ltb (t % size) (size - 1) then t % size + 1 else 0))
      × (suc t / size ≡ (if ltb (t % size) (size - 1) then t / size else t / size + 1))
next_position size t pos =
    let q = t / size in
    let r = t % size in
    let e = div-add-mod t size in
    let below = mod-lt t pos in
    elim (Bool-cases (ltb r (size - 1))) [
      | inl inside ↦
          ground (arith, divided size (suc t) q (suc r) (ground arith) (omega (arith, e)))
      | inr last ↦
          let r_last : suc r ≡ size = ground arith in
          ground (arith, divided size (suc t) (q + 1) 0 pos (grind (arith, e)))
    ]

-- The worker moves from position `t` of the stream by `n` words: they are sent, the counters of
-- bytes and of whole buffers count them, and nothing else of the port changes.
pub record Advances {k : Kernel} (e : Endian) (sent : k.World → List (List ℕ)) (words : List ℕ)
    (size t n : ℕ) (v v' : Worker) (p p' : Port k) : Type 0 where
  pub index : v' ≡ record v { i = (t + n) % size }
  pub port : p' ≡ record p { world = p'.world; stats = p'.stats }
  pub sends : sent p'.world ≡ sent p.world ++ map (bus_bytes e) (stream words size t n)
  pub bytes : p'.stats.tx_bytes ≡ p.stats.tx_bytes + 2 * n
  pub packets : p'.stats.tx_packets + t / size ≡ p.stats.tx_packets + (t + n) / size

stream-append :
    (words : List ℕ) (size t m n : ℕ)
    → stream words size t (m + n) ≡ stream words size t m ++ stream words size (t + m) n
unfolding stream
stream-append words size t zero n =
    let start : t + 0 ≡ t = omega arith in
    let none_yet : 0 + n ≡ n = omega arith in rw (start, none_yet) refl
stream-append words size t (suc m) n =
    let moved : t + suc m ≡ suc t + m = omega arith in
    let more : suc m + n ≡ suc (m + n) = omega arith in
    rw (moved, more)
      (ap (λ xs. get_or words (t % size) 0 ∷ xs) (stream-append words size (suc t) m n))

module _ {k : Kernel} (e : Endian) (sent : k.World → List (List ℕ)) where
  pub Advances-trans :
      (t m n : ℕ) (v v1 v2 : Worker) (p p1 p2 : Port k)
      → Advances e sent (p.memory v.buffer) p.tx_buffer_size t m v v1 p p1
      → Advances e sent (p1.memory v1.buffer) p1.tx_buffer_size (t + m) n v1 v2 p1 p2
      → Advances e sent (p.memory v.buffer) p.tx_buffer_size t (m + n) v v2 p p2
  Advances-trans t m n v v1 v2 p p1 p2 a b =
      let words = p.memory v.buffer in
      let size = p.tx_buffer_size in
      let size1 : p1.tx_buffer_size ≡ size = ap (λ q. q.tx_buffer_size) a.port in
      let words1 : p1.memory v1.buffer ≡ words = ground (arith, a.port, a.index) in
      let there : t + m + n ≡ t + (m + n) = omega arith in
      let f = bus_bytes e in
      let first = stream words size t m in
      let second = stream words size (t + m) n in
      record {
        index = ground (arith, a.index, b.index, there, size1);
        port = ground (arith, a.port, b.port);
        sends =
            rw (stream-append words size t m n, map-append f first second)
              (ground (
                arith,
                a.sends,
                b.sends,
                size1,
                words1,
                append_assoc (sent p.world) (map f first) (map f second),
              ));
        bytes = omega (arith, a.bytes, b.bytes);
        packets = rw (sym there) (ground (arith, a.packets, b.packets, size1));
      }

module _ {World : Type 0} (room taken : World → ℕ) where
  -- Between two moments `m` words were written: they went into the room there was, or into the room
  -- that the words made which the chip took.
  pub record Flows (m : ℕ) (w w' : World) : Type 0 where
    pub balance : room w' + taken w + m ≡ room w + taken w'
    pub takes : taken w ≤ taken w'

  pub Flows-trans : (m n : ℕ) (w w1 w2 : World) → Flows m w w1 → Flows n w1 w2 → Flows (m + n) w w2
  Flows-trans m n w w1 w2 a b = record {
    balance = omega (arith, a.balance, b.balance);
    takes = omega (arith, a.takes, b.takes);
  }

module _ {k : Kernel} (e : Endian) {room taken : k.World → ℕ} {sent : k.World → List (List ℕ)}
    (chip : HasTxFifo k room taken sent) where
  pub stays :
      (t : ℕ) (v : Worker) (p : Port k)
      → v.i ≡ t % p.tx_buffer_size
      → Advances e sent (p.memory v.buffer) p.tx_buffer_size t 0 v v p p
  unfolding stream
  stays t v p at =
      let here : t + 0 ≡ t = omega arith in
      record {
        index = rw here (ground (arith, at));
        port = refl;
        sends = sym (append-nil (sent p.world));
        bytes = omega arith;
        packets = rw here refl;
      }

  tx_word_sends :
      (t : ℕ) (v : Worker) (p : Port k)
      → 0 < p.tx_buffer_size
      → v.i ≡ t % p.tx_buffer_size
      → 0 < room p.world
      → (v' : Worker) × (p' : Port k) × (tx_word k e v p ≡ (ok (some v'), p'))
        × Advances e sent (p.memory v.buffer) p.tx_buffer_size t 1 v v' p p'
        × Flows room taken 1 p.world p'.world
  unfolding tx_word locked mutex_lock mutex_unlock read_byte write_bytes count_empty advance stream
  tx_word_sends t v p pos at space =
      let word = get_or (p.memory v.buffer) v.i 0 in
      let bs = be16_bytes e word in
      let w1 = (k.w8r8 0xe8 p.world).1 in
      let more = chip.status_takes p.world in
      let left = chip.status_room p.world in
      let n = room w1 - 1 in
      let some_room : room w1 ≡ suc n = omega (arith, more, left, space) in
      let (next_i, next_q) = next_position p.tx_buffer_size t pos in
      let st = chip.reads_status p.world in
      let full = chip.shows_full p.world in
      let kept = chip.status_keeps p.world in
      let wrote = chip.writes bs w1 in
      let order = be16_bytes-bus_bytes e word in
      let v' : Worker = record v { i = (t + 1) % p.tx_buffer_size } in
      let p' = (tx_word k e v p).1 in
      let after : p'.world ≡ (k.write (0x74 ∷ bs) w1).1 = ground (arith, st, full, wrote) in
      (
        v',
        p',
        ground (arith, next_i, st, full, wrote),
        record {
          index = refl;
          port = ground (arith, next_i, st, full, wrote);
          sends = ground (arith, after, kept, order, chip.write_appends bs n w1 some_room);
          bytes = ground (arith, next_i, st, full, wrote);
          packets = ground (arith, next_i, next_q, st, full, wrote);
        },
        record {
          balance =
              rw after (omega (arith, left, more, some_room, chip.write_room bs n w1 some_room));
          takes = rw after (omega (arith, more, chip.write_takes bs w1));
        },
      )

  tx_word_full :
      (v : Worker) (p : Port k)
      → room p.world ≡ 0
      → let p' = (tx_word k e v p).1 in
        (tx_word k e v p ≡ (ok none, p'))
        × (p' ≡ record p { world = p'.world; stats = p'.stats })
        × (sent p'.world ≡ sent p.world)
        × (p'.stats.tx_bytes ≡ p.stats.tx_bytes)
        × (p'.stats.tx_packets ≡ p.stats.tx_packets)
        × (p'.world ≡ (k.w8r8 0xe8 p.world).1)
  unfolding tx_word locked mutex_lock mutex_unlock read_byte count_empty
  tx_word_full v p full =
      ground (arith, chip.reads_status p.world, chip.shows_full p.world, chip.status_keeps p.world)

  fill_step :
      (fuel : ℕ) (v v1 : Worker) (p p1 : Port k)
      → tx_word k e v p ≡ (ok (some v1), p1)
      → fill k e (suc fuel) v p ≡ fill k e fuel v1 p1
  unfolding fill
  fill_step fuel v v1 p p1 ran = ground (arith, ran)

  fill_stop :
      (fuel : ℕ) (v : Worker) (p p' : Port k)
      → tx_word k e v p ≡ (ok none, p')
      → fill k e (suc fuel) v p ≡ (ok (some v), p')
  unfolding fill
  fill_stop fuel v p p' ran = ground (arith, ran)

  fill_zero : (v : Worker) (p : Port k) → fill k e 0 v p ≡ (ok none, p)
  unfolding fill
  fill_zero v p = refl

  nothing_more :
      (p p' : Port k) (t : ℕ) (v : Worker)
      → sent p'.world ≡ sent p.world
      → sent p'.world
        ≡ sent p.world ++ map (bus_bytes e) (stream (p.memory v.buffer) p.tx_buffer_size t 0)
  unfolding stream
  nothing_more p p' t v same = rw (append-nil (sent p.world)) same

  -- What the inner loop has written when it ends, or when its fuel ends.
  fill-writes :
      (fuel t : ℕ) (v : Worker) (p : Port k)
      → 0 < p.tx_buffer_size
      → v.i ≡ t % p.tx_buffer_size
      → (m : ℕ) × (v' : Worker) × (p' : Port k) × (((fill k e fuel v p ≡ (ok (some v'), p'))
            × (room p.world ≤ m))
          ⊎ ((fill k e fuel v p ≡ (ok none, p')) × (m ≡ fuel)))
        × Advances e sent (p.memory v.buffer) p.tx_buffer_size t m v v' p p'
        × Flows room taken m p.world p'.world
  fill-writes zero t v p pos at = (
    0,
    v,
    p,
    inr (fill_zero v p, refl),
    stays t v p at,
    record { balance = omega arith; takes = omega arith },
  )
  fill-writes (suc fuel) t v p pos at = elim (Bool-cases (room p.world == 0)) [
    | inl full ↦
        let (ran, kept, same, bytes, packets, read) = tx_word_full v p (ground (arith, full)) in
        let here : t + 0 ≡ t = omega arith in
        let p' = (tx_word k e v p).1 in
        (
          0,
          v,
          p',
          inl (fill_stop fuel v p p' ran, ground (arith, full)),
          record {
            index = rw here (ground (arith, at));
            port = kept;
            sends = nothing_more p p' t v same;
            bytes = omega (arith, bytes);
            packets = rw here (omega (arith, packets));
          },
          record {
            balance = rw read (omega (arith, chip.status_room p.world));
            takes = rw read (chip.status_takes p.world);
          },
        )
    | inr space ↦
        let (v1, p1, ran, adv, flow) = tx_word_sends t v p pos at (ground (arith, space)) in
        let size1 : p1.tx_buffer_size ≡ p.tx_buffer_size = ap (λ q. q.tx_buffer_size) adv.port in
        let (m, v2, p2, ran2, adv2, flow2) =
          fill-writes fuel (t + 1) v1 p1 (omega (arith, size1))
            (ground (arith, adv.index, size1)) in
        let step = fill_step fuel v v1 p p1 ran in
        (
          1 + m,
          v2,
          p2,
          elim ran2 [
            | inl (ends, much) ↦ inl (step ∙ ends, omega (arith, much, flow.balance, flow.takes))
            | inr (runs, count) ↦ inr (step ∙ runs, omega (arith, count))
          ],
          Advances-trans e sent t 1 m v v1 v2 p p1 p2 adv adv2,
          Flows-trans room taken 1 m p.world p1.world p2.world flow flow2,
        )
  ]

  -- The inner loop of the worker ends, and it has written the next words of the endless repetition
  -- of its buffer, each high byte first on a little-endian processor: at least as many as the FIFO
  -- had room for, and exactly as many as went into that room and into the room made by the words
  -- that the chip took meanwhile. A worker that is at position `t` of the stream is then as many
  -- words on. The chip takes at most `d` words during the loop, and there are more rounds of fuel
  -- than `d` and the room at first.
  pub fill-sends :
      (d fuel t : ℕ) (v : Worker) (p : Port k)
      → 0 < p.tx_buffer_size
      → v.i ≡ t % p.tx_buffer_size
      → taken (fill k e fuel v p).1.world ≤ taken p.world + d
      → room p.world + d < fuel
      → (m : ℕ) × (v' : Worker) × (p' : Port k) × (fill k e fuel v p ≡ (ok (some v'), p'))
        × (room p.world ≤ m)
        × (room p'.world + taken p.world + m ≡ room p.world + taken p'.world)
        × (taken p.world ≤ taken p'.world)
        × Advances e sent (p.memory v.buffer) p.tx_buffer_size t m v v' p p'
  fill-sends d fuel t v p pos at slow enough =
      let (m, v', p', ran, adv, flow) = fill-writes fuel t v p pos at in
      elim ran [
        | inl (ends, much) ↦ (m, v', p', ends, much, flow.balance, flow.takes, adv)
        | inr (runs, count) ↦
            let few : taken p'.world ≤ taken p.world + d =
              subst (λ x. taken x.1.world ≤ taken p.world + d) runs slow in
            absurd (omega (arith, few, flow.balance, count, enough))
      ]

  pub round-Advances :
      (d fuel t : ℕ) (v : Worker) (p : Port k)
      → ((u : Worker) (q : Port k) → taken (fill k e fuel u q).1.world ≤ taken q.world + d)
      → 32 + d < fuel
      → p.tx_enabled ≡ true
      → 0 < p.tx_buffer_size
      → v.i ≡ t % p.tx_buffer_size
      → (m : ℕ) × (v' : Worker) × (p' : Port k) × (tx_round k e fuel v p
          ≡ (some (Outcome.running v'), p'))
        × Advances e sent (p.memory v.buffer) p.tx_buffer_size t m v v' p p'
        × Flows room taken m p.world p'.world
        × (room p.world ≤ m)
  unfolding tx_round
  round-Advances d fuel t v p slow enough on pos at =
      let (m, v1, p1, ran, much, flow, grows, adv) =
        fill-sends d fuel t v p pos at (slow v p) (omega (arith, enough, chip.room_le p.world)) in
      let slept = chip.sleep_keeps v1.delay (v1.delay + 100) p1.world in
      let rest = chip.sleep_room v1.delay (v1.delay + 100) p1.world in
      let takes = chip.sleep_takes v1.delay (v1.delay + 100) p1.world in
      let p2 = record p1 { world = k.sleep v1.delay (v1.delay + 100) p1.world } in
      (
        m,
        v1,
        p2,
        ground (arith, ran),
        record {
          index = adv.index;
          port = ground (arith, adv.port);
          sends = slept ∙ adv.sends;
          bytes = adv.bytes;
          packets = adv.packets;
        },
        record { balance = omega (arith, flow, rest); takes = omega (arith, grows, takes) },
        much,
      )
