-- ===== src/Hi3593/Receive/Fifo.antt =====
-- What hi3593_rx_worker (driver/devices/hi3593.c) makes of the words in the receive FIFO.
use driver_arinc.Prelude.{
  ℕ, zero, suc, ◌+◌, ◌*◌, ◌%◌, ◌==◌, ltb, ◌∙◌, ap, ◌≤◌, ◌≡◌, refl, true, List, [], ◌∷◌, ◌++◌, map,
  length, ok, value_or, if◌then◌else◌, append_assoc, map-append, append-nil, arith,
}
use driver_arinc.Bits.{bit_and-ones, top_bit}
use driver_arinc.Bytes.{Endian, Quad, word_of_bytes, join_bytes, swap_be32}
use driver_arinc.Bytes.Order.{IsBytes}
use driver_arinc.Kernel.{Kernel, msecs}
use driver_arinc.Kernel.ReceiveFifo.{IsReceiveFifo, is_empty}
use driver_arinc.Hi3593.{Sample, Port, sample_size}
use driver_arinc.Hi3593.Receive.{
  RxOps, parity_accepts, parity_clear, quad_of, take_sample, fifo_drained, rx_word, rx_loop,
  rx_fifo, deliver, count_crc_error,
}

-- The values of the words that pass the parity test, in order.
unfoldable pub readable : Endian → (check_parity even_parity : ℕ) → List Quad → List ℕ
readable e c ev [] = []
readable e c ev (q ∷ rest) =
    (if parity_accepts c ev q.b0
      then word_of_bytes e (record q { b0 = parity_clear c ev q.b0 }) ∷ []
      else [])
    ++ readable e c ev rest

-- Words as they come from the FIFO, in four bytes.
abbrev pub AllBytes : List Quad → Type 0
AllBytes [] = Unit {0}
AllBytes (q ∷ rest) = IsBytes q × AllBytes rest

-- The number of a word whose first byte on the bus is the highest on a little-endian processor, and
-- the lowest on a big-endian one.
unfoldable pub bus_value : Endian → (b0 b1 b2 b3 : ℕ) → ℕ
bus_value Endian.little b0 b1 b2 b3 = b0 * 16777216 + b1 * 65536 + b2 * 256 + b3
bus_value Endian.big b0 b1 b2 b3 = b0 + b1 * 256 + b2 * 65536 + b3 * 16777216

-- What is received of the words of a FIFO, said of their bytes: with the parity check on, and even
-- parity off, a word with its parity bit set is left out; with both on, the parity bit, the highest
-- of the first byte, is cleared and the other bits are kept; with the check off all is as it was.
unfoldable pub received : Endian → (check_parity even_parity : ℕ) → List Quad → List ℕ
received e c ev [] = []
received e c ev (q ∷ rest) =
    (if c == 0
      then bus_value e q.b0 q.b1 q.b2 q.b3 ∷ []
      else if ev == 0
      then (if ltb q.b0 128 then bus_value e q.b0 q.b1 q.b2 q.b3 ∷ [] else [])
      else bus_value e (q.b0 % 128) q.b1 q.b2 q.b3 ∷ [])
    ++ received e c ev rest

bus_value_lem :
    (e : Endian) (q : Quad) → IsBytes q → word_of_bytes e q ≡ bus_value e q.b0 q.b1 q.b2 q.b3
unfolding word_of_bytes join_bytes swap_be32 bus_value
bus_value_lem Endian.little q h = omega (arith, h.r0, h.r1, h.r2, h.r3)
bus_value_lem Endian.big q h = omega (arith, h.r0, h.r1, h.r2, h.r3)

pub readable-received :
    (e : Endian) (c ev : ℕ) (qs : List Quad) → AllBytes qs → readable e c ev qs ≡ received e c ev qs
unfolding readable received parity_accepts parity_clear
readable-received e c ev [] h = refl
readable-received e c ev (q ∷ rest) (b, h) =
    let cleared = bit_and-ones 7 q.b0 in
    let low : IsBytes (record q { b0 = q.b0 % 128 }) = record {
      r0 = omega arith;
      r1 = b.r1;
      r2 = b.r2;
      r3 = b.r3;
    } in
    ground (
      arith,
      readable-received e c ev rest h,
      cleared,
      top_bit q.b0 b.r0,
      bus_value_lem e q b,
      bus_value_lem e (record q { b0 = q.b0 % 128 }) low,
    )

abbrev pub values : List Sample → List ℕ
values = map (λ s. s.value)

length_zero : (xs : List Sample) → length xs ≡ 0 → xs ≡ []
length_zero [] h = refl
length_zero (x ∷ xs) h = absurd (omega arith)

-- All that was delivered, as one list of values.
abbrev pub all_values : List (List Sample) → List ℕ
all_values [] = []
all_values (xs ∷ xss) = values xs ++ all_values xss

all_values-append :
    (xss : List (List Sample)) (xs : List Sample)
    → all_values (xss ++ xs ∷ []) ≡ all_values xss ++ values xs
all_values-append [] xs = append-nil (values xs)
all_values-append (ys ∷ xss) xs =
    rw (all_values-append xss xs, append_assoc (values ys) (all_values xss) (values xs))

module _ {k : Kernel} (e : Endian) {rd_cmd status_cmd : ℕ} {fifo : k.World → List Quad}
    (chip : IsReceiveFifo k rd_cmd status_cmd fifo) where
  fifo_drained-tells :
      (p : Port k)
      → let (r, p') = fifo_drained k e status_cmd p in
        (r ≡ ok (is_empty (fifo p.world)))
        × (fifo p'.world ≡ fifo p.world)
        × (p'.check_parity ≡ p.check_parity)
        × (p'.even_parity ≡ p.even_parity)
        × (p'.delivered ≡ p.delivered)
  unfolding fifo_drained
  fifo_drained-tells p =
      let w1 = (k.w8r8 status_cmd p.world).1 in
      let w2 = k.sleep p.rx_udelay_min p.rx_udelay_max w1 in
      ground (
        arith,
        chip.reads_status p.world,
        chip.shows_empty p.world,
        chip.status_keeps p.world,
        chip.sleep_keeps p.rx_udelay_min p.rx_udelay_max w1,
        chip.reads_status w2,
        chip.shows_empty w2,
        chip.status_keeps w2,
      )

  rx_word-reads :
      (q : Quad) (rest : List Quad) (samples : List Sample) (p : Port k)
      → fifo p.world ≡ q ∷ rest
      → let (r, p') = rx_word k e rd_cmd samples p in
        (r ≡ ok (value_or [] r))
        × (values (value_or [] r)
            ≡ values samples ++ readable e p.check_parity p.even_parity (q ∷ []))
        × (fifo p'.world ≡ rest)
        × (p'.check_parity ≡ p.check_parity)
        × (p'.even_parity ≡ p.even_parity)
        × (p'.delivered ≡ p.delivered)
  unfolding rx_word take_sample readable quad_of count_crc_error
  rx_word-reads q rest samples p full =
      let w1 = (k.write_then_read (rd_cmd ∷ []) 4 p.world).1 in
      let b0 = parity_clear p.check_parity p.even_parity q.b0 in
      let v = word_of_bytes e (record q { b0 = b0 }) in
      ground (
        arith,
        chip.reads_word q rest p.world full,
        chip.read_takes q rest p.world full,
        chip.clock_keeps w1,
        append-nil (values samples),
        map-append (λ x. x.value) samples
            (record { time_msecs = msecs (k.real_time w1).0; value = v } ∷ []),
      )

  readable-cons :
      (c ev : ℕ) (q : Quad) (rest : List Quad)
      → readable e c ev (q ∷ rest) ≡ readable e c ev (q ∷ []) ++ readable e c ev rest
  unfolding readable
  readable-cons c ev q rest = ground arith

  rx_loop-reads :
      (n : ℕ) (ops : RxOps) (q : Quad) (rest : List Quad) (samples : List Sample) (p : Port k)
      → ops.rd_cmd ≡ rd_cmd
      → ops.status_cmd ≡ status_cmd
      → fifo p.world ≡ q ∷ rest
      → length (q ∷ rest) ≤ n
      → let (r, p') = rx_loop k e n ops samples p in
        (r ≡ ok (value_or [] r))
        × (values (value_or [] r)
            ≡ values samples ++ readable e p.check_parity p.even_parity (q ∷ rest))
        × (fifo p'.world ≡ [])
        × (p'.delivered ≡ p.delivered)
  unfolding rx_loop
  rx_loop-reads zero ops q rest samples p rd st full enough = absurd (omega arith)
  rx_loop-reads (suc n) ops q [] samples p rd st full enough =
      let read = rx_word k e rd_cmd samples p in
      ground (arith, rx_word-reads q [] samples p full, fifo_drained-tells read.1)
  rx_loop-reads (suc n) ops q (q' ∷ rest) samples p rd st full enough =
      let read = rx_word k e rd_cmd samples p in
      let test = fifo_drained k e status_cmd read.1 in
      let samples' = value_or [] read.0 in
      ground (
        arith,
        rx_word-reads q (q' ∷ rest) samples p full,
        fifo_drained-tells read.1,
        rx_loop-reads n ops q' rest samples' test.1 rd st,
        readable-cons p.check_parity p.even_parity q (q' ∷ rest),
        append_assoc (values samples) (readable e p.check_parity p.even_parity (q ∷ []))
            (readable e p.check_parity p.even_parity (q' ∷ rest)),
      )

  pub rx_fifo-readable :
      (ops : RxOps) (q : Quad) (rest : List Quad) (p : Port k)
      → ops.rd_cmd ≡ rd_cmd
      → ops.status_cmd ≡ status_cmd
      → fifo p.world ≡ q ∷ rest
      → length (q ∷ rest) ≤ 256
      → ((n : ℕ) (w : k.World) → (k.alloc n w).0 ≡ true)
      → let (r, p') = rx_fifo k e ops p in
        (r ≡ ok tt)
        × (all_values p'.delivered
            ≡ all_values p.delivered ++ readable e p.check_parity p.even_parity (q ∷ rest))
  unfolding rx_fifo deliver
  rx_fifo-readable ops q rest p rd st full fits room =
      let read = rx_loop k e 256 ops [] p in
      let samples = value_or [] read.0 in
      ground (
        arith,
        rx_loop-reads 256 ops q rest [] p rd st full fits,
        room (length samples * sample_size) read.1.world,
        all_values-append p.delivered samples,
        append-nil (all_values p.delivered),
        length_zero samples,
      )

  -- From a FIFO of 1 to 256 words, as many as the receive buffer has room for, the loop over the
  -- FIFO delivers the words in order and behind what was delivered before. With the parity check on
  -- and even parity off it leaves out the words whose parity bit is set; with both on it takes every
  -- word and clears its parity bit; all other bits of a word are delivered as they are. Memory is
  -- there, and no word arrives during the run.
  pub rx_fifo-delivers :
      (ops : RxOps) (q : Quad) (rest : List Quad) (p : Port k)
      → ops.rd_cmd ≡ rd_cmd
      → ops.status_cmd ≡ status_cmd
      → fifo p.world ≡ q ∷ rest
      → AllBytes (q ∷ rest)
      → length (q ∷ rest) ≤ 256
      → ((n : ℕ) (w : k.World) → (k.alloc n w).0 ≡ true)
      → let (r, p') = rx_fifo k e ops p in
        (r ≡ ok tt)
        × (all_values p'.delivered
            ≡ all_values p.delivered ++ received e p.check_parity p.even_parity (q ∷ rest))
  rx_fifo-delivers ops q rest p rd st full bytes fits room =
      let (r, delivered) = rx_fifo-readable ops q rest p rd st full fits room in
      let same = readable-received e p.check_parity p.even_parity (q ∷ rest) bytes in
      (r, delivered ∙ ap (λ xs. all_values p.delivered ++ xs) same)
