-- ===== src/Bytes/Order.antt =====
-- The byte order of words on the SPI bus (driver/devices/hi3593.c), from words to bytes and back.
use driver_arinc.Prelude.{ℕ, ◌/◌, ◌%◌, ◌^◌, ◌<◌, ◌≡◌, arith}
use driver_arinc.Bits.{bit_and-ones}
use driver_arinc.Bytes.{
  Endian, Quad, join_bytes, split_bytes, swap_be32, word_of_bytes, bytes_of_word,
}
use driver_arinc.Bytes.Fields.{field}

pub record IsBytes (q : Quad) : Type 0 where
  pub r0 : q.b0 < 2 ^ 8
  pub r1 : q.b1 < 2 ^ 8
  pub r2 : q.b2 < 2 ^ 8
  pub r3 : q.b3 < 2 ^ 8

pub split_bytes_lem :
    (v : ℕ)
    → v < 2 ^ 32
    → split_bytes v
      ≡ record { b0 = v % 2 ^ 8; b1 = v / 2 ^ 8 % 2 ^ 8; b2 = v / 2 ^ 16 % 2 ^ 8; b3 = v / 2 ^ 24 }
unfolding split_bytes
split_bytes_lem v h = ground (arith, bit_and-ones 8 v, field 8 8 v, field 16 8 v, field 24 8 v)

join_bytes-split_bytes : (v : ℕ) → v < 2 ^ 32 → join_bytes (split_bytes v) ≡ v
unfolding join_bytes
join_bytes-split_bytes v h = rw (split_bytes_lem v h) (omega arith)

split_bytes-join_bytes : (q : Quad) → IsBytes q → split_bytes (join_bytes q) ≡ q
unfolding join_bytes
split_bytes-join_bytes q h = rw (split_bytes_lem (join_bytes q) (omega arith)) (ground arith)

join_bytes-lt : (q : Quad) → join_bytes q < 2 ^ 32
unfolding join_bytes
join_bytes-lt q = omega arith

pub swap_be32-lt : (e : Endian) (v : ℕ) → v < 2 ^ 32 → swap_be32 e v < 2 ^ 32
unfolding swap_be32
swap_be32-lt Endian.little v h = omega arith
swap_be32-lt Endian.big v h = h

swap_be32-swap_be32 : (e : Endian) (v : ℕ) → v < 2 ^ 32 → swap_be32 e (swap_be32 e v) ≡ v
unfolding swap_be32
swap_be32-swap_be32 Endian.little v h = omega arith
swap_be32-swap_be32 Endian.big v h = omega arith

-- A 32-bit word that is written to a transmit FIFO and read from a receive FIFO by the same
-- processor, of either byte order, arrives unchanged.
pub word_of_bytes-bytes_of_word :
    (e : Endian) (v : ℕ) → v < 2 ^ 32 → word_of_bytes e (bytes_of_word e v) ≡ v
unfolding word_of_bytes bytes_of_word
word_of_bytes-bytes_of_word e v h =
    rw (join_bytes-split_bytes (swap_be32 e v) (swap_be32-lt e v h)) (swap_be32-swap_be32 e v h)

pub bytes_of_word-word_of_bytes :
    (e : Endian) (q : Quad) → IsBytes q → bytes_of_word e (word_of_bytes e q) ≡ q
unfolding word_of_bytes bytes_of_word
bytes_of_word-word_of_bytes e q h =
    rw (swap_be32-swap_be32 e (join_bytes q) (join_bytes-lt q)) (split_bytes-join_bytes q h)

pub word_of_bytes-lt : (e : Endian) (q : Quad) → word_of_bytes e q < 2 ^ 32
unfolding word_of_bytes
word_of_bytes-lt e q = swap_be32-lt e (join_bytes q) (join_bytes-lt q)

-- On a little-endian processor the first byte of the bus is the top byte of the value, so its bit
-- 0x80 is the ARINC-429 parity bit.
pub word_of_bytes_top : (q : Quad) → IsBytes q → word_of_bytes Endian.little q / 2 ^ 24 ≡ q.b0
unfolding word_of_bytes join_bytes swap_be32
word_of_bytes_top q h = omega arith
