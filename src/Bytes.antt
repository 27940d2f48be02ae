-- ===== src/Bytes.antt =====
-- The data words of driver/include/avionics.h and their byte order on the SPI bus
-- (driver/devices/hi3593.c and hi3717a.c).
pub mod Fields
pub mod Order
use driver_arinc.Prelude.{ℕ, ◌+◌, ◌*◌, ◌/◌, ◌%◌, ◌^◌, bit_and}

-- The byte order of the processor that runs the driver.
pub data Endian : Type 0 where
  little big : Endian

-- The four bytes of a 32-bit number, lowest first.
pub record Quad : Type 0 where
  pub b0 : ℕ
  pub b1 : ℕ
  pub b2 : ℕ
  pub b3 : ℕ

-- `buffer[0] + (buffer[1]<<8) + (buffer[2]<<16) + (buffer[3]<<24)`, stored in a `__u32`.
unfoldable pub join_bytes : Quad → ℕ
join_bytes q = (q.b0 + q.b1 * 2 ^ 8 + q.b2 * 2 ^ 16 + q.b3 * 2 ^ 24) % 2 ^ 32

-- `vbuffer&0x000000ff`, `(vbuffer&0x0000ff00) >> 8`, …: the bytes that the transmitter sends.
unfoldable pub split_bytes : ℕ → Quad
split_bytes v = record {
  b0 = bit_and v 0x000000ff;
  b1 = bit_and v 0x0000ff00 / 2 ^ 8;
  b2 = bit_and v 0x00ff0000 / 2 ^ 16;
  b3 = bit_and v 0xff000000 / 2 ^ 24;
}

-- `be32_to_cpu` and `cpu_to_be32`: the bytes in reverse on a little-endian processor.
unfoldable pub swap_be32 : Endian → ℕ → ℕ
swap_be32 Endian.little x =
    x % 2 ^ 8 * 2 ^ 24
    + x / 2 ^ 8 % 2 ^ 8 * 2 ^ 16
    + x / 2 ^ 16 % 2 ^ 8 * 2 ^ 8
    + x / 2 ^ 24 % 2 ^ 8
swap_be32 Endian.big x = x

-- The value of a word read from a receive FIFO, from the bytes in the order they arrive.
unfoldable pub word_of_bytes : Endian → Quad → ℕ
word_of_bytes e q = swap_be32 e (join_bytes q)

-- The bytes of a word written to a transmit FIFO, in the order they are sent.
unfoldable pub bytes_of_word : Endian → ℕ → Quad
bytes_of_word e v = split_bytes (swap_be32 e v)

-- ARINC429_LABEL … ARINC429_PARITY.
unfoldable pub arinc429_label : ℕ → ℕ
arinc429_label value = bit_and value 0x000000ff

unfoldable pub arinc429_sdi : ℕ → ℕ
arinc429_sdi value = bit_and value 0x00000300 / 2 ^ 8

unfoldable pub arinc429_data : ℕ → ℕ
arinc429_data value = bit_and value 0x1ffffc00 / 2 ^ 10

unfoldable pub arinc429_ssm : ℕ → ℕ
arinc429_ssm value = bit_and value 0x60000000 / 2 ^ 29

unfoldable pub arinc429_parity : ℕ → ℕ
arinc429_parity value = bit_and value 0x80000000 / 2 ^ 31

-- ARINC717_WORD, ARINC717_WORD_COUNT and ARINC717_FRAME.
unfoldable pub arinc717_word : ℕ → ℕ
arinc717_word value = bit_and value 0x0fff0000 / 2 ^ 16

unfoldable pub arinc717_word_count : ℕ → ℕ
arinc717_word_count value = bit_and value 0x0000fff8 / 2 ^ 3

unfoldable pub arinc717_frame : ℕ → ℕ
arinc717_frame value = bit_and value 0x00000003
