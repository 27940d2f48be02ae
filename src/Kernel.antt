-- ===== src/Kernel.antt =====
-- What the device drivers take from the Linux kernel and the hardware behind it: SPI transfers, GPIO
-- lines, the clock, sleeping and buffer allocation. None of it is code of this repository, so it is a
-- parameter; `World` is whatever those functions depend on and change.
pub mod Register
pub mod Receiver
pub mod Transmitter
pub mod ReceiveFifo
pub mod FrameChip
pub mod WordMemory
use driver_arinc.Prelude.{ℕ, ◌+◌, ◌*◌, ◌/◌, ◌%◌, ◌^◌, Bool, List, Result}

pub record Kernel : Type 1 where
  pub World : Type 0
  -- `spi_w8r8`: a byte or a negative error code.
  pub w8r8 : ℕ → World → Result ℕ × World
  -- `spi_write`: 0 or a negative error code.
  pub write : List ℕ → World → Result (Unit {0}) × World
  -- `spi_write_then_read` of the bytes to send and the number of bytes to read.
  pub write_then_read : List ℕ → ℕ → World → Result (List ℕ) × World
  -- `spi_sync` of a message of transfers, each of the command byte that it sends and its length:
  -- what each transfer received, or a negative error code.
  pub spi_sync : List (ℕ × ℕ) → World → Result (List (List ℕ)) × World
  -- `gpio_set_value` of the line with this number.
  pub set_gpio : ℕ → ℕ → World → World
  -- `usleep_range`.
  pub sleep : ℕ → ℕ → World → World
  -- `ktime_get_real_ts64`: seconds and nanoseconds.
  pub real_time : World → (ℕ × ℕ) × World
  -- Whether an allocation of so many bytes succeeds.
  pub alloc : ℕ → World → Bool × World

-- `(tv.tv_sec*MSEC_PER_SEC) + (tv.tv_nsec/NSEC_PER_MSEC)`, stored in 64 bits.
unfoldable pub msecs : ℕ × ℕ → ℕ
msecs (sec, nsec) = (sec * 1000 + nsec / 1000000) % 2 ^ 64
