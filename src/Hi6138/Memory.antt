-- ===== src/Hi6138/Memory.antt =====
-- Registers and memory of the HI-6138: `hi6138_get_fastaccess`, `_set_fastaccess`, `_get_mem`,
-- `_set_mem`, `_get_reg` and `_set_reg` of driver/devices/hi6138.c. A word goes over the bus with its
-- high byte first, whatever the byte order of the processor.
pub mod Laws
use driver_arinc.Prelude.{
  ℕ, zero, suc, ◌+◌, ◌*◌, ◌/◌, ◌%◌, ◌^◌, List, [], ◌∷◌, ◌++◌, bit_and, bit_or, get_or, length,
  Result, ok, err, Step, pure, ◌>>=◌, ◌>>◌,
}
use driver_arinc.Kernel.{Kernel}
use driver_arinc.Hi6138.{Monitor, write_bytes, read_bytes, memptra}

-- `cpu_to_be16` and `memcpy`
unfoldable pub bytes_of : ℕ → List ℕ
bytes_of value = (value / 2 ^ 8 % 2 ^ 8) ∷ (value % 2 ^ 8) ∷ []

unfoldable pub all_bytes : List ℕ → List ℕ
unfolding bytes_of
all_bytes [] = []
all_bytes (value ∷ values) = bytes_of value ++ all_bytes values

-- `memcpy` and `be16_to_cpu`, of `n` words
unfoldable pub all_words : (n : ℕ) → List ℕ → List ℕ
all_words zero bytes = []
all_words (suc n) (hi ∷ lo ∷ bytes) = (hi * 2 ^ 8 + lo) ∷ all_words n bytes
all_words (suc n) (hi ∷ []) = []
all_words (suc n) [] = []

module _ (k : Kernel) where
  unfoldable pub get_fastaccess : (address : ℕ) → Step (Monitor k) ℕ
  unfolding read_bytes all_words
  get_fastaccess address = do
    buffer ← read_bytes k (bit_and address 0x0f * 2 ^ 2) 2
    pure (get_or (all_words 1 buffer) 0 0)

  unfoldable pub set_fastaccess : (address value : ℕ) → Step (Monitor k) (Unit {0})
  unfolding write_bytes bytes_of
  set_fastaccess address value = write_bytes k (bit_or 0x80 (bit_and address 0x3f) ∷ bytes_of value)

  unfoldable pub set_mem : (address : ℕ) → List ℕ → Step (Monitor k) (Unit {0})
  unfolding write_bytes all_bytes
  set_mem address values = do
    set_fastaccess memptra address
    write_bytes k (0xc0 ∷ all_bytes values)

  unfoldable pub get_mem : (address n : ℕ) → Step (Monitor k) (List ℕ)
  unfolding read_bytes all_words
  get_mem address n = do
    set_fastaccess memptra address
    buffer ← read_bytes k 0x40 (2 * n)
    pure (all_words n buffer)

  unfoldable pub get_reg : (address : ℕ) → Step (Monitor k) ℕ
  get_reg address = do values ← get_mem address 1; pure (get_or values 0 0)

  unfoldable pub set_reg : (address value : ℕ) → Step (Monitor k) (Unit {0})
  set_reg address value = set_mem address (value ∷ [])
