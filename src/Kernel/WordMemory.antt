-- ===== src/Kernel/WordMemory.antt =====
-- What the data sheet of the HI-6138 says of its memory of 16-bit words: a write to the memory
-- pointer sets it, and the block commands read or write the words from there on.
use driver_arinc.Prelude.{update, ℕ, zero, suc, ◌+◌, ◌*◌, ◌<◌, ◌≡◌, List, [], ◌∷◌, ok}
use driver_arinc.Kernel.{Kernel}
use driver_arinc.Hi6138.Memory.{bytes_of, all_bytes}

-- The words from an address on, `n` in number.
unfoldable pub block : (ℕ → ℕ) → (address n : ℕ) → List ℕ
block m a zero = []
block m a (suc n) = m a ∷ block m (a + 1) n

-- The memory with words stored from an address on.
unfoldable pub store_block : (ℕ → ℕ) → (address : ℕ) → List ℕ → ℕ → ℕ
store_block m a [] = m
store_block m a (x ∷ xs) = store_block (update a x m) (a + 1) xs

-- Words of 16 bits.
unfoldable pub AreWords : List ℕ → Type 0
AreWords [] = Unit
AreWords (x ∷ xs) = (x < 65536) × AreWords xs

pub record HasMemory (k : Kernel) (mem : k.World → ℕ → ℕ) : Type 0 where
  pub pointer : k.World → ℕ
  pub is_word : (a : ℕ) (w : k.World) → mem w a < 65536
  pub sets_pointer : (a : ℕ) (w : k.World) → (k.write (0x8b ∷ bytes_of a) w).0 ≡ ok tt
  pub pointer_set :
      (a : ℕ) (w : k.World) → a < 65536 → pointer (k.write (0x8b ∷ bytes_of a) w).1 ≡ a
  pub pointer_keeps : (a : ℕ) (w : k.World) → mem (k.write (0x8b ∷ bytes_of a) w).1 ≡ mem w
  pub reads :
      (n : ℕ) (w : k.World)
      → (k.write_then_read (0x40 ∷ []) (2 * n) w).0 ≡ ok (all_bytes (block (mem w) (pointer w) n))
  pub read_keeps : (n : ℕ) (w : k.World) → mem (k.write_then_read (0x40 ∷ []) (2 * n) w).1 ≡ mem w
  pub writes : (xs : List ℕ) (w : k.World) → (k.write (0xc0 ∷ all_bytes xs) w).0 ≡ ok tt
  pub write_sets :
      (xs : List ℕ) (w : k.World)
      → AreWords xs
      → mem (k.write (0xc0 ∷ all_bytes xs) w).1 ≡ store_block (mem w) (pointer w) xs
  pub alloc_keeps : (n : ℕ) (w : k.World) → mem (k.alloc n w).1 ≡ mem w

-- The pending registers, which are read by a command of their own and are not part of the memory:
-- reading one leaves the others and the memory. (The chip clears the one that is read.)
pub record HasPending (k : Kernel) (mem : k.World → ℕ → ℕ) : Type 0 where
  pub pending : k.World → ℕ → ℕ
  pub is_status : (a : ℕ) (w : k.World) → pending w a < 65536
  pub reads_pending :
      (a : ℕ) (w : k.World)
      → a < 16
      → (k.write_then_read (a * 4 ∷ []) 2 w).0 ≡ ok (bytes_of (pending w a))
  pub read_leaves :
      (a b : ℕ) (w : k.World)
      → a < 16
      → ¬ (b ≡ a)
      → pending (k.write_then_read (a * 4 ∷ []) 2 w).1 b ≡ pending w b
  pub pending_keeps :
      (a : ℕ) (w : k.World) → a < 16 → mem (k.write_then_read (a * 4 ∷ []) 2 w).1 ≡ mem w
