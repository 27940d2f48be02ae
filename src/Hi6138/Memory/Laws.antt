-- ===== src/Hi6138/Memory/Laws.antt =====
-- Blocks of the HI-6138's memory (hi6138_get_mem and hi6138_set_mem of driver/devices/hi6138.c).
use driver_arinc.Prelude.{
  update, ℕ, zero, suc, ◌+◌, ◌*◌, ◌<◌, ◌≡◌, refl, ap, ◌∙◌, List, [], ◌∷◌, length, ok, arith,
}
use driver_arinc.Kernel.{Kernel}
use driver_arinc.Kernel.WordMemory.{block, store_block, HasMemory, AreWords}
use driver_arinc.Hi6138.{Monitor, write_bytes, read_bytes}
use driver_arinc.Hi6138.Memory.{
  bytes_of, all_bytes, all_words, set_fastaccess, get_mem, set_mem, get_reg,
}

all_words-all_bytes : (xs : List ℕ) → AreWords xs → all_words (length xs) (all_bytes xs) ≡ xs
unfolding all_words all_bytes bytes_of AreWords
all_words-all_bytes [] h = refl
all_words-all_bytes (x ∷ xs) (small, h) = ground (arith, all_words-all_bytes xs h)

length-block : (m : ℕ → ℕ) (a n : ℕ) → length (block m a n) ≡ n
unfolding block
length-block m a zero = refl
length-block m a (suc n) = ap (λ x. suc x) (length-block m (a + 1) n)

block-AreWords : (m : ℕ → ℕ) (a n : ℕ) → ((b : ℕ) → m b < 65536) → AreWords (block m a n)
unfolding block AreWords
block-AreWords m a zero h = tt
block-AreWords m a (suc n) h = (h a, block-AreWords m (a + 1) n h)

-- A store leaves the words before it, and a block that is stored is read.
store_block_before : (m : ℕ → ℕ) (a b : ℕ) (xs : List ℕ) → b < a → store_block m a xs b ≡ m b
unfolding store_block
store_block_before m a b [] h = refl
store_block_before m a b (x ∷ xs) h =
    store_block_before (update a x m) (a + 1) b xs (omega arith) ∙ ground arith

block-store_block :
    (m : ℕ → ℕ) (a : ℕ) (xs : List ℕ) → block (store_block m a xs) a (length xs) ≡ xs
unfolding block store_block
block-store_block m a [] = refl
block-store_block m a (x ∷ xs) = ground (
  arith,
  block-store_block (update a x m) (a + 1) xs,
  store_block_before (update a x m) (a + 1) a xs (omega arith),
)

module _ {k : Kernel} {mem : k.World → ℕ → ℕ} (chip : HasMemory k mem) where
  -- `hi6138_get_mem` reads the words from its address on, and leaves the memory.
  pub get_mem-block :
      (a n : ℕ) (p : Monitor k)
      → a < 65536
      → (w : k.World) × (get_mem k a n p ≡ (ok (block (mem p.world) a n), record p { world = w }))
        × (mem w ≡ mem p.world)
  unfolding get_mem set_fastaccess write_bytes read_bytes
  get_mem-block a n p small =
      let w1 = (k.write (0x8b ∷ bytes_of a) p.world).1 in
      let at = chip.pointer_set a p.world small in
      let kept = chip.pointer_keeps a p.world in
      let words = block (mem p.world) a n in
      let exact =
        all_words-all_bytes words
          (block-AreWords (mem p.world) a n (λ b. chip.is_word b p.world)) in
      (
        (k.write_then_read (0x40 ∷ []) (2 * n) w1).1,
        ground (
          arith,
          chip.sets_pointer a p.world,
          chip.reads n w1,
          at,
          kept,
          exact,
          length-block (mem p.world) a n,
        ),
        chip.read_keeps n w1 ∙ kept,
      )

  pub get_reg-word :
      (a : ℕ) (p : Monitor k)
      → a < 65536
      → (w : k.World) × (get_reg k a p ≡ (ok (mem p.world a), record p { world = w }))
        × (mem w ≡ mem p.world)
  unfolding get_reg block
  get_reg-word a p small =
      let (w, ran, kept) = get_mem-block a 1 p small in (w, ground (arith, ran), kept)

  -- Words of 16 bits that `hi6138_set_mem` writes are read again by `hi6138_get_mem` of as many words
  -- at the same address, and both succeed; the words below the address are as they were. The chip is
  -- a memory with a pointer.
  pub get_mem-set_mem :
      (a : ℕ) (xs : List ℕ) (p : Monitor k)
      → a < 65536
      → AreWords xs
      → let (r, p1) = set_mem k a xs p in
        (r ≡ ok tt)
        × ((get_mem k a (length xs) p1).0 ≡ ok xs)
        × ((b : ℕ) → b < a → mem p1.world b ≡ mem p.world b)
  unfolding set_mem set_fastaccess write_bytes
  get_mem-set_mem a xs p small words =
      let w1 = (k.write (0x8b ∷ bytes_of a) p.world).1 in
      let w2 = (k.write (0xc0 ∷ all_bytes xs) w1).1 in
      let set = chip.sets_pointer a p.world in
      let at = chip.pointer_set a p.world small in
      let kept = chip.pointer_keeps a p.world in
      let p2 = record p { world = w2 } in
      let result : set_mem k a xs p ≡ (ok tt, p2) = ground (arith, set, chip.writes xs w1) in
      let stored : mem w2 ≡ store_block (mem p.world) a xs =
        ground (arith, chip.write_sets xs w1 words, at, kept) in
      let (w3, ran, kept3) = get_mem-block a (length xs) p2 small in
      (
        ap (λ x. x.0) result,
        ground (arith, result, ran, stored, block-store_block (mem p.world) a xs),
        λ b below.
            ap (λ x. mem x.1.world b) result
            ∙ ap (λ f. f b) stored
            ∙ store_block_before (mem p.world) a b xs below,
      )
