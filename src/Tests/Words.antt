-- ===== src/Tests/Words.antt =====
-- An HI-6138 as a memory of words with a pointer, and pending registers that are cleared as they are
-- read.
use driver_arinc.Prelude.{
  update, ℕ, ◌+◌, ◌*◌, ◌/◌, ◌%◌, ◌<◌, ◌≡◌, refl, ap, ◌∙◌, fun_ext, true, List, [], ◌∷◌, get_or,
  ◌==◌, if◌then◌else◌, Result, ok, arith, Bool-cases, inl, inr,
}
use driver_arinc.Kernel.{Kernel}
use driver_arinc.Kernel.WordMemory.{block, store_block, AreWords, HasMemory, HasPending}
use driver_arinc.Hi6138.Memory.{bytes_of, all_bytes}

pub record Words : Type 0 where
  pub pointer : ℕ
  pub contents : ℕ → ℕ
  pub status : ℕ → ℕ

abbrev pub words_mem : Words → ℕ → ℕ
words_mem w a = w.contents a % 65536

abbrev pub words_of : List ℕ → List ℕ
words_of [] = []
words_of (hi ∷ []) = []
words_of (hi ∷ lo ∷ bs) = (hi * 256 + lo) ∷ words_of bs

unfoldable pub write_words : List ℕ → Words → Words
write_words [] w = w
write_words (op ∷ bs) w =
    if op == 0x8b
    then record w { pointer = get_or (words_of bs) 0 0 }
    else if op == 0xc0
    then record w { contents = store_block w.contents w.pointer (words_of bs) }
    else w

unfoldable pub read_words : List ℕ → ℕ → Words → Result (List ℕ) × Words
read_words [] n w = (ok [], w)
read_words (op ∷ bs) n w =
    if op == 0x40 then (ok (all_bytes (block (words_mem w) w.pointer (n / 2))), w) else (
      ok (bytes_of (w.status (op / 4) % 65536)),
      record w { status = update (op / 4) 0 w.status },
    )

abbrev pub words : Kernel
words = record {
  World = Words;
  w8r8 = λ op w. (ok 0, w);
  write = λ bs w. (ok tt, write_words bs w);
  write_then_read = read_words;
  spi_sync = λ m w. (ok [], w);
  set_gpio = λ g v w. w;
  sleep = λ lo hi w. w;
  real_time = λ w. ((1, 0), w);
  alloc = λ n w. (true, w);
}

words_of-all_bytes : (xs : List ℕ) → AreWords xs → words_of (all_bytes xs) ≡ xs
unfolding all_bytes bytes_of AreWords
words_of-all_bytes [] h = refl
words_of-all_bytes (x ∷ xs) (small, h) = ground (arith, words_of-all_bytes xs h)

update_mod :
    (a x : ℕ) (f : ℕ → ℕ)
    → x < 65536
    → (λ b. update a x f b % 65536) ≡ update a x (λ b. f b % 65536)
update_mod a x f small =
    fun_ext λ b. elim (Bool-cases (b == a)) [ inl h ↦ ground (arith) | inr h ↦ ground (arith) ]

store_mod :
    (f : ℕ → ℕ) (a : ℕ) (xs : List ℕ)
    → AreWords xs
    → (λ b. store_block f a xs b % 65536) ≡ store_block (λ b. f b % 65536) a xs
unfolding store_block AreWords
store_mod f a [] h = refl
store_mod f a (x ∷ xs) (small, h) =
    rw (store_mod (update a x f) (a + 1) xs h, update_mod a x f small) refl

even_half : (n : ℕ) → 2 * n / 2 ≡ n
even_half n = omega arith

write_words-stores :
    (xs : List ℕ) (w : Words)
    → AreWords xs
    → words_mem (write_words (0xc0 ∷ all_bytes xs) w) ≡ store_block (words_mem w) w.pointer xs
unfolding write_words
write_words-stores xs w h =
    ap (λ ys. λ b. store_block w.contents w.pointer ys b % 65536) (words_of-all_bytes xs h)
    ∙ store_mod w.contents w.pointer xs h

pub has_memory : HasMemory words words_mem
unfolding write_words read_words bytes_of
has_memory = record {
  pointer = λ w. w.pointer;
  is_word = λ a w. omega arith;
  sets_pointer = λ a w. refl;
  pointer_set = λ a w h. omega (arith, h);
  pointer_keeps = λ a w. refl;
  reads = λ n w. rw (even_half n) refl;
  read_keeps = λ n w. refl;
  writes = λ xs w. refl;
  write_sets = write_words-stores;
  alloc_keeps = λ n w. refl;
}

pub quarter : (a : ℕ) → a * 4 / 4 ≡ a
quarter a = omega arith

unfoldable pub has_pending : HasPending words words_mem
unfolding read_words
has_pending = record {
  pending = λ w a. w.status a % 65536;
  is_status = λ a w. omega arith;
  reads_pending = λ a w h. ground (arith, h, quarter a);
  read_leaves = λ a b w h other. ground (arith, h, other, quarter a);
  pending_keeps = λ a w h. ground (arith, h);
}
