-- ===== src/Hi3717a/Transmit/Frames.antt =====
-- The buffer of four frames that hi3717a_tx_start_xmit (driver/devices/hi3717a.c) stores words in,
-- and the sync words at the beginning of the frames.
use native.Mathlib.Nat.{mul_left_comm, mul_comm, mod-eq_of_lt, mul-add-mod_self_left}
use driver_arinc.Prelude.{
  ℕ, zero, suc, ◌+◌, ◌-◌, ◌*◌, ◌/◌, ◌%◌, ◌<◌, ◌≤◌, ◌≡◌, ◌≢◌, refl, sym, ap, ◌∙◌, List, [], ◌∷◌,
  some, get_or, length, arith,
}
use driver_arinc.Bits.{bit_and-le}
use driver_arinc.Bytes.{arinc717_word, arinc717_word_count, arinc717_frame}
use driver_arinc.Hi3593.{Sample}
use driver_arinc.Hi3717a.Transmit.{set_at, offset_of, store_words}

-- A word of a frame of `frame_size` words: behind the sync word, within the frame.
pub record FitsFrame (frame_size value : ℕ) : Type 0 where
  pub behind_sync : 1 < arinc717_word_count value
  pub within : arinc717_word_count value ≤ frame_size

pub length-set_at : (i x : ℕ) (ws : List ℕ) → length (set_at i x ws) ≡ length ws
unfolding set_at
length-set_at i x [] = refl
length-set_at zero x (w ∷ ws) = refl
length-set_at (suc i) x (w ∷ ws) = omega (arith, length-set_at i x ws)

pub get_or-set_at : (i x : ℕ) (ws : List ℕ) → i < length ws → get_or (set_at i x ws) i 0 ≡ x
unfolding set_at
get_or-set_at i x [] h = absurd (omega arith)
get_or-set_at zero x (w ∷ ws) h = refl
get_or-set_at (suc i) x (w ∷ ws) h = get_or-set_at i x ws (omega arith)

pub get_or-set_at_other :
    (i j x : ℕ) (ws : List ℕ) → i ≢ j → get_or (set_at i x ws) j 0 ≡ get_or ws j 0
unfolding set_at
get_or-set_at_other i j x [] h = refl
get_or-set_at_other zero zero x (w ∷ ws) h = absurd (h refl)
get_or-set_at_other zero (suc j) x (w ∷ ws) h = refl
get_or-set_at_other (suc i) zero x (w ∷ ws) h = refl
get_or-set_at_other (suc i) (suc j) x (w ∷ ws) h =
    get_or-set_at_other i j x ws (λ e. h (omega (arith, e)))

frame-le : (value : ℕ) → arinc717_frame value ≤ 3
unfolding arinc717_frame
frame-le value = bit_and-le 2 value 3 (omega arith)

pub frame_start : (frame frame_size : ℕ) → frame * (4 * frame_size) / 4 ≡ frame_size * frame
frame_start frame frame_size =
    omega (arith, mul_left_comm frame 4 frame_size, mul_comm frame frame_size)

pub frame_end :
    (frame frame_size : ℕ) → frame ≤ 3 → frame_size * frame + frame_size ≤ 4 * frame_size
frame_end frame frame_size h = grind arith

-- A word that fits its frame is stored at its place in the frame, which is in the buffer.
pub offset_of_lem :
    (frame_size value : ℕ)
    → FitsFrame frame_size value
    → (offset_of (4 * frame_size) value
        ≡ some (frame_size * arinc717_frame value + (arinc717_word_count value - 1)))
      × (frame_size * arinc717_frame value + (arinc717_word_count value - 1) < 4 * frame_size)
unfolding offset_of
offset_of_lem frame_size value fits =
    let f = arinc717_frame value in
    ground (
      arith,
      fits.behind_sync,
      fits.within,
      frame_start f frame_size,
      frame_end f frame_size (frame-le value),
    )

-- The sync words of the four frames.
unfoldable pub marker : ℕ → ℕ
marker zero = 0x247
marker (suc zero) = 0x5b8
marker (suc (suc zero)) = 0xa47
marker (suc (suc (suc f))) = 0xdb8

unfoldable pub HasMarkers : (frame_size : ℕ) → List ℕ → Type 0
HasMarkers frame_size words = (f : ℕ) → f ≤ 3 → get_or words (frame_size * f) 0 ≡ marker f

-- The place of a word in its frame is not the place of a sync word.
place-marker :
    (frame_size f count g : ℕ)
    → 1 < count
    → count ≤ frame_size
    → frame_size * f + (count - 1) ≢ frame_size * g
place-marker frame_size f count g behind within e =
    let rest : count - 1 ≡ 0 =
      sym (mod-eq_of_lt (omega arith))
      ∙ sym (mul-add-mod_self_left frame_size f (count - 1))
      ∙ ap (λ x. x % frame_size) e
      ∙ ap (λ x. x % frame_size) (omega arith)
      ∙ mul-add-mod_self_left frame_size g 0
      ∙ mod-eq_of_lt (omega arith) in
    omega (arith, rest)

-- Where a word is stored.
unfoldable pub place : (frame_size value : ℕ) → ℕ
place frame_size value = frame_size * arinc717_frame value + (arinc717_word_count value - 1)

-- The samples `j`, `j + 1`, …, `n` in number, fit their frames.
unfoldable pub AllFit : (frame_size n j : ℕ) → (ℕ → Sample) → Type 0
AllFit frame_size n j samples = (i : ℕ) → i < n → FitsFrame frame_size (samples (j + i)).value

module _ (frame_size : ℕ) (samples : ℕ → Sample) where
  pub AllFit-rest :
      (n j : ℕ) → AllFit frame_size (suc n) j samples → AllFit frame_size n (j + 1) samples
  unfolding AllFit
  AllFit-rest n j fit i small =
      let there : j + 1 + i ≡ j + suc i = omega arith in rw there (fit (suc i) (omega arith))

  pub AllFit-first :
      (n j : ℕ) → AllFit frame_size (suc n) j samples → FitsFrame frame_size (samples j).value
  unfolding AllFit
  AllFit-first n j fit = let here : j ≡ j + 0 = omega arith in rw here (fit 0 (omega arith))

  pub store_one :
      (n j : ℕ) (ws : List ℕ)
      → FitsFrame frame_size (samples j).value
      → store_words (suc n) j (4 * frame_size) samples ws
        ≡ store_words n
            (j + 1)
            (4 * frame_size)
            samples
            (set_at (place frame_size (samples j).value) (arinc717_word (samples j).value) ws)
  unfolding store_words place
  store_one n j ws fits = ground (arith, offset_of_lem frame_size (samples j).value fits)

  pub length-store_words :
      (n j : ℕ) (ws : List ℕ)
      → AllFit frame_size n j samples
      → length (store_words n j (4 * frame_size) samples ws) ≡ length ws
  unfolding store_words
  length-store_words zero j ws fit = refl
  length-store_words (suc n) j ws fit =
      let v = (samples j).value in
      let ws1 = set_at (place frame_size v) (arinc717_word v) ws in
      rw (store_one n j ws (AllFit-first n j fit))
        (length-store_words n (j + 1) ws1 (AllFit-rest n j fit) ∙ length-set_at _ _ ws)

  -- A place that no sample goes to is left.
  pub store_words_other :
      (n j x : ℕ) (ws : List ℕ)
      → AllFit frame_size n j samples
      → ((i : ℕ) → i < n → place frame_size (samples (j + i)).value ≢ x)
      → get_or (store_words n j (4 * frame_size) samples ws) x 0 ≡ get_or ws x 0
  unfolding store_words
  store_words_other zero j x ws fit apart = refl
  store_words_other (suc n) j x ws fit apart =
      let v = (samples j).value in
      let ws1 = set_at (place frame_size v) (arinc717_word v) ws in
      let here : j ≡ j + 0 = omega arith in
      let first : place frame_size v ≢ x = rw here (apart 0 (omega arith)) in
      let rest : (i : ℕ) → i < n → place frame_size (samples (j + 1 + i)).value ≢ x = λ i small.
        let there : j + 1 + i ≡ j + suc i = omega arith in rw there (apart (suc i) (omega arith)) in
      rw (store_one n j ws (AllFit-first n j fit)) (
        store_words_other n (j + 1) x ws1 (AllFit-rest n j fit) rest
        ∙ get_or-set_at_other (place frame_size v) x _ ws first)

  -- The sync words are kept.
  pub store_words-HasMarkers :
      (n : ℕ) (ws : List ℕ)
      → AllFit frame_size n 0 samples
      → HasMarkers frame_size ws
      → HasMarkers frame_size (store_words n 0 (4 * frame_size) samples ws)
  unfolding HasMarkers place AllFit
  store_words-HasMarkers n ws fit has_markers f small =
      store_words_other n 0 (frame_size * f) ws fit (λ i below.
        let s = (samples (0 + i)).value in
        place-marker frame_size (arinc717_frame s) (arinc717_word_count s) f
          (fit i below).behind_sync (fit i below).within)
      ∙ has_markers f small
