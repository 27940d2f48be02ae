-- ===== src/Hi3717a/Transmit/Packets.antt =====
-- A packet that is given to hi3717a_tx_start_xmit (driver/devices/hi3717a.c), in the buffer.
use driver_arinc.Prelude.{
  ℕ, zero, suc, ◌+◌, ◌*◌, ◌/◌, ◌<◌, ◌≤◌, ◌≡◌, ◌≢◌, sym, ap, ◌∙◌, true, List, some, get_or, length,
  arith,
}
use driver_arinc.Bytes.{Endian, arinc717_word, arinc717_word_count, arinc717_frame}
use driver_arinc.Kernel.{Kernel}
use driver_arinc.Hi3593.{Sample, Skb}
use driver_arinc.Hi3717a.{Port}
use driver_arinc.Hi3717a.Transmit.{set_at, offset_of, store_words, store, start_xmit}
use driver_arinc.Hi3717a.Transmit.Frames.{
  length-set_at, get_or-set_at, frame_start, frame_end, offset_of_lem, HasMarkers, place, AllFit,
  AllFit-rest, AllFit-first, store_one, length-store_words, store_words_other,
  store_words-HasMarkers,
}

module _ (frame_size : ℕ) (samples : ℕ → Sample) where
  -- No sample behind sample `i` goes to its place.
  unfoldable pub IsLast : (n i : ℕ) → Type 0
  IsLast n i =
      (i' : ℕ)
      → i < i'
      → i' < n
      → place frame_size (samples i').value ≢ place frame_size (samples i).value

  stored :
      (n j i : ℕ) (ws : List ℕ)
      → AllFit frame_size n j samples
      → i < n
      → IsLast (j + n) (j + i)
      → length ws ≡ 4 * frame_size
      → get_or
          (store_words n j (4 * frame_size) samples ws)
          (place frame_size (samples (j + i)).value)
          0
        ≡ arinc717_word (samples (j + i)).value
  unfolding IsLast place
  stored zero j i ws fit small last size = absurd (omega arith)
  stored (suc n) j zero ws fit small last size =
      let v = (samples j).value in
      let ws1 = set_at (place frame_size v) (arinc717_word v) ws in
      let here : j + 0 ≡ j = omega arith in
      let first = AllFit-first frame_size samples n j fit in
      let later : (i : ℕ)
          → i < n
          → place frame_size (samples (j + 1 + i)).value ≢ place frame_size v =
        λ i below.
          rw (sym (ap (λ x. place frame_size (samples x).value) here))
            (last (j + 1 + i) (omega arith) (omega arith)) in
      rw (here, store_one frame_size samples n j ws first)
        (store_words_other frame_size samples n (j + 1) (place frame_size v) ws1
            (AllFit-rest frame_size samples n j fit) later
          ∙ get_or-set_at _ _ ws (omega (arith, (offset_of_lem frame_size v first).1, size)))
  stored (suc n) j (suc i) ws fit small last size =
      let v = (samples j).value in
      let ws1 = set_at (place frame_size v) (arinc717_word v) ws in
      let there : j + suc i ≡ j + 1 + i = omega arith in
      let total : j + suc n ≡ j + 1 + n = omega arith in
      let last1 : IsLast (j + 1 + n) (j + 1 + i) = rw (sym there, sym total) last in
      rw (there, store_one frame_size samples n j ws (AllFit-first frame_size samples n j fit))
        (stored n (j + 1) i ws1 (AllFit-rest frame_size samples n j fit) (omega arith) last1
          (length-set_at _ _ ws ∙ size))

-- The place of the word behind the last word of a frame, which is not the fourth.
offset_of_beyond :
    (frame_size value : ℕ)
    → 0 < frame_size
    → arinc717_word_count value ≡ frame_size + 1
    → arinc717_frame value < 3
    → (offset_of (4 * frame_size) value ≡ some (frame_size * (arinc717_frame value + 1)))
      × (frame_size * (arinc717_frame value + 1) < 4 * frame_size)
unfolding offset_of
offset_of_beyond frame_size value pos beyond frame =
    let f = arinc717_frame value in
    let next : frame_size * (f + 1) ≡ frame_size * f + frame_size = grind arith in
    let end = frame_end (f + 1) frame_size (omega arith) in
    ground (arith, beyond, frame_start f frame_size, next, end)

module _ {k : Kernel} (e : Endian) where
  -- A packet of `n` samples, each of which fits its frame, keeps the sync words of the buffer and
  -- its size; the word of a sample that no later sample replaces is at its place: behind the sync
  -- word of its frame, where its word count says.
  pub start_xmit-stores :
      (frame_size n i a : ℕ) (skb : Skb) (p : Port k)
      → p.is_avionics ≡ true
      → p.tx_buffer ≡ some a
      → p.tx_buffer_size ≡ 4 * frame_size
      → length (p.memory a) ≡ 4 * frame_size
      → HasMarkers frame_size (p.memory a)
      → skb.protocol ≡ 0x001d
      → skb.len ≡ 12 * n
      → n ≤ 256
      → AllFit frame_size n 0 skb.samples
      → i < n
      → IsLast frame_size skb.samples n i
      → let words = (start_xmit k e skb p).memory a in
        HasMarkers frame_size words
        × (length words ≡ 4 * frame_size)
        × (get_or words (place frame_size (skb.samples i).value) 0
            ≡ arinc717_word (skb.samples i).value)
  unfolding start_xmit store
  start_xmit-stores frame_size n i a skb p av buffer size len markers proto bytes few fit small
        last =
      let words = store_words n 0 (4 * frame_size) skb.samples (p.memory a) in
      let count : (skb.len + 11) / 12 ≡ n = omega (arith, bytes) in
      let result : (start_xmit k e skb p).memory a ≡ words =
        ground (arith, buffer, size, proto, bytes, few, av, count) in
      let zero_n : 0 + n ≡ n = omega arith in
      let zero_i : 0 + i ≡ i = omega arith in
      let last0 : IsLast frame_size skb.samples (0 + n) (0 + i) = rw (zero_n, zero_i) last in
      let kept = stored frame_size skb.samples n 0 i (p.memory a) fit small last0 len in
      rw result (
        store_words-HasMarkers frame_size skb.samples n (p.memory a) fit markers,
        length-store_words frame_size skb.samples n 0 (p.memory a) fit ∙ len,
        ground (arith, kept, zero_i),
      )

  -- A word count of one more than the frame has words is not refused: in the first three frames the
  -- word replaces the sync word of the next frame.
  pub start_xmit-overwrites :
      (frame_size a : ℕ) (skb : Skb) (p : Port k)
      → p.is_avionics ≡ true
      → p.tx_buffer ≡ some a
      → p.tx_buffer_size ≡ 4 * frame_size
      → length (p.memory a) ≡ 4 * frame_size
      → 0 < frame_size
      → skb.protocol ≡ 0x001d
      → skb.len ≡ 12
      → arinc717_word_count (skb.samples 0).value ≡ frame_size + 1
      → arinc717_frame (skb.samples 0).value < 3
      → let value = (skb.samples 0).value in
        get_or ((start_xmit k e skb p).memory a) (frame_size * (arinc717_frame value + 1)) 0
        ≡ arinc717_word value
  unfolding start_xmit store store_words
  start_xmit-overwrites frame_size a skb p av buffer size len pos proto bytes beyond frame =
      let value = (skb.samples 0).value in
      let f = arinc717_frame value in
      let target = frame_size * (f + 1) in
      let (index, inside) = offset_of_beyond frame_size value pos beyond frame in
      let words = set_at target (arinc717_word value) (p.memory a) in
      let result : (start_xmit k e skb p).memory a ≡ words =
        ground (arith, buffer, size, proto, bytes, av, index) in
      rw result
        (get_or-set_at target (arinc717_word value) (p.memory a) (omega (arith, inside, len)))
