-- ===== src/Net/Messages/Samples.antt =====
-- The loops of driver/net/protocol-raw.c: raw messages as arrays of samples, and back.
use driver_arinc.Prelude.{
  ℕ, zero, suc, ◌+◌, ◌*◌, ◌/◌, ◌≤◌, ◌<◌, ◌≡◌, ◌∙◌, ◌⊎◌, inl, inr, refl, false, arith,
}
use driver_arinc.Net.Messages.{
  Memory, copy, clear_time, expand_sample, expand, compress, received_size, raw_received,
}
use driver_arinc.Net.{Packet}

-- A round changes nothing before its sample and nothing behind it.
expand_sample_outside : (i j : ℕ) (m : Memory) → j < 12 * i → expand_sample i m j ≡ m j
unfolding expand_sample clear_time copy
expand_sample_outside i j m h = ground arith

expand_sample_value :
    (i b : ℕ) (m : Memory) → b < 4 → expand_sample i m (12 * i + 8 + b) ≡ m (4 * i + b)
unfolding expand_sample clear_time copy
expand_sample_value i b m h = ground arith

expand_sample_time : (i b : ℕ) (m : Memory) → b < 8 → expand_sample i m (12 * i + b) ≡ 0
unfolding expand_sample clear_time
expand_sample_time i b m h = ground arith

expand_sample_behind : (i j : ℕ) (m : Memory) → 12 * i + 12 ≤ j → expand_sample i m j ≡ m j
unfolding expand_sample clear_time copy
expand_sample_behind i j m h = ground arith

last_or_before : (i k : ℕ) → i < suc k → (i < k) ⊎ (i ≡ k)
last_or_before i k h = omega arith

expand_outside : (n j : ℕ) (m : Memory) → 12 * n ≤ j → expand n m j ≡ m j
unfolding expand
expand_outside zero j m h = refl
expand_outside (suc i) j m h =
    expand_outside i j (expand_sample i m) (omega arith) ∙ expand_sample_behind i j m (omega arith)

-- The loop of `protocol_raw_sendmsg`, which works in place and from the last sample to the first,
-- spreads a message over the samples: sample `i` has the word `i` of the message as its value.
pub expand_value :
    (n i b : ℕ) (m : Memory) → i < n → b < 4 → expand n m (12 * i + 8 + b) ≡ m (4 * i + b)
unfolding expand
expand_value zero i b m h hb = absurd (omega arith)
expand_value (suc k) i b m h hb = elim (last_or_before i k h) [
  | inl before ↦
      expand_value k i b (expand_sample k m) before hb
      ∙ expand_sample_outside k (4 * i + b) m (omega arith)
  | inr last ↦ rw last (
      expand_outside k (12 * k + 8 + b) (expand_sample k m) (omega arith)
      ∙ expand_sample_value k b m hb)
]

-- Every sample has the time 0.
pub expand_time : (n i b : ℕ) (m : Memory) → i < n → b < 8 → expand n m (12 * i + b) ≡ 0
unfolding expand
expand_time zero i b m h hb = absurd (omega arith)
expand_time (suc k) i b m h hb = elim (last_or_before i k h) [
  | inl before ↦ expand_time k i b (expand_sample k m) before hb
  | inr last ↦ rw last (
      expand_outside k (12 * k + b) (expand_sample k m) (omega arith) ∙ expand_sample_time k b m hb)
]

pub copy_inside :
    (n d : ℕ) (from : Memory) (src : ℕ) (to : Memory) (dst : ℕ)
    → d < n
    → copy n from src to dst (dst + d) ≡ from (src + d)
unfolding copy
copy_inside n d from src to dst h = ground arith

copy_before :
    (n j : ℕ) (from : Memory) (src : ℕ) (to : Memory) (dst : ℕ)
    → j < dst
    → copy n from src to dst j ≡ to j
unfolding copy
copy_before n j from src to dst h = ground arith

-- The loop of `protocol_raw_recvmsg` collects the values: the word `i` of the buffer is the value
-- of the sample `i`.
pub compress_value :
    (n i b : ℕ) (samples buffer : Memory)
    → i < n
    → b < 4
    → compress n samples buffer (4 * i + b) ≡ samples (12 * i + 8 + b)
unfolding compress
compress_value zero i b samples buffer h hb = absurd (omega arith)
compress_value (suc k) i b samples buffer h hb = elim (last_or_before i k h) [
  | inl before ↦
      copy_before 4 (4 * i + b) samples (12 * k + 8) (compress k samples buffer) (4 * k)
        (omega arith)
      ∙ compress_value k i b samples buffer before hb
  | inr last ↦ rw last (copy_inside 4 b samples (12 * k + 8) (compress k samples buffer) (4 * k) hb)
]

-- A raw message that is sent and received whole arrives as it was sent, but for an incomplete word
-- at its end: the receiver's buffer is at least as long as the packet, and the packet is the one
-- that `protocol_raw_sendmsg` makes. What the buffers hold before does not matter.
pub raw_received-expand :
    (size room i b : ℕ) (msg garbage garbage' : Memory) (ifindex : ℕ)
    → size / 4 * 12 ≤ room
    → i < size / 4
    → b < 4
    → let n = size / 4 in
      let p : Packet = record {
        len = n * 12;
        bytes = expand n (copy size msg 0 garbage 0);
        ifindex = ifindex;
      } in
      let r = raw_received room garbage' p in
      (r.size ≡ n * 4) × (r.is_truncated ≡ false) × (r.bytes (4 * i + b) ≡ msg (4 * i + b))
unfolding raw_received received_size
raw_received-expand size room i b msg garbage garbage' ifindex fits hi hb =
    let n = size / 4 in
    let m = copy size msg 0 garbage 0 in
    ground (
      arith,
      compress_value n i b (expand n m) garbage' hi hb,
      expand_value n i b m hi hb,
      copy_inside size (4 * i + b) msg 0 garbage 0 (omega arith),
    )
