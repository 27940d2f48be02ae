-- ===== src/Net/Transfer/Layout.antt =====
-- The samples of a packet as the drivers read and write them (`avionics_data *data`), and as the
-- bytes that driver/net copies.
use driver_arinc.Prelude.{
  ℕ, ◌+◌, ◌-◌, ◌*◌, ◌/◌, ◌%◌, ◌^◌, ◌<◌, ◌≡◌, ◌∙◌, refl, ap, List, length, get_or, ltb,
  if◌then◌else◌, arith,
}
use driver_arinc.Bytes.{Endian}
use driver_arinc.Hi3593.{Sample, Skb}
use driver_arinc.Net.{Packet}
use driver_arinc.Net.Messages.{Memory}

-- Byte `b` of a number that is stored in `width` bytes.
unfoldable pub byte_of : Endian → (width v b : ℕ) → ℕ
byte_of Endian.little width v b = v / 2 ^ (8 * b) % 2 ^ 8
byte_of Endian.big width v b = v / 2 ^ (8 * (width - 1 - b)) % 2 ^ 8

-- The 32-bit number that is stored at an address.
unfoldable pub word_at : Endian → Memory → (address : ℕ) → ℕ
word_at Endian.little m a = m a + m (a + 1) * 2 ^ 8 + m (a + 2) * 2 ^ 16 + m (a + 3) * 2 ^ 24
word_at Endian.big m a = m (a + 3) + m (a + 2) * 2 ^ 8 + m (a + 1) * 2 ^ 16 + m a * 2 ^ 24

abbrev pub no_sample : Sample
no_sample = record { time_msecs = 0; value = 0 }

-- The bytes of an array of samples, 12 for each: a 64-bit time and a 32-bit value.
unfoldable pub sample_bytes : Endian → List Sample → Memory
sample_bytes e samples j =
    let s = get_or samples (j / 12) no_sample in
    let b = j % 12 in if ltb b 8 then byte_of e 8 s.time_msecs b else byte_of e 4 s.value (b - 8)

-- `skb_copy_to_linear_data(skb, data, sizeof(data[0]) * length)`
unfoldable pub packet_of : Endian → List Sample → Packet
packet_of e samples = record {
  len = length samples * 12;
  bytes = sample_bytes e samples;
  ifindex = 0;
}

-- `data = (avionics_data *)skb->data`, in a packet of the driver's protocol. The times are of no
-- account here.
unfoldable pub skb_of : Endian → (time : ℕ → ℕ) → Packet → Skb
skb_of e time p = record {
  protocol = 0x001d;
  len = p.len;
  samples = λ i. record { time_msecs = time i; value = word_at e p.bytes (12 * i + 8) };
}

-- Four equal bytes make an equal word.
pub word_at-eq :
    (e : Endian) (m m' : Memory) (a a' : ℕ)
    → ((b : ℕ) → b < 4 → m (a + b) ≡ m' (a' + b))
    → word_at e m a ≡ word_at e m' a'
unfolding word_at
word_at-eq e m m' a a' h =
    let first : m a ≡ m' a' =
      ap m (let z : a ≡ a + 0 = omega arith in z)
      ∙ h 0 (omega arith)
      ∙ ap m' (let z : a' + 0 ≡ a' = omega arith in z) in
    ground (arith, first, h 1 (omega arith), h 2 (omega arith), h 3 (omega arith))

sample_bytes_at :
    (e : Endian) (samples : List Sample) (i b j : ℕ)
    → b < 4
    → j ≡ 12 * i + 8 + b
    → sample_bytes e samples j ≡ byte_of e 4 (get_or samples i no_sample).value b
unfolding sample_bytes
sample_bytes_at e samples i b j h at =
    let here : j / 12 ≡ i = omega (arith, at) in
    let there : j % 12 ≡ 8 + b = omega (arith, at) in
    let back : 8 + b - 8 ≡ b = omega arith in ground (arith, here, there, back)

-- A value that is stored as a sample is read again.
pub word_at-sample_bytes :
    (e : Endian) (samples : List Sample) (i : ℕ)
    → (get_or samples i no_sample).value < 2 ^ 32
    → word_at e (sample_bytes e samples) (12 * i + 8) ≡ (get_or samples i no_sample).value
unfolding word_at byte_of
word_at-sample_bytes Endian.little samples i h =
    let at = sample_bytes_at Endian.little samples i in
    omega (
      arith,
      at 0 (12 * i + 8) (omega arith) (omega arith),
      at 1 (12 * i + 8 + 1) (omega arith) refl,
      at 2 (12 * i + 8 + 2) (omega arith) refl,
      at 3 (12 * i + 8 + 3) (omega arith) refl,
    )
word_at-sample_bytes Endian.big samples i h =
    let at = sample_bytes_at Endian.big samples i in
    omega (
      arith,
      at 0 (12 * i + 8) (omega arith) (omega arith),
      at 1 (12 * i + 8 + 1) (omega arith) refl,
      at 2 (12 * i + 8 + 2) (omega arith) refl,
      at 3 (12 * i + 8 + 3) (omega arith) refl,
    )
