-- ===== src/Bytes/Fields.antt =====
-- The bit fields of ARINC-429 and ARINC-717 words (the macros of driver/include/avionics.h), as
-- numbers.
use native.Mathlib.Nat.{mul_comm}
use driver_arinc.Prelude.{ℕ, ◌+◌, ◌*◌, ◌/◌, ◌%◌, ◌^◌, ◌<◌, ◌≡◌, bit_and, arith}
use driver_arinc.Bits.{ones, bit_and-ones, bit_and_shifted}
use driver_arinc.Bytes.{
  arinc429_label, arinc429_sdi, arinc429_data, arinc429_ssm, arinc429_parity, arinc717_word,
  arinc717_word_count, arinc717_frame,
}

-- `(a & (((1 << w) - 1) << s)) >> s`, once the mask and the shift are numerals.
pub field : (s w a : ℕ) → bit_and a (2 ^ s * ones w) ≡ a / 2 ^ s % 2 ^ w * 2 ^ s
field s w a = rw (bit_and_shifted s a (ones w), bit_and-ones w (a / 2 ^ s)) (mul_comm _ _)

-- The five fields of an ARINC-429 word, put back at their places, make up the whole word: every bit
-- of a 32-bit word is in exactly one of them.
pub arinc429_fields :
    (v : ℕ)
    → v < 2 ^ 32
    → arinc429_label v
        + arinc429_sdi v * 2 ^ 8
        + arinc429_data v * 2 ^ 10
        + arinc429_ssm v * 2 ^ 29
        + arinc429_parity v * 2 ^ 31
      ≡ v
unfolding arinc429_label arinc429_sdi arinc429_data arinc429_ssm arinc429_parity
arinc429_fields v h =
    omega (arith, bit_and-ones 8 v, field 8 2 v, field 10 19 v, field 29 2 v, field 31 1 v)

-- The three fields of an ARINC-717 word that was put together from a 12-bit word, a 13-bit count and
-- a 2-bit frame are these.
pub arinc717_fields :
    (word count frame : ℕ)
    → word < 2 ^ 12
    → count < 2 ^ 13
    → frame < 2 ^ 2
    → let v = word * 2 ^ 16 + count * 2 ^ 3 + frame in
      (arinc717_word v ≡ word) × (arinc717_word_count v ≡ count) × (arinc717_frame v ≡ frame)
unfolding arinc717_word arinc717_word_count arinc717_frame
arinc717_fields word count frame hw hc hf =
    let v = word * 2 ^ 16 + count * 2 ^ 3 + frame in
    omega (arith, field 16 12 v, field 3 13 v, bit_and-ones 2 v)
