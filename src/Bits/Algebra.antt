-- ===== src/Bits/Algebra.antt =====
-- `&` is associative and distributes over `|`: how the drivers' masks combine.
use Prim.Native.Nat.{bit_and-bitwise}
use driver_arinc.Prelude.{ℕ, zero, suc, ◌/◌, ◌≤◌, ◌≡◌, bit_and, bit_or, arith}
use driver_arinc.Bits.{bit_and_half}
use driver_arinc.Bits.Digits.{bit_and_step, bit_or_step}

zero-bit_and' : (b : ℕ) → bit_and 0 b ≡ 0
zero-bit_and' b = bit_and-bitwise 0 b

assoc_below : (n a b c : ℕ) → a ≤ n → bit_and (bit_and a b) c ≡ bit_and a (bit_and b c)
assoc_below n zero b c h = rw (zero-bit_and' b, zero-bit_and' c, zero-bit_and' (bit_and b c))
assoc_below zero (suc a) b c h = absurd (omega arith)
assoc_below (suc n) (suc a) b c h =
    rw
      (
        bit_and_step (bit_and (suc a) b) c,
        bit_and_step (suc a) (bit_and b c),
        bit_and_half (suc a) b,
        bit_and_half b c,
      )
      (omega (
        arith,
        bit_and_step (suc a) b,
        bit_and_step b c,
        assoc_below n (suc a / 2) (b / 2) (c / 2) (omega arith),
      ))

pub bit_and_assoc : (a b c : ℕ) → bit_and (bit_and a b) c ≡ bit_and a (bit_and b c)
bit_and_assoc a b c = assoc_below a a b c (omega arith)

bit_or_half : (a b : ℕ) → bit_or a b / 2 ≡ bit_or (a / 2) (b / 2)
bit_or_half a b = omega (arith, bit_or_step a b)

distrib_below : (n a b c : ℕ) → a ≤ n → bit_or (bit_and a b) (bit_and a c) ≡ bit_and a (bit_or b c)
distrib_below n zero b c h = rw (zero-bit_and' b, zero-bit_and' c, zero-bit_and' (bit_or b c))
distrib_below zero (suc a) b c h = absurd (omega arith)
distrib_below (suc n) (suc a) b c h =
    rw
      (
        bit_or_step (bit_and (suc a) b) (bit_and (suc a) c),
        bit_and_step (suc a) (bit_or b c),
        bit_and_half (suc a) b,
        bit_and_half (suc a) c,
        bit_or_half b c,
      )
      (omega (
        arith,
        bit_and_step (suc a) b,
        bit_and_step (suc a) c,
        bit_or_step b c,
        distrib_below n (suc a / 2) (b / 2) (c / 2) (omega arith),
      ))

-- The bits under one mask with the bits under another.
pub bit_or-bit_and : (a b c : ℕ) → bit_or (bit_and a b) (bit_and a c) ≡ bit_and a (bit_or b c)
bit_or-bit_and a b c = distrib_below a a b c (omega arith)
