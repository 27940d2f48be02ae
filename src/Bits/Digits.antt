-- ===== src/Bits/Digits.antt =====
-- The equation of the lowest binary digit for the native bit operations.
use Prim.Native.Nat.{min, max, digits, bit_and-bitwise, bit_or-bitwise}
use driver_arinc.Prelude.{ℕ, zero, suc, ◌+◌, ◌*◌, ◌/◌, ◌%◌, ◌≤◌, ◌≡◌, refl, bit_and, bit_or, arith}

-- A count of rounds that covers the first number gives one result, whatever the count.
module _ (last : ℕ → ℕ) (digit : ℕ → ℕ → ℕ) where
  rounds_enough : (n m x y : ℕ) → x ≤ n → x ≤ m → digits last digit n x y ≡ digits last digit m x y
  rounds_enough zero zero zero y g h = refl
  rounds_enough zero (suc m) zero y g h = refl
  rounds_enough (suc n) zero zero y g h = refl
  rounds_enough (suc n) (suc m) zero y g h = refl
  rounds_enough zero m (suc x) y g h = absurd (omega arith)
  rounds_enough (suc n) zero (suc x) y g h = absurd (omega arith)
  rounds_enough (suc n) (suc m) (suc x) y g h =
      rw (rounds_enough n m (suc x / 2) (y / 2) (omega arith) (omega arith))

pub bit_and_step : (x y : ℕ) → bit_and x y ≡ bit_and (x / 2) (y / 2) * 2 + min (x % 2) (y % 2)
bit_and_step zero y = omega (arith, bit_and-bitwise 0 y, bit_and-bitwise 0 (y / 2))
bit_and_step (suc x) y = omega (
  arith,
  bit_and-bitwise (suc x) y,
  bit_and-bitwise (suc x / 2) (y / 2),
  rounds_enough (λ b. 0) min x (suc x / 2) (suc x / 2) (y / 2) (omega arith) (omega arith),
)

pub bit_or_step : (x y : ℕ) → bit_or x y ≡ bit_or (x / 2) (y / 2) * 2 + max (x % 2) (y % 2)
bit_or_step zero y = omega (arith, bit_or-bitwise 0 y, bit_or-bitwise 0 (y / 2))
bit_or_step (suc x) y = omega (
  arith,
  bit_or-bitwise (suc x) y,
  bit_or-bitwise (suc x / 2) (y / 2),
  rounds_enough (λ b. b) max x (suc x / 2) (suc x / 2) (y / 2) (omega arith) (omega arith),
)
