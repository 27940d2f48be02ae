-- ===== src/Bits.antt =====
-- Laws of the bit operations that the drivers use: `&` with a mask, and the masked update
-- `(old & ~mask) | (new & mask)` of a control register.
pub mod Algebra
mod Digits
use Prim.Native.Nat.{min, max, bit_and-bitwise}
use native.Mathlib.Nat.{
  pow-succ', mul_assoc, div-div-eq-div-mul, one-mul, div-add-mod, mod-lt, mod-eq_of_lt,
  mul-add-mod_self_left,
}
use driver_arinc.Prelude.{
  ℕ, zero, suc, ◌+◌, ◌*◌, ◌/◌, ◌%◌, ◌^◌, ◌≤◌, ◌<◌, ◌≡◌, sym, ap, ◌∙◌, refl, Bool, true, false, ◌==◌,
  ltb, leb, has, if◌then◌else◌, bit_and, bit_or, arith,
}
use Digits.{bit_and_step, bit_or_step}

-- `k` ones.
abbrev pub ones : ℕ → ℕ
ones zero = 0
ones (suc k) = 2 * ones k + 1

zero-bit_and : (b : ℕ) → bit_and 0 b ≡ 0
zero-bit_and b = bit_and-bitwise 0 b

bit_and-zero_below : (n a : ℕ) → a ≤ n → bit_and a 0 ≡ 0
bit_and-zero_below n zero h = zero-bit_and 0
bit_and-zero_below zero (suc a) h = absurd (omega arith)
bit_and-zero_below (suc n) (suc a) h =
    omega (arith, bit_and_step (suc a) 0, bit_and-zero_below n (suc a / 2) (omega arith))

pub bit_and-zero : (a : ℕ) → bit_and a 0 ≡ 0
bit_and-zero a = bit_and-zero_below a a (omega arith)

-- A mask whose lowest bit is clear acts on the upper bits.
pub bit_and-even : (a m : ℕ) → bit_and a (2 * m) ≡ 2 * bit_and (a / 2) m
bit_and-even a m =
    let half : 2 * m / 2 ≡ m = omega arith in rw (bit_and_step a (2 * m), half) (omega arith)

pub bit_and-odd : (a m : ℕ) → bit_and a (2 * m + 1) ≡ 2 * bit_and (a / 2) m + a % 2
bit_and-odd a m =
    let half : (2 * m + 1) / 2 ≡ m = omega arith in
    rw (bit_and_step a (2 * m + 1), half) (omega arith)

pub bit_and-le : (k a m : ℕ) → m ≤ ones k → bit_and a m ≤ m
bit_and-le zero a m h = let e : m ≡ 0 = omega arith in rw e (omega (arith, bit_and-zero a))
bit_and-le (suc k) a m h =
    omega (arith, bit_and_step a m, bit_and-le k (a / 2) (m / 2) (omega arith))

-- The updated register `(s & c) | (v & m)`, one digit down.
merge : (s c v m : ℕ) → ℕ
merge s c v m = bit_or (bit_and s c) (bit_and v m)

pub bit_and_half : (a b : ℕ) → bit_and a b / 2 ≡ bit_and (a / 2) (b / 2)
bit_and_half a b = omega (arith, bit_and_step a b)

merge_step :
    (s c v m : ℕ)
    → merge s c v m
      ≡ merge (s / 2) (c / 2) (v / 2) (m / 2) * 2 + max (min (s % 2) (c % 2)) (min (v % 2) (m % 2))
unfolding merge
merge_step s c v m =
    rw (bit_or_step (bit_and s c) (bit_and v m), bit_and_half s c, bit_and_half v m)
      (omega (arith, bit_and_step s c, bit_and_step v m))

merge-zero : (s c v m : ℕ) → c + m ≡ 0 → merge s c v m ≡ 0
unfolding merge
merge-zero s c v m h =
    let ec : c ≡ 0 = omega arith in
    let em : m ≡ 0 = omega arith in rw (ec, em, bit_and-zero s, bit_and-zero v)

merge_half : (s c v m : ℕ) → merge s c v m / 2 ≡ merge (s / 2) (c / 2) (v / 2) (m / 2)
merge_half s c v m = omega (arith, merge_step s c v m)

merge_field_lem : (k s c v m : ℕ) → c + m ≡ ones k → bit_and (merge s c v m) m ≡ bit_and v m
merge_field_lem zero s c v m h = let em : m ≡ 0 = omega arith in rw (em, bit_and-zero, bit_and-zero)
merge_field_lem (suc k) s c v m h =
    rw (bit_and_step (merge s c v m) m, bit_and_step v m, merge_half s c v m)
      (omega (
        arith,
        merge_step s c v m,
        merge_field_lem k (s / 2) (c / 2) (v / 2) (m / 2) (omega arith),
      ))

merge_rest_lem : (k s c v m : ℕ) → c + m ≡ ones k → bit_and (merge s c v m) c ≡ bit_and s c
merge_rest_lem zero s c v m h = let ec : c ≡ 0 = omega arith in rw (ec, bit_and-zero, bit_and-zero)
merge_rest_lem (suc k) s c v m h =
    rw (bit_and_step (merge s c v m) c, bit_and_step s c, merge_half s c v m)
      (omega
        (arith, merge_step s c v m, merge_rest_lem k (s / 2) (c / 2) (v / 2) (m / 2) (omega arith)))

merge-le_lem : (k s c v m : ℕ) → c + m ≡ ones k → merge s c v m ≤ ones k
merge-le_lem zero s c v m h = omega (arith, merge-zero s c v m h)
merge-le_lem (suc k) s c v m h =
    omega (arith, merge_step s c v m, merge-le_lem k (s / 2) (c / 2) (v / 2) (m / 2) (omega arith))

-- The field under the mask has the new value. `c` is `~m` in `k` bits.
pub merge_field :
    (k s c v m : ℕ) → c + m ≡ ones k → bit_and (bit_or (bit_and s c) (bit_and v m)) m ≡ bit_and v m
unfolding merge
merge_field k s c v m h = merge_field_lem k s c v m h

-- The bits outside the mask are as they were.
pub merge_rest :
    (k s c v m : ℕ) → c + m ≡ ones k → bit_and (bit_or (bit_and s c) (bit_and v m)) c ≡ bit_and s c
unfolding merge
merge_rest k s c v m h = merge_rest_lem k s c v m h

pub merge-le : (k s c v m : ℕ) → c + m ≡ ones k → bit_or (bit_and s c) (bit_and v m) ≤ ones k
unfolding merge
merge-le k s c v m h = merge-le_lem k s c v m h

mod_double : (p a : ℕ) → 0 < p → 2 * (a / 2 % p) + a % 2 ≡ a % (2 * p)
mod_double p a pos =
    let r = a / 2 % p in
    let e : a ≡ 2 * p * (a / 2 / p) + (2 * r + a % 2) =
      omega (arith, ap (λ (t : ℕ). 2 * t) (div-add-mod (a / 2) p)) in
    sym (
      ap (λ x. x % (2 * p)) e
      ∙ mul-add-mod_self_left (2 * p) (a / 2 / p) (2 * r + a % 2)
      ∙ mod-eq_of_lt (omega (arith, mod-lt (a / 2) pos)))

pub pow-pos : (k : ℕ) → 0 < 2 ^ k
pow-pos zero = omega arith
pow-pos (suc k) = omega (arith, pow-pos k, pow-succ' 2 k)

-- `a & ((1 << k) - 1)`, and a mask that is shifted up by `s`.
pub bit_and-ones : (k a : ℕ) → bit_and a (ones k) ≡ a % 2 ^ k
bit_and-ones zero a = omega (arith, bit_and-zero a)
bit_and-ones (suc k) a =
    rw (bit_and-odd a (ones k), bit_and-ones k (a / 2), pow-succ' 2 k)
      (mod_double (2 ^ k) a (pow-pos k))

pub bit_and_shifted : (s a m : ℕ) → bit_and a (2 ^ s * m) ≡ 2 ^ s * bit_and (a / 2 ^ s) m
bit_and_shifted zero a m = let e : a / 2 ^ 0 ≡ a = omega arith in rw (e, one-mul m) (omega arith)
bit_and_shifted (suc s) a m = rw (
  pow-succ' 2 s,
  mul_assoc 2 (2 ^ s) m,
  bit_and-even a (2 ^ s * m),
  bit_and_shifted s (a / 2) m,
  div-div-eq-div-mul a 2 (2 ^ s),
  mul_assoc 2 (2 ^ s),
)

-- A law of a byte, by evaluation at each of its values.
every : (p : ℕ → Bool) (k : ℕ) → Bool
every p zero = true
every p (suc k) = if p k then every p k else false

every-tells : (p : ℕ → Bool) (k x : ℕ) → every p k ≡ true → x < k → p x ≡ true
unfolding every
every-tells p zero x h small = absurd (omega arith)
every-tells p (suc k) x h small = ground (arith, every-tells p k x)

split_law : ℕ → Bool
split_law x = bit_or (bit_and x 0xfe) (bit_and x 0x01) == x

split_law_table : every split_law 256 ≡ true
unfolding every split_law
split_law_table = refl

-- The upper seven bits of a byte with its lowest bit.
pub bit_or-split : (x : ℕ) → x < 256 → bit_or (bit_and x 0xfe) (bit_and x 0x01) ≡ x
unfolding split_law
bit_or-split x h = ground (arith, every-tells split_law 256 x split_law_table h)

mask_law : ℕ → Bool
mask_law x = bit_and (bit_and x 0xfe) 0x7c == bit_and x 0x7c

mask_law_table : every mask_law 256 ≡ true
unfolding every mask_law
mask_law_table = refl

pub bit_and-bit_and : (x : ℕ) → x < 256 → bit_and (bit_and x 0xfe) 0x7c ≡ bit_and x 0x7c
unfolding mask_law
bit_and-bit_and x h = ground (arith, every-tells mask_law 256 x mask_law_table h)

top_law : ℕ → Bool
top_law x = if bit_and 0x80 x == 0 then ltb x 128 else leb 128 x

top_law_table : every top_law 256 ≡ true
unfolding every top_law
top_law_table = refl

top_law_sound : (x : ℕ) → x < 256 → top_law x ≡ true
top_law_sound x h = every-tells top_law 256 x top_law_table h

-- The top bit of a byte.
pub top_bit : (x : ℕ) → x < 256 → has 0x80 x ≡ leb 128 x
unfolding top_law
top_bit x h = ground (arith, top_law_sound x h)
