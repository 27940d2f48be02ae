-- ===== src/Prelude/Errors.antt =====
-- The error codes that the driver returns, and the result of a C function that returns 0 (or a
-- count, or a byte) on success and a negative error code on failure.
use Prim.Native.Nat.{ℕ}
use mathlib.Core.Path.{◌≡◌, refl}
use mathlib.Core.Logic.{◌⊎◌, inl, inr}

pub data Errno : Type 0 where
  eperm einval enodev enomem enxio enetdown emsgsize eopnotsupp : Errno
  eafnosupport eprotonosupport enoioctlcmd ebusy : Errno
  -- A code that a function of the kernel returned.
  kernel_error : ℕ → Errno

pub data Result (A : Type 0) : Type 0 where
  ok : A → Result A
  err : Errno → Result A

-- The value, where there is one.
abbrev pub value_or : {A : Type 0} → A → Result A → A
value_or d (ok a) = a
value_or d (err e) = d

pub Result-cases :
    {A : Type 0} (r : Result A) → ((a : A) × (r ≡ ok a)) ⊎ ((e : Errno) × (r ≡ err e))
Result-cases (ok a) = inl (a, refl)
Result-cases (err e) = inr (e, refl)
