-- ===== src/Kernel/Register.antt =====
-- What the data sheets of the chips say of a control register: it reads back what was written, and
-- reading does not change it.
use driver_arinc.Prelude.{ℕ, ◌<◌, ◌≡◌, [], ◌∷◌, ok}
use driver_arinc.Kernel.{Kernel}

pub record IsRegister (k : Kernel) (rd wr : ℕ) (value : k.World → ℕ) : Type 0 where
  pub is_byte : (w : k.World) → value w < 256
  pub reads : (w : k.World) → (k.w8r8 rd w).0 ≡ ok (value w)
  pub read_keeps : (w : k.World) → value (k.w8r8 rd w).1 ≡ value w
  pub writes : (b : ℕ) (w : k.World) → (k.write (wr ∷ b ∷ []) w).0 ≡ ok tt
  pub write_sets : (b : ℕ) (w : k.World) → b < 256 → value (k.write (wr ∷ b ∷ []) w).1 ≡ b
