-- ===== src/Hi3717a/Control/Laws.antt =====
-- Writes to a register of the HI-3717A (hi3717a_set_cntrl of driver/devices/hi3717a.c).
use driver_arinc.Prelude.{ℕ, ◌+◌, ◌<◌, ◌≡◌, [], ◌∷◌, bit_and, ok, arith, refl, sym, ap, ◌∙◌}
use driver_arinc.Bits.{bit_and-ones}
use driver_arinc.Bits.Algebra.{bit_and_assoc}
use driver_arinc.Kernel.{Kernel}
use driver_arinc.Kernel.FrameChip.{Registers, get_register, set_register, HasRegisters}
use driver_arinc.Hi3593.Control.{complement, masked}
use driver_arinc.Hi3593.Control.Laws.{masked-lt, masked_field, masked_rest}
use driver_arinc.Hi3717a.{
  Port, Register, rd_opcode, wr_opcode, read_byte, write_bytes, locked, mutex_lock, mutex_unlock,
}
use driver_arinc.Hi3717a.Control.{get_cntrl, set_locked, set_cntrl}

-- A mask of all bits writes the byte itself.
pub masked_all : (status value : ℕ) → value < 256 → masked status value 0xff ≡ value
masked_all status value small = omega (
  arith,
  masked_field status value 0xff (omega arith),
  masked-lt status value 0xff (omega arith),
  bit_and-ones 8 value,
  bit_and-ones 8 (masked status value 0xff),
)

-- Bits under the mask are the new value's, and bits outside of it are as they were.
pub masked_inside :
    (status value mask part : ℕ)
    → mask < 256
    → bit_and mask part ≡ part
    → bit_and (masked status value mask) part ≡ bit_and value part
masked_inside status value mask part small inside =
    sym (ap (bit_and (masked status value mask)) inside)
    ∙ sym (bit_and_assoc (masked status value mask) mask part)
    ∙ ap (λ x. bit_and x part) (masked_field status value mask small)
    ∙ bit_and_assoc value mask part
    ∙ ap (bit_and value) inside

pub masked_outside :
    (status value mask part : ℕ)
    → mask < 256
    → bit_and (complement mask) part ≡ part
    → bit_and (masked status value mask) part ≡ bit_and status part
masked_outside status value mask part small outside =
    sym (ap (bit_and (masked status value mask)) outside)
    ∙ sym (bit_and_assoc (masked status value mask) (complement mask) part)
    ∙ ap (λ x. bit_and x part) (masked_rest status value mask small)
    ∙ bit_and_assoc status (complement mask) part
    ∙ ap (bit_and status) outside

get-set_register :
    (reg : Register) (b : ℕ) (v : Registers) → get_register reg (set_register reg b v) ≡ b
get-set_register Register.ctrl0 b v = refl
get-set_register Register.ctrl1 b v = refl
get-set_register Register.fspin b v = refl
get-set_register Register.wrdcnt b v = refl

module _ {k : Kernel} {view : k.World → Registers} (h : HasRegisters k view) where
  pub get_cntrl_lem :
      (reg : Register) (p : Port k)
      → get_cntrl k reg p ≡ (
        ok (get_register reg (view p.world)),
        record p { world = (k.w8r8 (rd_opcode reg) p.world).1 },
      )
  unfolding get_cntrl read_byte
  get_cntrl_lem reg p = ground (arith, h.reads reg p.world)

  -- On a chip whose registers read back what was written, `hi3717a_set_cntrl` of a register with a
  -- mask of 8 bits succeeds: it sets the bits under the mask, keeps the other bits and the other
  -- registers, and changes nothing else of the port; the lock is as it was.
  pub set_cntrl-sets :
      (value mask : ℕ) (reg : Register) (p : Port k)
      → mask < 256
      → (w : k.World) × (set_cntrl k value mask reg p ≡ (ok tt, record p { world = w }))
        × (view w
            ≡ set_register reg (masked (get_register reg (view p.world)) value mask) (view p.world))
  unfolding set_cntrl set_locked write_bytes locked mutex_lock mutex_unlock
  set_cntrl-sets value mask reg p small =
      let old = get_register reg (view p.world) in
      let b = masked old value mask in
      let w1 = (k.w8r8 (rd_opcode reg) p.world).1 in
      let w2 = (k.write (wr_opcode reg ∷ b ∷ []) w1).1 in
      let p0 = record p { lock_depth = p.lock_depth + 1 } in
      let p2 = record p0 { world = w2 } in
      let kept = h.read_keeps reg p.world in
      let set = h.write_sets reg b w1 (masked-lt old value mask small) in
      (
        (k.w8r8 (rd_opcode reg) w2).1,
        ground (
          arith,
          get_cntrl_lem reg p0,
          get_cntrl_lem reg p2,
          h.writes reg b w1,
          set,
          kept,
          get-set_register reg b (view p.world),
          masked_field old value mask small,
        ),
        rw (h.read_keeps reg w2, set, kept) refl,
      )
