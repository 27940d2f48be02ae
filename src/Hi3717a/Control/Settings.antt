-- ===== src/Hi3717a/Control/Settings.antt =====
-- The ARINC-717 settings (hi3717a_get_arinc717rx, _set_arinc717rx, _get_arinc717tx and
-- _set_arinc717tx of driver/devices/hi3717a.c). A receiver keeps its flags in bit 0 of CTRL0 and bits
-- 1 and 2 of CTRL1, the transmitter in bits 1 and 2 of CTRL0 and bit 0 of CTRL1.
use driver_arinc.Prelude.{ℕ, ◌<◌, ◌≡◌, ◌>>◌, refl, true, bit_and, bit_or, ok, Option, some, arith}
use driver_arinc.Bits.Algebra.{bit_or-bit_and}
use driver_arinc.Kernel.{Kernel}
use driver_arinc.Kernel.FrameChip.{Registers, HasRegisters}
use driver_arinc.Hi3593.Control.{masked}
use driver_arinc.Hi3717a.{Port, Register, rd_opcode, require_priv}
use driver_arinc.Hi3717a.Control.{
  set_cntrl, get_flags, low_byte, get_arinc717rx, set_arinc717rx, get_arinc717tx, set_arinc717tx,
}
use driver_arinc.Hi3717a.Control.Laws.{get_cntrl_lem, set_cntrl-sets, masked_inside, masked_outside}

-- The flags that a call reports, where it returns.
abbrev pub flags_of : {A : Type 0} → Option (ℕ × A) → Option ℕ
flags_of Option.none = Option.none
flags_of (some (flags, p)) = some flags

module _ {k : Kernel} {view : k.World → Registers} (h : HasRegisters k view) where
  get_flags_lem :
      (mask0 mask1 : ℕ) (p : Port k)
      → p.is_avionics ≡ true
      → flags_of (get_flags k mask0 mask1 p)
        ≡ some (bit_or (bit_and (view p.world).ctrl0 mask0) (bit_and (view p.world).ctrl1 mask1))
  unfolding get_flags low_byte
  get_flags_lem mask0 mask1 p av =
      let p1 = record p { world = (k.w8r8 (rd_opcode Register.ctrl0) p.world).1 } in
      ground (
        arith,
        get_cntrl_lem h Register.ctrl0 p,
        get_cntrl_lem h Register.ctrl1 p1,
        h.read_keeps Register.ctrl0 p.world,
      )

  -- What `hi3717a_set_cntrl` of CTRL0 and then of CTRL1 leaves in the registers.
  set_both :
      (flags mask0 mask1 : ℕ) (p : Port k)
      → mask0 < 256
      → mask1 < 256
      → (w : k.World) × ((set_cntrl k flags mask0 Register.ctrl0
              >> set_cntrl k flags mask1 Register.ctrl1)
            p
          ≡ (ok tt, record p { world = w }))
        × (view w ≡ record (view p.world) {
          ctrl0 = masked (view p.world).ctrl0 flags mask0;
          ctrl1 = masked (view p.world).ctrl1 flags mask1;
        })
  set_both flags mask0 mask1 p small0 small1 =
      let (w0, ran0, set0) = set_cntrl-sets h flags mask0 Register.ctrl0 p small0 in
      let (w1, ran1, set1) =
        set_cntrl-sets h flags mask1 Register.ctrl1 (record p { world = w0 }) small1 in
      (w1, ground (arith, ran0, ran1), rw (set1, set0) refl)

  -- The flags of a receiver that are set are the flags that are then reported, those of the bits 0,
  -- 1 and 2; the transmitter's flags are as they were, and so are the registers of the frame
  -- position. The registers of the chip read back what was written.
  pub get_arinc717rx-set_arinc717rx :
      (flags : ℕ) (p : Port k)
      → p.is_avionics ≡ true
      → let (r, p') = set_arinc717rx k flags p in
        (r ≡ ok tt)
        × (flags_of (get_arinc717rx k p') ≡ some (bit_and flags 0x07))
        × (flags_of (get_arinc717tx k p') ≡ flags_of (get_arinc717tx k p))
        × ((view p'.world).fspin ≡ (view p.world).fspin)
        × ((view p'.world).wrdcnt ≡ (view p.world).wrdcnt)
  unfolding set_arinc717rx get_arinc717rx get_arinc717tx require_priv
  get_arinc717rx-set_arinc717rx flags p av =
      let (w, ran, set) = set_both flags 0x01 0x06 p (omega arith) (omega arith) in
      let p' = record p { world = w } in
      let v = view p.world in
      ground (
        arith,
        ran,
        set,
        get_flags_lem 0x01 0x06 p' av,
        get_flags_lem 0x06 0x01 p' av,
        get_flags_lem 0x06 0x01 p av,
        masked_inside v.ctrl0 flags 0x01 0x01 (omega arith) refl,
        masked_inside v.ctrl1 flags 0x06 0x06 (omega arith) refl,
        masked_outside v.ctrl0 flags 0x01 0x06 (omega arith) refl,
        masked_outside v.ctrl1 flags 0x06 0x01 (omega arith) refl,
        bit_or-bit_and flags 0x01 0x06,
      )

  -- The flags of a transmitter that are set are the flags that are then reported, those of the bits
  -- 0, 1 and 2; the receiver's flags are as they were, and so are the registers of the frame
  -- position. The registers of the chip read back what was written.
  pub get_arinc717tx-set_arinc717tx :
      (flags : ℕ) (p : Port k)
      → p.is_avionics ≡ true
      → let (r, p') = set_arinc717tx k flags p in
        (r ≡ ok tt)
        × (flags_of (get_arinc717tx k p') ≡ some (bit_and flags 0x07))
        × (flags_of (get_arinc717rx k p') ≡ flags_of (get_arinc717rx k p))
        × ((view p'.world).fspin ≡ (view p.world).fspin)
        × ((view p'.world).wrdcnt ≡ (view p.world).wrdcnt)
  unfolding set_arinc717tx get_arinc717rx get_arinc717tx require_priv
  get_arinc717tx-set_arinc717tx flags p av =
      let (w, ran, set) = set_both flags 0x06 0x01 p (omega arith) (omega arith) in
      let p' = record p { world = w } in
      let v = view p.world in
      ground (
        arith,
        ran,
        set,
        get_flags_lem 0x06 0x01 p' av,
        get_flags_lem 0x01 0x06 p' av,
        get_flags_lem 0x01 0x06 p av,
        masked_inside v.ctrl0 flags 0x06 0x06 (omega arith) refl,
        masked_inside v.ctrl1 flags 0x01 0x01 (omega arith) refl,
        masked_outside v.ctrl0 flags 0x06 0x01 (omega arith) refl,
        masked_outside v.ctrl1 flags 0x01 0x06 (omega arith) refl,
        bit_or-bit_and flags 0x06 0x01,
      )
