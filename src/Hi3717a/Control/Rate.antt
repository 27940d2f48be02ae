-- ===== src/Hi3717a/Control/Rate.antt =====
-- The bit rate of the HI-3717A (hi3717a_set_rate and hi3717a_get_rate of driver/devices/hi3717a.c):
-- a change resets the chip, and the registers are written again.
use driver_arinc.Prelude.{
  ℕ, ◌<◌, ◌≡◌, ◌⊎◌, inl, inr, refl, true, false, bit_and, ok, err, einval, arith, ◌==◌, Bool-cases,
  ◌>>◌,
}
use driver_arinc.Bits.Algebra.{bit_and_assoc}
use driver_arinc.Kernel.{Kernel}
use driver_arinc.Kernel.FrameChip.{Registers, get_register, set_register, HasRegisters}
use driver_arinc.Hi3593.Control.{masked}
use driver_arinc.Hi3717a.{Port, Register, rd_opcode, require_priv, locked, mutex_lock, mutex_unlock}
use driver_arinc.Hi3717a.Control.{
  set_cntrl, rate_value, rate_of, period_of, pulse_reset, reset_to, set_rate, get_rate, read_rate,
}
use driver_arinc.Hi3717a.Control.Laws.{
  get_cntrl_lem, set_cntrl-sets, masked_all, masked_inside, masked_outside,
}

-- The rate depends only on the bits of the field.
rate_of_field : (stale x : ℕ) → rate_of stale x ≡ rate_of stale (bit_and x 0x78)
unfolding rate_of
rate_of_field stale x = rw (bit_and_assoc x 0x78 0x08, bit_and_assoc x 0x78 0x70) refl

-- Each accepted rate has bits of the field, which show that rate.
rate_of-rate_value :
    (stale rate_hz value : ℕ)
    → rate_value rate_hz ≡ ok value
    → (rate_of stale value ≡ rate_hz) × (bit_and value 0x78 ≡ value)
unfolding rate_of rate_value
rate_of-rate_value stale rate_hz value h = ground arith

module _ {k : Kernel} {view : k.World → Registers} (h : HasRegisters k view) where
  -- A byte that is written to a whole register is its value.
  set_whole :
      (value : ℕ) (reg : Register) (p : Port k)
      → value < 256
      → (w : k.World) × (set_cntrl k value 0xff reg p ≡ (ok tt, record p { world = w }))
        × (view w ≡ set_register reg value (view p.world))
  set_whole value reg p small =
      let (w, ran, set) = set_cntrl-sets h value 0xff reg p (omega arith) in
      let whole = masked_all (get_register reg (view p.world)) value small in
      (w, ran, rw (set, whole) refl)

  -- The four writes after a reset, whatever the reset left.
  restore :
      (old : Registers) (value : ℕ) (p : Port k)
      → old.wrdcnt < 256
      → old.fspin < 256
      → old.ctrl1 < 256
      → (x : ℕ) × (w : k.World) × ((do
        set_cntrl k old.wrdcnt 0xff Register.wrdcnt
        set_cntrl k old.fspin 0xff Register.fspin
        set_cntrl k old.ctrl1 0xff Register.ctrl1
        set_cntrl k value 0x7f Register.ctrl0)
            p
          ≡ (ok tt, record p { world = w }))
        × (view w ≡ record old { ctrl0 = masked x value 0x7f })
  restore old value p s1 s2 s3 =
      let (w1, ran1, set1) = set_whole old.wrdcnt Register.wrdcnt p s1 in
      let (w2, ran2, set2) = set_whole old.fspin Register.fspin (record p { world = w1 }) s2 in
      let (w3, ran3, set3) = set_whole old.ctrl1 Register.ctrl1 (record p { world = w2 }) s3 in
      let (w4, ran4, set4) =
        set_cntrl-sets h value 0x7f Register.ctrl0 (record p { world = w3 }) (omega arith) in
      (
        (view w3).ctrl0,
        w4,
        ground (arith, ran1, ran2, ran3, ran4),
        rw (set4, set3, set2, set1) refl,
      )

  reset_to_lem :
      (rate_hz value old0 : ℕ) (p : Port k)
      → (x : ℕ) × (w : k.World) × (reset_to k rate_hz value old0 p
          ≡ (ok tt, record p { world = w; period_usec = period_of rate_hz }))
        × (view w ≡ record (view p.world) { ctrl0 = masked x (masked old0 value 0x78) 0x7f })
  unfolding reset_to locked mutex_lock mutex_unlock
  reset_to_lem rate_hz value old0 p =
      let v = view p.world in
      let p1 = record p { world = (k.w8r8 (rd_opcode Register.ctrl1) p.world).1 } in
      let p2 = record p { world = (k.w8r8 (rd_opcode Register.fspin) p1.world).1 } in
      let p3 = record p { world = (k.w8r8 (rd_opcode Register.wrdcnt) p2.world).1 } in
      let p4 = pulse_reset k p3 in
      let (x, w, ran, set) =
        restore v (masked old0 value 0x78) p4 (h.is_byte Register.wrdcnt p.world)
          (h.is_byte Register.fspin p.world) (h.is_byte Register.ctrl1 p.world) in
      (
        x,
        w,
        ground (
          arith,
          get_cntrl_lem h Register.ctrl1 p,
          get_cntrl_lem h Register.fspin p1,
          get_cntrl_lem h Register.wrdcnt p2,
          h.read_keeps Register.ctrl1 p.world,
          h.read_keeps Register.fspin p1.world,
          ran,
        ),
        set,
      )

  get_rate_lem :
      (stale : ℕ) (p : Port k)
      → p.is_avionics ≡ true
      → (get_rate k stale p).0 ≡ rate_of stale (bit_and (view p.world).ctrl0 0x78)
  unfolding get_rate read_rate
  get_rate_lem stale p av =
      ground (arith, get_cntrl_lem h Register.ctrl0 p, rate_of_field stale (view p.world).ctrl0)

  -- What a successful `hi3717a_set_rate` leaves in the registers and in the port.
  set_rate_lem :
      (rate_hz value : ℕ) (p : Port k)
      → p.is_avionics ≡ true
      → p.tx_enabled ≡ false
      → rate_value rate_hz ≡ ok value
      → (w : k.World) × (x : ℕ) × (period : ℕ) × (set_rate k rate_hz p
          ≡ (ok tt, record p { world = w; period_usec = period }))
        × (((bit_and (view p.world).ctrl0 0x78 ≡ value)
              × (view w ≡ view p.world)
              × (period ≡ p.period_usec))
            ⊎ ((view w ≡ record (view p.world) {
              ctrl0 = masked x (masked (view p.world).ctrl0 value 0x78) 0x7f;
            })
                × (period ≡ period_of rate_hz)))
  unfolding set_rate require_priv
  set_rate_lem rate_hz value p av off accepted =
      let old0 = (view p.world).ctrl0 in
      let p1 = record p { world = (k.w8r8 (rd_opcode Register.ctrl0) p.world).1 } in
      let read = get_cntrl_lem h Register.ctrl0 p in
      let kept = h.read_keeps Register.ctrl0 p.world in
      elim (Bool-cases (bit_and old0 0x78 == value)) [
        | inl same ↦
            (p1.world, 0, p.period_usec, ground (arith, read), inl (ground arith, kept, refl))
        | inr other ↦
            let (x, w, ran, set) = reset_to_lem rate_hz value old0 p1 in
            (w, x, period_of rate_hz, ground (arith, read, ran), inr (rw (set, kept) refl, refl))
      ]

  -- With the transmitter down, an accepted rate is the rate that is then reported, whatever the
  -- reset does to the registers: the other fields of CTRL0 below bit 7, CTRL1 and the registers of
  -- the frame position are as they were, and a period that agreed with the old rate agrees with the
  -- new one. The registers of the chip read back what was written.
  pub get_rate-set_rate717 :
      (rate_hz value stale : ℕ) (p : Port k)
      → p.is_avionics ≡ true
      → p.tx_enabled ≡ false
      → rate_value rate_hz ≡ ok value
      → p.period_usec ≡ period_of (get_rate k stale p).0
      → let (r, p') = set_rate k rate_hz p in
        (r ≡ ok tt)
        × ((get_rate k stale p').0 ≡ rate_hz)
        × (p'.period_usec ≡ period_of rate_hz)
        × (bit_and (view p'.world).ctrl0 0x07 ≡ bit_and (view p.world).ctrl0 0x07)
        × ((view p'.world).ctrl1 ≡ (view p.world).ctrl1)
        × ((view p'.world).fspin ≡ (view p.world).fspin)
        × ((view p'.world).wrdcnt ≡ (view p.world).wrdcnt)
        × (p'.lock_depth ≡ p.lock_depth)
  get_rate-set_rate717 rate_hz value stale p av off accepted agrees =
      let (w, x, period, ran, left) = set_rate_lem rate_hz value p av off accepted in
      let old0 = (view p.world).ctrl0 in
      let p' = record p { world = w; period_usec = period } in
      let after = get_rate_lem stale p' av in
      let before = get_rate_lem stale p av in
      let (shows, within) = rate_of-rate_value stale rate_hz value accepted in
      elim left [
        | inl (same, kept, old) ↦ ground (arith, ran, after, before, shows, same, kept)
        | inr (set, new) ↦
            let y = masked old0 value 0x78 in
            ground (
              arith,
              ran,
              after,
              shows,
              within,
              set,
              masked_inside x y 0x7f 0x78 (omega arith) refl,
              masked_inside old0 value 0x78 0x78 (omega arith) refl,
              masked_inside x y 0x7f 0x07 (omega arith) refl,
              masked_outside old0 value 0x78 0x07 (omega arith) refl,
            )
      ]

-- A rate change is refused with EINVAL, and nothing changes, while the transmitter is up.
pub set_rate_while_up :
    (k : Kernel) (rate_hz : ℕ) (p : Port k)
    → p.tx_enabled ≡ true
    → set_rate k rate_hz p ≡ (err einval, p)
unfolding set_rate require_priv
set_rate_while_up k rate_hz p up = ground arith
