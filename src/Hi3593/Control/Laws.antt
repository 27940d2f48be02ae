-- ===== src/Hi3593/Control/Laws.antt =====
-- Writes to a control register of the HI-3593 (hi3593_set_cntrl and hi3593_set_rate of
-- driver/devices/hi3593.c).
use driver_arinc.Prelude.{
  ℕ, ◌<◌, ℤ, ◌≡◌, ◌≢◌, value_or, einval, ◌⊎◌, inl, inr, true, [], ◌∷◌, bit_and, ok, err, arith, ap,
}
use driver_arinc.Bits.{merge_field, merge_rest, merge-le}
use driver_arinc.Kernel.{Kernel}
use driver_arinc.Kernel.Register.{IsRegister}
use driver_arinc.Hi3593.{Port, read_byte, write_bytes}
use driver_arinc.Hi3593.Control.{
  complement, masked, get_cntrl_opcode, set_cntrl_opcode, get_cntrl, set_cntrl, set_rate, get_rate,
  set_delays,
}

-- The port is one of the chip's three, and `reg` is its control register.
pub record HasControl (k : Kernel) (rd wr : ℕ) (reg : k.World → ℕ) (tx_index rx_index : ℤ)
    : Type 0 where
  pub read_opcode : get_cntrl_opcode tx_index rx_index ≡ ok rd
  pub write_opcode : set_cntrl_opcode tx_index rx_index ≡ ok wr
  pub register : IsRegister k rd wr reg

pub masked-lt : (status value mask : ℕ) → mask < 256 → masked status value mask < 256
unfolding masked
masked-lt status value mask h =
    omega (arith, merge-le 8 status (complement mask) value mask (omega arith))

pub masked_field :
    (status value mask : ℕ)
    → mask < 256
    → bit_and (masked status value mask) mask ≡ bit_and value mask
unfolding masked
masked_field status value mask h = merge_field 8 status (complement mask) value mask (omega arith)

pub masked_rest :
    (status value mask : ℕ)
    → mask < 256
    → bit_and (masked status value mask) (complement mask) ≡ bit_and status (complement mask)
unfolding masked
masked_rest status value mask h = merge_rest 8 status (complement mask) value mask (omega arith)

module _ {k : Kernel} {rd wr : ℕ} {reg : k.World → ℕ} where
  pub get_cntrl_lem :
      (p : Port k)
      → HasControl k rd wr reg p.tx_index p.rx_index
      → get_cntrl k p ≡ (ok (reg p.world), record p { world = (k.w8r8 rd p.world).1 })
  unfolding get_cntrl read_byte
  get_cntrl_lem p h = ground (arith, h.read_opcode, h.register.reads p.world)

  get_cntrl_after :
      (hz rate_hz : ℕ) (w : k.World) (p : Port k)
      → HasControl k rd wr reg p.tx_index p.rx_index
      → (get_cntrl k (set_delays k hz rate_hz (record p { world = w }))).0 ≡ ok (reg w)
  unfolding set_delays
  get_cntrl_after hz rate_hz w p h =
      let q = set_delays k hz rate_hz (record p { world = w }) in ap (λ r. r.0) (get_cntrl_lem q h)

  -- On a port of the chip whose control register reads back what was written, `hi3593_set_cntrl`
  -- with a mask of 8 bits succeeds, sets the bits under the mask, keeps the other bits, and changes
  -- nothing else of the port.
  pub set_cntrl-sets :
      (value mask : ℕ) (p : Port k)
      → HasControl k rd wr reg p.tx_index p.rx_index
      → mask < 256
      → (w : k.World) × (set_cntrl k value mask p ≡ (ok tt, record p { world = w }))
        × (bit_and (reg w) mask ≡ bit_and value mask)
        × (bit_and (reg w) (complement mask) ≡ bit_and (reg p.world) (complement mask))
  unfolding set_cntrl write_bytes
  set_cntrl-sets value mask p h small =
      let b = masked (reg p.world) value mask in
      let w1 = (k.w8r8 rd p.world).1 in
      let w2 = (k.write (wr ∷ b ∷ []) w1).1 in
      let p2 = record p { world = w2 } in
      let set = h.register.write_sets b w1 (masked-lt _ value mask small) in
      let kept = h.register.read_keeps w2 in
      (
        (k.w8r8 rd w2).1,
        ground (
          arith,
          get_cntrl_lem p h,
          get_cntrl_lem p2 h,
          h.write_opcode,
          h.register.writes b w1,
          set,
          masked_field (reg p.world) value mask small,
        ),
        rw (kept, set) (masked_field (reg p.world) value mask small),
        rw (kept, set) (masked_rest (reg p.world) value mask small),
      )

  -- The two rates that `hi3593_set_rate` accepts are the rates that `hi3593_get_rate` then reports,
  -- on a port of the chip whose control register reads back what was written; the port stores the
  -- rate, the least receive delay is below the greatest, and the other control bits are kept.
  pub get_rate-set_rate :
      (hz rate_hz stale : ℕ) (p : Port k)
      → HasControl k rd wr reg p.tx_index p.rx_index
      → p.is_avionics ≡ true
      → ((rate_hz ≡ 100000) ⊎ (rate_hz ≡ 12500))
      → let (r, p') = set_rate k hz rate_hz p in
        (r ≡ ok tt)
        × ((get_rate k hz stale p').0 ≡ rate_hz)
        × (p'.rate ≡ rate_hz)
        × (p'.rx_udelay_min < p'.rx_udelay_max)
        × (bit_and (reg p'.world) 0xfe ≡ bit_and (reg p.world) 0xfe)
  unfolding set_rate get_rate set_delays
  get_rate-set_rate hz rate_hz stale p h av (inl e) =
      let (w, ran, field, rest) = set_cntrl-sets 0 0x01 p h (omega arith) in
      ground (arith, ran, field, rest, get_cntrl_after hz rate_hz w p h)
  get_rate-set_rate hz rate_hz stale p h av (inr e) =
      let (w, ran, field, rest) = set_cntrl-sets 1 0x01 p h (omega arith) in
      ground (arith, ran, field, rest, get_cntrl_after hz rate_hz w p h)

-- A rate other than 100000 and 12500 is refused, and the port is left as it was.
pub set_rate_refused :
    (k : Kernel) (hz rate_hz : ℕ) (p : Port k)
    → rate_hz ≢ 100000
    → rate_hz ≢ 12500
    → set_rate k hz rate_hz p ≡ (err einval, p)
unfolding set_rate
set_rate_refused k hz rate_hz p a b = ground arith

-- Whatever the chip does: where `hi3593_set_cntrl` reports success, the last byte that it read from
-- the control register has the requested bits under the mask.
pub set_cntrl_verified :
    (k : Kernel) (value mask : ℕ) (p p' : Port k)
    → set_cntrl k value mask p ≡ (ok tt, p')
    → (q : Port k) × (status : ℕ) × (get_cntrl k q ≡ (ok status, p'))
      × (bit_and status mask ≡ bit_and value mask)
unfolding set_cntrl
set_cntrl_verified k value mask p p' h =
    let (r, p1) = get_cntrl k p in
    let op = value_or 0 (set_cntrl_opcode p1.tx_index p1.rx_index) in
    let q = (write_bytes k (op ∷ masked (value_or 0 r) value mask ∷ []) p1).1 in
    (q, value_or 0 (get_cntrl k q).0, ground arith, ground arith)
