-- ===== src/Hi3593/Control.antt =====
-- The control registers of a port: `hi3593_get_cntrl`, `hi3593_set_cntrl`, and the settings that the
-- network layer reads and writes through them.
pub mod Laws
use driver_arinc.Prelude.{
  ℕ, ◌+◌, ◌-◌, ◌*◌, ◌/◌, ◌≡◌, Bool, true, false, List, [], ◌∷◌, ◌++◌, bit_and, bit_or, ◌==◌, has,
  if◌then◌else◌, ℤ, is_index, take, Result, ok, err, einval, enodev, Step, pure, fail, ◌>>=◌, ◌>>◌,
  require, or_fail, modify,
}
use driver_arinc.Kernel.{Kernel}
use driver_arinc.Hi3593.{
  Port, read_byte, write_bytes, read_bytes, rx_delay_multiplier_min, rx_delay_multiplier_max,
  fifo_depth, require_priv,
}

-- `~mask` of a `__u8`, which is stored back into a `__u8`.
abbrev pub complement : ℕ → ℕ
complement mask = 255 - mask

-- The control byte that is written: `(status&(~mask)) | (value&mask)`.
unfoldable pub masked : (status value mask : ℕ) → ℕ
masked status value mask = bit_or (bit_and status (complement mask)) (bit_and value mask)

-- The opcode that a port's indices select.
unfoldable pub get_cntrl_opcode : (tx_index rx_index : ℤ) → Result ℕ
get_cntrl_opcode tx_index rx_index =
    if is_index tx_index 0
    then ok 0x84
    else if is_index rx_index 0
    then ok 0x94
    else if is_index rx_index 1
    then ok 0xb4
    else err einval

unfoldable pub set_cntrl_opcode : (tx_index rx_index : ℤ) → Result ℕ
set_cntrl_opcode tx_index rx_index =
    if is_index tx_index 0
    then ok 0x08
    else if is_index rx_index 0
    then ok 0x10
    else if is_index rx_index 1
    then ok 0x24
    else err einval

module _ (k : Kernel) where
  unfoldable pub get_cntrl : Step (Port k) ℕ
  unfolding read_byte
  get_cntrl = do op ← λ p. (get_cntrl_opcode p.tx_index p.rx_index, p); read_byte k op

  unfoldable pub set_cntrl : (value mask : ℕ) → Step (Port k) (Unit {0})
  unfolding write_bytes
  set_cntrl value mask = do
    status ← or_fail get_cntrl enodev
    op ← λ p. (set_cntrl_opcode p.tx_index p.rx_index, p)
    write_bytes k (op ∷ masked status value mask ∷ [])
    status' ← or_fail get_cntrl enodev
    require (bit_and status' mask == bit_and value mask) enodev

  -- The delays that follow from the bit rate; `hz` is the kernel's ticks per second.
  unfoldable pub set_delays : (hz rate : ℕ) → Port k → Port k
  set_delays hz rate p = record p {
    rate = rate;
    rx_udelay_min = rx_delay_multiplier_min / rate;
    rx_udelay_max = rx_delay_multiplier_max / rate;
    rx_wrk_delay = (fifo_depth / 2 + 2) * 4 * hz / rate;
  }

  rate_value : ℕ → Step (Port k) ℕ
  rate_value rate_hz =
      if rate_hz == 100000 then pure 0 else if rate_hz == 12500 then pure 1 else fail einval

  unfoldable pub set_rate : (hz rate_hz : ℕ) → Step (Port k) (Unit {0})
  unfolding rate_value require_priv
  set_rate hz rate_hz = do
    require_priv k einval
    value ← rate_value rate_hz
    set_cntrl value 0x01
    modify (set_delays hz rate_hz)

  -- `rate->rate_hz` after the read; where the read fails it stays as the caller left it.
  read_rate : ℕ → Result ℕ → ℕ
  read_rate rate_hz (err e) = rate_hz
  read_rate rate_hz (ok status) = if has status 0x0001 then 12500 else 100000

  -- `*rate` as the function leaves it.
  unfoldable pub get_rate : (hz rate_hz : ℕ) → Port k → ℕ × Port k
  unfolding read_rate set_delays
  get_rate hz rate_hz p =
      let (r, p') = get_cntrl p in
      let rate = read_rate rate_hz r in
      if p.is_avionics then (rate, set_delays hz rate p') else (rate_hz, p)
