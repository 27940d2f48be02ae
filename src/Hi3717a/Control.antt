-- ===== src/Hi3717a/Control.antt =====
-- The registers of the HI-3717A: `hi3717a_get_cntrl`, `hi3717a_set_cntrl`, and the settings that the
-- network layer reads and writes through them.
pub mod Laws
pub mod Rate
pub mod Settings
use driver_arinc.Prelude.{
  ℕ, ◌*◌, ◌/◌, ◌≡◌, Bool, true, false, List, [], ◌∷◌, bit_and, bit_or, ◌==◌, has, not,
  if◌then◌else◌, Result, ok, err, einval, enodev, Step, pure, fail, ◌>>=◌, ◌>>◌, require, or_fail,
  modify, gets, Errno, eperm, enxio, enomem, ebusy, emsgsize, eprotonosupport, eopnotsupp,
  eafnosupport, enetdown, enoioctlcmd, kernel_error, ◌-◌, ◌%◌, Option, none, some,
}
use driver_arinc.Kernel.{Kernel}
use driver_arinc.Hi3593.Control.{complement, masked}
use driver_arinc.Hi3717a.{
  Port, Register, rd_opcode, wr_opcode, read_byte, write_bytes, locked, require_priv, mtu,
}

-- The bits of CTRL0 that select a rate.
unfoldable pub rate_value : ℕ → Result ℕ
rate_value rate_hz =
    if rate_hz == 384
    then ok 0x08
    else if rate_hz == 768
    then ok 0x00
    else if rate_hz == 1536
    then ok 0x10
    else if rate_hz == 3072
    then ok 0x20
    else if rate_hz == 6144
    then ok 0x30
    else if rate_hz == 12288
    then ok 0x40
    else if rate_hz == 24576
    then ok 0x50
    else if rate_hz == 49152
    then ok 0x60
    else if rate_hz == 98304
    then ok 0x70
    else err einval

-- The rate that a status byte of CTRL0 shows; another one leaves the caller's.
unfoldable pub rate_of : (rate_hz status : ℕ) → ℕ
rate_of rate_hz status =
    if has status 0x0008
    then 384
    else if bit_and status 0x0070 == 0x00
    then 768
    else if bit_and status 0x0070 == 0x10
    then 1536
    else if bit_and status 0x0070 == 0x20
    then 3072
    else if bit_and status 0x0070 == 0x30
    then 6144
    else if bit_and status 0x0070 == 0x40
    then 12288
    else if bit_and status 0x0070 == 0x50
    then 24576
    else if bit_and status 0x0070 == 0x60
    then 49152
    else if bit_and status 0x0070 == 0x70
    then 98304
    else rate_hz

-- `1000000/(rate->rate_hz/12)`
unfoldable pub period_of : ℕ → ℕ
period_of rate_hz = 1000000 / (rate_hz / 12)

-- The number of an error code in Linux.
unfoldable pub errno_number : Errno → ℕ
errno_number eperm = 1
errno_number enxio = 6
errno_number enomem = 12
errno_number ebusy = 16
errno_number enodev = 19
errno_number einval = 22
errno_number emsgsize = 90
errno_number eprotonosupport = 93
errno_number eopnotsupp = 95
errno_number eafnosupport = 97
errno_number enetdown = 100
errno_number enoioctlcmd = 515
errno_number (kernel_error n) = n

-- The lowest byte of an `ssize_t` that holds a byte or a negative error code.
unfoldable pub low_byte : Result ℕ → ℕ
unfolding errno_number
low_byte (ok status) = status
low_byte (err e) = (256 - errno_number e % 256) % 256

module _ (k : Kernel) where
  unfoldable pub get_cntrl : Register → Step (Port k) ℕ
  unfolding read_byte rd_opcode
  get_cntrl reg = read_byte k (rd_opcode reg)

  -- What `hi3717a_set_cntrl` does while it has the lock.
  unfoldable pub set_locked : (value mask : ℕ) (reg : Register) → Step (Port k) (Unit {0})
  unfolding write_bytes wr_opcode
  set_locked value mask reg = do
    status ← or_fail (get_cntrl reg) enodev
    write_bytes k (wr_opcode reg ∷ masked status value mask ∷ [])
    status' ← or_fail (get_cntrl reg) enodev
    require (bit_and status' mask == bit_and value mask) enodev

  unfoldable pub set_cntrl : (value mask : ℕ) (reg : Register) → Step (Port k) (Unit {0})
  unfolding locked
  set_cntrl value mask reg = locked k (set_locked value mask reg)

  -- The reset line is pulled low and let go.
  unfoldable pub pulse_reset : Port k → Port k
  pulse_reset p =
      let w1 = k.set_gpio p.reset_gpio 0 p.world in
      let w2 = k.sleep 10 100 w1 in record p { world = k.set_gpio p.reset_gpio 1 w2 }

  -- The chip is reset, and its registers are written again with the new rate.
  unfoldable pub reset_to : (rate_hz value old0 : ℕ) → Step (Port k) (Unit {0})
  unfolding pulse_reset period_of locked
  reset_to rate_hz value old0 = do
    old1 ← get_cntrl Register.ctrl1
    pin ← get_cntrl Register.fspin
    count ← get_cntrl Register.wrdcnt
    locked k (modify pulse_reset)
    set_cntrl count 0xff Register.wrdcnt
    set_cntrl pin 0xff Register.fspin
    set_cntrl old1 0xff Register.ctrl1
    set_cntrl (masked old0 value 0x78) 0x7f Register.ctrl0
    modify λ p. record p { period_usec = period_of rate_hz }

  unfoldable pub set_rate : (rate_hz : ℕ) → Step (Port k) (Unit {0})
  unfolding rate_value require_priv
  set_rate rate_hz = do
    require_priv k einval
    enabled ← gets (λ p. p.tx_enabled)
    require (not enabled) einval
    value ← λ p. (rate_value rate_hz, p)
    old0 ← get_cntrl Register.ctrl0
    if bit_and old0 0x78 == value then pure tt else reset_to rate_hz value old0

  read_rate : ℕ → Result ℕ → ℕ
  unfolding rate_of
  read_rate rate_hz (err e) = rate_hz
  read_rate rate_hz (ok status) = rate_of rate_hz status

  -- `rate->rate_hz` as the function leaves it.
  unfoldable pub get_rate : (rate_hz : ℕ) → Port k → ℕ × Port k
  unfolding read_rate
  get_rate rate_hz p =
      let (r, p') = get_cntrl Register.ctrl0 p in
      if p.is_avionics then (read_rate rate_hz r, p') else (rate_hz, p)

  -- `config->flags`, the bits of both registers under the masks, with no test on what was read;
  -- `none` is the read through a NULL `priv`.
  unfoldable pub get_flags : (mask0 mask1 : ℕ) → Port k → Option (ℕ × Port k)
  unfolding low_byte
  get_flags mask0 mask1 p =
      let (r0, p1) = get_cntrl Register.ctrl0 p in
      let (r1, p2) = get_cntrl Register.ctrl1 p1 in
      if p.is_avionics
      then some (bit_or (bit_and (low_byte r0) mask0) (bit_and (low_byte r1) mask1), p2)
      else none

  unfoldable pub get_arinc717rx : Port k → Option (ℕ × Port k)
  get_arinc717rx = get_flags 0x01 0x06

  unfoldable pub set_arinc717rx : (flags : ℕ) → Step (Port k) (Unit {0})
  unfolding require_priv
  set_arinc717rx flags = do
    require_priv k enodev
    set_cntrl flags 0x01 Register.ctrl0
    set_cntrl flags 0x06 Register.ctrl1

  unfoldable pub get_arinc717tx : Port k → Option (ℕ × Port k)
  get_arinc717tx = get_flags 0x06 0x01

  unfoldable pub set_arinc717tx : (flags : ℕ) → Step (Port k) (Unit {0})
  unfolding require_priv
  set_arinc717tx flags = do
    require_priv k enodev
    set_cntrl flags 0x06 Register.ctrl0
    set_cntrl flags 0x01 Register.ctrl1

  unfoldable pub change_mtu : ℕ → Step (Port k) (Unit {0})
  change_mtu new_mtu = require (new_mtu == mtu) einval
