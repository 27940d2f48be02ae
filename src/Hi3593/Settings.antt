-- ===== src/Hi3593/Settings.antt =====
-- The ARINC-429 settings of a port: `hi3593_get_arinc429rx`, `hi3593_set_arinc429rx`,
-- `hi3593_get_arinc429tx`, `hi3593_set_arinc429tx`, and the device operations that go through the
-- control register.
pub mod Laws
use driver_arinc.Prelude.{
  ℕ, ◌*◌, ◌≡◌, Bool, true, false, List, [], ◌∷◌, ◌++◌, bit_and, bit_or, ◌==◌, has, if◌then◌else◌, ℤ,
  is_index, take, Result, ok, err, einval, enodev, Step, pure, fail, ◌>>=◌, ◌>>◌, require, modify,
}
use driver_arinc.Kernel.{Kernel}
use driver_arinc.Hi3593.{Port, mtu, require_priv, write_bytes, read_bytes}
use driver_arinc.Hi3593.Control.{get_cntrl, set_cntrl}

-- `struct avionics_arinc429rx`; its padding byte is not used.
pub record Arinc429rx : Type 0 where
  pub flags : ℕ
  pub priority_labels : List ℕ
  pub label_filters : List ℕ

-- AVIONICS_ARINC429RX_EVEN_PARITY, AVIONICS_ARINC429RX_PARITY_CHECK, HI3593_TX_CNTRL_TMODE and
-- AVIONICS_ARINC429TX_HIZ.
abbrev pub even_parity_flag : ℕ
even_parity_flag = 0x01

abbrev pub parity_check_flag : ℕ
parity_check_flag = 0x08

abbrev pub tx_cntrl_tmode : ℕ
tx_cntrl_tmode = 0x20

abbrev pub tx_hiz : ℕ
tx_hiz = 0x80

-- The opcodes of the priority labels and of the label filters that a port's index selects.
unfoldable pub rx_opcodes : (rx1 rx2 : ℕ × ℕ) (rx_index : ℤ) → Result (ℕ × ℕ)
rx_opcodes rx1 rx2 rx_index =
    if is_index rx_index 0 then ok rx1 else if is_index rx_index 1 then ok rx2 else err einval

module _ (k : Kernel) where
  -- `config->flags` after the control register was read; an error leaves it.
  rx_flags : (flags even : ℕ) → Result ℕ → ℕ
  rx_flags flags even (err e) = flags
  rx_flags flags even (ok status) = bit_or (bit_and status 0xfe) even

  -- A buffer after `spi_write_then_read`; an error leaves it.
  read_into : List ℕ → Result (List ℕ) → List ℕ
  read_into old (err e) = old
  read_into old (ok bytes) = bytes

  -- The labels and the filters, once the opcodes are known.
  read_filters : Arinc429rx → ℕ × ℕ → Port k → Arinc429rx × Port k
  unfolding read_into read_bytes
  read_filters config (rd_priority, rd_filters) p =
      let (labels, p1) = read_bytes k rd_priority 3 p in
      let (filters, p2) = read_bytes k rd_filters 32 p1 in
      (
        record config {
          priority_labels = read_into config.priority_labels labels;
          label_filters = read_into config.label_filters filters;
        },
        p2,
      )

  -- `*config` as the function leaves it.
  unfoldable pub get_arinc429rx : Arinc429rx → Port k → Arinc429rx × Port k
  unfolding rx_flags read_filters
  get_arinc429rx config p =
      let (r, p1) = get_cntrl k p in
      let config1 = record config { flags = rx_flags config.flags p1.even_parity r } in
      if p.is_avionics
      then elim (rx_opcodes (0x9c, 0x98) (0xbc, 0xb8) p1.rx_index) [
        | ok ops ↦ read_filters config1 ops p1
        | err e ↦ (config1, p1)
      ]
      else (config, p)

  unfoldable pub set_arinc429rx : Arinc429rx → Step (Port k) (Unit {0})
  unfolding write_bytes require_priv
  set_arinc429rx config = do
    require_priv k enodev
    set_cntrl k config.flags 0xfe
    modify λ p. record p {
      even_parity = if has config.flags even_parity_flag then even_parity_flag else 0;
      check_parity = if has config.flags parity_check_flag then parity_check_flag else 0;
    }
    (wr_priority, wr_filters) ← λ p. (rx_opcodes (0x18, 0x14) (0x2c, 0x28) p.rx_index, p)
    write_bytes k (wr_priority ∷ take 3 config.priority_labels)
    write_bytes k (wr_filters ∷ take 32 config.label_filters)

  tx_flags : ℕ → Result ℕ → ℕ
  tx_flags flags (err e) = flags
  tx_flags flags (ok status) = bit_and status 0xfe

  -- The settings of a transmitter are its flags.
  unfoldable pub get_arinc429tx : ℕ → Port k → ℕ × Port k
  unfolding tx_flags
  get_arinc429tx flags p =
      let (r, p') = get_cntrl k p in if p.is_avionics then (tx_flags flags r, p') else (flags, p)

  unfoldable pub set_arinc429tx : ℕ → Step (Port k) (Unit {0})
  unfolding require_priv
  set_arinc429tx flags = do
    require_priv k enodev
    set_cntrl k (bit_or flags tx_cntrl_tmode) (bit_or 0x5c tx_cntrl_tmode)

  unfoldable pub change_mtu : ℕ → Step (Port k) (Unit {0})
  change_mtu new_mtu = require (new_mtu == mtu) einval

  unfoldable pub tx_open : Step (Port k) (Unit {0})
  unfolding require_priv
  tx_open = do
    require_priv k einval
    set_cntrl k 0 tx_hiz
    modify λ p. record p { queue_awake = true }

  unfoldable pub tx_stop : Step (Port k) (Unit {0})
  unfolding require_priv
  tx_stop = do
    modify λ p. record p { queue_awake = false }
    require_priv k einval
    modify λ p. record p { skbq = [] }
    set_cntrl k tx_hiz tx_hiz
