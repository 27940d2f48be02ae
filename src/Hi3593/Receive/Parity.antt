-- ===== src/Hi3593/Receive/Parity.antt =====
-- The parity test on received words (hi3593_rx_worker of driver/devices/hi3593.c).
use driver_arinc.Prelude.{ℕ, ◌<◌, ◌≡◌, ◌≢◌, ◌↔◌, ◌⊎◌, true, arith}
use driver_arinc.Bits.{top_bit}
use driver_arinc.Hi3593.Receive.{parity_accepts}

-- With the parity check off every word passes. With it on, a word passes exactly where even parity
-- is configured or its parity bit is clear.
pub parity_accepts_iff :
    (check_parity even_parity b0 : ℕ)
    → b0 < 256
    → (parity_accepts check_parity even_parity b0 ≡ true)
      ↔ ((check_parity ≡ 0) ⊎ (even_parity ≢ 0) ⊎ (b0 < 128))
unfolding parity_accepts
parity_accepts_iff c e b0 h = (λ t. ground (arith, top_bit b0 h), λ t. ground (arith, top_bit b0 h))
