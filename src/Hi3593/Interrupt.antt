-- ===== src/Hi3593/Interrupt.antt =====
-- The receive interrupt: `hi3593_rx_open`, `hi3593_rx_stop` and `hi3593_rx_irq`. The kernel counts
-- how often an interrupt is disabled; it fires only at depth 0.
pub mod Depth
use driver_arinc.Prelude.{
  ℕ, ◌+◌, ◌-◌, Bool, true, false, if◌then◌else◌, einval, Step, pure, ◌>>=◌, ◌>>◌, modify,
}
use driver_arinc.Kernel.{Kernel}
use driver_arinc.Hi3593.{Port, require_priv}

module _ (k : Kernel) where
  open_receiver : Port k → Port k
  open_receiver p =
      if p.rx_enabled then p else record p { rx_enabled = true; irq_depth = p.irq_depth - 1 }

  pub rx_open : Step (Port k) (Unit {0})
  unfolding open_receiver require_priv
  rx_open = do require_priv k einval; modify open_receiver

  -- `atomic_set(priv->rx_enabled, 0)`
  pub clear_enabled : Port k → Port k
  clear_enabled p = record p { rx_enabled = false }

  -- `disable_irq(priv->irq)`
  pub disable_irq : Port k → Port k
  disable_irq p = record p { irq_depth = p.irq_depth + 1 }

  pub rx_stop : Step (Port k) (Unit {0})
  unfolding clear_enabled disable_irq require_priv
  rx_stop = do
    modify λ p. record p { queue_awake = false }
    require_priv k einval
    modify clear_enabled
    modify disable_irq

  -- The handler; `is_own` tells whether it is called for the interrupt of this port.
  pub rx_irq : (is_own : Bool) → Port k → Port k
  unfolding disable_irq
  rx_irq is_own p =
      let p1 = disable_irq p in
      if is_own then (if p.rx_enabled then record p1 { work_pending = true } else p1) else p
