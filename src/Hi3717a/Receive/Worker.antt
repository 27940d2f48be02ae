-- ===== src/Hi3717a/Receive/Worker.antt =====
-- The lock and the interrupt around hi3717a_rx_worker (driver/devices/hi3717a.c).
use driver_arinc.Prelude.{◌-◌, ◌≡◌, ◌⊎◌, false}
use driver_arinc.Bytes.{Endian}
use driver_arinc.Kernel.{Kernel}
use driver_arinc.Hi3717a.{Port, mtu}

-- The lock and the interrupt are as they were.
pub Keeps : {k : Kernel} (p p' : Port k) → Type 0
Keeps p p' = (p'.lock_depth ≡ p.lock_depth) × (p'.irq_depth ≡ p.irq_depth)

module _ (k : Kernel) (e : Endian) where
  -- The lock and one disabling of the interrupt are undone, or memory was short and neither is.
  Leaves : (p p' : Port k) → Type 0
  Leaves p p' =
      ((p'.lock_depth ≡ p.lock_depth - 1) × (p'.irq_depth ≡ p.irq_depth - 1))
      ⊎ ((w : k.World) × ((k.alloc mtu w).0 ≡ false)
          × (p'.lock_depth ≡ p.lock_depth)
          × (p'.irq_depth ≡ p.irq_depth))
