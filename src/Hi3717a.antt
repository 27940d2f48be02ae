-- ===== src/Hi3717a.antt =====
-- driver/devices/hi3717a.c, the Holt HI-3717A ARINC-717 transmitter and receiver. This module holds
-- the data: the constants, the state of a port (`struct hi3717a_priv`, the parts of `struct hi3717a`
-- that it points at, and the counters and queues of its network device), and the accesses on it. The
-- operations are in its children.
pub mod Control
pub mod Transmit
pub mod Receive
pub mod Bringup
use driver_arinc.Prelude.{ℕ, ◌+◌, ◌-◌, ◌*◌, Bool, List, [], ◌∷◌, Option, ok, Errno, Step, require}
use driver_arinc.Kernel.{Kernel, msecs}
use driver_arinc.Hi3593.{Sample, Stats}

abbrev pub fifo_depth : ℕ
fifo_depth = 32

-- `sizeof(avionics_data)`
abbrev pub sample_size : ℕ
sample_size = 12

abbrev pub mtu : ℕ
mtu = fifo_depth * sample_size * 8

-- The registers that are read and written with one byte.
pub data Register : Type 0 where
  ctrl0 ctrl1 fspin wrdcnt : Register

unfoldable pub rd_opcode : Register → ℕ
rd_opcode Register.ctrl0 = 0xe4
rd_opcode Register.ctrl1 = 0xe2
rd_opcode Register.fspin = 0xea
rd_opcode Register.wrdcnt = 0xf2

unfoldable pub wr_opcode : Register → ℕ
wr_opcode Register.ctrl0 = 0x64
wr_opcode Register.ctrl1 = 0x62
wr_opcode Register.fspin = 0x6a
wr_opcode Register.wrdcnt = 0x72

abbrev pub rxfifo_insync : ℕ
rxfifo_insync = 0x80

abbrev pub rxfifo_empty : ℕ
rxfifo_empty = 0x04

abbrev pub rxfifo_ovf : ℕ
rxfifo_ovf = 0x02

abbrev pub txfifo_empty : ℕ
txfifo_empty = 0x20

abbrev pub txfifo_full : ℕ
txfifo_full = 0x80

pub record Port (k : Kernel) : Type 0 where
  pub world : k.World
  -- Whether the type of the network device is ARPHRD_AVIONICS, which `avionics_device_priv` asks.
  pub is_avionics : Bool
  -- How often `mutex_lock(priv->lock)` is ahead of `mutex_unlock(priv->lock)`.
  pub lock_depth : ℕ
  pub reset_gpio : ℕ
  -- The address in `priv->tx_buffer`, where it is not NULL, and the blocks of memory by address; a
  -- block that is not allocated has no words.
  pub tx_buffer : Option ℕ
  pub memory : ℕ → List ℕ
  pub next_block : ℕ
  pub tx_buffer_size : ℕ
  pub tx_enabled : Bool
  pub rx_enabled : Bool
  pub period_usec : ℕ
  -- How often `disable_irq` is ahead of `enable_irq`.
  pub irq_depth : ℕ
  -- Whether `priv->worker` has been queued and has not started.
  pub work_pending : Bool
  pub stats : Stats
  -- What `netif_rx_ni` was given, in order.
  pub delivered : List (List Sample)
  -- Whether the network device's transmit queue runs.
  pub queue_awake : Bool
  -- Whether a store through a NULL pointer has been made, after which nothing is said.
  pub faulted : Bool

module _ (k : Kernel) where
  -- `mutex_lock(priv->lock)` and `mutex_unlock(priv->lock)`
  unfoldable pub mutex_lock : Port k → Port k
  mutex_lock p = record p { lock_depth = p.lock_depth + 1 }

  unfoldable pub mutex_unlock : Port k → Port k
  mutex_unlock p = record p { lock_depth = p.lock_depth - 1 }

  -- A block of code between the two, with an unlock on each way out of it.
  unfoldable pub locked : {A : Type 0} → Step (Port k) A → Step (Port k) A
  unfolding mutex_lock mutex_unlock
  locked m p = let (r, p') = m (mutex_lock p) in (r, mutex_unlock p')

  -- `priv = avionics_device_priv(dev); if (!priv) return -e;`
  unfoldable pub require_priv : Errno → Step (Port k) (Unit {0})
  require_priv e p = require p.is_avionics e p

  -- `spi_w8r8(priv->spi, op)`
  unfoldable pub read_byte : ℕ → Step (Port k) ℕ
  read_byte op p = let (r, w) = k.w8r8 op p.world in (r, record p { world = w })

  -- `spi_write(priv->spi, bytes, sizeof(bytes))`
  unfoldable pub write_bytes : List ℕ → Step (Port k) (Unit {0})
  write_bytes bytes p = let (r, w) = k.write bytes p.world in (r, record p { world = w })

  -- `spi_sync(priv->spi, &message)`
  unfoldable pub sync : List (ℕ × ℕ) → Step (Port k) (List (List ℕ))
  sync message p = let (r, w) = k.spi_sync message p.world in (r, record p { world = w })

  -- `ktime_get_real_ts64(&tv)`, in milliseconds.
  unfoldable pub read_clock : Step (Port k) ℕ
  unfolding msecs
  read_clock p = let (tv, w) = k.real_time p.world in (ok (msecs tv), record p { world = w })
