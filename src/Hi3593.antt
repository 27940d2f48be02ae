-- ===== src/Hi3593.antt =====
-- driver/devices/hi3593.c, the Holt HI-3593 ARINC-429 transmitter and receivers. This module holds
-- the data: the constants, the state of a port (`struct hi3593_priv` with the counters and queues
-- of its network device) and the SPI accesses on it. The operations are in its children.
pub mod Control
pub mod Settings
pub mod Transmit
pub mod Receive
pub mod Interrupt
pub mod Bringup
use driver_arinc.Prelude.{ℕ, ◌+◌, ◌*◌, ◌/◌, Bool, List, [], ◌∷◌, ℤ, ok, Errno, Step, require}
use driver_arinc.Kernel.{Kernel, msecs}

abbrev pub fifo_depth : ℕ
fifo_depth = 32

-- `sizeof(avionics_data)`: a packed 64-bit time and a 32-bit value.
abbrev pub sample_size : ℕ
sample_size = 12

abbrev pub mtu : ℕ
mtu = fifo_depth * sample_size * 8

abbrev pub fifo_full : ℕ
fifo_full = 0x04

abbrev pub fifo_empty : ℕ
fifo_empty = 0x01

abbrev pub rx_delay_multiplier_max : ℕ
rx_delay_multiplier_max = (fifo_depth / 2 + 4) * 4 * 1000000

abbrev pub rx_delay_multiplier_min : ℕ
rx_delay_multiplier_min = fifo_depth / 2 * 4 * 1000000

-- `struct avionics_proto_timestamp_data`; the time is kept as its 64-bit pattern.
pub record Sample : Type 0 where
  pub time_msecs : ℕ
  pub value : ℕ

-- A packet: its length in bytes, and its bytes read as an array of samples.
pub record Skb : Type 0 where
  pub protocol : ℕ
  pub len : ℕ
  pub samples : ℕ → Sample

-- `struct net_device_stats`, the counters that the drivers use.
pub record Stats : Type 0 where
  pub tx_packets : ℕ
  pub tx_bytes : ℕ
  pub tx_dropped : ℕ
  pub tx_errors : ℕ
  pub tx_fifo_errors : ℕ
  pub rx_packets : ℕ
  pub rx_bytes : ℕ
  pub rx_errors : ℕ
  pub rx_fifo_errors : ℕ
  pub rx_crc_errors : ℕ

pub record Port (k : Kernel) : Type 0 where
  pub world : k.World
  -- Whether the type of the network device is ARPHRD_AVIONICS, which `avionics_device_priv` asks.
  pub is_avionics : Bool
  pub tx_index : ℤ
  pub rx_index : ℤ
  pub even_parity : ℕ
  pub check_parity : ℕ
  pub rate : ℕ
  pub rx_udelay_min : ℕ
  pub rx_udelay_max : ℕ
  pub rx_wrk_delay : ℕ
  -- `priv->skbq`, and the packets that the worker took from it and has not freed.
  pub skbq : List Skb
  pub held : List Skb
  -- `*priv->rx_enabled`, and how often `disable_irq` is ahead of `enable_irq`.
  pub rx_enabled : Bool
  pub irq_depth : ℕ
  -- Whether `priv->worker` has been queued and has not started.
  pub work_pending : Bool
  pub stats : Stats
  -- What `netif_rx_ni` was given, in order.
  pub delivered : List (List Sample)
  -- Whether the network device's transmit queue runs.
  pub queue_awake : Bool

module _ (k : Kernel) where
  -- `usleep_range(priv->rx_udelay_min, priv->rx_udelay_max)`
  unfoldable pub sleep_delay : Step (Port k) (Unit {0})
  sleep_delay p = (ok tt, record p { world = k.sleep p.rx_udelay_min p.rx_udelay_max p.world })

  -- `ktime_get_real_ts64(&tv)`, in milliseconds.
  unfoldable pub read_clock : Step (Port k) ℕ
  unfolding msecs
  read_clock p = let (tv, w) = k.real_time p.world in (ok (msecs tv), record p { world = w })

  -- `priv = avionics_device_priv(dev); if (!priv) return -e;`
  unfoldable pub require_priv : Errno → Step (Port k) (Unit {0})
  require_priv e p = require p.is_avionics e p

  -- `spi_w8r8(priv->spi, op)`
  unfoldable pub read_byte : ℕ → Step (Port k) ℕ
  read_byte op p = let (r, w) = k.w8r8 op p.world in (r, record p { world = w })

  -- `spi_write(priv->spi, bytes, sizeof(bytes))`
  unfoldable pub write_bytes : List ℕ → Step (Port k) (Unit {0})
  write_bytes bytes p = let (r, w) = k.write bytes p.world in (r, record p { world = w })

  -- `spi_write_then_read` of one command byte
  unfoldable pub read_bytes : ℕ → ℕ → Step (Port k) (List ℕ)
  read_bytes op n p =
      let (r, w) = k.write_then_read (op ∷ []) n p.world in (r, record p { world = w })
