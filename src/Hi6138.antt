-- ===== src/Hi6138.antt =====
-- driver/devices/hi6138.c, the Holt HI-6138 MIL-STD-1553 bus monitor. This module holds the
-- constants, the state (`struct hi6138` and `struct hi6138_priv` with the counters and packets of the
-- network device) and the SPI accesses; the operations are in its children.
pub mod Memory
pub mod Monitoring
pub mod Bringup
pub mod Probe
use driver_arinc.Prelude.{ℕ, ◌+◌, ◌*◌, ◌/◌, ◌%◌, Bool, List, [], ◌∷◌, ok, Step}
use driver_arinc.Kernel.{Kernel}
use driver_arinc.Hi3593.{Stats}

abbrev pub reg_mcfg1 : ℕ
reg_mcfg1 = 0x0000

abbrev pub mcfg1_mtena : ℕ
mcfg1_mtena = 0x0100

abbrev pub hirq_pending : ℕ
hirq_pending = 0x0006

abbrev pub hirq_mtip : ℕ
hirq_mtip = 0x0002

abbrev pub smtirq_enable : ℕ
smtirq_enable = 0x0011

abbrev pub smtirq_pending : ℕ
smtirq_pending = 0x0008

abbrev pub smtirq_output : ℕ
smtirq_output = 0x0015

abbrev pub smtirq_smteon : ℕ
smtirq_smteon = 0x0008

abbrev pub smtlast : ℕ
smtlast = 0x0031

abbrev pub smtcfg : ℕ
smtcfg = 0x0029

abbrev pub memptra : ℕ
memptra = 0x000b

abbrev pub cmd_stack_start : ℕ
cmd_stack_start = 0x0600

abbrev pub cmd_stack_end : ℕ
cmd_stack_end = 0x0aff

-- A packet: its length in bytes, and the words that it is copied from.
pub record Packet : Type 0 where
  pub len : ℕ
  pub words : List ℕ

pub record Monitor (k : Kernel) : Type 0 where
  pub world : k.World
  pub is_avionics : Bool
  -- How often `mutex_lock` is ahead of `mutex_unlock`, and `disable_irq` of `enable_irq`.
  pub lock_depth : ℕ
  pub irq_depth : ℕ
  pub work_pending : Bool
  pub ackirq_gpio : ℕ
  pub bm_enabled : Bool
  pub smt_last_addr : ℕ
  pub queue_awake : Bool
  pub stats : Stats
  -- What `netif_rx_ni` was given, in order.
  pub delivered : List Packet

module _ (k : Kernel) where
  -- `spi_write(spi, buffer, sizeof(buffer))`
  unfoldable pub write_bytes : List ℕ → Step (Monitor k) (Unit {0})
  write_bytes bytes p = let (r, w) = k.write bytes p.world in (r, record p { world = w })

  -- `spi_write_then_read` of one command byte
  unfoldable pub read_bytes : (cmd n : ℕ) → Step (Monitor k) (List ℕ)
  read_bytes cmd n p =
      let (r, w) = k.write_then_read (cmd ∷ []) n p.world in (r, record p { world = w })
