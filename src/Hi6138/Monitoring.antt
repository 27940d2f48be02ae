-- ===== src/Hi6138/Monitoring.antt =====
-- The bus monitor of the HI-6138: `hi6138_bm_open`, `_bm_stop`, `_irq`, `_irq_worker` and `_irq_bm` of
-- driver/devices/hi6138.c. The chip writes a command stack of entries of 8 words, which the worker
-- walks from the last entry it has read to the last that the chip has written.
pub mod Ring
pub mod Walk
pub mod Balance
pub mod Drain
use driver_arinc.Prelude.{
  ℕ, zero, suc, ◌+◌, ◌-◌, ◌*◌, ◌/◌, ◌%◌, ◌^◌, Bool, true, false, ◌||◌, List, [], ◌∷◌, ◌++◌, bit_and,
  bit_or, has, ltb, leb, ◌==◌, if◌then◌else◌, Result, Errno, ok, err, einval, enodev, Step, pure,
  ◌>>=◌, ◌>>◌, modify, gets, require,
}
use driver_arinc.Kernel.{Kernel}
use driver_arinc.Hi3593.{Stats}
use driver_arinc.Hi6138.{
  Monitor, Packet, reg_mcfg1, mcfg1_mtena, hirq_pending, hirq_mtip, smtirq_enable, smtirq_pending,
  smtirq_output, smtirq_smteon, smtlast, smtcfg, cmd_stack_start, cmd_stack_end,
}
use driver_arinc.Hi6138.Memory.{get_fastaccess, set_fastaccess, get_mem, get_reg}

-- What an interrupt of the monitor, or a message of it, comes to.
pub data Outcome : Type 0 where
  returned : Outcome
  failed : Errno → Outcome
  -- It stores through a NULL packet, or behind its buffer of 36 words.
  faulted : Outcome
  -- The walk has not ended.
  unfinished : Outcome

module _ (k : Kernel) where
  unfoldable pub require_priv : Errno → Step (Monitor k) (Unit {0})
  require_priv e p = require p.is_avionics e p

  unfoldable pub set_mil1553bm : Step (Monitor k) (Unit {0})
  unfolding require_priv
  set_mil1553bm = require_priv enodev

  -- The writes that turn the monitor on.
  unfoldable pub enable_monitor : Step (Monitor k) (Unit {0})
  unfolding get_fastaccess set_fastaccess
  enable_monitor = do
    mcfg1 ← get_fastaccess k reg_mcfg1
    set_fastaccess k reg_mcfg1 (bit_or mcfg1 mcfg1_mtena)
    set_fastaccess k smtirq_enable smtirq_smteon
    set_fastaccess k smtirq_output smtirq_smteon
    set_fastaccess k smtcfg 0xc873
    modify λ p. record p { smt_last_addr = 0; bm_enabled = true }

  unfoldable pub bm_open : Step (Monitor k) (Unit {0})
  unfolding require_priv enable_monitor
  bm_open = do
    require_priv einval
    enabled ← gets (λ p. p.bm_enabled)
    if enabled then pure tt else enable_monitor

  unfoldable pub bm_stop : Step (Monitor k) (Unit {0})
  unfolding require_priv get_fastaccess set_fastaccess
  bm_stop = do
    modify λ p. record p { queue_awake = false }
    require_priv einval
    modify λ p. record p { bm_enabled = false }
    mcfg1 ← get_fastaccess k reg_mcfg1
    set_fastaccess k reg_mcfg1 (bit_and mcfg1 0xfeff)
    set_fastaccess k smtirq_enable 0
    set_fastaccess k smtirq_output 0

  -- `avionics_device_alloc_skb` succeeds or not.
  unfoldable pub allocate : ℕ → Step (Monitor k) Bool
  allocate size p = let (fits, w) = k.alloc size p.world in (ok fits, record p { world = w })

  -- The words of an entry's message behind the command word.
  unfoldable pub get_rest : (data_addr len : ℕ) → Step (Monitor k) (List ℕ)
  unfolding get_mem
  get_rest data_addr len = if ltb 2 len then get_mem k data_addr ((len - 2) / 2) else pure []

  unfoldable pub hand_over : Packet → Monitor k → Monitor k
  hand_over packet p = record p {
    stats = record p.stats {
      rx_packets = p.stats.rx_packets + 1;
      rx_bytes = p.stats.rx_bytes + packet.len;
    };
    delivered = p.delivered ++ packet ∷ [];
  }

  -- The message of the entry at `smt_last_addr`: `false` is a fault.
  unfoldable pub read_message : Step (Monitor k) Bool
  unfolding get_reg allocate get_rest hand_over
  read_message = do
    last ← gets (λ p. p.smt_last_addr)
    data_addr ← get_reg k ((last + 6) % 2 ^ 16)
    len ← get_reg k ((last + 5) % 2 ^ 16)
    fits ← allocate len
    command ← get_reg k ((last + 7) % 2 ^ 16)
    rest ← get_rest data_addr len
    if leb len 72
        then (if fits
            then (do modify (hand_over (record { len = len; words = command ∷ rest })); pure true)
            else pure false)
        else pure false

  -- `smt_last_addr` at the beginning of a round.
  unfoldable pub wrap_addr : ℕ → ℕ
  wrap_addr last = if leb cmd_stack_end last then cmd_stack_start else last

  unfoldable pub wrap : Monitor k → Monitor k
  wrap p = record p { smt_last_addr = wrap_addr p.smt_last_addr }

  unfoldable pub next_entry : Monitor k → Monitor k
  next_entry p = record p { smt_last_addr = (p.smt_last_addr + 8) % 2 ^ 16 }

  -- The loop, at most `fuel` rounds.
  unfoldable pub walk :
      (fuel : ℕ) → (wrapped : Bool) → (cmd_addr : ℕ) → Monitor k → Outcome × Monitor k
  unfolding wrap next_entry read_message
  walk zero wrapped cmd_addr p = (unfinished, p)
  walk (suc fuel) wrapped cmd_addr p =
      let (r, p1) = read_message (wrap p) in
      let still = if leb cmd_stack_end p.smt_last_addr then false else wrapped in
      let rest = walk fuel still cmd_addr (next_entry p1) in
      if leb p.smt_last_addr cmd_addr || wrapped
      then elim r [ ok more ↦ if more then rest else (faulted, p1) | err e ↦ (failed e, p1) ]
      else (returned, p)

  -- `smt_last_addr` before the loop: the first message after a restart is the last one.
  unfoldable pub start_at : (cmd_addr : ℕ) → Monitor k → Monitor k
  start_at cmd_addr p = record p {
    smt_last_addr = if p.smt_last_addr == 0 then cmd_addr else p.smt_last_addr;
  }

  -- From the last entry that the chip has written.
  unfoldable pub walk_to : (fuel cmd_addr : ℕ) → Monitor k → Outcome × Monitor k
  unfolding walk start_at
  walk_to fuel cmd_addr p =
      let p1 = start_at cmd_addr p in
      if ltb cmd_addr cmd_stack_start
      then (returned, p)
      else walk fuel (ltb cmd_addr p1.smt_last_addr) cmd_addr p1

  unfoldable pub from_last : (fuel : ℕ) → Result ℕ × Monitor k → Outcome × Monitor k
  unfolding walk_to
  from_last fuel (ok cmd_addr, p) = walk_to fuel cmd_addr p
  from_last fuel (err e, p) = (failed e, p)

  unfoldable pub from_status : (fuel : ℕ) → Result ℕ × Monitor k → Outcome × Monitor k
  unfolding from_last get_reg
  from_status fuel (ok status, p) =
      if has status smtirq_smteon then from_last fuel (get_reg k smtlast p) else (returned, p)
  from_status fuel (err e, p) = (failed e, p)

  unfoldable pub irq_bm : (fuel : ℕ) → Monitor k → Outcome × Monitor k
  unfolding from_status get_fastaccess
  irq_bm fuel p =
      if p.is_avionics
      then from_status fuel (get_fastaccess k smtirq_pending p)
      else (failed einval, p)

  -- The label `done`.
  unfoldable pub acknowledge : Monitor k → Monitor k
  acknowledge p =
      let w1 = k.set_gpio p.ackirq_gpio 1 p.world in
      let w2 = k.sleep 1 10 w1 in
      let w3 = k.set_gpio p.ackirq_gpio 0 w2 in
      record p {
        world = k.sleep 100000 1000000 w3;
        lock_depth = p.lock_depth - 1;
        irq_depth = p.irq_depth - 1;
      }

  -- What follows an interrupt of the monitor, whose error is only reported.
  unfoldable pub finish : Outcome × Monitor k → Outcome × Monitor k
  unfolding acknowledge
  finish (returned, p) = (returned, acknowledge p)
  finish (failed e, p) = (returned, acknowledge p)
  finish (faulted, p) = (faulted, p)
  finish (unfinished, p) = (unfinished, p)

  unfoldable pub irq_worker : (fuel : ℕ) → Monitor k → Outcome × Monitor k
  unfolding irq_bm finish get_fastaccess
  irq_worker fuel p =
      let (r, p1) = get_fastaccess k hirq_pending (record p { lock_depth = p.lock_depth + 1 }) in
      elim r [
        | ok status ↦
            if has status hirq_mtip then finish (irq_bm fuel p1) else finish (returned, p1)
        | err e ↦ finish (returned, p1)
      ]

  -- The handler; `is_own` tells whether it is called for the interrupt of this device.
  unfoldable pub irq : (is_own : Bool) → Monitor k → Monitor k
  irq is_own p = if is_own then record p { irq_depth = p.irq_depth + 1; work_pending = true } else p
