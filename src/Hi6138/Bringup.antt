-- ===== src/Hi6138/Bringup.antt =====
-- The reset of the HI-6138 and the set-up of its stacks: `hi6138_reset` and `hi6138_init_smt_mem` of
-- driver/devices/hi6138.c.
use driver_arinc.Prelude.{
  ℕ, ◌/◌, ◌^◌, ◌≡◌, ◌≢◌, ◌⊎◌, List, [], ◌∷◌, bit_and, ◌==◌, ok, err, eperm, Step, ◌>>=◌, ◌>>◌,
  modify, require, arith,
}
use driver_arinc.Kernel.{Kernel}
use driver_arinc.Kernel.WordMemory.{HasMemory, AreWords}
use driver_arinc.Hi6138.{Monitor, reg_mcfg1, cmd_stack_start, cmd_stack_end}
use driver_arinc.Hi6138.Memory.{set_fastaccess, get_mem, set_mem, get_reg}
use driver_arinc.Hi6138.Memory.Laws.{get_reg-word, get_mem-set_mem}

-- The bounds of the command stack and of the data stack.
abbrev pub smt_addr_list : List ℕ
smt_addr_list =
    cmd_stack_start ∷ cmd_stack_start ∷ cmd_stack_end ∷ 0x0adf ∷ 0x0b00 ∷ 0x0b00 ∷ 0x1fff ∷ 0x18ff
    ∷ []

module _ (k : Kernel) where
  unfoldable pub init_smt_mem : Step (Monitor k) (Unit {0})
  unfolding set_fastaccess set_mem
  init_smt_mem = do set_fastaccess k 0x002f 0x00b0; set_mem k 0x00b0 smt_addr_list

  -- The reset line is pulled low and let go.
  unfoldable pub pulse_reset : (reset_gpio : ℕ) → Monitor k → Monitor k
  pulse_reset gpio p =
      let w1 = k.sleep 1000 1500 (k.set_gpio gpio 0 p.world) in
      record p { world = k.sleep 1000 1500 (k.set_gpio gpio 1 w1) }

  -- The code -1 is that of EPERM.
  unfoldable pub reset : (reset_gpio : ℕ) → Step (Monitor k) (Unit {0})
  unfolding pulse_reset get_reg set_fastaccess init_smt_mem
  reset gpio = do
    modify (pulse_reset gpio)
    mcfg2 ← get_reg k 0x004e
    require (bit_and (mcfg2 / 2 ^ 12) 0x03 == 0x03) eperm
    require (bit_and (mcfg2 / 2 ^ 8) 0x0f == 0x01) eperm
    set_fastaccess k reg_mcfg1 0xc004
    set_fastaccess k 0x000f 0xe007
    set_fastaccess k 0x0013 0xe007
    init_smt_mem

module _ {k : Kernel} {mem : k.World → ℕ → ℕ} (chip : HasMemory k mem) where
  -- A chip with another device ID or revision is refused with EPERM, and its memory is as the reset
  -- left it.
  pub reset_refuses :
      (gpio : ℕ) (p : Monitor k)
      → let w = (pulse_reset k gpio p).world in
        ((bit_and (mem w 0x004e / 2 ^ 12) 0x03 ≢ 0x03)
          ⊎ (bit_and (mem w 0x004e / 2 ^ 8) 0x0f ≢ 0x01))
        → let (r, p') = reset k gpio p in (r ≡ err eperm) × (mem p'.world ≡ mem w)
  unfolding reset
  reset_refuses gpio p other =
      let p1 = pulse_reset k gpio p in
      let (w, ran, kept) = get_reg-word chip 0x004e p1 (omega arith) in
      (ground (arith, ran, other), ground (arith, ran, other, kept))

  -- The bounds of the stacks are then in the memory, where SMTSTART points; a command stack of these
  -- bounds has 160 entries.
  pub init_smt_mem-sets :
      (p : Monitor k)
      → (set_fastaccess k 0x002f 0x00b0 p).0 ≡ ok tt
      → let (r, p') = init_smt_mem k p in
        (r ≡ ok tt) × ((get_mem k 0x00b0 8 p').0 ≡ ok smt_addr_list)
  unfolding init_smt_mem AreWords
  init_smt_mem-sets p starts =
      let p1 = (set_fastaccess k 0x002f 0x00b0 p).1 in
      let words : AreWords smt_addr_list = (
        omega arith,
        (
          omega arith,
          (
            omega arith,
            (omega arith, (omega arith, (omega arith, (omega arith, (omega arith, tt))))),
          ),
        ),
      ) in
      let (wrote, reads, _) = get_mem-set_mem chip 0x00b0 smt_addr_list p1 (omega arith) words in
      (ground (arith, starts, wrote), ground (arith, starts, wrote, reads))
