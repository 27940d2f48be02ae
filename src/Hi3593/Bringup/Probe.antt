-- ===== src/Hi3593/Bringup/Probe.antt =====
-- The probe of the HI-3593 as a whole, and the removal of its devices (hi3593_probe and
-- hi3593_remove of driver/devices/hi3593.c).
use driver_arinc.Prelude.{
  ℕ, ◌-◌, ◌≡◌, ◌≢◌, refl, ◌∙◌, Bool, true, false, List, [], ◌∷◌, length, ok, err, Result,
  Result-cases, Bool-cases, inl, inr, ◌==◌, if◌then◌else◌, arith, ◌>>◌,
}
use driver_arinc.Kernel.{Kernel}
use driver_arinc.Hi3593.Bringup.{
  Answers, NetDev, Board, get_config, write_board, expect, reset, set_aclk, create_netdevs,
  remove_all, remove, bring_up, new_board, probe,
}
use driver_arinc.Hi3593.Bringup.Laws.{
  registrations, lines, IsOwned, IsReady, reset-IsReady, set_aclk-IsReady, create_netdevs-IsReady,
}

-- The kernel holds nothing for the driver.
pub record IsReleased {k : Kernel} (b : Board k) : Type 0 where
  pub netdevs : b.netdevs ≡ 0
  pub registered : b.registered ≡ 0
  pub irqs : b.irqs ≡ 0
  pub workqueues : b.workqueues ≡ 0

abbrev pub is_ok : {A : Type 0} → Result A → Bool
is_ok (ok x) = true
is_ok (err e) = false

module _ (k : Kernel) (hz : ℕ) where
  remove_all_lem :
      (ds : List (NetDev k)) (b : Board k)
      → let b' = remove_all k hz ds b in
        (b'.netdevs ≡ b.netdevs - length ds)
        × (b'.registered ≡ b.registered - registrations ds)
        × (b'.irqs ≡ b.irqs - lines ds)
        × (b'.workqueues ≡ b.workqueues)
        × (b'.rx ≡ b.rx)
        × (b'.wq ≡ b.wq)
  unfolding remove_all registrations lines
  remove_all_lem [] b = (omega arith, omega arith, omega arith, refl, refl, refl)
  remove_all_lem (d ∷ ds) b =
      let b1 = record b {
        irqs = b.irqs - (if d.irq == 0 then 0 else 1);
        registered = b.registered - (if d.registered then 1 else 0);
        netdevs = b.netdevs - 1;
      } in
      let (a1, a2, a3, a4, a5, a6) = remove_all_lem ds b1 in
      (omega (arith, a1), omega (arith, a2), omega (arith, a3), a4, a5, a6)

  remove-IsReleased : (b : Board k) → IsOwned b → IsReleased (remove k hz b)
  unfolding remove
  remove-IsReleased b h =
      let b1 = record (remove_all k hz b.tx b) { tx = [] } in
      let t = remove_all_lem b.tx b in
      let r = remove_all_lem b.rx b1 in
      record {
        netdevs = ground (arith, t, r, h.devices);
        registered = ground (arith, t, r, h.registered);
        irqs = ground (arith, t, r, h.interrupts);
        workqueues = ground (arith, t, r, h.queue);
      }

  new_board-IsOwned : (w : k.World) → IsOwned (new_board k hz w)
  unfolding new_board registrations lines
  new_board-IsOwned w = record {
    devices = refl;
    registered = refl;
    interrupts = refl;
    queue = refl;
  }

  new_board_wq : (w : k.World) → (new_board k hz w).wq ≡ false
  unfolding new_board
  new_board_wq w = refl

  new_board-IsReleased : (w : k.World) → IsReleased (new_board k hz w)
  unfolding new_board
  new_board-IsReleased w = record {
    netdevs = refl;
    registered = refl;
    irqs = refl;
    workqueues = refl;
  }

  -- Reading the configuration takes nothing.
  get_config_keeps :
      (a : Answers) (b : Board k)
      → let b' = (get_config k hz a b).1 in
        (b'.netdevs ≡ b.netdevs)
        × (b'.registered ≡ b.registered)
        × (b'.irqs ≡ b.irqs)
        × (b'.workqueues ≡ b.workqueues)
        × (b'.wq ≡ b.wq)
        × (b'.tx ≡ b.tx)
        × (b'.rx ≡ b.rx)
  unfolding get_config
  get_config_keeps a b = ground arith

  get_config_irqs :
      (a : Answers) (b : Board k)
      → (get_config k hz a b).0 ≡ ok tt
      → let b' = (get_config k hz a b).1 in (a.irq 0 ≡ ok b'.irq0) × (a.irq 1 ≡ ok b'.irq1)
  unfolding get_config
  get_config_irqs a b h = ground arith

  reset_wq : (b : Board k) → (reset k hz b).1.wq ≡ b.wq
  unfolding reset write_board expect
  reset_wq b = ground arith

  set_aclk_wq : (b : Board k) → (set_aclk k hz b).1.wq ≡ b.wq
  unfolding set_aclk write_board expect
  set_aclk_wq b = ground arith

  -- A step behind a call, which runs where the call succeeded.
  go_on :
      (P : Board k → Type 0) (m : Board k → Result (Unit {0}) × Board k) (r : Result (Unit {0}))
      (c : Board k)
      → P c
      → (r ≡ ok tt → P (m c).1)
      → P (elim r as (λ _. Result (Unit {0}) × Board k) [ ok _ ↦ m c | err e ↦ (err e, c) ]).1
  go_on P m (ok _) c hc hm = hm refl
  go_on P m (err e) c hc hm = hc

  -- The steps behind the configuration, on a board whose interrupts have numbers.
  after_config :
      (a : Answers) (b : Board k)
      → IsReady b
      → b.wq ≡ false
      → IsOwned ((reset k hz >> (set_aclk k hz >> create_netdevs k hz a)) b).1
  after_config a b h fresh =
      let b1 = (reset k hz b).1 in
      let b2 = (set_aclk k hz b1).1 in
      let h1 = reset-IsReady hz a b h in
      let h2 = set_aclk-IsReady hz a b1 h1 in
      let h3 = create_netdevs-IsReady hz a b2 h2 (set_aclk_wq b1 ∙ reset_wq b ∙ fresh) in
      go_on IsOwned (set_aclk k hz >> create_netdevs k hz a) (reset k hz b).0 b1 h1.owned (λ _.
        go_on IsOwned (create_netdevs k hz a) (set_aclk k hz b1).0 b2 h2.owned (λ _. h3.owned))

  bring_up-IsOwned :
      (a : Answers) (w : k.World)
      → ((i n : ℕ) → a.irq i ≡ ok n → n ≢ 0)
      → IsOwned (bring_up k hz a (new_board k hz w)).1
  unfolding bring_up
  bring_up-IsOwned a w real =
      let b0 = new_board k hz w in
      let b = (get_config k hz a b0).1 in
      let (k1, k2, k3, k4, k5, k6, k7) = get_config_keeps a b0 in
      let start = new_board-IsOwned w in
      let owned : IsOwned b = record {
        devices = ground (arith, k1, k6, k7, start.devices);
        registered = ground (arith, k2, k6, k7, start.registered);
        interrupts = ground (arith, k3, k6, k7, start.interrupts);
        queue = ground (arith, k4, k5, start.queue);
      } in
      go_on IsOwned (reset k hz >> (set_aclk k hz >> create_netdevs k hz a))
        (get_config k hz a b0).0 b owned
        (λ found.
          let (irq0, irq1) = get_config_irqs a b0 found in
          after_config a b
            (record { owned = owned; first = real 0 b.irq0 irq0; second = real 1 b.irq1 irq1 })
            (k5 ∙ new_board_wq w))

  -- Whatever the device tree says, the kernel answers and the chip does: a probe that fails leaves
  -- no network device, interrupt or workqueue behind, and after a probe that succeeds the removal
  -- gives all of them back. The interrupts of the device tree have numbers other than 0.
  pub probe-IsReleased :
      (a : Answers) (w : k.World)
      → ((i n : ℕ) → a.irq i ≡ ok n → n ≢ 0)
      → let (r, b) = probe k hz a w in IsReleased (if is_ok r then remove k hz b else b)
  unfolding probe
  probe-IsReleased a w real =
      let b = (bring_up k hz a (new_board k hz w)).1 in
      let released = remove-IsReleased b (bring_up-IsOwned a w real) in
      elim (Bool-cases a.memory) [
        | inr short ↦ rw short (new_board-IsReleased w)
        | inl given ↦ elim (Result-cases (bring_up k hz a (new_board k hz w)).0) [
          | inl (x, e) ↦ rw (given, e) released
          | inr (x, e) ↦ rw (given, e) released
        ]
      ]
