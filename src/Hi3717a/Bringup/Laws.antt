-- ===== src/Hi3717a/Bringup/Laws.antt =====
-- What the probe of the HI-3717A (driver/devices/hi3717a.c) takes from the kernel, it gives back; and
-- what its removal does to a worker that is active.
use driver_arinc.Prelude.{
  ℕ, ◌+◌, ◌-◌, ◌≡◌, ◌≢◌, refl, sym, ◌∙◌, ◌/◌, Bool, true, false, Bool-cases, inl, inr, Option, none,
  some, ◌==◌, if◌then◌else◌, Result, Result-cases, ok, err, Step, ◌>>◌, arith,
}
use driver_arinc.Kernel.{Kernel}
use driver_arinc.Hi3717a.{Port}
use driver_arinc.Hi3717a.Control.{set_arinc717rx, set_arinc717tx}
use driver_arinc.Hi3717a.Bringup.{
  Answers, NetDev, Board, rx_default, tx_default, get_config, reset, new_port, finish, create_tx,
  create_rx, create_netdevs, remove_tx, remove_rx, remove, bring_up, new_board, probe,
}
use driver_arinc.Hi3593.Bringup.Probe.{is_ok}

module _ {k : Kernel} where
  -- What the kernel holds for the devices of an array of one.
  abbrev pub devices : Option (NetDev k) → ℕ
  devices none = 0
  devices (some d) = 1

  abbrev pub registrations : Option (NetDev k) → ℕ
  registrations none = 0
  registrations (some d) = if d.registered then 1 else 0

  abbrev pub lines : Option (NetDev k) → ℕ
  lines none = 0
  lines (some d) = if d.irq == 0 then 0 else 1

  abbrev pub works : Option (NetDev k) → ℕ
  works none = 0
  works (some d) = if d.worker_active then 1 else 0

  -- The kernel holds what the board says; no work has been queued.
  pub record IsOwned (b : Board k) : Type 0 where
    pub netdevs : b.netdevs ≡ devices b.tx + devices b.rx
    pub registered : b.registered ≡ registrations b.tx + registrations b.rx
    pub interrupts : b.irqs ≡ lines b.rx
    pub queue : b.workqueues ≡ (if b.wq then 1 else 0)
    pub idle : works b.tx ≡ 0
    pub no_orphans : b.orphans ≡ 0

  -- The kernel holds nothing for the driver.
  pub record IsReleased (b : Board k) : Type 0 where
    pub netdevs : b.netdevs ≡ 0
    pub registered : b.registered ≡ 0
    pub interrupts : b.irqs ≡ 0
    pub queue : b.workqueues ≡ 0
    pub no_orphans : b.orphans ≡ 0

  remove_lem :
      (b : Board k)
      → let b' = remove k b in
        (b'.netdevs ≡ b.netdevs - devices b.tx - devices b.rx)
        × (b'.registered ≡ b.registered - registrations b.tx - registrations b.rx)
        × (b'.irqs ≡ b.irqs - lines b.rx)
        × (b'.workqueues ≡ b.workqueues - (if b.wq then 1 else 0))
        × (b'.orphans ≡ b.orphans + works b.tx)
  unfolding remove remove_tx remove_rx
  remove_lem b = ground arith

  remove-IsReleased : (b : Board k) → IsOwned b → IsReleased (remove k b)
  remove-IsReleased b h =
      let r = remove_lem b in
      record {
        netdevs = ground (arith, r, h.netdevs);
        registered = ground (arith, r, h.registered);
        interrupts = ground (arith, r, h.interrupts);
        queue = ground (arith, r, h.queue);
        no_orphans = ground (arith, r, h.idle, h.no_orphans);
      }

  -- The receive worker is cancelled before its device is freed, but an active transmit worker is
  -- left to run on the memory of a device that is freed.
  pub remove_orphans : (b : Board k) → (remove k b).orphans ≡ b.orphans + works b.tx
  remove_orphans b = (remove_lem b).4

  finish_lem :
      (registers : Bool) (irq : ℕ) (r : Result (Unit {0}) × Port k)
      → let d = (finish k registers irq r).1 in (d.irq ≡ irq) × (d.worker_active ≡ false)
  unfolding finish
  finish_lem registers irq (ok x, port) = (refl, refl)
  finish_lem registers irq (err e, port) = (refl, refl)

  create_tx-IsOwned :
      (a : Answers) (b : Board k)
      → IsOwned b
      → b.tx ≡ none
      → let b' = (create_tx k a b).1 in IsOwned b' × (b'.rx ≡ b.rx) × (b'.irq ≡ b.irq)
  unfolding create_tx
  create_tx-IsOwned a b h fresh =
      let made = finish_lem a.register_tx 0 (set_arinc717tx k tx_default (new_port k b)) in
      elim (Bool-cases a.tx_netdev) [
        | inr refused ↦ rw refused (h, refl, refl)
        | inl given ↦ rw given (
          record {
            netdevs = ground (arith, h.netdevs, fresh);
            registered = ground (arith, h.registered, fresh);
            interrupts = h.interrupts;
            queue = h.queue;
            idle = ground (arith, made);
            no_orphans = h.no_orphans;
          },
          refl,
          refl,
        )
      ]

  create_rx-IsOwned :
      (a : Answers) (b : Board k)
      → IsOwned b
      → b.rx ≡ none
      → b.irq ≢ 0
      → IsOwned (create_rx k a b).1
  unfolding create_rx
  create_rx-IsOwned a b h fresh real =
      let port = record (new_port k b) { irq_depth = 1 } in
      let made = finish_lem a.register_rx b.irq (set_arinc717rx k rx_default port) in
      elim (Bool-cases a.rx_netdev) [
        | inr refused ↦ rw refused h
        | inl room ↦ elim (Bool-cases a.request_irq) [
          | inr refused ↦
              rw (room, refused)
                (record {
                  netdevs = ground (arith, h.netdevs, fresh);
                  registered = ground (arith, h.registered, fresh);
                  interrupts = ground (arith, h.interrupts, fresh);
                  queue = h.queue;
                  idle = h.idle;
                  no_orphans = h.no_orphans;
                })
          | inl given ↦
              rw (room, given)
                (record {
                  netdevs = ground (arith, h.netdevs, fresh);
                  registered = ground (arith, h.registered, fresh);
                  interrupts = ground (arith, h.interrupts, fresh, made, real);
                  queue = h.queue;
                  idle = h.idle;
                  no_orphans = h.no_orphans;
                })
        ]
      ]

  -- A step behind another one.
  go_on :
      {A B : Type 0} (P : Board k → Type 0) (f : A → Step (Board k) B) (r : Result A) (b : Board k)
      → P b
      → ((x : A) → r ≡ ok x → P (f x b).1)
      → P (elim r as (λ _. Result B × Board k) [ ok x ↦ f x b | err e ↦ (err e, b) ]).1
  go_on P f (ok x) b here next = next x refl
  go_on P f (err e) b here next = here

  create_netdevs-IsOwned :
      (a : Answers) (b : Board k)
      → IsOwned b
      → b.tx ≡ none
      → b.rx ≡ none
      → b.wq ≡ false
      → b.irq ≢ 0
      → IsOwned (create_netdevs k a b).1
  unfolding create_netdevs
  create_netdevs-IsOwned a b h no_tx no_rx fresh real =
      let b1 = record b { period_usec = 1000000 / 64; wq = true; workqueues = b.workqueues + 1 } in
      let h1 : IsOwned b1 = record {
        netdevs = h.netdevs;
        registered = h.registered;
        interrupts = h.interrupts;
        queue = ground (arith, h.queue, fresh);
        idle = h.idle;
        no_orphans = h.no_orphans;
      } in
      let (h2, rx, irq) = create_tx-IsOwned a b1 h1 no_tx in
      let b2 = (create_tx k a b1).1 in
      elim (Bool-cases a.workqueue) [
        | inr refused ↦ rw refused (record {
          netdevs = h.netdevs;
          registered = h.registered;
          interrupts = h.interrupts;
          queue = h.queue;
          idle = h.idle;
          no_orphans = h.no_orphans;
        })
        | inl given ↦ rw given (
            go_on IsOwned (λ _. create_rx k a) (create_tx k a b1).0 b2 h2
              (λ _ _. create_rx-IsOwned a b2 h2 (rx ∙ no_rx) (λ z. real (sym irq ∙ z))))
      ]

  -- The configuration takes nothing that is counted.
  get_config_lem :
      (a : Answers) (w : k.World)
      → let (r, b) = get_config k a (new_board k w) in
        IsOwned b × (b.tx ≡ none) × (b.rx ≡ none) × (b.wq ≡ false) × (r ≡ ok tt → b.irq ≡ a.irq)
  unfolding get_config new_board
  get_config_lem a w = (
    record {
      netdevs = ground arith;
      registered = ground arith;
      interrupts = ground arith;
      queue = ground arith;
      idle = ground arith;
      no_orphans = ground arith;
    },
    ground arith,
    ground arith,
    ground arith,
    λ found. ground (arith, found),
  )

  world-IsOwned : (w : k.World) (b : Board k) → IsOwned b → IsOwned (record b { world = w })
  world-IsOwned w b h = record {
    netdevs = h.netdevs;
    registered = h.registered;
    interrupts = h.interrupts;
    queue = h.queue;
    idle = h.idle;
    no_orphans = h.no_orphans;
  }

  bring_up-IsOwned :
      (a : Answers) (w : k.World) → a.irq ≢ 0 → IsOwned (bring_up k a (new_board k w)).1
  unfolding bring_up reset
  bring_up-IsOwned a w real =
      let b = (get_config k a (new_board k w)).1 in
      let (owned, no_tx, no_rx, fresh, numbered) = get_config_lem a w in
      let b1 = (reset k b).1 in
      let owned1 = world-IsOwned b1.world b owned in
      go_on IsOwned (λ _. reset k >> create_netdevs k a) (get_config k a (new_board k w)).0 b owned
        (λ x found.
          go_on IsOwned (λ _. create_netdevs k a) (reset k b).0 b1 owned1
            (λ _ _.
              create_netdevs-IsOwned a b1 owned1 no_tx no_rx fresh
                (λ z. real (sym (numbered found) ∙ z))))

  -- Whatever the kernel answers and the chip does, a probe of the HI-3717A that fails leaves no
  -- network device, interrupt, workqueue or work behind, and after a probe that succeeds the removal
  -- gives all of them back, as long as no work was queued. The interrupt of the device tree has a
  -- number other than 0.
  pub probe_gives_back :
      (a : Answers) (w : k.World)
      → a.irq ≢ 0
      → let (r, b) = probe k a w in IsReleased (if is_ok r then remove k b else b)
  unfolding probe new_board
  probe_gives_back a w real =
      let b = (bring_up k a (new_board k w)).1 in
      let released = remove-IsReleased b (bring_up-IsOwned a w real) in
      elim (Bool-cases a.memory) [
        | inr short ↦ rw short (record {
          netdevs = refl;
          registered = refl;
          interrupts = refl;
          queue = refl;
          no_orphans = refl;
        })
        | inl given ↦ elim (Result-cases (bring_up k a (new_board k w)).0) [
          | inl (x, e) ↦ rw (given, e) released
          | inr (x, e) ↦ rw (given, e) released
        ]
      ]
