-- ===== src/Hi6138/Probe/Laws.antt =====
-- What the probe of the HI-6138 (driver/devices/hi6138.c) takes from the kernel, it gives back.
use driver_arinc.Prelude.{
  ◌+◌, ◌≡◌, ◌≢◌, refl, true, false, Bool-cases, inl, inr, ◌==◌, if◌then◌else◌, Result, Result-cases,
  ok, err, Step, ◌>>◌, arith,
}
use driver_arinc.Kernel.{Kernel}
use driver_arinc.Hi6138.{Monitor}
use driver_arinc.Hi6138.Monitoring.{set_mil1553bm}
use driver_arinc.Hi6138.Bringup.{reset}
use driver_arinc.Hi6138.Probe.{
  Answers, Board, on_port, take_gpio, get_config, set_default, create_netdevs, remove_bm, remove,
  bring_up, new_board, probe,
}
use driver_arinc.Hi3593.Bringup.Probe.{is_ok}

-- The kernel holds what the board says.
pub record IsOwned {k : Kernel} (b : Board k) : Type 0 where
  pub devices : b.netdevs ≡ (if b.bm then 1 else 0)
  pub registrations : b.registered ≡ (if b.bm then (if b.bm_registered then 1 else 0) else 0)
  pub interrupts : b.requests ≡ b.frees + (if b.irq == 0 then 0 else 1)
  pub queue : b.workqueues ≡ (if b.wq then 1 else 0)

-- The kernel holds nothing for the driver.
pub record IsReleased {k : Kernel} (b : Board k) : Type 0 where
  pub devices : b.netdevs ≡ 0
  pub registrations : b.registered ≡ 0
  pub interrupts : b.frees ≡ b.requests
  pub queue : b.workqueues ≡ 0

module _ {k : Kernel} where
  remove-IsReleased : (b : Board k) → IsOwned b → IsReleased (remove k b)
  unfolding remove remove_bm
  remove-IsReleased b h = record {
    devices = ground (arith, h.devices);
    registrations = ground (arith, h.registrations);
    interrupts = ground (arith, h.interrupts);
    queue = ground (arith, h.queue);
  }

  get_config-IsOwned :
      (a : Answers) (p : Monitor k)
      → a.irq ≢ 0
      → a.request_irq ≡ true
      → let b = (get_config k a (new_board k p)).1 in
        IsOwned b × (b.bm ≡ false) × (b.bm_registered ≡ false) × (b.wq ≡ false)
  unfolding get_config take_gpio new_board
  get_config-IsOwned a p real given = (
    record {
      devices = ground (arith, given);
      registrations = ground (arith, given);
      interrupts = ground (arith, given, real);
      queue = ground (arith, given);
    },
    ground (arith, given),
    ground (arith, given),
    ground (arith, given),
  )

  create_netdevs-IsOwned :
      (a : Answers) (b : Board k)
      → IsOwned b
      → b.bm ≡ false
      → b.bm_registered ≡ false
      → b.wq ≡ false
      → IsOwned (create_netdevs k a b).1
  unfolding create_netdevs set_default on_port set_mil1553bm
  create_netdevs-IsOwned a b h none unregistered fresh = record {
    devices = ground (arith, h.devices, none);
    registrations = ground (arith, h.registrations, none, unregistered);
    interrupts = ground (arith, h.interrupts);
    queue = ground (arith, h.queue, fresh);
  }

  -- A step behind another one.
  go_on :
      {A B : Type 0} (P : Board k → Type 0) (f : A → Step (Board k) B) (r : Result A) (b : Board k)
      → P b
      → ((x : A) → P (f x b).1)
      → P (elim r as (λ _. Result B × Board k) [ ok x ↦ f x b | err e ↦ (err e, b) ]).1
  go_on P f (ok x) b here next = next x
  go_on P f (err e) b here next = here

  on_port-IsOwned :
      {A : Type 0} (m : Step (Monitor k) A) (b : Board k) → IsOwned b → IsOwned (on_port k m b).1
  unfolding on_port
  on_port-IsOwned m b h = record {
    devices = h.devices;
    registrations = h.registrations;
    interrupts = h.interrupts;
    queue = h.queue;
  }

  bring_up-IsOwned :
      (a : Answers) (p : Monitor k)
      → a.irq ≢ 0
      → a.request_irq ≡ true
      → IsOwned (bring_up k a (new_board k p)).1
  unfolding bring_up on_port
  bring_up-IsOwned a p real given =
      let b = (get_config k a (new_board k p)).1 in
      let (owned, none, unregistered, fresh) = get_config-IsOwned a p real given in
      let m = reset k b.reset_gpio in
      let b1 = (on_port k m b).1 in
      let owned1 = on_port-IsOwned m b owned in
      go_on IsOwned (λ _. on_port k m >> create_netdevs k a) (get_config k a (new_board k p)).0 b
        owned
        (λ _.
          go_on IsOwned (λ _. create_netdevs k a) (on_port k m b).0 b1 owned1
            (λ _. create_netdevs-IsOwned a b1 owned1 none unregistered fresh))

  -- Whatever else the kernel answers and the chip does: where the interrupt has a number other than
  -- 0 and is granted, a probe that fails leaves no network device, interrupt or workqueue behind, and
  -- after a probe that succeeds the removal gives all of them back.
  pub probe_releases :
      (a : Answers) (p : Monitor k)
      → a.irq ≢ 0
      → a.request_irq ≡ true
      → let (r, b) = probe k a p in IsReleased (if is_ok r then remove k b else b)
  unfolding probe new_board
  probe_releases a p real given =
      let b = (bring_up k a (new_board k p)).1 in
      let owned = bring_up-IsOwned a p real given in
      elim (Bool-cases a.memory) [
        | inr short ↦
            rw short
              (record { devices = refl; registrations = refl; interrupts = refl; queue = refl })
        | inl enough ↦ elim (Result-cases (bring_up k a (new_board k p)).0) [
          | inl (x, e) ↦
              rw (enough, e)
                (remove-IsReleased _ (record {
                  devices = owned.devices;
                  registrations = owned.registrations;
                  interrupts = owned.interrupts;
                  queue = owned.queue;
                }))
          | inr (x, e) ↦ rw (enough, e) (remove-IsReleased b owned)
        ]
      ]

  -- Without GPIOs, an interrupt that is refused is given back nevertheless.
  pub probe_frees_unrequested :
      (a : Answers) (p : Monitor k)
      → a.memory ≡ true
      → a.reset_gpio ≡ 0
      → a.ackirq_gpio ≡ 0
      → a.irq ≢ 0
      → a.request_irq ≡ false
      → let b = (probe k a p).1 in (b.requests ≡ 0) × (b.frees ≡ 1)
  unfolding probe bring_up get_config take_gpio on_port remove remove_bm new_board
  probe_frees_unrequested a p enough no_reset no_ack real refused = (
    ground (arith, enough, no_reset, no_ack, real, refused),
    ground (arith, enough, no_reset, no_ack, real, refused),
  )
