-- ===== src/Hi3593/Bringup/Laws.antt =====
-- What the probe of the HI-3593 (driver/devices/hi3593.c) takes from the kernel, it gives back.
use driver_arinc.Prelude.{
  ℕ, ◌+◌, ◌≡◌, ◌≢◌, refl, true, false, List, [], ◌∷◌, ◌++◌, length, length-append, ok, err, Result,
  Step, ◌>>=◌, ◌>>◌, ◌==◌, if◌then◌else◌, arith, Bool-cases, inl, inr, pos, negsuc,
}
use driver_arinc.Kernel.{Kernel}
use driver_arinc.Hi3593.{Port}
use driver_arinc.Hi3593.Settings.{tx_hiz, set_arinc429rx, set_arinc429tx}
use driver_arinc.Hi3593.Bringup.{
  tx_default, rx_default, new_port, Answers, NetDev, Board, write_board, expect, reset, aclk_byte,
  set_aclk, add_tx, create_tx, add_rx, create_rx, create_netdevs,
}

module _ {k : Kernel} where
  -- How many devices of an array are registered, and how many have an interrupt.
  unfoldable pub registrations : List (NetDev k) → ℕ
  registrations [] = 0
  registrations (d ∷ ds) = (if d.registered then 1 else 0) + registrations ds

  unfoldable pub lines : List (NetDev k) → ℕ
  lines [] = 0
  lines (d ∷ ds) = (if d.irq == 0 then 0 else 1) + lines ds

  registrations-append :
      (xs ys : List (NetDev k)) → registrations (xs ++ ys) ≡ registrations xs + registrations ys
  unfolding registrations
  registrations-append [] ys = omega arith
  registrations-append (d ∷ xs) ys = omega (arith, registrations-append xs ys)

  lines-append : (xs ys : List (NetDev k)) → lines (xs ++ ys) ≡ lines xs + lines ys
  unfolding lines
  lines-append [] ys = omega arith
  lines-append (d ∷ xs) ys = omega (arith, lines-append xs ys)

  -- The kernel holds what the arrays and the pointer to the workqueue say.
  pub record IsOwned (b : Board k) : Type 0 where
    pub devices : b.netdevs ≡ length b.tx + length b.rx
    pub registered : b.registered ≡ registrations b.tx + registrations b.rx
    pub interrupts : b.irqs ≡ lines b.tx + lines b.rx
    pub queue : b.workqueues ≡ (if b.wq then 1 else 0)

  -- With interrupt numbers that the kernel gave.
  pub record IsReady (b : Board k) : Type 0 where
    pub owned : IsOwned b
    pub first : b.irq0 ≢ 0
    pub second : b.irq1 ≢ 0

  continue-IsReady :
      {A B : Type 0} (f : A → Step (Board k) B) (r : Result A) (b : Board k)
      → IsReady b
      → ((x : A) (b : Board k) → IsReady b → IsReady (f x b).1)
      → IsReady (elim r as (λ _. Result B × Board k) [ ok x ↦ f x b | err e ↦ (err e, b) ]).1
  continue-IsReady f (ok x) b h hf = hf x b h
  continue-IsReady f (err e) b h hf = h

  -- Steps that keep a board ready, one after the other.
  bind-IsReady :
      {A B : Type 0} (m : Step (Board k) A) (f : A → Step (Board k) B)
      → ((b : Board k) → IsReady b → IsReady (m b).1)
      → ((x : A) (b : Board k) → IsReady b → IsReady (f x b).1)
      → (b : Board k) → IsReady b
      → IsReady ((m >>= f) b).1
  bind-IsReady m f hm hf b h = continue-IsReady f (m b).0 (m b).1 (hm b h) hf

  -- A device at the end of an array, with what the kernel counts for it.
  tx_added :
      (d : NetDev k) (w : k.World) (n : ℕ) (b : Board k)
      → IsReady b
      → d.irq ≡ 0
      → n ≡ b.registered + (if d.registered then 1 else 0)
      → IsReady
          (record b { world = w; tx = b.tx ++ d ∷ []; netdevs = b.netdevs + 1; registered = n })
  unfolding registrations lines
  tx_added d w n b h no_line counted = record {
    owned = record {
      devices = omega (arith, h.owned.devices, length-append b.tx (d ∷ []));
      registered = omega (arith, h.owned.registered, registrations-append b.tx (d ∷ []));
      interrupts = ground (arith, h.owned.interrupts, lines-append b.tx (d ∷ []), no_line);
      queue = h.owned.queue;
    };
    first = h.first;
    second = h.second;
  }

  rx_added :
      (d : NetDev k) (w : k.World) (m n : ℕ) (b : Board k)
      → IsReady b
      → m ≡ b.irqs + (if d.irq == 0 then 0 else 1)
      → n ≡ b.registered + (if d.registered then 1 else 0)
      → IsReady (record b {
        world = w;
        rx = b.rx ++ d ∷ [];
        netdevs = b.netdevs + 1;
        irqs = m;
        registered = n;
      })
  unfolding registrations lines
  rx_added d w m n b h lined counted = record {
    owned = record {
      devices = omega (arith, h.owned.devices, length-append b.rx (d ∷ []));
      registered = omega (arith, h.owned.registered, registrations-append b.rx (d ∷ []));
      interrupts = omega (arith, h.owned.interrupts, lines-append b.rx (d ∷ []));
      queue = h.owned.queue;
    };
    first = h.first;
    second = h.second;
  }

  module _ (hz : ℕ) (a : Answers) where
    add_tx-IsReady :
        (r : Result (Unit {0})) (port : Port k) (b : Board k)
        → IsReady b
        → IsReady (add_tx k hz a (r, port) b).1
    unfolding add_tx
    add_tx-IsReady (ok _) port b h = tx_added _ port.world _ b h refl refl
    add_tx-IsReady (err _) port b h = tx_added _ port.world _ b h refl (omega arith)

    create_tx-IsReady : (b : Board k) → IsReady b → IsReady (create_tx k hz a b).1
    unfolding create_tx
    create_tx-IsReady b h = elim (Bool-cases (a.netdev 0)) [
      | inl room ↦ rw room (
          let (r, port) = set_arinc429tx k tx_default (new_port k hz (pos 0) (negsuc 0) b.world) in
          add_tx-IsReady r port b h)
      | inr none_left ↦ rw none_left h
    ]

    add_rx-IsReady :
        (i irq : ℕ) (r : Result (Unit {0})) (port : Port k) (b : Board k)
        → IsReady b
        → irq ≢ 0
        → IsReady (add_rx k hz a i irq (r, port) b).1
    unfolding add_rx
    add_rx-IsReady i irq (ok _) port b h real = rx_added _ port.world _ _ b h (ground arith) refl
    add_rx-IsReady i irq (err _) port b h real =
        rx_added _ port.world _ _ b h (ground arith) (omega arith)

    create_rx-IsReady :
        (i irq : ℕ) (b : Board k) → IsReady b → irq ≢ 0 → IsReady (create_rx k hz a i irq b).1
    unfolding create_rx
    create_rx-IsReady i irq b h real = elim (Bool-cases (a.netdev (i + 1))) [
      | inr none_left ↦ rw none_left h
      | inl room ↦ elim (Bool-cases (a.request_irq i)) [
        | inl given ↦
            rw (room, given)
              (let port = record (new_port k hz (negsuc 0) (pos i) b.world) { irq_depth = 1 } in
                let (r, port') = set_arinc429rx k rx_default port in
                add_rx-IsReady i irq r port' b h real)
        | inr refused ↦ rw (room, refused) (rx_added _ b.world _ _ b h (omega arith) (omega arith))
      ]
    ]

    board_kept : (b : Board k) (w : k.World) → IsReady b → IsReady (record b { world = w })
    board_kept b w h = record {
      owned = record {
        devices = h.owned.devices;
        registered = h.owned.registered;
        interrupts = h.owned.interrupts;
        queue = h.owned.queue;
      };
      first = h.first;
      second = h.second;
    }

    write_board-IsReady :
        (bytes : List ℕ) (b : Board k) → IsReady b → IsReady (write_board k hz bytes b).1
    unfolding write_board
    write_board-IsReady bytes b h = board_kept b (k.write bytes b.world).1 h

    expect-IsReady : (op n : ℕ) (b : Board k) → IsReady b → IsReady (expect k hz op n b).1
    unfolding expect
    expect-IsReady op n b h = board_kept b (k.w8r8 op b.world).1 h

    pulled : Board k → Board k
    pulled b = record b { world = k.set_gpio b.reset_gpio 0 (k.sleep 100 150 b.world) }

    pub reset-IsReady : (b : Board k) → IsReady b → IsReady (reset k hz b).1
    unfolding reset pulled
    reset-IsReady b h =
        let rest = write_board k hz (0x08 ∷ tx_hiz ∷ []) >> expect k hz 0x80 0x01 in
        let rest_ready : (b : Board k) → IsReady b → IsReady (rest b).1 =
          bind-IsReady (write_board k hz (0x08 ∷ tx_hiz ∷ [])) (λ _. expect k hz 0x80 0x01)
            (write_board-IsReady (0x08 ∷ tx_hiz ∷ [])) (λ _. expect-IsReady 0x80 0x01) in
        elim (Bool-cases (b.reset_gpio == 0)) [
          | inl by_command ↦ rw by_command (
              bind-IsReady (write_board k hz (0x04 ∷ [])) (λ _. rest)
                (write_board-IsReady (0x04 ∷ [])) (λ _. rest_ready) b h)
          | inr by_line ↦ rw by_line (rest_ready (pulled b) (board_kept b (pulled b).world h))
        ]

    pub set_aclk-IsReady : (b : Board k) → IsReady b → IsReady (set_aclk k hz b).1
    unfolding set_aclk
    set_aclk-IsReady b h =
        continue-IsReady (λ byte. write_board k hz (0x38 ∷ byte ∷ []) >> expect k hz 0xd4 byte)
          (aclk_byte k hz b.aclk) b h
          (λ byte.
            bind-IsReady (write_board k hz (0x38 ∷ byte ∷ [])) (λ _. expect k hz 0xd4 byte)
              (write_board-IsReady (0x38 ∷ byte ∷ [])) (λ _. expect-IsReady 0xd4 byte))

    pub create_netdevs-IsReady :
        (b : Board k) → IsReady b → b.wq ≡ false → IsReady (create_netdevs k hz a b).1
    unfolding create_netdevs
    create_netdevs-IsReady b h fresh = elim (Bool-cases a.workqueue) [
      | inr refused ↦ rw refused h
      | inl given ↦
          let second : Step (Board k) (Unit {0}) = λ b. create_rx k hz a 1 b.irq1 b in
          let first : Step (Board k) (Unit {0}) = λ b. create_rx k hz a 0 b.irq0 b in
          let queued = record b { wq = true; workqueues = b.workqueues + 1 } in
          let ready : IsReady queued = record {
            owned = record {
              devices = h.owned.devices;
              registered = h.owned.registered;
              interrupts = h.owned.interrupts;
              queue = ground (arith, h.owned.queue);
            };
            first = h.first;
            second = h.second;
          } in
          rw given (
            bind-IsReady (create_tx k hz a) (λ _. first >> second) create_tx-IsReady
              (λ _.
                bind-IsReady first (λ _. second) (λ b h. create_rx-IsReady 0 b.irq0 b h h.first)
                  (λ _ b h. create_rx-IsReady 1 b.irq1 b h h.second))
              queued ready)
    ]
