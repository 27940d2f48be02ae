-- ===== src/Hi3593/Settings/Laws.antt =====
-- Settings of the HI-3593 that are written and read back, on a chip that keeps its data sheet
-- (driver/devices/hi3593.c).
use driver_arinc.Prelude.{
  ℕ, ◌<◌, ◌≡◌, refl, ap, true, false, [], ◌∷◌, length, bit_and, bit_or, ℤ, pos, negsuc, has,
  if◌then◌else◌, take-eq_of_length, ok, arith,
}
use driver_arinc.Bits.{bit_or-split, bit_and-bit_and, bit_and-ones}
use driver_arinc.Kernel.{Kernel}
use driver_arinc.Kernel.Register.{IsRegister}
use driver_arinc.Kernel.Receiver.{Receiver, Opcodes, IsReceiver}
use driver_arinc.Hi3593.{Port, read_bytes}
use driver_arinc.Hi3593.Control.{get_cntrl_opcode, set_cntrl_opcode}
use driver_arinc.Hi3593.Control.Laws.{HasControl, set_cntrl-sets, get_cntrl_lem}
use driver_arinc.Hi3593.Settings.{
  Arinc429rx, tx_hiz, get_arinc429rx, set_arinc429rx, get_arinc429tx, set_arinc429tx, tx_open,
  tx_stop, rx_opcodes,
}

-- The opcodes of the first and of the second receiver.
abbrev pub rx1_opcodes : Opcodes
rx1_opcodes = record {
  read_control = 0x94;
  write_control = 0x10;
  read_labels = 0x9c;
  write_labels = 0x18;
  read_filters = 0x98;
  write_filters = 0x14;
}

abbrev pub rx2_opcodes : Opcodes
rx2_opcodes = record {
  read_control = 0xb4;
  write_control = 0x24;
  read_labels = 0xbc;
  write_labels = 0x2c;
  read_filters = 0xb8;
  write_filters = 0x28;
}

-- The opcodes that the indices of a port select.
pub record Selects (o : Opcodes) (tx_index rx_index : ℤ) : Type 0 where
  pub get_control : get_cntrl_opcode tx_index rx_index ≡ ok o.read_control
  pub set_control : set_cntrl_opcode tx_index rx_index ≡ ok o.write_control
  pub get_rx : rx_opcodes (0x9c, 0x98) (0xbc, 0xb8) rx_index ≡ ok (o.read_labels, o.read_filters)
  pub set_rx : rx_opcodes (0x18, 0x14) (0x2c, 0x28) rx_index ≡ ok (o.write_labels, o.write_filters)

pub Selects-rx1 : Selects rx1_opcodes (negsuc 0) (pos 0)
unfolding get_cntrl_opcode set_cntrl_opcode rx_opcodes
Selects-rx1 = record { get_control = refl; set_control = refl; get_rx = refl; set_rx = refl }

pub Selects-rx2 : Selects rx2_opcodes (negsuc 0) (pos 1)
unfolding get_cntrl_opcode set_cntrl_opcode rx_opcodes
Selects-rx2 = record { get_control = refl; set_control = refl; get_rx = refl; set_rx = refl }

flags_rebuilt : (f : ℕ) → f < 256 → bit_or (bit_and f 0xfe) (if has f 0x01 then 0x01 else 0) ≡ f
flags_rebuilt f h = ground (arith, bit_or-split f h, bit_and-ones 1 f)

module _ {k : Kernel} {view : k.World → Receiver} {o : Opcodes} (chip : IsReceiver k o view) where
  control_register : IsRegister k o.read_control o.write_control (λ w. (view w).control)
  control_register = record {
    is_byte = chip.control_byte;
    reads = chip.reads_control;
    read_keeps = λ w. ap (λ v. v.control) (chip.read_control_keeps w);
    writes = chip.writes_control;
    write_sets = λ b w h. ap (λ v. v.control) (chip.write_control_sets b w h);
  }

  control :
      (p : Port k)
      → Selects o p.tx_index p.rx_index
      → HasControl k o.read_control o.write_control (λ w. (view w).control) p.tx_index p.rx_index
  control p s = record {
    read_opcode = s.get_control;
    write_opcode = s.set_control;
    register = control_register;
  }

  -- The state after a successful `hi3593_set_arinc429rx`.
  set_arinc429rx_run :
      (config : Arinc429rx) (p : Port k)
      → Selects o p.tx_index p.rx_index
      → p.is_avionics ≡ true
      → length config.priority_labels ≡ 3
      → length config.label_filters ≡ 32
      → (w : k.World) × (set_arinc429rx k config p ≡ (
        ok tt,
        record p {
          world = w;
          even_parity = if has config.flags 0x01 then 0x01 else 0;
          check_parity = if has config.flags 0x08 then 0x08 else 0;
        },
      ))
        × (bit_and (view w).control 0xfe ≡ bit_and config.flags 0xfe)
        × ((view w).labels ≡ config.priority_labels)
        × ((view w).filters ≡ config.label_filters)
  unfolding set_arinc429rx
  set_arinc429rx_run config p s av hl hf =
      let (w, ran, field, _) = set_cntrl-sets config.flags 0xfe p (control p s) (omega arith) in
      let labels = config.priority_labels in
      let filters = config.label_filters in
      let w1 = (k.write (o.write_labels ∷ labels) w).1 in
      let w2 = (k.write (o.write_filters ∷ filters) w1).1 in
      (
        w2,
        ground (
          arith,
          av,
          ran,
          s.set_rx,
          take-eq_of_length 3 labels hl,
          take-eq_of_length 32 filters hf,
          chip.writes_labels labels w hl,
          chip.writes_filters filters w1 hf,
        ),
        rw (chip.write_filters_sets filters w1 hf, chip.write_labels_sets labels w hl) field,
        rw (chip.write_filters_sets filters w1 hf, chip.write_labels_sets labels w hl) refl,
        rw (chip.write_filters_sets filters w1 hf) refl,
      )

  reads_view :
      (old : Arinc429rx) (p : Port k)
      → Selects o p.tx_index p.rx_index
      → p.is_avionics ≡ true
      → (get_arinc429rx k old p).0 ≡ record {
        flags = bit_or (bit_and (view p.world).control 0xfe) p.even_parity;
        priority_labels = (view p.world).labels;
        label_filters = (view p.world).filters;
      }
  unfolding get_arinc429rx read_bytes
  reads_view old p s av =
      let w1 = (k.w8r8 o.read_control p.world).1 in
      let w2 = (k.write_then_read (o.read_labels ∷ []) 3 w1).1 in
      ground (
        arith,
        av,
        get_cntrl_lem p (control p s),
        s.get_rx,
        chip.reads_labels w1,
        chip.read_control_keeps p.world,
        chip.reads_filters w2,
        chip.read_labels_keeps w1,
      )

  -- The receiver settings that `hi3593_set_arinc429rx` accepts are those that
  -- `hi3593_get_arinc429rx` then reports, whatever its argument held before: all eight flags, the
  -- priority labels and the label filters. The chip's registers read back what was written.
  pub get_arinc429rx-set_arinc429rx :
      (config old : Arinc429rx) (p : Port k)
      → Selects o p.tx_index p.rx_index
      → p.is_avionics ≡ true
      → config.flags < 256
      → length config.priority_labels ≡ 3
      → length config.label_filters ≡ 32
      → let (r, p') = set_arinc429rx k config p in
        (r ≡ ok tt) × ((get_arinc429rx k old p').0 ≡ config)
  get_arinc429rx-set_arinc429rx config old p s av small hl hf =
      let (w, ran, field, labels, filters) = set_arinc429rx_run config p s av hl hf in
      let q = record p {
        world = w;
        even_parity = if has config.flags 0x01 then 0x01 else 0;
        check_parity = if has config.flags 0x08 then 0x08 else 0;
      } in
      let sq : Selects o q.tx_index q.rx_index = s in
      ground (
        arith,
        ran,
        reads_view old q sq av,
        field,
        labels,
        filters,
        flags_rebuilt config.flags small,
      )

module _ {k : Kernel} {rd wr : ℕ} {reg : k.World → ℕ} where
  -- On a chip whose control register reads back what was written, a transmitter reports the flags
  -- that were set, under the mask of the flags that the driver lets through, and always with TMODE.
  pub get_arinc429tx-set_arinc429tx :
      (flags stale : ℕ) (p : Port k)
      → HasControl k rd wr reg p.tx_index p.rx_index
      → p.is_avionics ≡ true
      → flags < 256
      → let (r, p') = set_arinc429tx k flags p in
        (r ≡ ok tt)
        × (bit_and (get_arinc429tx k stale p').0 0x7c ≡ bit_and (bit_or flags 0x20) 0x7c)
  unfolding set_arinc429tx get_arinc429tx
  get_arinc429tx-set_arinc429tx flags stale p h av small =
      let (w, ran, field, rest) = set_cntrl-sets (bit_or flags 0x20) 0x7c p h (omega arith) in
      let q = record p { world = w } in
      ground
        (arith, av, ran, field, get_cntrl_lem q h, bit_and-bit_and (reg w) (h.register.is_byte w))

  -- On a chip whose control register reads back what was written, stopping a transmitter stops and
  -- empties its queue and sets its output to high impedance; opening it again clears high impedance
  -- and wakes the queue. The other control bits are at the end as they were.
  pub tx_open-tx_stop :
      (p : Port k)
      → HasControl k rd wr reg p.tx_index p.rx_index
      → p.is_avionics ≡ true
      → let (r, p') = tx_stop k p in
        let (r', p'') = tx_open k p' in
        (r ≡ ok tt)
        × (bit_and (reg p'.world) tx_hiz ≡ tx_hiz)
        × (p'.skbq ≡ [])
        × (p'.queue_awake ≡ false)
        × (r' ≡ ok tt)
        × (bit_and (reg p''.world) tx_hiz ≡ 0)
        × (bit_and (reg p''.world) 0x7f ≡ bit_and (reg p.world) 0x7f)
        × (p''.queue_awake ≡ true)
  unfolding tx_open tx_stop
  tx_open-tx_stop p h av =
      let q = record p { queue_awake = false; skbq = [] } in
      let (w, ran, field, rest) = set_cntrl-sets tx_hiz tx_hiz q h (omega arith) in
      let q' = record q { world = w } in
      let (w', ran', field', rest') = set_cntrl-sets 0 tx_hiz q' h (omega arith) in
      ground (arith, av, ran, field, rest, ran', field', rest')
