-- ===== src/Tests/Chip.antt =====
-- An HI-3593 as a register machine: the control bytes, labels and filters are memory, the receive
-- FIFO is a list of words and what is sent is kept.
use driver_arinc.Prelude.{
  ℕ, ◌%◌, ◌≡◌, refl, Bool, true, List, [], ◌∷◌, ◌++◌, drop, ◌==◌, has, if◌then◌else◌, ℤ, Result, ok,
  negsuc, pos, arith, length, Bool-cases, inl, inr,
}
use driver_arinc.Bytes.{Quad}
use driver_arinc.Kernel.{Kernel}
use driver_arinc.Kernel.Receiver.{Receiver, IsReceiver}
use driver_arinc.Kernel.Transmitter.{IsTransmitter}
use driver_arinc.Kernel.ReceiveFifo.{IsReceiveFifo, is_empty}
use driver_arinc.Hi3593.{Stats, Port}
use driver_arinc.Hi3593.Control.{get_cntrl_opcode, set_cntrl_opcode}
use driver_arinc.Hi3593.Control.Laws.{HasControl}
use driver_arinc.Hi3593.Settings.Laws.{rx1_opcodes}

pub record Chip : Type 0 where
  pub control : ℕ
  pub labels : List ℕ
  pub filters : List ℕ
  pub fifo : List Quad
  pub sent : List (List ℕ)

abbrev read_register : ℕ → Chip → ℕ
read_register op w =
    if op == 0x80
    then 0
    else if op == 0x90
    then (if is_empty w.fifo then 1 else 0)
    else w.control % 256

abbrev write_register : List ℕ → Chip → Chip
write_register [] w = w
write_register (op ∷ []) w = if op == 0x0c then record w { sent = w.sent ++ [] ∷ [] } else w
write_register (op ∷ b ∷ bs) w =
    if op == 0x18
    then record w { labels = b ∷ bs }
    else if op == 0x14
    then record w { filters = b ∷ bs }
    else if op == 0x0c
    then record w { sent = w.sent ++ (b ∷ bs) ∷ [] }
    else record w { control = b }

abbrev first_word : List Quad → List ℕ
first_word [] = 0 ∷ 0 ∷ 0 ∷ 0 ∷ []
first_word (q ∷ rest) = q.b0 ∷ q.b1 ∷ q.b2 ∷ q.b3 ∷ []

abbrev read_block : List ℕ → Chip → Result (List ℕ) × Chip
read_block [] w = (ok [], w)
read_block (op ∷ bs) w =
    if op == 0x9c
    then (ok w.labels, w)
    else if op == 0x98
    then (ok w.filters, w)
    else (ok (first_word w.fifo), record w { fifo = drop 1 w.fifo })

abbrev pub chip : Kernel
chip = record {
  World = Chip;
  w8r8 = λ op w. (ok (read_register op w), w);
  write = λ bs w. (ok tt, write_register bs w);
  write_then_read = λ bs n w. read_block bs w;
  spi_sync = λ m w. (ok [], w);
  set_gpio = λ g v w. w;
  sleep = λ lo hi w. w;
  real_time = λ w. ((1, 500000000), w);
  alloc = λ n w. (true, w);
}

abbrev pub idle : Chip
idle = record { control = 0x2a; labels = []; filters = []; fifo = []; sent = [] }

abbrev pub no_stats : Stats
no_stats = record {
  tx_packets = 0;
  tx_bytes = 0;
  tx_dropped = 0;
  tx_errors = 0;
  tx_fifo_errors = 0;
  rx_packets = 0;
  rx_bytes = 0;
  rx_errors = 0;
  rx_fifo_errors = 0;
  rx_crc_errors = 0;
}

-- A port of a kernel, at start.
abbrev pub port : (k : Kernel) → k.World → (tx_index rx_index : ℤ) → Port k
port k w tx_index rx_index = record {
  world = w;
  is_avionics = true;
  tx_index = tx_index;
  rx_index = rx_index;
  even_parity = 0;
  check_parity = 8;
  rate = 100000;
  rx_udelay_min = 640;
  rx_udelay_max = 800;
  rx_wrk_delay = 1;
  skbq = [];
  held = [];
  rx_enabled = Bool.false;
  irq_depth = 1;
  work_pending = Bool.false;
  stats = no_stats;
  delivered = [];
  queue_awake = Bool.false;
}

abbrev pub tx_port : Port chip
tx_port = port chip idle (pos 0) (negsuc 0)

abbrev pub rx_port : Port chip
rx_port = port chip idle (negsuc 0) (pos 0)

abbrev pub control_of : Chip → ℕ
control_of w = w.control % 256

pub tx_control : HasControl chip 0x84 0x08 control_of (pos 0) (negsuc 0)
unfolding get_cntrl_opcode set_cntrl_opcode
tx_control = record {
  read_opcode = refl;
  write_opcode = refl;
  register = record {
    is_byte = λ w. omega arith;
    reads = λ w. refl;
    read_keeps = λ w. refl;
    writes = λ b w. refl;
    write_sets = λ b w h. omega arith;
  };
}

abbrev pub view : Chip → Receiver
view w = record { control = w.control % 256; labels = w.labels; filters = w.filters }

write_labels-view :
    (bs : List ℕ) (w : Chip)
    → length bs ≡ 3
    → view (write_register (0x18 ∷ bs) w) ≡ record (view w) { labels = bs }
write_labels-view [] w h = absurd (omega arith)
write_labels-view (b ∷ bs) w h = refl

write_filters-view :
    (bs : List ℕ) (w : Chip)
    → length bs ≡ 32
    → view (write_register (0x14 ∷ bs) w) ≡ record (view w) { filters = bs }
write_filters-view [] w h = absurd (omega arith)
write_filters-view (b ∷ bs) w h = refl

pub receiver : IsReceiver chip rx1_opcodes view
receiver = record {
  control_byte = λ w. omega arith;
  reads_control = λ w. refl;
  read_control_keeps = λ w. refl;
  writes_control = λ b w. refl;
  write_control_sets = λ b w h. ground (arith);
  reads_labels = λ w. refl;
  read_labels_keeps = λ w. refl;
  writes_labels = λ bs w h. refl;
  write_labels_sets = write_labels-view;
  reads_filters = λ w. refl;
  read_filters_keeps = λ w. refl;
  writes_filters = λ bs w h. refl;
  write_filters_sets = write_filters-view;
}

abbrev pub sent_of : Chip → List (List ℕ)
sent_of w = w.sent

write-sent : (bs : List ℕ) (w : Chip) → sent_of (write_register (0x0c ∷ bs) w) ≡ w.sent ++ bs ∷ []
write-sent [] w = refl
write-sent (b ∷ bs) w = refl

pub transmitter : IsTransmitter chip sent_of
transmitter = record {
  status = λ w. 0;
  reads_status = λ w. refl;
  has_room = λ w. refl;
  status_keeps = λ w. refl;
  sleep_keeps = λ lo hi w. refl;
  clock_keeps = λ w. refl;
  writes = λ bs w. refl;
  write_appends = write-sent;
}

abbrev pub fifo_of : Chip → List Quad
fifo_of w = w.fifo

shows_empty : (w : Chip) → has (read_register 0x90 w) 0x01 ≡ is_empty w.fifo
shows_empty w = elim (Bool-cases (is_empty w.fifo)) [ inl h ↦ rw h refl | inr h ↦ rw h refl ]

first_word-cons :
    (q : Quad) (rest : List Quad) (w : Chip)
    → w.fifo ≡ q ∷ rest
    → (read_block (0xa0 ∷ []) w).0 ≡ ok (q.b0 ∷ q.b1 ∷ q.b2 ∷ q.b3 ∷ [])
first_word-cons q rest w h = rw h refl

drop-cons :
    (q : Quad) (rest : List Quad) (w : Chip)
    → w.fifo ≡ q ∷ rest
    → fifo_of (read_block (0xa0 ∷ []) w).1 ≡ rest
drop-cons q rest w h = rw h refl

pub receive_fifo : IsReceiveFifo chip 0xa0 0x90 fifo_of
receive_fifo = record {
  status = read_register 0x90;
  reads_status = λ w. refl;
  shows_empty = shows_empty;
  status_keeps = λ w. refl;
  sleep_keeps = λ lo hi w. refl;
  clock_keeps = λ w. refl;
  reads_word = first_word-cons;
  read_takes = drop-cons;
}
