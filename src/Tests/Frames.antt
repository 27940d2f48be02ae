-- ===== src/Tests/Frames.antt =====
-- An HI-3717A as a register machine: the transmit FIFO is empty after each sleep, and the receive FIFO is a list of words.
use driver_arinc.Prelude.{
  ℕ, zero, suc, ◌+◌, ◌-◌, ◌/◌, ◌%◌, ◌<◌, ◌≡◌, refl, ap, true, false, List, [], ◌∷◌, ◌++◌, map, take,
  drop, length, ◌==◌, has, if◌then◌else◌, Result, ok, none, Bool-cases, inl, inr, arith,
}
use driver_arinc.Bytes.{Quad}
use driver_arinc.Kernel.{Kernel}
use driver_arinc.Kernel.ReceiveFifo.{is_empty}
use driver_arinc.Kernel.FrameChip.{
  Registers, get_register, set_register, HasRegisters, HasTxFifo, HasRxFifo, word_buffer,
}
use driver_arinc.Hi3717a.{Port, Register, rd_opcode, wr_opcode}
use driver_arinc.Hi3717a.Receive.{block_message}
use driver_arinc.Tests.Chip.{no_stats}

pub record Frames : Type 0 where
  pub registers : Registers
  pub room : ℕ
  pub taken : ℕ
  pub sent : List (List ℕ)
  pub fifo : List Quad

abbrev pub room_of : Frames → ℕ
room_of w = w.room % 33

abbrev rx_status : List Quad → ℕ
rx_status qs = if is_empty qs then 0x84 else 0x80

abbrev read_frames : ℕ → Frames → ℕ
read_frames op w =
    if op == 0xe4
    then w.registers.ctrl0 % 256
    else if op == 0xe2
    then w.registers.ctrl1 % 256
    else if op == 0xea
    then w.registers.fspin % 256
    else if op == 0xf2
    then w.registers.wrdcnt % 256
    else if op == 0xe8
    then (if room_of w == 0 then 0x80 else 0)
    else if op == 0xe6
    then rx_status w.fifo
    else 0

abbrev send_frames : List ℕ → Frames → Frames
send_frames bs w = record w { sent = w.sent ++ bs ∷ []; room = room_of w - 1 }

abbrev write_frames : List ℕ → Frames → Frames
write_frames [] w = w
write_frames (op ∷ []) w = if op == 0x74 then send_frames [] w else w
write_frames (op ∷ b ∷ bs) w =
    if op == 0x64
    then record w { registers = record w.registers { ctrl0 = b } }
    else if op == 0x62
    then record w { registers = record w.registers { ctrl1 = b } }
    else if op == 0x6a
    then record w { registers = record w.registers { fspin = b } }
    else if op == 0x72
    then record w { registers = record w.registers { wrdcnt = b } }
    else if op == 0x74
    then send_frames (b ∷ bs) w
    else w

abbrev next_frames : List Quad → List (List ℕ)
next_frames [] = (0 ∷ 0x84 ∷ []) ∷ [] ∷ (0 ∷ 0x84 ∷ []) ∷ []
next_frames (q ∷ qs) = (0 ∷ 0x80 ∷ []) ∷ word_buffer 0 q ∷ (0 ∷ rx_status qs ∷ []) ∷ []

abbrev sync_frames : List (ℕ × ℕ) → Frames → Result (List (List ℕ)) × Frames
sync_frames [] w = (ok [], w)
sync_frames ((op, len) ∷ ms) w =
    let n = suc (length ms) in
    if op == 0xe6
    then (ok (next_frames w.fifo), record w { fifo = drop 1 w.fifo })
    else (ok (map (word_buffer 0) (take n w.fifo)), record w { fifo = drop n w.fifo })

abbrev pub frames : Kernel
frames = record {
  World = Frames;
  w8r8 = λ op w. (ok (read_frames op w), w);
  write = λ bs w. (ok tt, write_frames bs w);
  write_then_read = λ bs n w. (ok [], w);
  spi_sync = sync_frames;
  set_gpio = λ g v w. w;
  sleep = λ lo hi w. record w { room = 32; taken = w.taken + (32 - room_of w) };
  real_time = λ w. ((1, 500000000), w);
  alloc = λ n w. (true, w);
}

abbrev pub idle_frames : Frames
idle_frames = record {
  registers = record { ctrl0 = 0x16; ctrl1 = 0x05; fspin = 0x11; wrdcnt = 0x22 };
  room = 5;
  taken = 0;
  sent = [];
  fifo = [];
}

-- A port, at start.
abbrev pub frame_port : Frames → Port frames
frame_port w = record {
  world = w;
  is_avionics = true;
  lock_depth = 0;
  reset_gpio = 7;
  tx_buffer = none;
  memory = λ a. [];
  next_block = 1;
  tx_buffer_size = 0;
  tx_enabled = false;
  rx_enabled = true;
  period_usec = 1000000 / (1536 / 12);
  irq_depth = 1;
  work_pending = false;
  stats = no_stats;
  delivered = [];
  queue_awake = false;
  faulted = false;
}

abbrev pub registers_of : Frames → Registers
registers_of w = record {
  ctrl0 = w.registers.ctrl0 % 256;
  ctrl1 = w.registers.ctrl1 % 256;
  fspin = w.registers.fspin % 256;
  wrdcnt = w.registers.wrdcnt % 256;
}

byte_frames : (reg : Register) (w : Frames) → get_register reg (registers_of w) < 256
byte_frames Register.ctrl0 w = omega arith
byte_frames Register.ctrl1 w = omega arith
byte_frames Register.fspin w = omega arith
byte_frames Register.wrdcnt w = omega arith

reads_frames :
    (reg : Register) (w : Frames)
    → (frames.w8r8 (rd_opcode reg) w).0 ≡ ok (get_register reg (registers_of w))
unfolding rd_opcode
reads_frames Register.ctrl0 w = refl
reads_frames Register.ctrl1 w = refl
reads_frames Register.fspin w = refl
reads_frames Register.wrdcnt w = refl

sets_frames :
    (reg : Register) (b : ℕ) (w : Frames)
    → b < 256
    → registers_of (write_frames (wr_opcode reg ∷ b ∷ []) w) ≡ set_register reg b (registers_of w)
unfolding wr_opcode
sets_frames Register.ctrl0 b w h = ground arith
sets_frames Register.ctrl1 b w h = ground arith
sets_frames Register.fspin b w h = ground arith
sets_frames Register.wrdcnt b w h = ground arith

pub has_registers : HasRegisters frames registers_of
has_registers = record {
  is_byte = byte_frames;
  reads = reads_frames;
  read_keeps = λ reg w. refl;
  writes = λ reg b w. refl;
  write_sets = sets_frames;
}

abbrev pub frames_taken : Frames → ℕ
frames_taken w = w.taken

abbrev pub frames_sent : Frames → List (List ℕ)
frames_sent w = w.sent

full_frames : (w : Frames) → has (read_frames 0xe8 w) 0x80 ≡ (room_of w == 0)
full_frames w = elim (Bool-cases (room_of w == 0)) [ inl h ↦ rw h refl | inr h ↦ rw h refl ]

send-sent :
    (bs : List ℕ) (w : Frames) → frames_sent (write_frames (0x74 ∷ bs) w) ≡ w.sent ++ bs ∷ []
send-sent [] w = refl
send-sent (b ∷ bs) w = refl

send-room :
    (bs : List ℕ) (n : ℕ) (w : Frames)
    → room_of w ≡ suc n
    → room_of (write_frames (0x74 ∷ bs) w) ≡ n
send-room [] n w h = omega (arith, h)
send-room (b ∷ bs) n w h = omega (arith, h)

pub send-taken : (bs : List ℕ) (w : Frames) → (write_frames (0x74 ∷ bs) w).taken ≡ w.taken
send-taken [] w = refl
send-taken (b ∷ bs) w = refl

pub has_tx_fifo : HasTxFifo frames room_of frames_taken frames_sent
has_tx_fifo = record {
  status = read_frames 0xe8;
  reads_status = λ w. refl;
  shows_full = full_frames;
  room_le = λ w. omega arith;
  status_room = λ w. refl;
  status_takes = λ w. omega arith;
  status_keeps = λ w. refl;
  sleep_room = λ lo hi w. omega arith;
  sleep_takes = λ lo hi w. omega arith;
  sleep_keeps = λ lo hi w. refl;
  writes = λ bs w. refl;
  write_room = λ bs n w h. omega (arith, send-room bs n w h, send-taken bs w);
  write_takes = λ bs w. omega (arith, send-taken bs w);
  write_appends = λ bs n w h. send-sent bs w;
}

abbrev pub frames_fifo : Frames → List Quad
frames_fifo w = w.fifo

length-block_message : (n : ℕ) → length (block_message n) ≡ n
unfolding block_message
length-block_message zero = refl
length-block_message (suc n) = ap (λ m. suc m) (length-block_message n)

take_first : (first rest : List Quad) → take (length first) (first ++ rest) ≡ first
take_first [] rest = refl
take_first (q ∷ qs) rest = ap (λ xs. q ∷ xs) (take_first qs rest)

drop_first : (first rest : List Quad) → drop (length first) (first ++ rest) ≡ rest
drop_first [] rest = refl
drop_first (q ∷ qs) rest = drop_first qs rest

block_frames :
    (first rest : List Quad) (w : Frames)
    → w.fifo ≡ first ++ rest
    → sync_frames (block_message (length first)) w
      ≡ (ok (map (word_buffer 0) first), record w { fifo = rest })
unfolding block_message
block_frames [] rest w h = ground (arith, h)
block_frames (q ∷ qs) rest w h =
    ground (arith, h, length-block_message (length qs), take_first qs rest, drop_first qs rest)

shows_frames : (qs : List Quad) → has (rx_status qs) 0x04 ≡ is_empty qs
shows_frames [] = refl
shows_frames (q ∷ qs) = refl

insync_frames : (qs : List Quad) → has (rx_status qs) 0x80 ≡ true
insync_frames [] = refl
insync_frames (q ∷ qs) = refl

overflow_frames : (qs : List Quad) → has (rx_status qs) 0x02 ≡ false
overflow_frames [] = refl
overflow_frames (q ∷ qs) = refl

pub has_rx_fifo : HasRxFifo frames frames_fifo
has_rx_fifo = record {
  idle = 0;
  status = rx_status;
  in_sync = insync_frames;
  no_overflow = overflow_frames;
  shows_empty = shows_frames;
  reads_status = λ w. refl;
  status_keeps = λ w. refl;
  clock_keeps = λ w. refl;
  alloc_keeps = λ n w. refl;
  reads_block = λ first rest w h. ap (λ x. x.0) (block_frames first rest w h);
  block_takes = λ first rest w h. ap (λ x. x.1.fifo) (block_frames first rest w h);
  reads_next = λ q rest w h. rw h refl;
  next_takes = λ q rest w h. rw h refl;
  reads_none = λ w h. rw h refl;
  none_takes = λ w h. rw h refl;
}
