-- ===== src/Kernel/FrameChip.antt =====
-- What the data sheet of the HI-3717A says: each register reads back what was written and an access
-- to one leaves the others; the transmit FIFO takes words while it has room; a word that is read
-- leaves the receive FIFO. The values of the registers after a reset are not used.
use driver_arinc.Prelude.{
  ℕ, suc, ◌+◌, ◌<◌, ◌≤◌, ◌≡◌, List, [], ◌∷◌, ◌++◌, ◌==◌, has, ok, true, false, length, map,
}
use driver_arinc.Bytes.{Quad}
use driver_arinc.Kernel.{Kernel}
use driver_arinc.Kernel.ReceiveFifo.{is_empty}
use driver_arinc.Hi3717a.{Register, rd_opcode, wr_opcode}
use driver_arinc.Hi3717a.Receive.{block_message, next_message}

pub record Registers : Type 0 where
  pub ctrl0 : ℕ
  pub ctrl1 : ℕ
  pub fspin : ℕ
  pub wrdcnt : ℕ

abbrev pub get_register : Register → Registers → ℕ
get_register Register.ctrl0 v = v.ctrl0
get_register Register.ctrl1 v = v.ctrl1
get_register Register.fspin v = v.fspin
get_register Register.wrdcnt v = v.wrdcnt

abbrev pub set_register : Register → ℕ → Registers → Registers
set_register Register.ctrl0 b v = record v { ctrl0 = b }
set_register Register.ctrl1 b v = record v { ctrl1 = b }
set_register Register.fspin b v = record v { fspin = b }
set_register Register.wrdcnt b v = record v { wrdcnt = b }

pub record HasRegisters (k : Kernel) (view : k.World → Registers) : Type 0 where
  pub is_byte : (reg : Register) (w : k.World) → get_register reg (view w) < 256
  pub reads :
      (reg : Register) (w : k.World) → (k.w8r8 (rd_opcode reg) w).0 ≡ ok (get_register reg (view w))
  pub read_keeps : (reg : Register) (w : k.World) → view (k.w8r8 (rd_opcode reg) w).1 ≡ view w
  pub writes :
      (reg : Register) (b : ℕ) (w : k.World) → (k.write (wr_opcode reg ∷ b ∷ []) w).0 ≡ ok tt
  pub write_sets :
      (reg : Register) (b : ℕ) (w : k.World)
      → b < 256
      → view (k.write (wr_opcode reg ∷ b ∷ []) w).1 ≡ set_register reg b (view w)

-- The transmit FIFO: its status shows when it is full, and a word that is written while there is
-- room is behind the words before it. The chip takes words out of it at any time, during an access
-- too, and each makes room for another; `taken` is how many it has taken.
pub record HasTxFifo (k : Kernel) (room taken : k.World → ℕ) (sent : k.World → List (List ℕ))
    : Type 0 where
  pub status : k.World → ℕ
  pub reads_status : (w : k.World) → (k.w8r8 0xe8 w).0 ≡ ok (status w)
  pub shows_full : (w : k.World) → has (status w) 0x80 ≡ (room w == 0)
  pub room_le : (w : k.World) → room w ≤ 32
  pub status_room :
      (w : k.World) → room (k.w8r8 0xe8 w).1 + taken w ≡ room w + taken (k.w8r8 0xe8 w).1
  pub status_takes : (w : k.World) → taken w ≤ taken (k.w8r8 0xe8 w).1
  pub status_keeps : (w : k.World) → sent (k.w8r8 0xe8 w).1 ≡ sent w
  pub sleep_room :
      (lo hi : ℕ) (w : k.World)
      → room (k.sleep lo hi w) + taken w ≡ room w + taken (k.sleep lo hi w)
  pub sleep_takes : (lo hi : ℕ) (w : k.World) → taken w ≤ taken (k.sleep lo hi w)
  pub sleep_keeps : (lo hi : ℕ) (w : k.World) → sent (k.sleep lo hi w) ≡ sent w
  pub writes : (bs : List ℕ) (w : k.World) → (k.write (0x74 ∷ bs) w).0 ≡ ok tt
  pub write_room :
      (bs : List ℕ) (n : ℕ) (w : k.World)
      → room w ≡ suc n
      → room (k.write (0x74 ∷ bs) w).1 + taken w ≡ n + taken (k.write (0x74 ∷ bs) w).1
  pub write_takes : (bs : List ℕ) (w : k.World) → taken w ≤ taken (k.write (0x74 ∷ bs) w).1
  pub write_appends :
      (bs : List ℕ) (n : ℕ) (w : k.World)
      → room w ≡ suc n
      → sent (k.write (0x74 ∷ bs) w).1 ≡ sent w ++ bs ∷ []

-- The bytes that a transfer receives which reads a word: one that means nothing, and the word.
abbrev pub word_buffer : (idle : ℕ) → Quad → List ℕ
word_buffer idle q = idle ∷ q.b0 ∷ q.b1 ∷ q.b2 ∷ q.b3 ∷ []

-- The receive FIFO of a receiver that is in sync and has not overflowed: a read takes its first
-- word, the status says whether it is empty, and no word arrives while the worker runs.
pub record HasRxFifo (k : Kernel) (fifo : k.World → List Quad) : Type 0 where
  pub idle : ℕ
  pub status : List Quad → ℕ
  pub in_sync : (qs : List Quad) → has (status qs) 0x80 ≡ true
  pub no_overflow : (qs : List Quad) → has (status qs) 0x02 ≡ false
  pub shows_empty : (qs : List Quad) → has (status qs) 0x04 ≡ is_empty qs
  pub reads_status : (w : k.World) → (k.w8r8 0xe6 w).0 ≡ ok (status (fifo w))
  pub status_keeps : (w : k.World) → fifo (k.w8r8 0xe6 w).1 ≡ fifo w
  pub clock_keeps : (w : k.World) → fifo (k.real_time w).1 ≡ fifo w
  pub alloc_keeps : (n : ℕ) (w : k.World) → fifo (k.alloc n w).1 ≡ fifo w
  pub reads_block :
      (first rest : List Quad) (w : k.World)
      → fifo w ≡ first ++ rest
      → (k.spi_sync (block_message (length first)) w).0 ≡ ok (map (word_buffer idle) first)
  pub block_takes :
      (first rest : List Quad) (w : k.World)
      → fifo w ≡ first ++ rest
      → fifo (k.spi_sync (block_message (length first)) w).1 ≡ rest
  pub reads_next :
      (q : Quad) (rest : List Quad) (w : k.World)
      → fifo w ≡ q ∷ rest
      → (k.spi_sync next_message w).0
        ≡ ok ((idle ∷ status (q ∷ rest) ∷ []) ∷ word_buffer idle q ∷ (idle ∷ status rest ∷ []) ∷ [])
  pub next_takes :
      (q : Quad) (rest : List Quad) (w : k.World)
      → fifo w ≡ q ∷ rest
      → fifo (k.spi_sync next_message w).1 ≡ rest
  pub reads_none :
      (w : k.World)
      → fifo w ≡ []
      → (k.spi_sync next_message w).0
        ≡ ok ((idle ∷ status [] ∷ []) ∷ [] ∷ (idle ∷ status [] ∷ []) ∷ [])
  pub none_takes : (w : k.World) → fifo w ≡ [] → fifo (k.spi_sync next_message w).1 ≡ []
