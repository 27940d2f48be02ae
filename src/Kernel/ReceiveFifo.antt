-- ===== src/Kernel/ReceiveFifo.antt =====
-- A receive FIFO of the HI-3593: a read takes its first word, the status says whether it is empty,
-- and no word arrives while the worker runs.
use driver_arinc.Prelude.{ℕ, ◌≡◌, Bool, true, false, List, [], ◌∷◌, has, ok}
use driver_arinc.Bytes.{Quad}
use driver_arinc.Kernel.{Kernel}

abbrev pub is_empty : List Quad → Bool
is_empty [] = true
is_empty (q ∷ rest) = false

pub record IsReceiveFifo (k : Kernel) (rd_cmd status_cmd : ℕ) (fifo : k.World → List Quad)
    : Type 0 where
  pub status : k.World → ℕ
  pub reads_status : (w : k.World) → (k.w8r8 status_cmd w).0 ≡ ok (status w)
  pub shows_empty : (w : k.World) → has (status w) 0x01 ≡ is_empty (fifo w)
  pub status_keeps : (w : k.World) → fifo (k.w8r8 status_cmd w).1 ≡ fifo w
  pub sleep_keeps : (lo hi : ℕ) (w : k.World) → fifo (k.sleep lo hi w) ≡ fifo w
  pub clock_keeps : (w : k.World) → fifo (k.real_time w).1 ≡ fifo w
  pub reads_word :
      (q : Quad) (rest : List Quad) (w : k.World)
      → fifo w ≡ q ∷ rest
      → (k.write_then_read (rd_cmd ∷ []) 4 w).0 ≡ ok (q.b0 ∷ q.b1 ∷ q.b2 ∷ q.b3 ∷ [])
  pub read_takes :
      (q : Quad) (rest : List Quad) (w : k.World)
      → fifo w ≡ q ∷ rest
      → fifo (k.write_then_read (rd_cmd ∷ []) 4 w).1 ≡ rest
