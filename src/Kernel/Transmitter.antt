-- ===== src/Kernel/Transmitter.antt =====
-- A transmit FIFO of the HI-3593 that always has room: a status read leaves the bit of a full FIFO
-- clear, and a write to the FIFO adds its bytes to what has been sent.
use driver_arinc.Prelude.{ℕ, ◌≡◌, false, List, [], ◌∷◌, ◌++◌, has, ok}
use driver_arinc.Kernel.{Kernel}

pub record IsTransmitter (k : Kernel) (sent : k.World → List (List ℕ)) : Type 0 where
  pub status : k.World → ℕ
  pub reads_status : (w : k.World) → (k.w8r8 0x80 w).0 ≡ ok (status w)
  pub has_room : (w : k.World) → has (status w) 0x04 ≡ false
  pub status_keeps : (w : k.World) → sent (k.w8r8 0x80 w).1 ≡ sent w
  pub sleep_keeps : (lo hi : ℕ) (w : k.World) → sent (k.sleep lo hi w) ≡ sent w
  pub clock_keeps : (w : k.World) → sent (k.real_time w).1 ≡ sent w
  pub writes : (bs : List ℕ) (w : k.World) → (k.write (0x0c ∷ bs) w).0 ≡ ok tt
  pub write_appends :
      (bs : List ℕ) (w : k.World) → sent (k.write (0x0c ∷ bs) w).1 ≡ sent w ++ bs ∷ []
