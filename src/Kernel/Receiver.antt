-- ===== src/Kernel/Receiver.antt =====
-- What the data sheet of the HI-3593 says of a receiver's registers: the control byte, the three
-- priority labels and the 32 bytes of label filters each read back what was written, and an access
-- to one of them leaves the others.
use driver_arinc.Prelude.{ℕ, ◌<◌, ◌≡◌, List, [], ◌∷◌, length, ok}
use driver_arinc.Kernel.{Kernel}

pub record Receiver : Type 0 where
  pub control : ℕ
  pub labels : List ℕ
  pub filters : List ℕ

pub record Opcodes : Type 0 where
  pub read_control : ℕ
  pub write_control : ℕ
  pub read_labels : ℕ
  pub write_labels : ℕ
  pub read_filters : ℕ
  pub write_filters : ℕ

pub record IsReceiver (k : Kernel) (o : Opcodes) (view : k.World → Receiver) : Type 0 where
  pub control_byte : (w : k.World) → (view w).control < 256
  pub reads_control : (w : k.World) → (k.w8r8 o.read_control w).0 ≡ ok (view w).control
  pub read_control_keeps : (w : k.World) → view (k.w8r8 o.read_control w).1 ≡ view w
  pub writes_control : (b : ℕ) (w : k.World) → (k.write (o.write_control ∷ b ∷ []) w).0 ≡ ok tt
  pub write_control_sets :
      (b : ℕ) (w : k.World)
      → b < 256
      → view (k.write (o.write_control ∷ b ∷ []) w).1 ≡ record (view w) { control = b }
  pub reads_labels :
      (w : k.World) → (k.write_then_read (o.read_labels ∷ []) 3 w).0 ≡ ok (view w).labels
  pub read_labels_keeps :
      (w : k.World) → view (k.write_then_read (o.read_labels ∷ []) 3 w).1 ≡ view w
  pub writes_labels :
      (bs : List ℕ) (w : k.World) → length bs ≡ 3 → (k.write (o.write_labels ∷ bs) w).0 ≡ ok tt
  pub write_labels_sets :
      (bs : List ℕ) (w : k.World)
      → length bs ≡ 3
      → view (k.write (o.write_labels ∷ bs) w).1 ≡ record (view w) { labels = bs }
  pub reads_filters :
      (w : k.World) → (k.write_then_read (o.read_filters ∷ []) 32 w).0 ≡ ok (view w).filters
  pub read_filters_keeps :
      (w : k.World) → view (k.write_then_read (o.read_filters ∷ []) 32 w).1 ≡ view w
  pub writes_filters :
      (bs : List ℕ) (w : k.World) → length bs ≡ 32 → (k.write (o.write_filters ∷ bs) w).0 ≡ ok tt
  pub write_filters_sets :
      (bs : List ℕ) (w : k.World)
      → length bs ≡ 32
      → view (k.write (o.write_filters ∷ bs) w).1 ≡ record (view w) { filters = bs }
