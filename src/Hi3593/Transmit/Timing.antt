-- ===== src/Hi3593/Transmit/Timing.antt =====
-- When hi3593_tx_worker (driver/devices/hi3593.c) waits for a word with a transmit time.
use driver_arinc.Prelude.{ℕ, ◌+◌, ◌≤◌, ◌<◌, ◌≡◌, ◌↔◌, some, arith}
use driver_arinc.Hi3593.Transmit.{wait_offset}

-- The worker waits for a word exactly where its time lies more than 2 ms and at most 6 minutes
-- ahead, and the wait is the difference.
pub wait_offset_iff :
    (now t d : ℕ) → (wait_offset now t ≡ some d) ↔ ((now + d ≡ t) × (2 < d) × (d ≤ 360000))
unfolding wait_offset
wait_offset_iff now t d = (λ h. ground arith, λ h. ground arith)
