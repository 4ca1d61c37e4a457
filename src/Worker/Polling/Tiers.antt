-- ===== src/Worker/Polling/Tiers.antt =====
-- The waits grow with the idle iterations and stay bounded.
use femtolog.Prelude.{ℕ, ◌≤◌, arith}
use femtolog.Worker.Polling.{Wait, busy, pause, sleep_for, wait_for}

abbrev pub nanoseconds : Wait → ℕ
nanoseconds busy = 0
nanoseconds pause = 1
nanoseconds (sleep_for n) = n

-- Longer idleness never shortens the wait, which is at most 100 microseconds.
pub wait_for_mono :
    (a b : ℕ)
    → a ≤ b
    → (nanoseconds (wait_for a) ≤ nanoseconds (wait_for b)) × (nanoseconds (wait_for b) ≤ 100000)
unfolding wait_for
wait_for_mono a b h = (ground arith, ground arith)
