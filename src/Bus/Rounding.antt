-- ===== src/Bus/Rounding.antt =====
-- The change of units.
use postmarketos_x00td_cellu.Common.{ℕ, ◌+◌, ◌*◌, ◌≤◌, ◌<◌, arith}
use postmarketos_x00td_cellu.Bus.{bps_to_kbps}

-- Below 4398046510081 bytes per second, the vote in units of 1024 bytes is the bandwidth rounded up.
pub bps_to_kbps_bounds :
    (bps : ℕ)
    → bps < 4398046510081
    → (bps ≤ bps_to_kbps bps * 1024) × (bps_to_kbps bps * 1024 < bps + 1024)
unfolding bps_to_kbps
bps_to_kbps_bounds bps h = omega arith
