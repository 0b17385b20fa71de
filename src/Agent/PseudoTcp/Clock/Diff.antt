-- ===== src/Agent/PseudoTcp/Clock/Diff.antt =====
-- agent/pseudotcp.c: what `time_diff` says of two moments, of which only the low 32 bits are known.
use libxice.Base.{ℕ, ◌+◌, ◌-◌, ◌%◌, ◌^◌, ◌<◌, ◌≡◌, arith}
use libxice.Agent.PseudoTcp.U32.{pos, negsuc}
use libxice.Agent.PseudoTcp.Clock.{time_is_between, time_diff}

-- A moment after another, by less than 2 ^ 31 milliseconds, has the difference, and the other way round
-- its negative: also where the clock wraps around in between, which happens every 49.7 days.
pub time_diff_lem :
    (t d : ℕ)
    → 0 < d
    → d < 2 ^ 31
    → (time_diff ((t + d) % 2 ^ 32) (t % 2 ^ 32) ≡ pos d)
      × (time_diff (t % 2 ^ 32) ((t + d) % 2 ^ 32) ≡ negsuc (d - 1))
unfolding time_diff time_is_between
time_diff_lem t d some_time small = (ground arith, ground arith)
