-- ===== src/Agent/PseudoTcp/Clock.antt =====
-- agent/pseudotcp.c: the readings of the clock, which wrap around.
pub mod Diff
use libxice.Base.{ℕ, ◌+◌, ◌-◌, ◌%◌, ◌^◌, Bool, not, ◌&&◌, ltb, leb, if◌then◌else◌}
use libxice.Agent.PseudoTcp.U32.{ℤ, int32, minus, add32, sub32, min, max}
use libxice.Agent.PseudoTcp.{PseudoTcpSocket}

unfoldable pub bound : ℕ → ℕ → ℕ → ℕ
bound lower middle upper = min (max lower middle) upper

-- Milliseconds modulo 2 ^ 32.
unfoldable pub get_current_time : PseudoTcpSocket → ℕ × PseudoTcpSocket
get_current_time s = (s.clock s.ticks % 2 ^ 32, record s { ticks = s.ticks + 1 })

unfoldable pub time_is_between : ℕ → ℕ → ℕ → Bool
time_is_between later middle earlier =
    if leb earlier later
    then leb earlier middle && leb middle later
    else not (ltb later middle && ltb middle earlier)

-- The result is a gint32: a difference of 2 ^ 31 becomes negative.
unfoldable pub time_diff : ℕ → ℕ → ℤ
time_diff later earlier =
    let last : ℕ = 0xFFFFFFFF in
    let half : ℕ = 0x80000000 in
    if time_is_between (add32 earlier half) later earlier
    then (if leb earlier later
        then int32 (sub32 later earlier)
        else int32 (add32 (add32 later (sub32 last earlier)) 1))
    else if leb later earlier
    then minus (sub32 earlier later)
    else minus (add32 (add32 earlier (sub32 last later)) 1)
