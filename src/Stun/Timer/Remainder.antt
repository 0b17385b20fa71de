-- ===== src/Stun/Timer/Remainder.antt =====
-- How the time that is left is rounded.
use libxice.Base.{ℕ, zero, suc, ◌+◌, ◌-◌, ◌*◌, ◌/◌, ◌%◌, ◌≤◌, ◌<◌, ◌≡◌, arith}
use libxice.Stun.Timer.{Timeval, StunTimer, carry, add_delay, stun_timer_remainder}

-- The time in microseconds.
abbrev pub micros : Timeval → ℕ
micros ts = ts.tv_sec * 1000000 + ts.tv_usec

-- The loop keeps the time, and with enough fuel leaves a million microseconds at most.
carry-micros :
    (fuel : ℕ) (ts : Timeval)
    → ts.tv_usec ≤ fuel * 1000000 + 1000000
    → (micros (carry fuel ts) ≡ micros ts) × ((carry fuel ts).tv_usec ≤ 1000000)
unfolding carry
carry-micros zero ts h = omega arith
carry-micros (suc fuel) ts h =
    ground
      (arith, carry-micros fuel (record { tv_sec = ts.tv_sec + 1; tv_usec = ts.tv_usec - 1000000 }))

-- A delay of milliseconds moves a time on by just that, and leaves its second part in range.
pub add_delay_lem :
    (ts : Timeval) (delay : ℕ)
    → (micros (add_delay ts delay) ≡ micros ts + delay * 1000)
      × ((add_delay ts delay).tv_usec ≤ 1000000)
unfolding add_delay
add_delay_lem ts delay = omega (
  arith,
  carry-micros ((ts.tv_usec + delay % 1000 * 1000) / 1000000)
      (record { tv_sec = ts.tv_sec + delay / 1000; tv_usec = ts.tv_usec + delay % 1000 * 1000 })
      (omega arith),
)

-- A time that is left of less than fifty days is given in milliseconds, with an error of less than
-- one: from the deadline on, where no time is left, that is 0.
pub stun_timer_remainder_lem :
    (timer : StunTimer) (now : Timeval)
    → timer.deadline.tv_usec ≤ 1000000
    → now.tv_usec < 1000000
    → timer.deadline.tv_sec < now.tv_sec + 4294966
    → let r = stun_timer_remainder timer now in
      (r * 1000 < micros timer.deadline - micros now + 1000)
      × (micros timer.deadline - micros now < r * 1000 + 1000)
unfolding stun_timer_remainder
stun_timer_remainder_lem timer now hd hn near = (ground arith, ground arith)
