-- ===== src/Stun/Timer/Tests.antt =====
-- A timer that starts at 5 s with the defaults of stun/usages/timer.h.
use libxice.Base.{ℕ, ◌+◌, ◌*◌, ◌<◌, ◌≡◌, refl, arith, List, [], ◌∷◌}
use libxice.Stun.Timer.{Timeval, StunTimer, timeout, add_delay, carry}
use libxice.Stun.Timer.{timer_default_timeout, timer_default_max_retransmissions}
use libxice.Stun.Timer.{timer_default_reliable_timeout, stun_timer_start, stun_timer_start_reliable}
use libxice.Stun.Timer.{stun_timer_remainder, stun_timer_refresh}
use libxice.Stun.Timer.Remainder.{micros}
use libxice.Stun.Timer.Schedule.{refreshes, refreshes_lem, IsScheduled}
use libxice.Stun.Timer.Timeout.{total_timeout, timeout-late, timeout-due}

abbrev at : ℕ → ℕ → Timeval
at sec usec = record { tv_sec = sec; tv_usec = usec }

-- The deadlines are at 5.6 s, 6.8 s, 9.2 s and 14 s.
abbrev readings : List Timeval
readings = at 5 300000 ∷ at 5 600000 ∷ at 6 800000 ∷ at 8 0 ∷ at 9 300000 ∷ []

abbrev started : StunTimer
started = stun_timer_start (at 5 0) timer_default_timeout timer_default_max_retransmissions

reliable_test :
    (stun_timer_refresh
      (stun_timer_start_reliable (at 5 0) timer_default_reliable_timeout)
      (at 12 900001)).1
    ≡ timeout
unfolding stun_timer_start_reliable stun_timer_start stun_timer_refresh stun_timer_remainder
    add_delay carry
reliable_test = refl

refreshes_lem_example :
    IsScheduled (at 5 0) 600 3 (refreshes (stun_timer_start (at 5 0) 600 3) readings)
refreshes_lem_example = refreshes_lem (at 5 0) 600 3 readings (omega arith) (omega arith)

timeout-late_example :
    ((refreshes (stun_timer_start (at 5 0) 600 3) readings).retransmissions ≡ 3)
    × (micros (at 5 0) + total_timeout 600 3 * 1000 < micros (at 14 1) + 1000)
unfolding refreshes stun_timer_start stun_timer_refresh stun_timer_remainder add_delay carry
timeout-late_example =
    timeout-late (at 5 0) 600 3 readings (at 14 1) (omega arith) (omega arith) (omega arith)
      (omega arith) refl

timeout-due_example :
    (stun_timer_refresh (refreshes (stun_timer_start (at 5 0) 600 3) readings) (at 14 1)).1
    ≡ timeout
unfolding refreshes stun_timer_start stun_timer_refresh stun_timer_remainder add_delay carry
timeout-due_example =
    timeout-due (at 5 0) 600 3 readings (at 14 1) (omega arith) (omega arith) (omega arith)
      (omega arith) refl (omega arith)
