-- ===== src/Stun/Timer.antt =====
-- stun/usages/timer.c: the retransmission timer. The clock (`stun_gettime`) is the operating
-- system's: what it shows is an argument.
mod Tests
pub mod Remainder
pub mod Schedule
pub mod Timeout
use libxice.Base.{ℕ, zero, suc, ◌+◌, ◌-◌, ◌*◌, ◌/◌, ◌%◌, ◌^◌, Bool, true, false, ◌&&◌}
use libxice.Base.{ltb, leb, ◌==◌, if◌then◌else◌}

-- `struct timeval`, of a time that is not negative.
pub record Timeval : Type 0 where
  pub tv_sec : ℕ
  pub tv_usec : ℕ

-- `struct stun_timer_s`
pub record StunTimer : Type 0 where
  pub deadline : Timeval
  pub delay : ℕ
  pub retransmissions : ℕ
  pub max_retransmissions : ℕ

-- `StunUsageTimerReturn`
pub data TimerReturn : Type 0 where
  success retransmit timeout : TimerReturn

abbrev pub timer_default_timeout : ℕ
timer_default_timeout = 600

abbrev pub timer_default_max_retransmissions : ℕ
timer_default_max_retransmissions = 3

abbrev pub timer_default_reliable_timeout : ℕ
timer_default_reliable_timeout = 7900

-- `while (ts->tv_usec > 1000000)`, with fuel.
pub carry : ℕ → Timeval → Timeval
carry zero ts = ts
carry (suc fuel) ts = elim (ltb 1000000 ts.tv_usec) [
  | true ↦ carry fuel (record { tv_sec = ts.tv_sec + 1; tv_usec = ts.tv_usec - 1000000 })
  | false ↦ ts
]

-- `div` takes an int: `delay` is below 2 ^ 31. Each round takes a million microseconds.
pub add_delay : Timeval → ℕ → Timeval
add_delay ts delay =
    let usec = ts.tv_usec + delay % 1000 * 1000 in
    carry (usec / 1000000) (record { tv_sec = ts.tv_sec + delay / 1000; tv_usec = usec })

pub stun_timer_start : Timeval → ℕ → ℕ → StunTimer
stun_timer_start now initial_timeout max_retransmissions = record {
  deadline = add_delay now initial_timeout;
  delay = initial_timeout;
  retransmissions = 0;
  max_retransmissions = max_retransmissions;
}

pub stun_timer_start_reliable : Timeval → ℕ → StunTimer
unfolding stun_timer_start
stun_timer_start_reliable now initial_timeout = stun_timer_start now initial_timeout 0

-- `((signed) (a - b)) / 1000`, added to an unsigned number: C divides towards zero.
abbrev pub add_millis : ℕ → ℕ → ℕ → ℕ
add_millis delay a b =
    if leb b a
    then (delay + (a - b) / 1000) % 2 ^ 32
    else (delay + 2 ^ 32 - (b - a) / 1000) % 2 ^ 32

pub stun_timer_remainder : StunTimer → Timeval → ℕ
stun_timer_remainder timer now =
    let d = timer.deadline in
    let delay = (d.tv_sec - now.tv_sec) % 2 ^ 32 in
    if ltb d.tv_sec now.tv_sec
    then 0
    else if (delay == 0) && leb d.tv_usec now.tv_usec
    then 0
    else add_millis (delay * 1000 % 2 ^ 32) d.tv_usec now.tv_usec

pub stun_timer_refresh : StunTimer → Timeval → StunTimer × TimerReturn
stun_timer_refresh timer now =
    let delay' = timer.delay * 2 % 2 ^ 32 in
    if stun_timer_remainder timer now == 0
    then if leb timer.max_retransmissions timer.retransmissions then (timer, timeout) else (
      record timer {
        deadline = add_delay timer.deadline delay';
        delay = delay';
        retransmissions = (timer.retransmissions + 1) % 2 ^ 32;
      },
      retransmit,
    )
    else (timer, success)
