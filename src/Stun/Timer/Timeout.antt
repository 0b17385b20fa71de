-- ===== src/Stun/Timer/Timeout.antt =====
-- stun/usages/timer.c: when a timer reports the timeout.
use libxice.Base.{ℕ, zero, suc, ◌+◌, ◌-◌, ◌*◌, ◌^◌, ◌≤◌, ◌<◌, ◌≡◌, ap, ◌∙◌, arith, List}
use native.Mathlib.Nat.{pow-suc, one-le-pow}
use native.Mathlib.Numerals.{add-one}
use libxice.Stun.Timer.{Timeval, StunTimer, timeout}
use libxice.Stun.Timer.{stun_timer_start, stun_timer_remainder, stun_timer_refresh}
use libxice.Stun.Timer.Remainder.{micros, stun_timer_remainder_lem}
use libxice.Stun.Timer.Schedule.{IsScheduled, refreshes, refreshes_lem}

timeout_needs :
    (timer : StunTimer) (now : Timeval)
    → (stun_timer_refresh timer now).1 ≡ timeout
    → (stun_timer_remainder timer now ≡ 0) × (timer.max_retransmissions ≤ timer.retransmissions)
unfolding stun_timer_refresh
timeout_needs timer now h = ground arith

timeout_of :
    (timer : StunTimer) (now : Timeval)
    → stun_timer_remainder timer now ≡ 0
    → timer.max_retransmissions ≤ timer.retransmissions
    → (stun_timer_refresh timer now).1 ≡ timeout
unfolding stun_timer_refresh
timeout_of timer now h k = ground arith

-- The time that the documentation gives for the whole transaction, in milliseconds.
abbrev pub total_timeout : ℕ → ℕ → ℕ
total_timeout initial max = initial * (2 ^ (max + 1) - 1)

odd_multiple : (a p : ℕ) → 1 ≤ p → a * (2 * p - 1) + a ≡ 2 * (a * p)
odd_multiple a zero h = absurd (omega arith)
odd_multiple a (suc q) h = let e : 2 * suc q - 1 ≡ 2 * q + 1 = omega arith in rw e (omega arith)

total_timeout_lem :
    (initial max : ℕ) → total_timeout initial max + initial ≡ 2 * (initial * 2 ^ max)
total_timeout_lem initial max =
    let e : 2 ^ (max + 1) ≡ 2 * 2 ^ max =
      ap (λ (t : ℕ). 2 ^ t) (add-one max) ∙ omega (arith, pow-suc 2 max) in
    rw e (odd_multiple initial (2 ^ max) (one-le-pow max 2 (omega arith)))

module _ (start : Timeval) (initial max : ℕ) (readings : List Timeval) (now : Timeval) where
  -- The timer after the refreshes.
  abbrev timer : StunTimer
  timer = refreshes (stun_timer_start start initial max) readings

  deadline_lem :
      IsScheduled start initial max timer
      → timer.retransmissions ≡ max
      → micros timer.deadline ≡ micros start + total_timeout initial max * 1000
  deadline_lem s full =
      let e : 2 * (initial * 2 ^ timer.retransmissions) ≡ 2 * (initial * 2 ^ max) =
        ap (λ (r : ℕ). 2 * (initial * 2 ^ r)) full in
      omega (arith, s.waited, e, total_timeout_lem initial max)

  -- A refresh that reports the timeout comes after `max` retransmissions and, but for less than a
  -- millisecond, after the documented total time since the start.
  pub timeout-late :
      initial * 2 ^ max < 2 ^ 31
      → max < 2 ^ 31
      → now.tv_usec < 1000000
      → timer.deadline.tv_sec < now.tv_sec + 4294966
      → (stun_timer_refresh timer now).1 ≡ timeout
      → (timer.retransmissions ≡ max)
        × (micros start + total_timeout initial max * 1000 < micros now + 1000)
  timeout-late small max_small hn near h =
      let s = refreshes_lem start initial max readings small max_small in
      let (zero_left, last) = timeout_needs timer now h in
      let full : timer.retransmissions ≡ max = omega (arith, s.bounded, s.same_max) in
      let (above, below) = stun_timer_remainder_lem timer now s.in_range hn near in
      (full, omega (arith, deadline_lem s full, zero_left, below))

  -- Once the last retransmission is made, a refresh at the documented total time after the start, or
  -- later, reports the timeout.
  pub timeout-due :
      initial * 2 ^ max < 2 ^ 31
      → max < 2 ^ 31
      → now.tv_usec < 1000000
      → timer.deadline.tv_sec < now.tv_sec + 4294966
      → timer.retransmissions ≡ max
      → micros start + total_timeout initial max * 1000 ≤ micros now
      → (stun_timer_refresh timer now).1 ≡ timeout
  timeout-due small max_small hn near full passed =
      let s = refreshes_lem start initial max readings small max_small in
      let (above, below) = stun_timer_remainder_lem timer now s.in_range hn near in
      timeout_of timer now (omega (arith, deadline_lem s full, above)) (omega (arith, s.same_max))
