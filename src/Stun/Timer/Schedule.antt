-- ===== src/Stun/Timer/Schedule.antt =====
-- When a timer retransmits, and when it times out.
use native.Mathlib.Nat.{pow-suc}
use native.Mathlib.Decide.{dec_le}
use libxice.Base.{ℕ, zero, suc, ◌+◌, ◌*◌, ◌%◌, ◌^◌, ◌≤◌, ◌<◌, ◌≡◌, ap, arith}
use libxice.Base.{List, [], ◌∷◌, ◌==◌, leb, Bool-cases, inl, inr}
use libxice.Stun.Timer.{Timeval, StunTimer, add_delay}
use libxice.Stun.Timer.{stun_timer_start, stun_timer_remainder, stun_timer_refresh}
use libxice.Stun.Timer.Remainder.{micros, add_delay_lem}

-- The timer after a refresh at each of the readings of the clock.
unfoldable pub refreshes : StunTimer → List Timeval → StunTimer
refreshes timer [] = timer
refreshes timer (now ∷ readings) = refreshes (stun_timer_refresh timer now).0 readings

-- The timer that was started with a delay of `initial` milliseconds has retransmitted some number `r`
-- of times; its delay has doubled each time, and its deadline lies all these delays behind the start.
pub record IsScheduled (start : Timeval) (initial max : ℕ) (timer : StunTimer) : Type 0 where
  pub bounded : timer.retransmissions ≤ max
  pub same_max : timer.max_retransmissions ≡ max
  pub doubled : timer.delay ≡ initial * 2 ^ timer.retransmissions
  pub waited :
      micros timer.deadline + initial * 1000
      ≡ micros start + 2 * (initial * 2 ^ timer.retransmissions) * 1000
  pub in_range : timer.deadline.tv_usec ≤ 1000000

doubles : (a r : ℕ) → a * 2 ^ suc r ≡ 2 * (a * 2 ^ r)
doubles a r = omega (arith, ap (λ (t : ℕ). a * t) (pow-suc 2 r))

grows : (a r max : ℕ) → r ≤ max → a * 2 ^ r ≤ a * 2 ^ max
grows a r zero h = let e : r ≡ 0 = omega arith in rw e (omega arith)
grows a r (suc max) h = elim (dec_le r max) [
  | yes le ↦ omega (arith, grows a r max le, doubles a max)
  | no gt ↦ let e : r ≡ suc max = omega arith in rw e (omega arith)
]

start-IsScheduled :
    (now : Timeval) (initial max : ℕ)
    → IsScheduled now initial max (stun_timer_start now initial max)
unfolding stun_timer_start
start-IsScheduled now initial max = omega (arith, add_delay_lem now initial)

next-IsScheduled :
    (start : Timeval) (initial max : ℕ) (timer : StunTimer) (d n : ℕ)
    → IsScheduled start initial max timer
    → timer.retransmissions < max
    → d ≡ 2 * timer.delay
    → n ≡ suc timer.retransmissions
    → IsScheduled start initial max
        (record timer { deadline = add_delay timer.deadline d; delay = d; retransmissions = n })
next-IsScheduled start initial max timer d n s more ed en = rw en (
    omega (
      arith,
      s.waited,
      s.doubled,
      doubles initial timer.retransmissions,
      add_delay_lem timer.deadline d,
    ))

module _ (start : Timeval) (initial max : ℕ) (small : initial * 2 ^ max < 2 ^ 31)
    (max_small : max < 2 ^ 31) where
  refresh-IsScheduled :
      (timer : StunTimer) (now : Timeval)
      → IsScheduled start initial max timer
      → IsScheduled start initial max (stun_timer_refresh timer now).0
  unfolding stun_timer_refresh
  refresh-IsScheduled timer now s = elim (Bool-cases (stun_timer_remainder timer now == 0)) [
    | inr running ↦ rw running s
    | inl expired ↦ elim (Bool-cases (leb timer.max_retransmissions timer.retransmissions)) [
      | inl last ↦ rw (expired, last) s
      | inr more ↦
          let below : timer.retransmissions < max = ground arith in
          rw (expired, more)
            (next-IsScheduled start initial max timer (timer.delay * 2 % 2 ^ 32)
              ((timer.retransmissions + 1) % 2 ^ 32) s below
              (omega (
                arith,
                s.doubled,
                doubles initial timer.retransmissions,
                grows initial (suc timer.retransmissions) max below,
              ))
              (omega arith))
    ]
  ]

  refreshes-IsScheduled :
      (timer : StunTimer) (readings : List Timeval)
      → IsScheduled start initial max timer
      → IsScheduled start initial max (refreshes timer readings)
  unfolding refreshes
  refreshes-IsScheduled timer [] s = s
  refreshes-IsScheduled timer (now ∷ readings) s =
      refreshes-IsScheduled (stun_timer_refresh timer now).0 readings
        (refresh-IsScheduled timer now s)

-- Whatever the clock showed at the refreshes so far, the timer has retransmitted `max` times at most,
-- its delay is the initial one doubled at each, and its deadline lies
-- `initial * (2 ^ (retransmissions + 1) - 1)` milliseconds behind the start.
pub refreshes_lem :
    (start : Timeval) (initial max : ℕ) (readings : List Timeval)
    → initial * 2 ^ max < 2 ^ 31
    → max < 2 ^ 31
    → IsScheduled start initial max (refreshes (stun_timer_start start initial max) readings)
refreshes_lem start initial max readings small max_small =
    refreshes-IsScheduled start initial max small max_small (stun_timer_start start initial max)
      readings (start-IsScheduled start initial max)
