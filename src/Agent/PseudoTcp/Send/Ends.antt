-- ===== src/Agent/PseudoTcp/Send/Ends.antt =====
-- agent/pseudotcp.c: the loop of `attempt_send` ends.
use libxice.Base.{ℕ, zero, suc, ◌+◌, ◌%◌, ◌^◌, ◌≤◌, ◌<◌, ◌≡◌, refl, ap, ◌∙◌, Bool, true, false}
use libxice.Base.{Bool-cases, inl, inr, arith, Option, none, some, List, [], ◌∷◌, ◌++◌}
use libxice.Base.{ltb, ◌==◌, ◌⊎◌, ◌&&◌}
use libxice.Agent.PseudoTcp.{PseudoTcpSocket, SSegment, Run, done, starved, ◌>>=◌}
use libxice.Agent.PseudoTcp.{SendFlags, sf_none, sf_delayed_ack, sf_immediate_ack}
use libxice.Agent.PseudoTcp.{PseudoTcpWriteResult}
use libxice.Agent.PseudoTcp.Outcome.{Ensures, >>=-Ensures, if-Ensures, Ensures-weaken}
use libxice.Agent.PseudoTcp.U32.{min}
use libxice.Agent.PseudoTcp.Clock.{get_current_time}
use libxice.Agent.PseudoTcp.Send.{packet, send_segment, transmitted, transmit, mark_sent, rest_of}
use libxice.Agent.PseudoTcp.Send.{sent_part, first_unsent, behind, available, acknowledge, ack_only}
use libxice.Agent.PseudoTcp.Send.{transmit_split, while_sent, send_round, send_loop, unsent}
use libxice.Agent.PseudoTcp.Send.{attempt_send}
use libxice.Agent.PseudoTcp.Send.Keeps.{Keeps, Same, Outgoing, packet-Same}
use libxice.Agent.PseudoTcp.Send.Keeps.{send_segment-Outgoing}

unsent-append : (xs ys : List SSegment) → unsent (xs ++ ys) ≡ unsent xs + unsent ys
unsent-append [] ys = omega arith
unsent-append (x ∷ xs) ys = omega (arith, unsent-append xs ys)

-- A segment of which some bytes were sent counts less: by two at least, if it is not empty.
abbrev Falls : ℕ → ℕ → ℕ → Type 0
Falls len u u' = (u' + 1 ≤ u) × (0 < len → u' + 2 ≤ u)

mark_sent-unsent :
    (s : PseudoTcpSocket) (before : List SSegment) (x : SSegment) (after : List SSegment)
    (n now : ℕ)
    → x.xmit ≡ 0
    → (x.len ≤ n) ⊎ (1 < n)
    → Falls x.len (unsent (before ++ (x ∷ after))) (unsent (mark_sent s before x after n now).slist)
mark_sent-unsent s before x after n now fresh part = ground (
  arith,
  unsent-append before (x ∷ after),
  unsent-append before (mark_sent s [] x after n now).slist,
)

-- After a transmission that succeeds the segments count less.
abbrev Progress :
    PseudoTcpSocket → List SSegment → SSegment → List SSegment → PseudoTcpSocket × Bool → Type 0
Progress s before x after r =
    Keeps s r.0 × (r.1 ≡ true → Falls x.len (unsent (before ++ (x ∷ after))) (unsent r.0.slist))

transmitted-Progress :
    (s : PseudoTcpSocket) (before : List SSegment) (x : SSegment) (after : List SSegment) (now : ℕ)
    (r : PseudoTcpSocket × Option ℕ)
    → x.xmit ≡ 0
    → x.len ≤ s.mss
    → Outgoing s (min x.len s.mss) r
    → Ensures (Progress s before x after) (transmitted before x after now r)
transmitted-Progress s before x after now (s', none) fresh fits (h, l, sent) = (h, λ e. absurd (cc))
transmitted-Progress s before x after now (s', some n) fresh fits (h, l, sent) =
    (h, λ e. mark_sent-unsent s' before x after n now fresh (ground (arith, sent, fits)))

transmit-Progress :
    (s : PseudoTcpSocket) (before : List SSegment) (x : SSegment) (after : List SSegment) (now : ℕ)
    → x.xmit ≡ 0
    → x.len ≤ s.mss
    → Ensures (Progress s before x after) (transmit s before x after now)
unfolding transmit
transmit-Progress s before x after now fresh fits =
    if-Ensures (Progress s before x after) _ (done (s, false))
      (send_segment s x (min x.len s.mss) >>= transmitted before x after now)
      (λ many. (refl, λ e. absurd (cc)))
      (λ few.
        >>=-Ensures (Outgoing s (min x.len s.mss)) (Progress s before x after)
          (send_segment s x (min x.len s.mss)) (transmitted before x after now)
          (send_segment-Outgoing s x (min x.len s.mss))
          (λ r. transmitted-Progress s before x after now r fresh fits))

-- Where the list is broken off, and why.
abbrev IsFirst : List SSegment → Option (List SSegment × SSegment × List SSegment) → Type 0
IsFirst xs none = Unit
IsFirst xs (some (before, x, after)) = (xs ≡ before ++ (x ∷ after)) × (x.xmit ≡ 0)

behind-IsFirst :
    (x : SSegment) (xs : List SSegment) (r : Option (List SSegment × SSegment × List SSegment))
    → IsFirst xs r
    → IsFirst (x ∷ xs) (behind x r)
behind-IsFirst x xs none h = tt
behind-IsFirst x xs (some (before, y, after)) (e, fresh) =
    (ap (λ (l : List SSegment). x ∷ l) e, fresh)

first_unsent-IsFirst : (xs : List SSegment) → IsFirst xs (first_unsent xs)
first_unsent-IsFirst [] = tt
first_unsent-IsFirst (x ∷ xs) = elim (Bool-cases (ltb 0 x.xmit)) [
  | inl old ↦ rw old (behind-IsFirst x xs (first_unsent xs) (first_unsent-IsFirst xs))
  | inr fresh ↦ rw fresh (refl, ground (arith, fresh))
]

available-le-mss : (s : PseudoTcpSocket) → available s ≤ s.mss
unfolding available
available-le-mss s = ground arith

-- A round with a successful transmission makes the rest of the list count less.
abbrev Less : PseudoTcpSocket → PseudoTcpSocket × Bool → Type 0
Less s r = Keeps s r.0 × (r.1 ≡ true → unsent r.0.slist < unsent s.slist)

split-Less :
    (s : PseudoTcpSocket) (n now : ℕ) (r : Option (List SSegment × SSegment × List SSegment))
    → 0 < n
    → n ≤ s.mss
    → IsFirst s.slist r
    → Ensures (Less s) (transmit_split s n now r)
split-Less s n now none some_bytes fits h = tt
split-Less s n now (some (before, x, after)) some_bytes fits (e, fresh) =
    let y = sent_part x n in
    let rest = rest_of (record x { xmit = 0 }) n after in
    let t = record s { slist = before ++ (y ∷ rest) } in
    Ensures-weaken (Progress t before y rest) (Less s) (transmit t before y rest now)
      (λ r p. (
        p.0,
        λ ok.
            let fall = p.1 ok in
            ground (
              arith,
              ap unsent e,
              unsent-append before (x ∷ after),
              unsent-append before (y ∷ rest),
              fall.0,
              fall.1,
            ),
      ))
      (transmit-Progress t before y rest now (ground arith) (ground arith))

ack_only-Keeps : (s : PseudoTcpSocket) → Ensures (Keeps s) (ack_only s)
ack_only-Keeps s =
    >>=-Ensures (λ (r : PseudoTcpSocket × PseudoTcpWriteResult). Same s r.0) (Keeps s)
      (packet s s.snd_nxt 0 none) _ (packet-Same s s.snd_nxt 0 none) (λ r same. same.0)

acknowledge-Keeps :
    (s : PseudoTcpSocket) (sflags : SendFlags) → Ensures (Keeps s) (acknowledge s sflags)
unfolding get_current_time
acknowledge-Keeps s sf_none = refl
acknowledge-Keeps s sf_immediate_ack = ack_only-Keeps s
acknowledge-Keeps s sf_delayed_ack =
    if-Ensures (Keeps s) (s.t_ack == 0) _ (ack_only s) (λ start. refl) (λ again. ack_only-Keeps s)

while_sent-Keeps :
    (s : PseudoTcpSocket) (again : PseudoTcpSocket → Run PseudoTcpSocket)
    (r : PseudoTcpSocket × Bool)
    → ((s' : PseudoTcpSocket)
        → Keeps s s'
        → unsent s'.slist < unsent s.slist
        → Ensures (Keeps s) (again s'))
    → Less s r
    → Ensures (Keeps s) (while_sent again r)
while_sent-Keeps s again (s', true) next (h, less) = next s' h (less refl)
while_sent-Keeps s again (s', false) next (h, less) = h

send_round-Keeps :
    (s : PseudoTcpSocket) (sflags : SendFlags) (now : ℕ)
    (again : PseudoTcpSocket → Run PseudoTcpSocket)
    → ((s' : PseudoTcpSocket)
        → Keeps s s'
        → unsent s'.slist < unsent s.slist
        → Ensures (Keeps s) (again s'))
    → Ensures (Keeps s) (send_round s sflags now again)
unfolding send_round
send_round-Keeps s sflags now again next =
    let first = first_unsent s.slist in
    if-Ensures (Keeps s) (available s == 0) (acknowledge s sflags) _
      (λ nothing. acknowledge-Keeps s sflags)
      (λ bytes.
        if-Ensures (Keeps s) (ltb s.snd_una s.snd_nxt && ltb (available s) s.mss) (done s)
          (transmit_split s (available s) now first >>= while_sent again) (λ nagle. refl)
          (λ full.
            >>=-Ensures (Less s) (Keeps s) (transmit_split s (available s) now first)
              (while_sent again)
              (split-Less s (available s) now first (ground (arith, bytes)) (available-le-mss s)
                (first_unsent-IsFirst s.slist))
              (λ r less. while_sent-Keeps s again r next less)))

send_loop-Keeps :
    (fuel : ℕ) (s : PseudoTcpSocket) (sflags : SendFlags) (now : ℕ)
    → unsent s.slist ≤ fuel
    → Ensures (Keeps s) (send_loop fuel s sflags now)
unfolding send_loop
send_loop-Keeps zero s sflags now enough =
    send_round-Keeps s sflags now (λ s'. starved) (λ s' h less. absurd (omega arith))
send_loop-Keeps (suc fuel) s sflags now enough =
    send_round-Keeps s sflags now (λ s'. send_loop fuel s' sf_none now)
      (λ s' h less.
        Ensures-weaken (Keeps s') (Keeps s) (send_loop fuel s' sf_none now) (λ t k. k ∙ h)
          (send_loop-Keeps fuel s' sf_none now (omega arith)))

-- The loop of `attempt_send` ends, unless an assertion fails: the fuel is enough. The connection, the
-- received data, the window and the bytes of the send buffer stay as they are.
pub attempt_send-Keeps :
    (s : PseudoTcpSocket) (sflags : SendFlags) → Ensures (Keeps s) (attempt_send s sflags)
unfolding attempt_send get_current_time
attempt_send-Keeps s sflags =
    send_loop-Keeps (unsent s.slist) _ sflags (s.clock s.ticks % 2 ^ 32) (omega arith)

transmitted-Keeps :
    (s : PseudoTcpSocket) (before : List SSegment) (x : SSegment) (after : List SSegment)
    (now n : ℕ) (r : PseudoTcpSocket × Option ℕ)
    → Outgoing s n r
    → Ensures (λ (t : PseudoTcpSocket × Bool). Keeps s t.0) (transmitted before x after now r)
transmitted-Keeps s before x after now n (s', none) (h, l, sent) = h
transmitted-Keeps s before x after now n (s', some k) (h, l, sent) = h

pub transmit-Keeps :
    (s : PseudoTcpSocket) (before : List SSegment) (x : SSegment) (after : List SSegment) (now : ℕ)
    → Ensures (λ (r : PseudoTcpSocket × Bool). Keeps s r.0) (transmit s before x after now)
unfolding transmit
transmit-Keeps s before x after now =
    let n = min x.len s.mss in
    if-Ensures (λ (r : PseudoTcpSocket × Bool). Keeps s r.0) _ (done (s, false))
      (send_segment s x n >>= transmitted before x after now) (λ many. refl)
      (λ few.
        >>=-Ensures (Outgoing s n) (λ (r : PseudoTcpSocket × Bool). Keeps s r.0)
          (send_segment s x n) (transmitted before x after now) (send_segment-Outgoing s x n)
          (λ r. transmitted-Keeps s before x after now n r))
