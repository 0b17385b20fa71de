-- ===== src/Agent/PseudoTcp/Send/Keeps.antt =====
-- agent/pseudotcp.c: what sending leaves as it is.
use libxice.Base.{ℕ, ◌+◌, ◌≡◌, refl, ◌∙◌, Bool, true, false, inl, inr, arith}
use libxice.Base.{
  Option, none, some, List, [], ◌∷◌, ltb, leb, ◌==◌, length, All, ◌⊎◌, ◌<◌, ◌^◌, ◌-◌,
}
use libxice.Base.Memory.{Memory}
use libxice.Agent.PseudoTcp.{
  PseudoTcpSocket, PseudoTcpState, Shutdown, RSegment, SSegment, Run, done,
}
use libxice.Agent.PseudoTcp.{PseudoTcpWriteResult, wr_success, wr_too_large, wr_fail}
use libxice.Agent.PseudoTcp.{header_size}
use libxice.Agent.PseudoTcp.{max_packet, packet_overhead, packet_maximums}
use libxice.Agent.PseudoTcp.Outcome.{
  Ensures, Ensures-weaken, if-Ensures, >>=-Ensures, g_assert-Ensures,
}
use libxice.Agent.PseudoTcp.U32.{sub32}
use libxice.Agent.PseudoTcp.Clock.{get_current_time}
use libxice.Agent.PseudoTcp.Send.{
  packet, with_packet, after_write, is_null, body_of, shrink, lowered, on_result, send_piece, drop,
  ctl_of, send_segment,
}

-- The connection, the received data and the contents of the send buffer.
pub record Kept : Type 0 where
  pub state : PseudoTcpState
  pub shutdown : Shutdown
  pub conv : ℕ
  pub read_enable : Bool
  pub rlist : List RSegment
  pub rbuf : Memory
  pub rcv_nxt : ℕ
  pub rcv_wnd : ℕ
  pub rlen : ℕ
  pub sbuf : Memory
  pub slen : ℕ
  pub snd_una : ℕ

abbrev pub kept : PseudoTcpSocket → Kept
kept s = record {
  state = s.state;
  shutdown = s.shutdown;
  conv = s.conv;
  read_enable = s.read_enable;
  rlist = s.rlist;
  rbuf = s.rbuf;
  rcv_nxt = s.rcv_nxt;
  rcv_wnd = s.rcv_wnd;
  rlen = s.rlen;
  sbuf = s.sbuf;
  slen = s.slen;
  snd_una = s.snd_una;
}

abbrev pub Keeps : PseudoTcpSocket → PseudoTcpSocket → Type 0
Keeps s s' = kept s' ≡ kept s

-- What a packet leaves as it is.
abbrev pub Same : PseudoTcpSocket → PseudoTcpSocket → Type 0
Same s s' = Keeps s s' × (s'.slist ≡ s.slist) × (s'.mss ≡ s.mss) × (s'.msslevel ≡ s.msslevel)

after_write-Same :
    (s : PseudoTcpSocket) (ack : Bool) (n now : ℕ) (wres : PseudoTcpWriteResult)
    → Same s (after_write s ack n now wres).0
after_write-Same s ack n now wr_success = (refl, refl, refl, refl)
after_write-Same s true n now wr_too_large = (refl, refl, refl, refl)
after_write-Same s false n now wr_too_large = (refl, refl, refl, refl)
after_write-Same s true n now wr_fail = (refl, refl, refl, refl)
after_write-Same s false n now wr_fail = (refl, refl, refl, refl)

pub packet-Same :
    (s : PseudoTcpSocket) (seq flags : ℕ) (body : Option (List ℕ))
    → Ensures (λ r. Same s r.0) (packet s seq flags body)
unfolding packet get_current_time
packet-Same s seq flags body =
    g_assert-Ensures (λ (r : PseudoTcpSocket × PseudoTcpWriteResult). Same s r.0)
      (leb (header_size + length (body_of body)) max_packet)
      (done (
        after_write (with_packet s seq flags (body_of body)) (is_null body) (length (body_of body))
          (get_current_time s).0 (s.replies s.writes)))
      (after_write-Same (with_packet s seq flags (body_of body)) (is_null body)
        (length (body_of body)) (get_current_time s).0 (s.replies s.writes))

-- The segment sizes that `shrink` goes down to are above 1.
abbrev pub IsLevel : ℕ → Type 0
IsLevel m = (m ≡ 0) ⊎ ((packet_overhead + 1 < m) × (m < 2 ^ 32))

-- A packet goes out whole, or at a size above 1.
abbrev pub Sends : ℕ → PseudoTcpSocket × Option ℕ → Type 0
Sends n (s, none) = Unit
Sends n (s, some k) = (k ≡ n) ⊎ (1 < k)

abbrev pub Outgoing : PseudoTcpSocket → ℕ → PseudoTcpSocket × Option ℕ → Type 0
Outgoing s n r = Keeps s r.0 × (r.0.slist ≡ s.slist) × Sends n r

level_size : (m : ℕ) → IsLevel m → (m == 0) ≡ false → 1 < sub32 m packet_overhead
level_size m (inl none_left) e = absurd (ground arith)
level_size m (inr above) e = omega arith

-- A result of the rest of the loop is one of the whole.
Outgoing-trans :
    (s s' : PseudoTcpSocket) (n k : ℕ) (r : PseudoTcpSocket × Option ℕ)
    → Keeps s s'
    → s'.slist ≡ s.slist
    → (k ≡ n) ⊎ (1 < k)
    → Outgoing s' k r
    → Outgoing s n r
Outgoing-trans s s' n k (r, none) h l pos rest = (rest.0 ∙ h, rest.1 ∙ l, tt)
Outgoing-trans s s' n k (r, some j) h l pos (h', l', sent) =
    (h' ∙ h, l' ∙ l, ground (arith, pos, sent))

on_result-Outgoing :
    (s s' : PseudoTcpSocket) (again : PseudoTcpSocket → Run (PseudoTcpSocket × Option ℕ)) (n k : ℕ)
    (wres : PseudoTcpWriteResult)
    → Keeps s s'
    → s'.slist ≡ s.slist
    → (k ≡ n) ⊎ (1 < k)
    → Ensures (Outgoing s' k) (again s')
    → Ensures (Outgoing s n) (on_result again k (s', wres))
on_result-Outgoing s s' again n k wr_success h l size rest = (h, l, size)
on_result-Outgoing s s' again n k wr_fail h l size rest = (h, l, tt)
on_result-Outgoing s s' again n k wr_too_large h l size rest =
    Ensures-weaken (Outgoing s' k) (Outgoing s n) (again s')
      (λ r o. Outgoing-trans s s' n k r h l size o) rest

shrink-Outgoing :
    (ms : List ℕ) (s : PseudoTcpSocket) (x : SSegment) (n : ℕ)
    → All IsLevel ms
    → Ensures (Outgoing s n) (shrink ms s x n)
unfolding shrink
shrink-Outgoing [] s x n levels = (refl, refl, tt)
shrink-Outgoing (m ∷ ms) s x n (level, levels) =
    let s' = lowered s m in
    if-Ensures (Outgoing s n) (m == 0) _ _ (λ last. (refl, refl, tt))
      (λ more.
        if-Ensures (Outgoing s n) (ltb s'.mss n) _ _
          (λ small.
            >>=-Ensures (λ r. Same s' r.0) (Outgoing s n) (send_piece s' x s'.mss) _
              (packet-Same s' x.seq (ctl_of x.ctrl) _)
              (λ (s'', wres) same.
                on_result-Outgoing s s'' (λ t. shrink ms t x s'.mss) n s'.mss wres same.0 same.1
                  (inr (level_size m level more)) (shrink-Outgoing ms s'' x s'.mss levels)))
          (λ large.
            Ensures-weaken (Outgoing s' n) (Outgoing s n) (shrink ms s' x n)
              (λ r h. Outgoing-trans s s' n n r refl refl (inl refl) h)
              (shrink-Outgoing ms s' x n levels)))

packet_maximums-IsLevel : All IsLevel packet_maximums
packet_maximums-IsLevel = ground arith

drop-IsLevel : (n : ℕ) (ms : List ℕ) → All IsLevel ms → All IsLevel (drop n ms)
drop-IsLevel n [] h = tt
drop-IsLevel n (m ∷ ms) h = ground (arith, drop-IsLevel (n - 1) ms)

pub send_segment-Outgoing :
    (s : PseudoTcpSocket) (x : SSegment) (n : ℕ) → Ensures (Outgoing s n) (send_segment s x n)
unfolding send_segment
send_segment-Outgoing s x n =
    >>=-Ensures (λ r. Same s r.0) (Outgoing s n) (send_piece s x n) _
      (packet-Same s x.seq (ctl_of x.ctrl) _)
      (λ (s', wres) same.
        on_result-Outgoing s s' (λ t. shrink (drop (t.msslevel + 1) packet_maximums) t x n) n n wres
          same.0 same.1 (inl refl)
          (shrink-Outgoing _ s' x n
            (drop-IsLevel (s'.msslevel + 1) packet_maximums packet_maximums-IsLevel)))
