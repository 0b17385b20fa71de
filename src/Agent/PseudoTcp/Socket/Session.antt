-- ===== src/Agent/PseudoTcp/Socket/Session.antt =====
-- agent/pseudotcp.c: what a user reads from a socket over any number of calls.
use libxice.Base.{ℕ, ◌+◌, ◌%◌, ◌^◌, ◌≡◌, refl, sym, ap, ◌∙◌, Bool, true, false}
use libxice.Base.{inl, inr, arith, Option, none, some, List, [], ◌++◌, ◌==◌}
use libxice.Base.{not, ◌⊎◌, length, bit_and, length-append}
use mathlib.Core.Path.{ap₂}
use libxice.Base.Memory.{load_bytes}
use libxice.Base.Memory.Laws.{
  load_bytes-Agree, length-load_bytes, load_bytes-append, load_bytes_shifted,
}
use libxice.Agent.PseudoTcp.{PseudoTcpSocket, sd_none, Segment, done, sf_immediate_ack}
use libxice.Agent.PseudoTcp.{rcv_buf_size, flag_ctl}
use libxice.Agent.PseudoTcp.Outcome.{Ensures, >>=-Ensures, if-Ensures, Ensures-weaken, Ensures-done}
use libxice.Agent.PseudoTcp.U32.{min, sub64}
use libxice.Agent.PseudoTcp.Send.{attempt_send, is_established}
use libxice.Agent.PseudoTcp.Send.Keeps.{Keeps}
use libxice.Agent.PseudoTcp.Send.Ends.{attempt_send-Keeps}
use libxice.Agent.PseudoTcp.Store.{read_bytes}
use libxice.Agent.PseudoTcp.Store.Stream.{Holds, Carries}
use libxice.Agent.PseudoTcp.Store.Deliver.{read_bytes-Holds}
use libxice.Agent.PseudoTcp.Receive.{process}
use libxice.Agent.PseudoTcp.Receive.Frame.{received, Keeps-Frame}
use libxice.Agent.PseudoTcp.Receive.InOrder.{Holds-received, process-Delivered}
use libxice.Agent.PseudoTcp.Socket.{pseudo_tcp_socket_recv, open_window, pseudo_tcp_socket_send}
use libxice.Agent.PseudoTcp.Socket.{pseudo_tcp_socket_notify_clock}
use libxice.Agent.PseudoTcp.Socket.Frame.{pseudo_tcp_socket_notify_clock-Frame}
use libxice.Agent.PseudoTcp.Socket.Frame.{pseudo_tcp_socket_send-Frame}

-- Two pieces of a stream, one behind the other.
joined :
    (stream : ℕ → ℕ) (from base : ℕ) (out bytes : List ℕ)
    → base ≡ from + length out
    → out ≡ load_bytes (λ i. stream (from + i)) 0 (length out)
    → bytes ≡ load_bytes (λ i. stream (base + i)) 0 (length bytes)
    → out ++ bytes ≡ load_bytes (λ i. stream (from + i)) 0 (length (out ++ bytes))
joined stream from base out bytes here before new =
    let m = λ (i : ℕ). stream (from + i) in
    let n = length out in
    let k = length bytes in
    let apart =
      load_bytes-Agree (λ i. m (n + i)) (λ i. stream (base + i)) 0 k
        (λ q lo hi. ap stream (omega arith)) in
    let second : bytes ≡ load_bytes m (0 + n) k =
      new ∙ apart ∙ load_bytes_shifted m n 0 k ∙ ap (λ (q : ℕ). load_bytes m q k) (omega arith) in
    ap₂ ◌++◌ before second
    ∙ sym (load_bytes-append m 0 n k)
    ∙ ap (load_bytes m 0) (sym (length-append out bytes))

module _ (stream : ℕ → ℕ) where
  -- The window says what the peer may send: the buffer does not depend on it.
  open_window-Holds :
      (base : ℕ) (s : PseudoTcpSocket)
      → Holds stream base s
      → Ensures (Holds stream base) (open_window s)
  unfolding open_window
  open_window-Holds base s h =
      let s' = record s { rcv_wnd = sub64 rcv_buf_size s.rlen % 2 ^ 32 } in
      let h' : Holds stream base s' = record {
        at = h.at;
        fits = h.fits;
        small = h.small;
        read = h.read;
        early = h.early;
      } in
      if-Ensures (Holds stream base) _ _ (done s)
        (λ wide.
          if-Ensures (Holds stream base) (s.rcv_wnd == 0) (attempt_send s' sf_immediate_ack)
            (done s')
            (λ shut.
              Ensures-weaken (Keeps s') (Holds stream base) (attempt_send s' sf_immediate_ack)
                (λ t k. Holds-received stream base s' t (Keeps-Frame s' t k).0 h')
                (attempt_send-Keeps s' sf_immediate_ack))
            (λ wide_open. h'))
        (λ narrow. h)

  -- What `pseudo_tcp_socket_recv` gives: an error, or the next bytes of the stream, as many as are
  -- there and asked for.
  abbrev pub IsRead : ℕ → PseudoTcpSocket → ℕ → PseudoTcpSocket × Option (List ℕ) → Type 0
  IsRead base s len (s', none) =
      Holds stream base s' × ((is_established s.state ≡ false) ⊎ (s.rlen ≡ 0))
  IsRead base s len (s', some bytes) =
      (length bytes ≡ min (len % 2 ^ 32) s.rlen)
      × (bytes ≡ load_bytes (λ i. stream (base + i)) 0 (length bytes))
      × Holds stream (base + length bytes) s'

  not-true : (b : Bool) → not b ≡ true → b ≡ false
  not-true true e = absurd (cc)
  not-true false e = refl

  -- Reading gives the next bytes of the stream, as many as are there and asked for, and fails only
  -- for a socket that is not connected or has no data.
  pub recv-IsRead :
      (base : ℕ) (s : PseudoTcpSocket) (len : ℕ)
      → Holds stream base s
      → Ensures (IsRead base s len) (pseudo_tcp_socket_recv s len)
  unfolding pseudo_tcp_socket_recv read_bytes
  recv-IsRead base s len h =
      let n = min (len % 2 ^ 32) s.rlen in
      let P = IsRead base s len in
      let same =
        λ (t : PseudoTcpSocket) (e : received t ≡ received s). Holds-received stream base s t e h in
      if-Ensures P (not (is_established s.state)) _ _
        (λ other. (same _ refl, inl (not-true (is_established s.state) other)))
        (λ connected.
          if-Ensures P (s.rlen == 0) _ _ (λ empty. (same _ refl, inr (ground (arith, empty))))
            (λ some_data.
              let (held, bytes) = read_bytes-Holds stream base n s h (ground arith) in
              let many : length (read_bytes s n).0 ≡ n = length-load_bytes s.rbuf 0 n in
              >>=-Ensures (Holds stream (base + n)) P (open_window (read_bytes s n).1) _
                (open_window-Holds (base + n) (read_bytes s n).1 held)
                (λ t k. (many, rw many bytes, rw many k))))

  -- The calls of a socket while it receives data, with the number of the next byte to read and all
  -- bytes that were read.
  pub data Session (from : ℕ) : ℕ → PseudoTcpSocket → List ℕ → Type 0 where
    start : (s : PseudoTcpSocket) → Holds stream from s → Session from from s []
    receive :
        {base : ℕ} {s s' : PseudoTcpSocket} {out : List ℕ} (seg : Segment) (taken : Bool)
        → Session from base s out
        → Carries stream seg
        → (bit_and seg.flags flag_ctl == 0) ≡ true
        → s.shutdown ≡ sd_none
        → process s seg ≡ done (s', taken)
        → Session from base s' out
    read :
        {base : ℕ} {s s' : PseudoTcpSocket} {out : List ℕ} (len : ℕ) (bytes : List ℕ)
        → Session from base s out
        → pseudo_tcp_socket_recv s len ≡ done (s', some bytes)
        → Session from (base + length bytes) s' (out ++ bytes)
    read_none :
        {base : ℕ} {s s' : PseudoTcpSocket} {out : List ℕ} (len : ℕ)
        → Session from base s out
        → pseudo_tcp_socket_recv s len ≡ done (s', none)
        → Session from base s' out
    send :
        {base : ℕ} {s s' : PseudoTcpSocket} {out : List ℕ} (bytes : List ℕ) (n : Option ℕ)
        → Session from base s out
        → pseudo_tcp_socket_send s bytes ≡ done (s', n)
        → Session from base s' out
    tick :
        {base : ℕ} {s s' : PseudoTcpSocket} {out : List ℕ}
        → Session from base s out
        → pseudo_tcp_socket_notify_clock s ≡ done s'
        → Session from base s' out

  -- The bytes that were read are a part of the stream without a gap.
  abbrev pub InOrder : ℕ → ℕ → PseudoTcpSocket → List ℕ → Type 0
  InOrder from base s out =
      (out ≡ load_bytes (λ i. stream (from + i)) 0 (length out))
      × (base ≡ from + length out)
      × Holds stream base s

  more-InOrder :
      (from base : ℕ) (s s' : PseudoTcpSocket) (out bytes : List ℕ)
      → InOrder from base s out
      → bytes ≡ load_bytes (λ i. stream (base + i)) 0 (length bytes)
      → Holds stream (base + length bytes) s'
      → InOrder from (base + length bytes) s' (out ++ bytes)
  more-InOrder from base s s' out bytes (before, here, h) new h' = (
    joined stream from base out bytes here before new,
    omega (arith, length-append {0} out bytes),
    h',
  )

  -- A socket starts with a receive buffer that holds the stream of the peer from a number on. Then come
  -- segments with data of the stream (no control segments), of which the numbers do not wrap, in any order, some of them
  -- again and some never, each while the socket is not shut down; in between there are reads, writes
  -- and ticks of the clock, and each call returns. The bytes that were read are those of the stream
  -- from that number on, in order, each once, and the buffer holds the stream from there.
  pub Session-InOrder :
      {from base : ℕ} {s : PseudoTcpSocket} {out : List ℕ}
      → Session from base s out
      → InOrder from base s out
  Session-InOrder (start s h) = (refl, omega arith, h)
  Session-InOrder (receive seg taken before c no_ctl open_yet e) =
      let (same, at, h) = Session-InOrder before in
      (same, at, (Ensures-done _ _ _ (process-Delivered stream _ _ seg h c no_ctl open_yet) e).0)
  Session-InOrder (read len bytes before e) =
      let old = Session-InOrder before in
      let new = Ensures-done _ _ _ (recv-IsRead _ _ len old.2) e in
      more-InOrder _ _ _ _ _ bytes old new.1 new.2
  Session-InOrder (read_none len before e) =
      let (same, at, h) = Session-InOrder before in
      (same, at, (Ensures-done _ _ _ (recv-IsRead _ _ len h) e).0)
  Session-InOrder (send bytes n before e) =
      let (same, at, h) = Session-InOrder before in
      (
        same,
        at,
        Holds-received stream _ _ _ (Ensures-done _ _ _ (pseudo_tcp_socket_send-Frame _ bytes) e).0
            h,
      )
  Session-InOrder (tick before e) =
      let (same, at, h) = Session-InOrder before in
      (
        same,
        at,
        Holds-received stream _ _ _
            (Ensures-done _ _ _ (pseudo_tcp_socket_notify_clock-Frame _) e).0 h,
      )
