-- ===== src/Agent/PseudoTcp/Socket/Calls.antt =====
-- agent/pseudotcp.c: any sequence of calls moves a socket along the edges of its state machine.
use libxice.Base.{ℕ, ◌≡◌, refl, sym, ap, Bool, Bool-cases, inl, inr}
use libxice.Base.{Option, List, ltb, ◌==◌, not, ◌%◌, ◌^◌}
use libxice.Base.Memory.{Memory}
use libxice.Agent.PseudoTcp.{PseudoTcpSocket, closed, done, max_packet}
use libxice.Agent.PseudoTcp.{sf_immediate_ack, rcv_buf_size}
use libxice.Agent.PseudoTcp.Outcome.{Ensures, >>=-Ensures, if-Ensures, Ensures-done, Ensures-weaken}
use libxice.Agent.PseudoTcp.U32.{sub64, min}
use libxice.Agent.PseudoTcp.States.{Reach, here, Reach-trans, closed-Reach}
use libxice.Agent.PseudoTcp.Send.{is_established, adjust_mtu, attempt_send}
use libxice.Agent.PseudoTcp.Store.{read_bytes}
use libxice.Agent.PseudoTcp.Receive.{parse, segment_of}
use libxice.Agent.PseudoTcp.Receive.Frame.{Frame}
use libxice.Agent.PseudoTcp.Receive.Moves.{Moves, MovedTo, Moves-eq, process-Moves}
use libxice.Agent.PseudoTcp.Socket.{pseudo_tcp_socket_connect, pseudo_tcp_socket_send}
use libxice.Agent.PseudoTcp.Socket.{pseudo_tcp_socket_notify_clock, pseudo_tcp_socket_notify_mtu}
use libxice.Agent.PseudoTcp.Socket.{pseudo_tcp_socket_notify_packet, pseudo_tcp_socket_recv}
use libxice.Agent.PseudoTcp.Socket.{pseudo_tcp_socket_close, open_window}
use libxice.Agent.PseudoTcp.Socket.Frame.{attempt_send-Frame, pseudo_tcp_socket_connect-Frame}
use libxice.Agent.PseudoTcp.Socket.Frame.{pseudo_tcp_socket_send-Frame}
use libxice.Agent.PseudoTcp.Socket.Frame.{pseudo_tcp_socket_notify_clock-Frame}

notify_packet-Moves :
    (s : PseudoTcpSocket) (buffer : Memory) (len : ℕ)
    → Ensures (MovedTo s) (pseudo_tcp_socket_notify_packet s buffer len)
unfolding pseudo_tcp_socket_notify_packet parse
notify_packet-Moves s buffer len =
    if-Ensures (MovedTo s) (ltb max_packet len) _ _ (λ long. here)
      (λ fits.
        if-Ensures (MovedTo s) (ltb len 12) _ _ (λ short. here)
          (λ whole. process-Moves s (segment_of buffer len)))

open_window-Moves : (s : PseudoTcpSocket) → Ensures (Moves s) (open_window s)
unfolding open_window
open_window-Moves s =
    let s' = record s { rcv_wnd = sub64 rcv_buf_size s.rlen % 2 ^ 32 } in
    if-Ensures (Moves s) _ _ (done s)
      (λ wide.
        if-Ensures (Moves s) (s.rcv_wnd == 0) _ (done s')
          (λ shut.
            Ensures-weaken (Frame s') (Moves s) (attempt_send s' sf_immediate_ack) (λ t k. k.1)
              (attempt_send-Frame s' s' sf_immediate_ack (refl, here)))
          (λ wide_open. here))
      (λ narrow. here)

abbrev Received : PseudoTcpSocket → PseudoTcpSocket × Option (List ℕ) → Type 0
Received s r = Moves s r.0

recv-Moves : (s : PseudoTcpSocket) (len : ℕ) → Ensures (Received s) (pseudo_tcp_socket_recv s len)
unfolding pseudo_tcp_socket_recv read_bytes
recv-Moves s len =
    let t = (read_bytes s (min (len % 2 ^ 32) s.rlen)).1 in
    if-Ensures (Received s) (not (is_established s.state)) _ _ (λ other. here)
      (λ connected.
        if-Ensures (Received s) (s.rlen == 0) _ _ (λ empty. here)
          (λ bytes.
            >>=-Ensures (Moves t) (Received s) (open_window t) _ (open_window-Moves t) (λ u m. m)))

notify_mtu-Moves : (s : PseudoTcpSocket) (mtu : ℕ) → Moves s (pseudo_tcp_socket_notify_mtu s mtu)
unfolding pseudo_tcp_socket_notify_mtu adjust_mtu
notify_mtu-Moves s mtu = elim (Bool-cases (is_established s.state)) [
  | inl connected ↦ rw connected here
  | inr other ↦ rw other here
]

notify_mtu-to :
    (s s' : PseudoTcpSocket) (mtu : ℕ) → pseudo_tcp_socket_notify_mtu s mtu ≡ s' → Moves s s'
notify_mtu-to s s' mtu e = rw e at (notify_mtu-Moves s mtu)

-- A call of a function of the socket that returns, whatever its arguments are.
pub data Call : PseudoTcpSocket → PseudoTcpSocket → Type 0 where
  connect :
      {s s' : PseudoTcpSocket} (ok : Bool) → pseudo_tcp_socket_connect s ≡ done (s', ok) → Call s s'
  notify_packet :
      {s s' : PseudoTcpSocket} (buffer : Memory) (len : ℕ) (ok : Bool)
      → pseudo_tcp_socket_notify_packet s buffer len ≡ done (s', ok)
      → Call s s'
  notify_clock : {s s' : PseudoTcpSocket} → pseudo_tcp_socket_notify_clock s ≡ done s' → Call s s'
  notify_mtu :
      {s s' : PseudoTcpSocket} (mtu : ℕ) → pseudo_tcp_socket_notify_mtu s mtu ≡ s' → Call s s'
  recv :
      {s s' : PseudoTcpSocket} (len : ℕ) (bytes : Option (List ℕ))
      → pseudo_tcp_socket_recv s len ≡ done (s', bytes)
      → Call s s'
  send :
      {s s' : PseudoTcpSocket} (bytes : List ℕ) (n : Option ℕ)
      → pseudo_tcp_socket_send s bytes ≡ done (s', n)
      → Call s s'
  shut_down :
      {s s' : PseudoTcpSocket} (force : Bool) → pseudo_tcp_socket_close s force ≡ s' → Call s s'

pub data Calls (s : PseudoTcpSocket) : PseudoTcpSocket → Type 0 where
  start : Calls s s
  then_call : {t u : PseudoTcpSocket} → Calls s t → Call t u → Calls s u

Call-Moves : {s s' : PseudoTcpSocket} → Call s s' → Moves s s'
unfolding pseudo_tcp_socket_close
Call-Moves (connect ok e) = (Ensures-done _ _ _ (pseudo_tcp_socket_connect-Frame _) e).1
Call-Moves (notify_packet buffer len ok e) = Ensures-done _ _ _ (notify_packet-Moves _ buffer len) e
Call-Moves (notify_clock e) = (Ensures-done _ _ _ (pseudo_tcp_socket_notify_clock-Frame _) e).1
Call-Moves (notify_mtu mtu e) = notify_mtu-to _ _ mtu e
Call-Moves (recv len bytes e) = Ensures-done _ _ _ (recv-Moves _ len) e
Call-Moves (send bytes n e) = (Ensures-done _ _ _ (pseudo_tcp_socket_send-Frame _ bytes) e).1
Call-Moves (shut_down force e) = Moves-eq _ _ (ap (λ (t : PseudoTcpSocket). t.state) (sym e))

-- Any calls that return, whatever packets come in and whatever WritePacket returns, move the state along
-- the edges of `Step` only.
pub Calls-Moves : {s s' : PseudoTcpSocket} → Calls s s' → Reach s.state s'.state
Calls-Moves start = here
Calls-Moves (then_call before call) = Reach-trans (Calls-Moves before) (Call-Moves call)

-- A closed socket stays closed.
pub Calls-closed : (s s' : PseudoTcpSocket) → Calls s s' → s.state ≡ closed → s'.state ≡ closed
Calls-closed s s' calls e = closed-Reach (rw e at (Calls-Moves calls))
