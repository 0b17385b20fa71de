-- ===== src/Agent/PseudoTcp/SessionTests.antt =====
-- A socket that receives three bytes out of order.
use libxice.Base.{ℕ, ◌+◌, ◌*◌, refl, arith, true}
use libxice.Base.{[], ◌∷◌}
use libxice.Agent.PseudoTcp.{PseudoTcpSocket, Segment, established, Run, done, aborted, starved}
use libxice.Agent.PseudoTcp.{wr_success}
use libxice.Agent.PseudoTcp.Outcome.{Ensures}
use libxice.Agent.PseudoTcp.Clock.{get_current_time, time_diff, time_is_between}
use libxice.Agent.PseudoTcp.Send.{packet}
use libxice.Agent.PseudoTcp.Send.{available, send_round, send_loop, attempt_send}
use libxice.Agent.PseudoTcp.Store.{cut_front, cut_back, recover_early, insert_early, store_data}
use libxice.Agent.PseudoTcp.Store.{receive_data, read_bytes}
use libxice.Agent.PseudoTcp.Store.Stream.{Holds, Carries}
use libxice.Agent.PseudoTcp.Receive.{process, control, update_timestamp, handle_ack, same_ack}
use libxice.Agent.PseudoTcp.Receive.InOrder.{Delivered, process-Delivered}
use libxice.Agent.PseudoTcp.Socket.{pseudo_tcp_socket_new, pseudo_tcp_socket_recv, open_window}
use libxice.Agent.PseudoTcp.Socket.Session.{Session, InOrder, start, receive, read, Session-InOrder}

-- The clock goes on by ten milliseconds with each reading, and each packet goes out.
abbrev connected : PseudoTcpSocket
connected = record (pseudo_tcp_socket_new 7 (λ i. 1000 + 10 * i) (λ i. wr_success)) {
  state = established;
  rcv_nxt = 1;
}

-- The stream of the peer: each byte is its number.
abbrev numbers : ℕ → ℕ
numbers p = p

abbrev numbered : ℕ → ℕ → Segment
numbered seq n = record {
  conv = 7;
  seq = seq;
  ack = 0;
  flags = 0;
  wnd = 100;
  payload = λ i. seq + i;
  len = n;
  tsval = 0;
  tsecr = 0;
}

connected-Holds : Holds numbers 1 connected
unfolding pseudo_tcp_socket_new
connected-Holds = record {
  at = refl;
  fits = omega arith;
  small = omega arith;
  read = λ p from lo below. absurd (omega arith);
  early = tt;
}

third-Carries : Carries numbers (numbered 3 1)
third-Carries = record { no_wrap = omega arith; bytes = λ i hi. refl }

first-Carries : Carries numbers (numbered 1 2)
first-Carries = record { no_wrap = omega arith; bytes = λ i hi. refl }

abbrev state_of : {A : Type 0} → Run (PseudoTcpSocket × A) → PseudoTcpSocket
state_of (done (s, a)) = s
state_of aborted = connected
state_of starved = connected

abbrev early : PseudoTcpSocket
early = state_of (process connected (numbered 3 1))

abbrev late : PseudoTcpSocket
late = state_of (process early (numbered 1 2))

abbrev after : PseudoTcpSocket
after = state_of (pseudo_tcp_socket_recv late 10)

-- The third byte comes first, and all three are read.
session : Session numbers 1 4 after (1 ∷ 2 ∷ 3 ∷ [])
unfolding pseudo_tcp_socket_new process control handle_ack same_ack update_timestamp receive_data
    store_data cut_front cut_back recover_early insert_early attempt_send send_loop send_round
    available packet get_current_time time_diff time_is_between pseudo_tcp_socket_recv open_window
    read_bytes
session =
    read 10 (1 ∷ 2 ∷ 3 ∷ [])
      (receive (numbered 1 2) true
        (receive (numbered 3 1) true (start connected connected-Holds) third-Carries refl refl refl)
        first-Carries refl refl refl)
      refl

Session-InOrder_example : InOrder numbers 1 4 after (1 ∷ 2 ∷ 3 ∷ [])
Session-InOrder_example = Session-InOrder numbers session

process-Delivered_example :
    Ensures (Delivered numbers 1 connected (numbered 1 2)) (process connected (numbered 1 2))
unfolding pseudo_tcp_socket_new
process-Delivered_example =
    process-Delivered numbers 1 connected (numbered 1 2) connected-Holds first-Carries refl refl
