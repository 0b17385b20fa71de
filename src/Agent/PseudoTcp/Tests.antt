-- ===== src/Agent/PseudoTcp/Tests.antt =====
-- Two sockets that talk to each other.
use libxice.Base.{
  ℕ, arith, ◌-◌, ◌%◌, ◌^◌, ◌≤◌, ◌+◌, ◌*◌, ◌≡◌, refl, Bool, true, false, Option, some, List, [], ◌∷◌,
}
use libxice.Base.{length}
use libxice.Base.Memory.{from_bytes}
use libxice.Agent.PseudoTcp.{PseudoTcpSocket, PseudoTcpState}
use libxice.Agent.PseudoTcp.{established, Event, write_packet, Run, done, ◌>>=◌}
use libxice.Agent.PseudoTcp.{wr_success}
use libxice.Agent.PseudoTcp.Outcome.{Ensures}
use libxice.Agent.PseudoTcp.States.{Reach}
use libxice.Agent.PseudoTcp.U32.{pos, negsuc, sub32}
use libxice.Agent.PseudoTcp.Clock.{get_current_time, time_diff, time_is_between, bound}
use libxice.Agent.PseudoTcp.Clock.Diff.{time_diff_lem}
use libxice.Agent.PseudoTcp.Send.{
  queue, packet, transmit, shrink, send_segment, send_loop, send_round, attempt_send, available,
  adjust_mtu, closedown, packet_bytes,
}
use libxice.Agent.PseudoTcp.Send.Keeps.{Keeps}
use libxice.Agent.PseudoTcp.Send.Ends.{attempt_send-Keeps}
use libxice.Agent.PseudoTcp.Store.{
  receive_data, store_data, cut_front, cut_back, recover_early, insert_early, read_bytes,
}
use libxice.Agent.PseudoTcp.Receive.{
  parse, process, control, handle_ack, new_ack, same_ack, measure_rtt, free_acked, grow_window,
  establish, notify_writable, update_timestamp, segment_of, acked,
}
use libxice.Agent.PseudoTcp.Receive.Wire.{segment_of-packet_bytes, future_stamp}
use libxice.Agent.PseudoTcp.Receive.Short.{short_packet, Overfills, TakenFull}
use libxice.Agent.PseudoTcp.Receive.Partial.{partial_ack}
use libxice.Agent.PseudoTcp.Socket.{open_window}
use libxice.Agent.PseudoTcp.Socket.Calls.{Calls, start, then_call, notify_packet, Calls-Moves}
use libxice.Agent.PseudoTcp.{SSegment, Segment, aborted, sf_none, rcv_buf_size, snd_buf_size}
use libxice.Agent.PseudoTcp.Socket.{pseudo_tcp_socket_new, pseudo_tcp_socket_connect}
use libxice.Agent.PseudoTcp.Socket.{pseudo_tcp_socket_notify_packet, pseudo_tcp_socket_send}
use libxice.Agent.PseudoTcp.Socket.{pseudo_tcp_socket_recv}

-- The clock goes on by ten milliseconds with each reading, and each packet goes out.
abbrev fresh : PseudoTcpSocket
fresh = pseudo_tcp_socket_new 7 (λ i. 1000 + 10 * i) (λ i. wr_success)

-- The last packet that was sent.
abbrev last_packet : List Event → List ℕ
last_packet [] = []
last_packet (write_packet bytes ∷ es) = bytes
last_packet (e ∷ es) = last_packet es

abbrev state_of : PseudoTcpSocket → Run (PseudoTcpSocket × Bool) → PseudoTcpSocket
state_of s (done (s', ok)) = s'
state_of s other = s

abbrev deliver : PseudoTcpSocket → PseudoTcpSocket → Run PseudoTcpSocket
deliver from to =
    let bytes = last_packet from.events in
    pseudo_tcp_socket_notify_packet to (from_bytes bytes) (length bytes) >>= λ (s, ok). done s

-- The states after a handshake and one message.
abbrev talk : Run (PseudoTcpState × PseudoTcpState × Option (List ℕ) × ℕ)
talk = pseudo_tcp_socket_connect fresh >>= λ (a, ok). deliver a fresh >>= λ b. deliver b a >>= λ a'.
    deliver a' b >>= λ b'. pseudo_tcp_socket_send a' (104 ∷ 105 ∷ []) >>= λ (a'', n).
    deliver a'' b' >>= λ b''.
    pseudo_tcp_socket_recv b'' 100 >>= λ (b3, got). done (a''.state, b3.state, got, a''.slen)

talk_test : talk ≡ done (established, established, some (104 ∷ 105 ∷ []), 2)
unfolding pseudo_tcp_socket_new pseudo_tcp_socket_connect pseudo_tcp_socket_notify_packet
    pseudo_tcp_socket_send pseudo_tcp_socket_recv queue packet transmit shrink send_segment
    send_loop send_round attempt_send available adjust_mtu closedown get_current_time time_diff
    time_is_between bound parse process control handle_ack new_ack same_ack measure_rtt free_acked
    grow_window establish notify_writable update_timestamp receive_data store_data cut_front
    cut_back recover_early insert_early open_window read_bytes
talk_test = refl

time_diff_lem_example :
    (time_diff ((4294967290 + 10) % 2 ^ 32) (4294967290 % 2 ^ 32) ≡ pos 10)
    × (time_diff (4294967290 % 2 ^ 32) ((4294967290 + 10) % 2 ^ 32) ≡ negsuc 9)
time_diff_lem_example = time_diff_lem 4294967290 10 (omega arith) (omega arith)

-- A socket that has something to send.
abbrev sender : PseudoTcpSocket
sender = record fresh {
  state = established;
  slist = record { seq = 0; len = 5; xmit = 0; ctrl = false } ∷ [];
  slen = 5;
}

attempt_send-Keeps_example : Ensures (Keeps sender) (attempt_send sender sf_none)
attempt_send-Keeps_example = attempt_send-Keeps sender sf_none

-- The window is one byte at first, so one byte goes out.
send_test : (attempt_send sender sf_none >>= λ s. done s.snd_nxt) ≡ done 1
unfolding pseudo_tcp_socket_new pseudo_tcp_socket_connect pseudo_tcp_socket_notify_packet
    pseudo_tcp_socket_send pseudo_tcp_socket_recv queue packet transmit shrink send_segment
    send_loop send_round attempt_send available adjust_mtu closedown get_current_time time_diff
    time_is_between bound parse process control handle_ack new_ack same_ack measure_rtt free_acked
    grow_window establish notify_writable update_timestamp receive_data store_data cut_front
    cut_back recover_early insert_early open_window read_bytes
send_test = refl

-- A segment of the conversation with FLAG_RST, and the socket that it closed.
abbrev reset : List ℕ
reset =
    0 ∷ 0 ∷ 0 ∷ 7 ∷ 0 ∷ 0 ∷ 0 ∷ 0 ∷ 0 ∷ 0 ∷ 0 ∷ 0 ∷ 0 ∷ 4 ∷ 0 ∷ 0 ∷ 0 ∷ 0 ∷ 0 ∷ 0 ∷ 0 ∷ 0 ∷ 0 ∷ 0
    ∷ []

abbrev calling : PseudoTcpSocket
calling = state_of sender (pseudo_tcp_socket_notify_packet sender (from_bytes reset) 24)

one_call : Calls sender calling
unfolding pseudo_tcp_socket_new pseudo_tcp_socket_notify_packet parse process closedown
    get_current_time
one_call = then_call start (notify_packet (from_bytes reset) 24 false refl)

Calls-Moves_example : Reach sender.state calling.state
Calls-Moves_example = Calls-Moves one_call

segment_of-packet_bytes_example :
    let seg = segment_of (from_bytes (packet_bytes fresh 5 2 (97 ∷ 98 ∷ []) 1000)) 26 in
    (seg.conv ≡ 7)
    × (seg.seq ≡ 5)
    × (seg.ack ≡ fresh.rcv_nxt)
    × (seg.flags ≡ 2)
    × (seg.wnd ≡ fresh.rcv_wnd)
    × (seg.tsval ≡ 1000)
    × (seg.tsecr ≡ fresh.ts_recent)
    × (seg.len ≡ 2)
    × ((i : ℕ) → seg.payload i ≡ from_bytes (97 ∷ 98 ∷ []) i)
unfolding pseudo_tcp_socket_new
segment_of-packet_bytes_example =
    segment_of-packet_bytes fresh 5 2 1000 (97 ∷ 98 ∷ []) (omega arith) (omega arith) (omega arith)
      (omega arith) (omega arith) (omega arith) (omega arith) (omega arith)

abbrev acking : Segment
acking = record {
  conv = 7;
  seq = 0;
  ack = 3;
  flags = 0;
  wnd = 100;
  payload = λ i. 0;
  len = 0;
  tsval = 0;
  tsecr = 2000;
}

future_stamp_example :
    handle_ack (record sender { snd_nxt = 5 }) acking false (1500 % 2 ^ 32) ≡ aborted
unfolding pseudo_tcp_socket_new
future_stamp_example =
    future_stamp (record sender { snd_nxt = 5 }) acking false 1500 500 (omega arith) (omega arith)
      (omega arith) (omega arith) refl (omega arith)

-- A packet of 16 bytes of the conversation 7, and what is behind it in memory.
abbrev short_bytes : List ℕ
short_bytes =
    0 ∷ 0 ∷ 0 ∷ 7 ∷ 0 ∷ 0 ∷ 0 ∷ 0 ∷ 0 ∷ 0 ∷ 0 ∷ 0 ∷ 0 ∷ 0 ∷ 0 ∷ 0 ∷ 0 ∷ 0 ∷ 0 ∷ 0 ∷ 0 ∷ 0 ∷ 0 ∷ 0
    ∷ 171 ∷ 205 ∷ []

abbrev listener : PseudoTcpSocket
listener = record fresh { state = established }

short_packet_example :
    ((segment_of (from_bytes short_bytes) 16).len ≡ 2 ^ 32 - 24 + 16)
    × Overfills (from_bytes short_bytes) listener.rlen (parse listener (from_bytes short_bytes) 16)
    × Ensures
        (TakenFull (from_bytes short_bytes) listener.rlen)
        (parse listener (from_bytes short_bytes) 16)
unfolding pseudo_tcp_socket_new
short_packet_example =
    short_packet (from_bytes short_bytes) 16 listener (omega arith) (omega arith) refl refl refl
      refl refl refl (omega arith) refl refl

abbrev overfill : Run (Bool × ℕ × ℕ × ℕ)
overfill =
    parse listener (from_bytes short_bytes) 16 >>= λ (s, ok). done (ok, s.rlen, s.rbuf 0, s.rbuf 1)

-- It is taken, with the two bytes behind it.
short_packet_test : overfill ≡ done (true, rcv_buf_size, 171, 205)
unfolding pseudo_tcp_socket_new adjust_mtu attempt_send available bound closedown control cut_back
    cut_front establish free_acked get_current_time grow_window handle_ack insert_early measure_rtt
    new_ack notify_writable open_window packet parse process pseudo_tcp_socket_connect
    pseudo_tcp_socket_notify_packet pseudo_tcp_socket_recv pseudo_tcp_socket_send queue read_bytes
    receive_data recover_early same_ack send_loop send_round send_segment shrink store_data
    time_diff time_is_between transmit update_timestamp
short_packet_test = refl

abbrev five : SSegment
five = record { seq = 0; len = 5; xmit = 1; ctrl = false }

partial_ack_example :
    let rest = record five { len = 2 } in
    (free_acked (five ∷ []) (sub32 3 sender.snd_una) 0 ≡ done (rest ∷ [], 0))
    × (sub32 rest.seq (acked sender acking 0).snd_una ≡ 2 ^ 32 - 3)
    × (snd_buf_size ≤ sub32 rest.seq (acked sender acking 0).snd_una)
unfolding pseudo_tcp_socket_new
partial_ack_example =
    partial_ack sender acking 0 3 0 five [] refl (omega arith) (omega arith) (omega arith) refl
      (omega arith)
