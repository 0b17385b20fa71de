-- ===== src/Agent/PseudoTcp/Socket.antt =====
-- agent/pseudotcp.c: the functions that the user of a socket calls.
pub mod Frame
pub mod Session
pub mod Calls
use libxice.Base.{ℕ, ◌+◌, ◌-◌, ◌*◌, ◌/◌, ◌%◌, ◌^◌, Bool, true, false, not, ◌&&◌, ◌||◌}
use libxice.Base.{Option, none, some, List, [], ◌∷◌, length, ltb, leb, ◌==◌, if◌then◌else◌}
use libxice.Base.Memory.{Memory}
use libxice.Agent.PseudoTcp.{PseudoTcpSocket, PseudoTcpState, listen, syn_sent, syn_received}
use libxice.Agent.PseudoTcp.{established, closed, SendFlags, sf_none, sf_immediate_ack, Shutdown}
use libxice.Agent.PseudoTcp.{sd_none, sd_graceful, sd_forceful, einval, enotconn, ewouldblock}
use libxice.Agent.PseudoTcp.{econnaborted, no_error, Run, done, aborted, ◌>>=◌, Errno}
use libxice.Agent.PseudoTcp.{PseudoTcpWriteResult, max_packet, min_packet, packet_overhead, def_rto}
use libxice.Agent.PseudoTcp.{max_rto, ack_delay, ctl_connect, default_timeout, closed_timeout}
use libxice.Agent.PseudoTcp.{rcv_buf_size, snd_buf_size}
use libxice.Agent.PseudoTcp.U32.{ℤ, pos, negsuc, leb_ℤ, min_ℤ, add32, sub32, mul32, sub64, min, max}
use libxice.Agent.PseudoTcp.Clock.{get_current_time, time_diff}
use libxice.Agent.PseudoTcp.Send.{is_established, queue, packet, transmit_first, attempt_send}
use libxice.Agent.PseudoTcp.Send.{closedown, adjust_mtu}
use libxice.Agent.PseudoTcp.Store.{read_bytes}
use libxice.Agent.PseudoTcp.Receive.{parse, is_closed}

-- `pseudo_tcp_socket_new` with `pseudo_tcp_socket_init`, for a conversation and its surroundings.
unfoldable pub pseudo_tcp_socket_new : ℕ → (ℕ → ℕ) → (ℕ → PseudoTcpWriteResult) → PseudoTcpSocket
pseudo_tcp_socket_new conversation clock replies =
    let now = clock 0 % 2 ^ 32 in
    let mss = min_packet - packet_overhead in
    record {
      shutdown = sd_none;
      error = no_error;
      state = listen;
      conv = conversation;
      read_enable = true;
      write_enable = false;
      outgoing = false;
      last_traffic = now;
      rlist = [];
      rbuf = λ i. 0;
      rcv_nxt = 0;
      rcv_wnd = rcv_buf_size;
      rlen = 0;
      lastrecv = now;
      slist = [];
      sbuf = λ i. 0;
      snd_nxt = 0;
      snd_wnd = 1;
      slen = 0;
      lastsend = now;
      snd_una = 0;
      mss = mss;
      msslevel = 0;
      largest = 0;
      mtu_advise = max_packet;
      rto_base = 0;
      ts_recent = 0;
      ts_lastack = 0;
      rx_rttvar = 0;
      rx_srtt = 0;
      rx_rto = def_rto;
      ssthresh = rcv_buf_size;
      cwnd = 2 * mss;
      dup_acks = 0;
      recover = 0;
      t_ack = 0;
      clock = clock;
      ticks = 1;
      replies = replies;
      writes = 0;
      events = [];
    }

abbrev pub is_listening : PseudoTcpState → Bool
is_listening listen = true
is_listening _ = false

unfoldable pub pseudo_tcp_socket_connect : PseudoTcpSocket → Run (PseudoTcpSocket × Bool)
pseudo_tcp_socket_connect s =
    if is_listening s.state
    then (queue (record s { state = syn_sent }) (ctl_connect ∷ []) true >>= λ (s', n).
        attempt_send s' sf_none >>= λ s''. done (s'', true))
    else done (record s { error = einval }, false)

unfoldable pub pseudo_tcp_socket_notify_mtu : PseudoTcpSocket → ℕ → PseudoTcpSocket
pseudo_tcp_socket_notify_mtu s mtu =
    let s' = record s { mtu_advise = mtu } in if is_established s.state then adjust_mtu s' else s'

-- `time_diff (base + delay, now) <= 0`
abbrev pub is_due : ℕ → ℕ → ℕ → Bool
is_due base delay now = leb_ℤ (time_diff (add32 base delay) now) (pos 0)

abbrev pub is_connecting : PseudoTcpState → Bool
is_connecting established = false
is_connecting closed = false
is_connecting _ = true

-- The congestion window and the timer after a retransmission.
abbrev pub slowed : PseudoTcpSocket → ℕ → PseudoTcpSocket
slowed s now = record s {
  ssthresh = max (sub32 s.snd_nxt s.snd_una / 2) (mul32 2 s.mss);
  cwnd = s.mss;
  rx_rto = min (if is_connecting s.state then def_rto else max_rto) (mul32 s.rx_rto 2);
  rto_base = now;
}

-- A retransmission goes on with `next`, or closes the socket.
abbrev pub backed_off :
    ℕ → (PseudoTcpSocket → Run PseudoTcpSocket) → PseudoTcpSocket × Bool → Run PseudoTcpSocket
backed_off now next (s, false) = done (closedown s econnaborted)
backed_off now next (s, true) = next (slowed s now)

unfoldable pub retransmit_due :
    PseudoTcpSocket → ℕ → (PseudoTcpSocket → Run PseudoTcpSocket) → Run PseudoTcpSocket
retransmit_due s now next =
    if not (s.rto_base == 0) && is_due s.rto_base s.rx_rto now
    then transmit_first s s.slist now >>= backed_off now next
    else next s

abbrev pub probed : PseudoTcpSocket → ℕ → PseudoTcpSocket
probed s now = record s { lastsend = now; rx_rto = min max_rto (mul32 s.rx_rto 2) }

unfoldable pub probe_due :
    PseudoTcpSocket → ℕ → (PseudoTcpSocket → Run PseudoTcpSocket) → Run PseudoTcpSocket
probe_due s now next =
    if (s.snd_wnd == 0) && is_due s.lastsend s.rx_rto now
    then (if leb_ℤ (pos 15000) (time_diff now s.lastrecv)
        then done (closedown s econnaborted)
        else (packet s (sub32 s.snd_nxt 1) 0 none >>= λ (s', wres). next (probed s' now)))
    else next s

unfoldable pub ack_due : PseudoTcpSocket → ℕ → Run PseudoTcpSocket
ack_due s now =
    if not (s.t_ack == 0) && is_due s.t_ack ack_delay now
    then (packet s s.snd_nxt 0 none >>= λ (s', wres). done s')
    else done s

unfoldable pub pseudo_tcp_socket_notify_clock : PseudoTcpSocket → Run PseudoTcpSocket
pseudo_tcp_socket_notify_clock s =
    let (now, s') = get_current_time s in
    if is_closed s.state
    then done s'
    else retransmit_due s' now (λ r. probe_due r now (λ p. ack_due p now))

unfoldable pub pseudo_tcp_socket_notify_packet :
    PseudoTcpSocket → Memory → ℕ → Run (PseudoTcpSocket × Bool)
pseudo_tcp_socket_notify_packet s buffer len =
    if ltb max_packet len then done (s, false) else parse s buffer len

abbrev pub is_graceful : Shutdown → Bool
is_graceful sd_graceful = true
is_graceful _ = false

abbrev pub is_forceful : Shutdown → Bool
is_forceful sd_forceful = true
is_forceful _ = false

-- The earlier of `timeout` and the moment `base + delay`, if the test holds.
abbrev pub no_later : Bool → ℕ → ℕ → ℕ → ℤ → ℤ
no_later test base delay now timeout =
    if test then min_ℤ timeout (time_diff (add32 base delay) now) else timeout

-- The timeout, or `none` for FALSE.
unfoldable pub pseudo_tcp_socket_get_next_clock : PseudoTcpSocket → PseudoTcpSocket × Option ℤ
pseudo_tcp_socket_get_next_clock s =
    let (now, s') = get_current_time s in
    if is_forceful s.shutdown
    then (s', none)
    else if is_graceful s.shutdown
        && (not (is_established s.state) || ((s.slen == 0) && (s.t_ack == 0)))
    then (s', none)
    else if is_closed s.state
    then (s', some (pos closed_timeout))
    else (
      s',
      some (
          no_later (s.snd_wnd == 0) s.lastsend s.rx_rto now (
            no_later (not (s.rto_base == 0)) s.rto_base s.rx_rto now
              (no_later (not (s.t_ack == 0)) s.t_ack ack_delay now (pos default_timeout)))),
    )

-- The window is opened again if that is worth a packet.
unfoldable pub open_window : PseudoTcpSocket → Run PseudoTcpSocket
open_window s =
    if leb (min (rcv_buf_size / 2) s.mss) (sub64 (sub64 rcv_buf_size s.rlen) s.rcv_wnd)
    then (let s' = record s { rcv_wnd = sub64 rcv_buf_size s.rlen % 2 ^ 32 } in
        if s.rcv_wnd == 0 then attempt_send s' sf_immediate_ack else done s')
    else done s

-- The bytes that are read, or `none` for -1.
unfoldable pub pseudo_tcp_socket_recv :
    PseudoTcpSocket → ℕ → Run (PseudoTcpSocket × Option (List ℕ))
pseudo_tcp_socket_recv s len =
    if not (is_established s.state)
    then done (record s { error = enotconn }, none)
    else if s.rlen == 0
    then done (record s { read_enable = true; error = ewouldblock }, none)
    else (let (bytes, s') = read_bytes s (min (len % 2 ^ 32) s.rlen) in
        open_window s' >>= λ s''. done (s'', some bytes))

-- The number of bytes that were taken, or `none` for -1.
unfoldable pub pseudo_tcp_socket_send : PseudoTcpSocket → List ℕ → Run (PseudoTcpSocket × Option ℕ)
pseudo_tcp_socket_send s bytes =
    if not (is_established s.state)
    then done (record s { error = enotconn }, none)
    else if s.slen == snd_buf_size
    then done (record s { write_enable = true; error = ewouldblock }, none)
    else (queue s bytes false >>= λ (s', n). attempt_send s' sf_none >>= λ s''. done (
      (if ltb 0 n && ltb n (length bytes) then record s'' { write_enable = true } else s''),
      some n,
    ))

unfoldable pub pseudo_tcp_socket_close : PseudoTcpSocket → Bool → PseudoTcpSocket
pseudo_tcp_socket_close s force = record s { shutdown = if force then sd_forceful else sd_graceful }

unfoldable pub pseudo_tcp_socket_get_error : PseudoTcpSocket → Errno
pseudo_tcp_socket_get_error s = s.error
