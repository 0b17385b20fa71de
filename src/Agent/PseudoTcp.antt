-- ===== src/Agent/PseudoTcp.antt =====
-- agent/pseudotcp.c and agent/pseudotcp.h: the constants, the types and the state of a socket.
-- A 32-bit number is kept below 2 ^ 32 by the operations of `U32`; `Run` is the outcome of code that
-- can abort.
pub mod Outcome
pub mod States
pub mod U32
pub mod Clock
pub mod Send
pub mod Store
pub mod Receive
pub mod Socket
mod Tests
mod SessionTests
use libxice.Base.{ℕ, ◌+◌, ◌-◌, ◌*◌, Option, Bool, true, false, List, [], ◌∷◌}
use libxice.Base.Memory.{Memory}

-- `PACKET_MAXIMUMS`
abbrev pub packet_maximums : List ℕ
packet_maximums = 65535 ∷ 32000 ∷ 17914 ∷ 8166 ∷ 4352 ∷ 2002 ∷ 1492 ∷ 1006 ∷ 508 ∷ 296 ∷ 0 ∷ []

abbrev pub max_packet : ℕ
max_packet = 65535

abbrev pub min_packet : ℕ
min_packet = 296

abbrev pub header_size : ℕ
header_size = 24

-- The headers of this protocol, of UDP, of IP and of a relay.
abbrev pub packet_overhead : ℕ
packet_overhead = header_size + 8 + 20 + 64

abbrev pub min_rto : ℕ
min_rto = 250

abbrev pub def_rto : ℕ
def_rto = 3000

abbrev pub max_rto : ℕ
max_rto = 60000

abbrev pub ack_delay : ℕ
ack_delay = 100

abbrev pub flag_ctl : ℕ
flag_ctl = 2

abbrev pub flag_rst : ℕ
flag_rst = 4

abbrev pub ctl_connect : ℕ
ctl_connect = 0

abbrev pub default_timeout : ℕ
default_timeout = 4000

abbrev pub closed_timeout : ℕ
closed_timeout = 60 * 1000

-- `kRcvBufSize`, the size of `rbuf`.
abbrev pub rcv_buf_size : ℕ
rcv_buf_size = 1024 * 60

-- `kSndBufSize`, the size of `sbuf`.
abbrev pub snd_buf_size : ℕ
snd_buf_size = 1024 * 90

pub data PseudoTcpState : Type 0 where
  listen syn_sent syn_received established closed : PseudoTcpState

pub data PseudoTcpWriteResult : Type 0 where
  wr_success wr_too_large wr_fail : PseudoTcpWriteResult

-- `SD_NONE`, `SD_GRACEFUL`, `SD_FORCEFUL`
pub data Shutdown : Type 0 where
  sd_none sd_graceful sd_forceful : Shutdown

-- `sfNone`, `sfDelayedAck`, `sfImmediateAck`
pub data SendFlags : Type 0 where
  sf_none sf_delayed_ack sf_immediate_ack : SendFlags

-- The values of `errno` that the code sets.
pub data Errno : Type 0 where
  no_error einval enotconn ewouldblock econnaborted econnreset : Errno

pub record Segment : Type 0 where
  pub conv : ℕ
  pub seq : ℕ
  pub ack : ℕ
  pub flags : ℕ
  pub wnd : ℕ
  pub payload : Memory
  pub len : ℕ
  pub tsval : ℕ
  pub tsecr : ℕ

-- `SSegment`, a segment of the send buffer. `ctrl` is `bCtrl`.
pub record SSegment : Type 0 where
  pub seq : ℕ
  pub len : ℕ
  pub xmit : ℕ
  pub ctrl : Bool

-- `RSegment`, a segment that came too early.
pub record RSegment : Type 0 where
  pub seq : ℕ
  pub len : ℕ

-- The calls of the callbacks, of which `write_packet` has the bytes that are sent.
pub data Event : Type 0 where
  opened readable writable : Event
  gone : Errno → Event
  write_packet : List ℕ → Event

-- `struct _PseudoTcpSocketPrivate`. The last five fields are the surroundings: the readings of the
-- clock and the results of WritePacket, each with the number of those that were used, and the calls of
-- the callbacks, the last one first.
pub record PseudoTcpSocket : Type 0 where
  pub shutdown : Shutdown
  pub error : Errno
  pub state : PseudoTcpState
  pub conv : ℕ
  pub read_enable : Bool
  pub write_enable : Bool
  pub outgoing : Bool
  pub last_traffic : ℕ
  pub rlist : List RSegment
  pub rbuf : Memory
  pub rcv_nxt : ℕ
  pub rcv_wnd : ℕ
  pub rlen : ℕ
  pub lastrecv : ℕ
  pub slist : List SSegment
  pub sbuf : Memory
  pub snd_nxt : ℕ
  pub snd_wnd : ℕ
  pub slen : ℕ
  pub lastsend : ℕ
  pub snd_una : ℕ
  pub mss : ℕ
  pub msslevel : ℕ
  pub largest : ℕ
  pub mtu_advise : ℕ
  pub rto_base : ℕ
  pub ts_recent : ℕ
  pub ts_lastack : ℕ
  pub rx_rttvar : ℕ
  pub rx_srtt : ℕ
  pub rx_rto : ℕ
  pub ssthresh : ℕ
  pub cwnd : ℕ
  pub dup_acks : ℕ
  pub recover : ℕ
  pub t_ack : ℕ
  pub clock : ℕ → ℕ
  pub ticks : ℕ
  pub replies : ℕ → PseudoTcpWriteResult
  pub writes : ℕ
  pub events : List Event

-- `aborted`: a failed assertion, a read through NULL or a division by zero. `starved`: the fuel of a
-- loop ran out.
pub data Run (A : Type 0) : Type 0 where
  done : A → Run A
  aborted starved : Run A

infixl 5 ◌>>=◌
abbrev pub ◌>>=◌ : {A B : Type 0} → Run A → (A → Run B) → Run B
done a >>= f = f a
aborted >>= f = aborted
starved >>= f = starved

-- `g_assert`
abbrev pub g_assert : {A : Type 0} → Bool → Run A → Run A
g_assert true rest = rest
g_assert false rest = aborted

-- A callback is called.
abbrev pub call : Event → PseudoTcpSocket → PseudoTcpSocket
call e s = record s { events = e ∷ s.events }
