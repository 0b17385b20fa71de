-- ===== src/Agent/PseudoTcp/States.antt =====
-- agent/pseudotcp.c: the states of a connection.
use libxice.Base.{◌≡◌, refl}
use libxice.Agent.PseudoTcp.{PseudoTcpState, listen, syn_sent, syn_received, established, closed}

-- What the code assigns to `state`, and where.
pub data Step : PseudoTcpState → PseudoTcpState → Type 0 where
  -- `pseudo_tcp_socket_connect`
  connect : Step listen syn_sent
  -- A CTL_CONNECT in `process`, from a peer that connects and from one that answers.
  accept : Step listen syn_received
  answered : Step syn_sent established
  -- An acknowledgment of our CTL_CONNECT.
  confirmed : Step syn_received established
  -- `closedown`
  close : (a : PseudoTcpState) → Step a closed

pub data Reach (a : PseudoTcpState) : PseudoTcpState → Type 0 where
  here : Reach a a
  next : {b c : PseudoTcpState} → Reach a b → Step b c → Reach a c

pub Reach-trans : {a b c : PseudoTcpState} → Reach a b → Reach b c → Reach a c
Reach-trans r here = r
Reach-trans r (next q st) = next (Reach-trans r q) st

closed-Step : {b c : PseudoTcpState} → b ≡ closed → Step b c → c ≡ closed
closed-Step e connect = absurd (cc)
closed-Step e accept = absurd (cc)
closed-Step e answered = absurd (cc)
closed-Step e confirmed = absurd (cc)
closed-Step e (close a) = refl

-- A closed socket stays closed.
pub closed-Reach : {c : PseudoTcpState} → Reach closed c → c ≡ closed
closed-Reach here = refl
closed-Reach (next r st) = closed-Step (closed-Reach r) st
