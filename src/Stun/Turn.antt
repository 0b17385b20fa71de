-- ===== src/Stun/Turn.antt =====
-- stun/usages/turn.c: the requests to a relay and what its answers say.
pub mod Process
mod Tests
use libxice.Base.{ℕ, ◌+◌, ◌/◌, Bool, true, false, not, ◌&&◌, ◌==◌, if◌then◌else◌}
use libxice.Base.{Option, none, some, List, []}
use libxice.Base.Memory.{Memory}
use libxice.Stun.Constants.{request, indication, response, error, StunMessageReturn, success}
use libxice.Stun.Constants.Attribute
use libxice.Stun.Constants.Method
use libxice.Stun.Types.{StunAgent, StunMessage}
use libxice.Stun.Utils.{SockAddr}
use libxice.Stun.Message.{stun_message_find, stun_message_get_class, stun_message_get_method}
use libxice.Stun.Message.{stun_message_has_attribute}
use libxice.Stun.Message.Append.{stun_message_append32, stun_message_append64}
use libxice.Stun.Message.Append.{stun_message_append_bytes, stun_message_append_xor_addr}
use libxice.Stun.Message.Typed.{Found, FoundAddr, stun_message_find_error, stun_message_find_addr}
use libxice.Stun.Message.Typed.{
  stun_message_find_xor_addr, stun_message_find32, stun_message_find64,
}
use libxice.Stun.Hmac.{Crypto}
use libxice.Stun.Agent.Receive.{value_of}
use libxice.Stun.Agent.Send.{stun_agent_init_request}
use libxice.Stun.Agent.Finish.{Finished, stun_agent_finish_message}
use libxice.Stun.Ice.{and_then, with_username}

-- `StunUsageTurnRequestPorts`
pub data TurnRequestPorts : Type 0 where
  port_normal port_even port_even_and_reserve : TurnRequestPorts

-- `StunUsageTurnCompatibility`
pub data TurnCompatibility : Type 0 where
  draft9 google msn oc2007 rfc5766 : TurnCompatibility

-- `StunUsageTurnReturn`
pub data TurnReturn : Type 0 where
  relay_success mapped_success turn_error turn_invalid turn_alternate_server : TurnReturn

-- REQUESTED_PROPS_E, and with REQUESTED_PROPS_R.
abbrev pub requested_props : TurnRequestPorts → ℕ
requested_props port_normal = 0
requested_props port_even = 0x80000000
requested_props port_even_and_reserve = 0x80000000 + 0x40000000

abbrev pub turn_magic_cookie : ℕ
turn_magic_cookie = 0x72c64bc6

abbrev pub turn_requested_transport_udp : ℕ
turn_requested_transport_udp = 0x11000000

abbrev pub msn_mapped_address : ℕ
msn_mapped_address = 0x8000

abbrev pub Appended : Type 0
Appended = StunMessageReturn × StunMessage

-- DRAFT9 or RFC5766.
abbrev pub is_standard : TurnCompatibility → Bool
is_standard draft9 = true
is_standard rfc5766 = true
is_standard _ = false

abbrev pub is_oc2007 : TurnCompatibility → Bool
is_oc2007 oc2007 = true
is_oc2007 _ = false

abbrev pub is_port_normal : TurnRequestPorts → Bool
is_port_normal port_normal = true
is_port_normal _ = false

-- An optional number; `none` is a negative one.
abbrev pub with_number : ℕ → Option ℕ → StunMessage → Appended
with_number type none m = (success, m)
with_number type (some value) m = stun_message_append32 m type value

-- An attribute of the previous response is repeated.
abbrev pub with_same : ℕ → StunMessage → Option (ℕ × ℕ) → StunMessage → Appended
with_same type previous none m = (success, m)
with_same type previous (some found) m = stun_message_append_bytes m type (value_of previous found)

abbrev pub with_realm_and_nonce : StunMessage → StunMessage → Appended
with_realm_and_nonce previous m =
    and_then (with_same Attribute.realm previous (stun_message_find previous Attribute.realm) m)
      (with_same Attribute.nonce previous (stun_message_find previous Attribute.nonce))

abbrev pub with_reservation : Found ℕ → StunMessage → Appended
with_reservation (success, some reservation) m =
    stun_message_append64 m Attribute.reservation_token reservation
with_reservation _ m = (success, m)

abbrev pub with_previous : Option StunMessage → StunMessage → Appended
with_previous none m = (success, m)
with_previous (some previous) m =
    and_then (with_realm_and_nonce previous m)
      (with_reservation (stun_message_find64 previous Attribute.reservation_token))

abbrev pub with_challenge : Option StunMessage → StunMessage → Appended
with_challenge none m = (success, m)
with_challenge (some previous) m = with_realm_and_nonce previous m

-- The transport and the bandwidth, or the cookie of the older protocols.
abbrev pub with_transport : TurnCompatibility → Option ℕ → StunMessage → Appended
with_transport compatibility bandwidth m =
    if is_standard compatibility
    then and_then
        (stun_message_append32 m Attribute.requested_transport turn_requested_transport_udp)
        (with_number Attribute.bandwidth bandwidth)
    else stun_message_append32 m Attribute.magic_cookie turn_magic_cookie

-- The result of this append is not looked at.
abbrev pub with_version : TurnCompatibility → StunMessage → Appended
with_version compatibility m =
    if is_oc2007 compatibility
    then (let (ignored, m') = stun_message_append32 m Attribute.ms_version 1 in (success, m'))
    else (success, m)

abbrev pub with_ports : TurnCompatibility → TurnRequestPorts → StunMessage → Appended
with_ports compatibility request_props m =
    if is_standard compatibility && not (is_port_normal request_props)
    then stun_message_append32 m Attribute.requested_port_props (requested_props request_props)
    else (success, m)

abbrev pub with_bytes : ℕ → Option (List ℕ) → StunMessage → Appended
with_bytes type none m = (success, m)
with_bytes type (some bytes) m = stun_message_append_bytes m type bytes

module _ (crypto : Crypto) (unset package_string : List ℕ) where
  abbrev pub finished : StunAgent → Option (List ℕ) → Appended → Finished
  finished agent password (success, m) = stun_agent_finish_message crypto unset agent m password
  finished agent password (failed, m) = (agent, m, 0)

  -- `id` is the random transaction id; a NULL or empty username is `[]`.
  unfoldable pub stun_usage_turn_create :
      StunAgent
      → StunMessage
      → Memory
      → ℕ
      → Option StunMessage
      → TurnRequestPorts
      → Option ℕ
      → Option ℕ
      → List ℕ
      → Option (List ℕ)
      → TurnCompatibility
      → List ℕ
      → Finished
  stun_usage_turn_create agent msg buffer buffer_len previous request_props bandwidth lifetime
        username password compatibility id =
      let (started, m) =
        stun_agent_init_request package_string agent msg buffer buffer_len Method.allocate id in
      let transport = with_transport compatibility bandwidth m in
      let version = and_then transport (with_version compatibility) in
      let timed = and_then version (with_number Attribute.lifetime lifetime) in
      let ports = and_then timed (with_ports compatibility request_props) in
      let repeated = and_then ports (with_previous previous) in
      finished agent password (and_then repeated (with_username username))

  unfoldable pub stun_usage_turn_create_refresh :
      StunAgent
      → StunMessage
      → Memory
      → ℕ
      → Option StunMessage
      → Option ℕ
      → List ℕ
      → Option (List ℕ)
      → TurnCompatibility
      → List ℕ
      → Finished
  stun_usage_turn_create_refresh agent msg buffer buffer_len previous lifetime username password
        compatibility id =
      if not (is_standard compatibility)
      then stun_usage_turn_create agent msg buffer buffer_len previous port_normal (some 0) lifetime
          username password compatibility id
      else (let (started, m) =
            stun_agent_init_request package_string agent msg buffer buffer_len Method.refresh id in
          let timed = with_number Attribute.lifetime lifetime m in
          let repeated = and_then timed (with_challenge previous) in
          finished agent password (and_then repeated (with_username username)))

  -- `peer` is the address that `peer` points at, with `sizeof (struct sockaddr)`.
  unfoldable pub stun_usage_turn_create_permission :
      StunAgent
      → StunMessage
      → Memory
      → ℕ
      → Option (List ℕ)
      → Option (List ℕ)
      → Option (List ℕ)
      → Option (List ℕ)
      → Option SockAddr
      → List ℕ
      → Finished
  stun_usage_turn_create_permission agent msg buffer buffer_len username password realm challenge
        none id =
      (agent, msg, 0)
  stun_usage_turn_create_permission agent msg buffer buffer_len username password realm challenge
        (some peer) id =
      let (started, m) =
        stun_agent_init_request package_string agent msg buffer buffer_len Method.createpermission
          id in
      let addressed = stun_message_append_xor_addr m Attribute.xor_peer_address peer 16 in
      let nonced = and_then addressed (with_bytes Attribute.nonce challenge) in
      let realmed = and_then nonced (with_bytes Attribute.realm realm) in
      finished agent password (and_then realmed (with_bytes Attribute.username username))
