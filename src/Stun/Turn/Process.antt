-- ===== src/Stun/Turn/Process.antt =====
-- stun/usages/turn.c: what the answers of a relay say.
pub mod Addresses
pub mod Stored
use libxice.Base.{ℕ, ◌/◌, not, ◌==◌, if◌then◌else◌, Option, none, some}
use libxice.Stun.Constants.{request, indication, response, error, StunMessageReturn, success}
use libxice.Stun.Constants.Attribute
use libxice.Stun.Constants.Method
use libxice.Stun.Types.{StunMessage}
use libxice.Stun.Utils.{SockAddr}
use libxice.Stun.Message.{stun_message_get_class, stun_message_get_method}
use libxice.Stun.Message.{stun_message_has_attribute}
use libxice.Stun.Message.Typed.{Found, FoundAddr, stun_message_find_error, stun_message_find_addr}
use libxice.Stun.Message.Typed.{stun_message_find_xor_addr, stun_message_find32}
use libxice.Stun.Turn.{TurnCompatibility, draft9, google, msn, oc2007, rfc5766, is_standard}
use libxice.Stun.Turn.{TurnReturn, relay_success, mapped_success, turn_error, turn_invalid}
use libxice.Stun.Turn.{turn_alternate_server, msn_mapped_address}

-- What is returned, and what is stored: `none` where nothing is.
pub record Allocated : Type 0 where
  pub returned : TurnReturn
  pub relay_addr : Option SockAddr
  pub addr : Option SockAddr
  pub alternate_server : Option SockAddr
  pub bandwidth : Option ℕ
  pub lifetime : Option ℕ

abbrev pub only : TurnReturn → Allocated
only returned = record {
  returned = returned;
  relay_addr = none;
  addr = none;
  alternate_server = none;
  bandwidth = none;
  lifetime = none;
}

abbrev pub turn_alternate_of : FoundAddr → Allocated
turn_alternate_of (success, found, len) = record (only turn_alternate_server) {
  alternate_server = found;
}
turn_alternate_of (failed, found, len) = only turn_error

-- ALTERNATE-SERVER, where `some len` is the length of the caller's buffer for it.
abbrev pub turn_alternate : StunMessage → Option ℕ → Allocated
turn_alternate msg (some len) =
    turn_alternate_of (stun_message_find_addr msg Attribute.alternate_server len)
turn_alternate msg none =
    if stun_message_has_attribute msg Attribute.alternate_server
    then only turn_alternate_server
    else only turn_error

abbrev pub on_turn_error : StunMessage → Option ℕ → Found ℕ → Allocated
on_turn_error msg alternate_len (success, some code) =
    if code / 100 == 3 then turn_alternate msg alternate_len else only turn_error
on_turn_error msg alternate_len _ = only turn_invalid

-- The mapped address is optional.
abbrev pub mapped_return : FoundAddr → TurnReturn × Option SockAddr
mapped_return (success, found, len) = (mapped_success, found)
mapped_return (failed, found, len) = (relay_success, found)

-- The address of the relay is not.
abbrev pub with_relay : StunMessage → TurnReturn × Option SockAddr → FoundAddr → Allocated
with_relay msg (returned, mapped) (success, found, len) = record {
  returned = returned;
  relay_addr = found;
  addr = mapped;
  alternate_server = none;
  bandwidth = (stun_message_find32 msg Attribute.bandwidth).1;
  lifetime = (stun_message_find32 msg Attribute.lifetime).1;
}
with_relay msg (returned, mapped) (failed, found, len) = record (only turn_error) {
  relay_addr = found;
  addr = mapped;
}

abbrev pub allocated : StunMessage → ℕ → ℕ → TurnCompatibility → Allocated
allocated msg relay_len len google =
    with_relay msg (relay_success, none)
      (stun_message_find_addr msg Attribute.mapped_address relay_len)
allocated msg relay_len len msn =
    with_relay msg (mapped_return (stun_message_find_addr msg msn_mapped_address len))
      (stun_message_find_addr msg Attribute.mapped_address relay_len)
allocated msg relay_len len oc2007 =
    with_relay msg (mapped_return (stun_message_find_addr msg msn_mapped_address len))
      (stun_message_find_addr msg Attribute.mapped_address relay_len)
allocated msg relay_len len _ =
    with_relay msg (mapped_return (stun_message_find_xor_addr msg Attribute.xor_mapped_address len))
      (stun_message_find_xor_addr msg Attribute.relay_address relay_len)

-- `relay_len` and `len` are the lengths of the buffers for the addresses.
unfoldable pub stun_usage_turn_process :
    StunMessage → ℕ → ℕ → Option ℕ → TurnCompatibility → Allocated
stun_usage_turn_process msg relay_len len alternate_len compatibility =
    if not (stun_message_get_method msg == Method.allocate)
    then only turn_invalid
    else elim (stun_message_get_class msg) [
      | request ↦ only turn_invalid
      | indication ↦ only turn_invalid
      | error ↦ on_turn_error msg alternate_len (stun_message_find_error msg)
      | response ↦ allocated msg relay_len len compatibility
    ]

abbrev pub refresh_error : Found ℕ → TurnReturn × Option ℕ
refresh_error (success, code) = (turn_error, none)
refresh_error _ = (turn_invalid, none)

-- What is returned, and the lifetime.
unfoldable pub stun_usage_turn_refresh_process :
    StunMessage → TurnCompatibility → TurnReturn × Option ℕ
stun_usage_turn_refresh_process msg compatibility =
    let method = if is_standard compatibility then Method.refresh else Method.allocate in
    if not (stun_message_get_method msg == method)
    then (turn_invalid, none)
    else elim (stun_message_get_class msg) [
      | request ↦ (turn_invalid, none)
      | indication ↦ (turn_invalid, none)
      | error ↦ refresh_error (stun_message_find_error msg)
      | response ↦ (relay_success, (stun_message_find32 msg Attribute.lifetime).1)
    ]
