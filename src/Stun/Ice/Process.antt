-- ===== src/Stun/Ice/Process.antt =====
-- stun/usages/ice.c: what the answer to a check says, and the attributes of a check.
use libxice.Base.{ℕ, Bool, true, false, not, ◌==◌, if◌then◌else◌}
use libxice.Base.{Option, none, some}
use libxice.Stun.Constants.{request, indication, response, error, success}
use libxice.Stun.Constants.{message_trans_id_pos}
use libxice.Stun.Constants.Attribute
use libxice.Stun.Constants.Method
use libxice.Stun.Constants.Fault
use libxice.Stun.Types.{StunMessage}
use libxice.Stun.Utils.{SockAddr}
use libxice.Stun.Message.{stun_message_get_class, stun_message_get_method}
use libxice.Stun.Message.{word32}
use libxice.Stun.Message.Typed.{Found, FoundAddr, stun_message_find_error}
use libxice.Stun.Message.Typed.{stun_message_find32, stun_message_find_flag, stun_message_find_addr}
use libxice.Stun.Message.Typed.{stun_message_find_xor_addr, stun_message_find_xor_addr_full}
use libxice.Stun.Ice.{
  IceCompatibility, IceReturn, ice_success, ice_error, ice_invalid, role_conflict,
  no_mapped_address, is_msn,
}

-- The result, and the address on success.
abbrev pub mapped : FoundAddr → IceReturn × Option SockAddr
mapped (success, addr, addrlen) = (ice_success, addr)
mapped (failed, addr, addrlen) = (no_mapped_address, none)

-- MAPPED-ADDRESS is looked for where XOR-MAPPED-ADDRESS is missing; `addrlen` is what `*addrlen` says
-- then.
abbrev pub or_mapped : StunMessage → FoundAddr → IceReturn × Option SockAddr
or_mapped msg (success, addr, addrlen) = (ice_success, addr)
or_mapped msg (failed, addr, addrlen) =
    mapped (stun_message_find_addr msg Attribute.mapped_address addrlen)

abbrev pub on_error : Found ℕ → IceReturn × Option SockAddr
on_error (success, some code) =
    (if code == Fault.role_conflict then role_conflict else ice_error, none)
on_error _ = (ice_invalid, none)

unfoldable pub stun_usage_ice_conncheck_process :
    StunMessage → ℕ → IceCompatibility → IceReturn × Option SockAddr
stun_usage_ice_conncheck_process msg addrlen compatibility =
    if not (stun_message_get_method msg == Method.binding)
    then (ice_invalid, none)
    else elim (stun_message_get_class msg) [
      | request ↦ (ice_invalid, none)
      | indication ↦ (ice_invalid, none)
      | error ↦ on_error (stun_message_find_error msg)
      | response ↦ or_mapped msg (
          if is_msn compatibility
          then stun_message_find_xor_addr_full msg Attribute.xor_mapped_address addrlen
              (word32 msg.buffer message_trans_id_pos)
          else stun_message_find_xor_addr msg Attribute.xor_mapped_address addrlen)
    ]

abbrev pub or_zero : Found ℕ → ℕ
or_zero (success, some value) = value
or_zero _ = 0

unfoldable pub stun_usage_ice_conncheck_priority : StunMessage → ℕ
stun_usage_ice_conncheck_priority msg = or_zero (stun_message_find32 msg Attribute.priority)

unfoldable pub stun_usage_ice_conncheck_use_candidate : StunMessage → Bool
stun_usage_ice_conncheck_use_candidate msg =
    elim (stun_message_find_flag msg Attribute.use_candidate) [ success ↦ true | _ ↦ false ]
