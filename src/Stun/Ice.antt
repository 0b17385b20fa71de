-- ===== src/Stun/Ice.antt =====
-- stun/usages/ice.c: connectivity checks.
pub mod Process
pub mod Role
mod Tests
use libxice.Base.{ℕ, ◌+◌, ◌-◌, ◌%◌, Bool, true, false, not, ◌&&◌, ltb, ◌==◌, if◌then◌else◌}
use libxice.Base.{Option, none, some, List, [], ◌∷◌, ◌++◌, length, replicate}
use libxice.Base.Memory.{Memory}
use libxice.Stun.Constants.{request, StunMessageReturn, success}
use libxice.Stun.Constants.{invalid, not_enough_space, unsupported_address}
use libxice.Stun.Constants.{message_trans_id_pos}
use libxice.Stun.Constants.Attribute
use libxice.Stun.Constants.Method
use libxice.Stun.Constants.Fault
use libxice.Stun.Types.{StunAgent, StunMessage}
use libxice.Stun.Utils.{SockAddr}
use libxice.Stun.Message.{stun_message_find, stun_message_get_method}
use libxice.Stun.Message.{stun_message_has_cookie, word32}
use libxice.Stun.Message.Append.{stun_message_append_flag, stun_message_append32}
use libxice.Stun.Message.Append.{stun_message_append64, stun_message_append_bytes}
use libxice.Stun.Message.Append.{stun_message_append_addr, stun_message_append_xor_addr}
use libxice.Stun.Message.Append.{stun_message_append_xor_addr_full}
use libxice.Stun.Message.Typed.{Found, stun_message_find64}
use libxice.Stun.Hmac.{Crypto}
use libxice.Stun.Agent.Receive.{is_class, value_of}
use libxice.Stun.Agent.Send.{stun_agent_init_request, stun_agent_init_response}
use libxice.Stun.Agent.Send.{stun_agent_init_error}
use libxice.Stun.Agent.Finish.{Finished, stun_agent_finish_message}

-- `StunUsageIceCompatibility`; DRAFT19 is another name of RFC5245.
pub data IceCompatibility : Type 0 where
  rfc5245 google msn wlm2009 : IceCompatibility

-- `StunUsageIceReturn`
pub data IceReturn : Type 0 where
  ice_success ice_error ice_invalid role_conflict invalid_request invalid_method : IceReturn
  memory_error invalid_address no_mapped_address : IceReturn

-- The next append, if all before it succeeded.
abbrev pub and_then :
    StunMessageReturn × StunMessage
    → (StunMessage → StunMessageReturn × StunMessage)
    → StunMessageReturn × StunMessage
and_then (success, msg) f = f msg
and_then (failed, msg) f = (failed, msg)

-- The attributes of RFC 5245 in a request.
abbrev pub with_roles : Bool → Bool → ℕ → ℕ → StunMessage → StunMessageReturn × StunMessage
with_roles cand_use controlling priority tie msg =
    and_then
      (and_then
        (if cand_use then stun_message_append_flag msg Attribute.use_candidate else (success, msg))
        (λ m. stun_message_append32 m Attribute.priority priority))
      (λ m.
        stun_message_append64 m
          (if controlling then Attribute.ice_controlling else Attribute.ice_controlled) tie)

-- `username && username_len > 0`
abbrev pub with_username : List ℕ → StunMessage → StunMessageReturn × StunMessage
with_username [] msg = (success, msg)
with_username (c ∷ cs) msg = stun_message_append_bytes msg Attribute.username (c ∷ cs)

-- The identifier is filled up with zeros to a multiple of four.
abbrev pub with_identifier : List ℕ → StunMessage → StunMessageReturn × StunMessage
with_identifier identifier msg =
    stun_message_append_bytes msg Attribute.candidate_identifier
      (identifier ++ replicate ((4 - length identifier % 4) % 4) 0)

abbrev pub has_roles : IceCompatibility → Bool
has_roles rfc5245 = true
has_roles wlm2009 = true
has_roles _ = false

abbrev pub has_identifier : IceCompatibility → Bool
has_identifier wlm2009 = true
has_identifier _ = false

abbrev pub is_msn : IceCompatibility → Bool
is_msn msn = true
is_msn _ = false

abbrev pub is_google : IceCompatibility → Bool
is_google google = true
is_google _ = false

-- What the code does on the result of the last append.
abbrev pub then_finish :
    Crypto → List ℕ → StunAgent → Option (List ℕ) → StunMessageReturn × StunMessage → Finished
then_finish crypto unset agent key (success, msg) =
    stun_agent_finish_message crypto unset agent msg key
then_finish crypto unset agent key (failed, msg) = (agent, msg, 0)

-- The result, the role afterwards, and the agent, the message and its length.
abbrev pub Reply : Type 0
Reply = IceReturn × Bool × Finished

-- The code at `failure`.
abbrev pub failure_of : StunMessageReturn → IceReturn
failure_of not_enough_space = memory_error
failure_of invalid = invalid_address
failure_of unsupported_address = invalid_address
failure_of _ = ice_error

-- The mapped address of a response.
abbrev pub with_address :
    IceCompatibility → SockAddr → ℕ → StunMessage → StunMessageReturn × StunMessage
with_address compatibility src srclen m =
    if is_msn compatibility
    then stun_message_append_xor_addr_full m Attribute.xor_mapped_address src srclen
        (word32 m.buffer message_trans_id_pos)
    else if stun_message_has_cookie m && not (is_google compatibility)
    then stun_message_append_xor_addr m Attribute.xor_mapped_address src srclen
    else stun_message_append_addr m Attribute.mapped_address src srclen

-- The username of the request.
abbrev pub with_same_username :
    StunMessage → Option (ℕ × ℕ) → StunMessage → StunMessageReturn × StunMessage
with_same_username req none m = (success, m)
with_same_username req (some found) m =
    stun_message_append_bytes m Attribute.username (value_of req found)

-- The attribute of the peer that says that it has the same role.
abbrev pub own_role : Bool → ℕ
own_role control = if control then Attribute.ice_controlling else Attribute.ice_controlled

-- The handling of the role: `some q` is the tie-breaker of a peer with the same role.
abbrev pub with_tie : Found ℕ → Option ℕ
with_tie (success, found) = found
with_tie (failed, found) = none

module _ (crypto : Crypto) (unset package_string : List ℕ) where
  -- `id` is the random transaction id.
  unfoldable pub stun_usage_ice_conncheck_create :
      StunAgent
      → StunMessage
      → Memory
      → ℕ
      → List ℕ
      → Option (List ℕ)
      → Bool
      → Bool
      → ℕ
      → ℕ
      → List ℕ
      → IceCompatibility
      → List ℕ
      → Finished
  stun_usage_ice_conncheck_create agent msg buffer buffer_len username password cand_use controlling
        priority tie candidate_identifier compatibility id =
      let (started, m) =
        stun_agent_init_request package_string agent msg buffer buffer_len Method.binding id in
      then_finish crypto unset agent password (
        and_then
          (and_then
            (if has_roles compatibility
              then with_roles cand_use controlling priority tie m
              else (success, m))
            (with_username username))
          (λ m'.
            if has_identifier compatibility
            then with_identifier candidate_identifier m'
            else (success, m')))

  -- `stun_bind_error` and the macro `err`: the length is 0 where there is no error response.
  abbrev pub bind_error_with : StunAgent → Bool × StunMessage → Finished
  bind_error_with agent (true, m) = stun_agent_finish_message crypto unset agent m none
  bind_error_with agent (false, m) = (agent, m, 0)

  unfoldable pub stun_bind_error : StunAgent → StunMessage → Memory → ℕ → StunMessage → ℕ → Finished
  stun_bind_error agent msg buf len req code =
      bind_error_with agent (stun_agent_init_error package_string agent msg buf len req code)

  abbrev pub finished_reply : IceReturn → Bool → Finished → Reply
  finished_reply ret control (agent, m, len) =
      if len == 0 then (ice_error, control, (agent, m, 0)) else (ret, control, (agent, m, len))

  abbrev pub reply_with : IceReturn → Bool → StunAgent → StunMessageReturn × StunMessage → Reply
  reply_with ret control agent (success, m) =
      finished_reply ret control (stun_agent_finish_message crypto unset agent m none)
  reply_with ret control agent (failed, m) = (failure_of failed, control, (agent, m, 0))

  -- The response that is no error. Where it cannot be set up, `val` is still
  -- STUN_MESSAGE_RETURN_SUCCESS.
  unfoldable pub respond :
      IceCompatibility
      → IceReturn
      → Bool
      → StunAgent
      → StunMessage
      → SockAddr
      → ℕ
      → Bool × StunMessage
      → Reply
  respond compatibility ret control agent req src srclen (false, m) =
      (ice_error, control, (agent, m, 0))
  respond compatibility ret control agent req src srclen (true, m) = reply_with ret control agent (
      and_then (with_address compatibility src srclen m)
        (with_same_username req (stun_message_find req Attribute.username)))

  unfoldable pub stun_usage_ice_conncheck_create_reply :
      StunAgent
      → StunMessage
      → StunMessage
      → Memory
      → ℕ
      → SockAddr
      → ℕ
      → Bool
      → ℕ
      → IceCompatibility
      → Reply
  stun_usage_ice_conncheck_create_reply agent req msg buf len src srclen control tie compatibility =
      let init = stun_agent_init_response package_string agent msg buf len req in
      if not (is_class req request)
      then (invalid_request, control, (agent, msg, 0))
      else if not (stun_message_get_method req == Method.binding)
      then (invalid_method, control, stun_bind_error agent msg buf len req Fault.bad_request)
      else elim (with_tie (stun_message_find64 req (own_role control))) [
        | none ↦ respond compatibility ice_success control agent req src srclen init
        | some q ↦
            if ltb tie q
            then respond compatibility role_conflict (not control) agent req src srclen init
            else (ice_success, control, stun_bind_error agent msg buf len req Fault.role_conflict)
      ]
