-- ===== src/Stun/Bind.antt =====
-- stun/usages/bind.c: the discovery of the own address and the keep-alive, without the blocking run.
use libxice.Base.{ℕ, ◌/◌, not, ◌==◌, if◌then◌else◌, Option, none, some, List}
use libxice.Base.Memory.{Memory}
use libxice.Stun.Constants.{request, indication, response, error, success}
use libxice.Stun.Constants.Attribute
use libxice.Stun.Constants.Method
use libxice.Stun.Types.{StunAgent, StunMessage}
use libxice.Stun.Utils.{SockAddr}
use libxice.Stun.Message.{stun_message_get_class, stun_message_get_method}
use libxice.Stun.Message.{stun_message_has_attribute}
use libxice.Stun.Message.Typed.{Found, FoundAddr, stun_message_find_error, stun_message_find_addr}
use libxice.Stun.Message.Typed.{stun_message_find_xor_addr}
use libxice.Stun.Hmac.{Crypto}
use libxice.Stun.Agent.Send.{stun_agent_init_request, stun_agent_init_indication}
use libxice.Stun.Agent.Finish.{Finished, stun_agent_finish_message}

-- `StunUsageBindReturn`
pub data BindReturn : Type 0 where
  bind_success bind_error bind_invalid bind_alternate_server bind_timeout : BindReturn

-- What is returned, the address, and the alternate server: `none` where nothing is stored.
abbrev pub Bound : Type 0
Bound = BindReturn × Option SockAddr × Option SockAddr

module _ (crypto : Crypto) (unset package_string : List ℕ) where
  -- `id` is the random transaction id.
  unfoldable pub stun_usage_bind_create : StunAgent → StunMessage → Memory → ℕ → List ℕ → Finished
  stun_usage_bind_create agent msg buffer buffer_len id =
      let (started, m) =
        stun_agent_init_request package_string agent msg buffer buffer_len Method.binding id in
      stun_agent_finish_message crypto unset agent m none

  unfoldable pub stun_usage_bind_keepalive :
      StunAgent → StunMessage → Memory → ℕ → List ℕ → Finished
  stun_usage_bind_keepalive agent msg buf len id =
      let (started, m) = stun_agent_init_indication agent msg buf len Method.binding id in
      stun_agent_finish_message crypto unset agent m none

abbrev pub alternate_of : FoundAddr → Bound
alternate_of (success, addr, addrlen) = (bind_alternate_server, none, addr)
alternate_of (failed, addr, addrlen) = (bind_error, none, none)

-- ALTERNATE-SERVER, where `some len` is the length of the caller's buffer for it.
abbrev pub alternate : StunMessage → Option ℕ → Bound
alternate msg (some len) = alternate_of (stun_message_find_addr msg Attribute.alternate_server len)
alternate msg none =
    if stun_message_has_attribute msg Attribute.alternate_server
    then (bind_alternate_server, none, none)
    else (bind_error, none, none)

abbrev pub on_bind_error : StunMessage → Option ℕ → Found ℕ → Bound
on_bind_error msg alternate_len (success, some code) =
    if code / 100 == 3 then alternate msg alternate_len else (bind_error, none, none)
on_bind_error msg alternate_len _ = (bind_invalid, none, none)

abbrev pub bind_mapped : FoundAddr → Bound
bind_mapped (success, addr, addrlen) = (bind_success, addr, none)
bind_mapped (failed, addr, addrlen) = (bind_error, none, none)

-- MAPPED-ADDRESS is looked for where XOR-MAPPED-ADDRESS is missing.
abbrev pub or_bind_mapped : StunMessage → FoundAddr → Bound
or_bind_mapped msg (success, addr, addrlen) = (bind_success, addr, none)
or_bind_mapped msg (failed, addr, addrlen) =
    bind_mapped (stun_message_find_addr msg Attribute.mapped_address addrlen)

unfoldable pub stun_usage_bind_process : StunMessage → ℕ → Option ℕ → Bound
stun_usage_bind_process msg addrlen alternate_len =
    if not (stun_message_get_method msg == Method.binding)
    then (bind_invalid, none, none)
    else elim (stun_message_get_class msg) [
      | request ↦ (bind_invalid, none, none)
      | indication ↦ (bind_invalid, none, none)
      | error ↦ on_bind_error msg alternate_len (stun_message_find_error msg)
      | response ↦
          or_bind_mapped msg (stun_message_find_xor_addr msg Attribute.xor_mapped_address addrlen)
    ]
