-- ===== src/Stun/Agent/Send.antt =====
-- stun/stunagent.c: the functions that set up and finish a message; SOFTWARE of stun/stun5389.c.
use libxice.Base.{ℕ, zero, suc, ◌+◌, ◌-◌, Bool, true, false, not, ◌&&◌, ◌||◌}
use libxice.Base.{Option, none, some, List, [], ◌∷◌, ltb, if◌then◌else◌, take}
use libxice.Base.Memory.{Memory, store_bytes}
use libxice.Stun.Constants.{request, indication, response, error, success}
use libxice.Stun.Constants.{StunMessageReturn, magic_cookie, message_trans_id_pos}
use libxice.Stun.Constants.{add_software}
use libxice.Stun.Constants.Attribute
use libxice.Stun.Types.{StunAgent, StunMessage, has_flag}
use libxice.Stun.Message.{stun_message_init, stun_message_id}
use libxice.Stun.Message.{stun_message_get_method}
use libxice.Stun.Message.Append.{bytes32, stun_message_append_bytes}
use libxice.Stun.Message.Append.{stun_message_append_error}
use libxice.Stun.Agent.{follows_rfc5389}
use libxice.Stun.Agent.Receive.{is_class, is_none}

-- `utf8_skip_data`
abbrev pub utf8_skip : ℕ → ℕ
utf8_skip c =
    if ltb c 0xc0
    then 1
    else if ltb c 0xe0
    then 2
    else if ltb c 0xf0
    then 3
    else if ltb c 0xf8
    then 4
    else if ltb c 0xfc
    then 5
    else if ltb c 0xfe
    then 6
    else 1

abbrev pub drop : ℕ → List ℕ → List ℕ
drop zero xs = xs
drop (suc n) [] = []
drop (suc n) (x ∷ xs) = drop n xs

-- How many bytes the first `chars` characters take. (Where a string breaks off inside a character the
-- C function goes on behind its end.)
pub software_length : ℕ → List ℕ → ℕ
software_length zero str = 0
software_length (suc chars) [] = 0
software_length (suc chars) (c ∷ str) =
    utf8_skip c + software_length chars (drop (utf8_skip c - 1) str)

abbrev pub or_default : List ℕ → Option (List ℕ) → List ℕ
or_default package_string none = package_string
or_default package_string (some software) = software

-- `package_string` is PACKAGE_STRING of the configuration.
unfoldable pub stun_message_append_software :
    List ℕ → StunMessage → Option (List ℕ) → StunMessageReturn × StunMessage
unfolding software_length
stun_message_append_software package_string msg software =
    let str = or_default package_string software in
    stun_message_append_bytes msg Attribute.software (take (software_length 128 str) str)

-- The fields of a message that is set up from nothing, and from a request.
abbrev pub fresh : StunAgent → StunMessage → Memory → ℕ → StunMessage
fresh agent msg buffer buffer_len = record msg {
  agent = some agent;
  buffer = buffer;
  buffer_len = buffer_len;
  key = none;
  long_term_valid = false;
}

abbrev pub answering : StunAgent → Memory → ℕ → StunMessage → StunMessage
answering agent buffer buffer_len req = record {
  agent = some agent;
  buffer = buffer;
  buffer_len = buffer_len;
  key = req.key;
  long_term_key = req.long_term_key;
  long_term_valid = req.long_term_valid;
}

abbrev pub with_cookie : StunAgent → StunMessage → StunMessage
with_cookie agent msg =
    if follows_rfc5389 agent
    then record msg { buffer = store_bytes msg.buffer message_trans_id_pos (bytes32 magic_cookie) }
    else msg

-- The result, and the message. `id` is what `stun_make_transid` makes.
unfoldable pub stun_agent_init_indication :
    StunAgent → StunMessage → Memory → ℕ → ℕ → List ℕ → Bool × StunMessage
stun_agent_init_indication agent msg buffer buffer_len m id =
    elim (stun_message_init (fresh agent msg buffer buffer_len) indication m id) [
      | none ↦ (false, fresh agent msg buffer buffer_len)
      | some msg' ↦ (true, with_cookie agent msg')
    ]

module _ (package_string : List ℕ) where
  abbrev pub with_software : StunAgent → StunMessage → StunMessage
  with_software agent msg =
      if follows_rfc5389 agent
        && (not (is_none agent.software_attribute) || has_flag agent add_software)
      then (stun_message_append_software package_string msg agent.software_attribute).1
      else msg

  -- The result, and the message. `id` is what `stun_make_transid` makes.
  unfoldable pub stun_agent_init_request :
      StunAgent → StunMessage → Memory → ℕ → ℕ → List ℕ → Bool × StunMessage
  stun_agent_init_request agent msg buffer buffer_len m id =
      elim (stun_message_init (fresh agent msg buffer buffer_len) request m id) [
        | none ↦ (false, fresh agent msg buffer buffer_len)
        | some msg' ↦ (true, with_software agent (with_cookie agent msg'))
      ]

  -- `req` is the request.
  unfoldable pub stun_agent_init_response :
      StunAgent → StunMessage → Memory → ℕ → StunMessage → Bool × StunMessage
  stun_agent_init_response agent msg buffer buffer_len req =
      let msg' = answering agent buffer buffer_len req in
      if is_class req request
      then elim (stun_message_init msg' response (stun_message_get_method req)
          (stun_message_id req)) [
            | none ↦ (false, msg')
            | some msg'' ↦ (true, with_software agent msg'')
          ]
      else (false, msg)

  abbrev pub with_error : StunMessageReturn × StunMessage → Bool × StunMessage
  with_error (success, msg) = (true, msg)
  with_error (failed, msg) = (false, msg)

  unfoldable pub stun_agent_init_error :
      StunAgent → StunMessage → Memory → ℕ → StunMessage → ℕ → Bool × StunMessage
  stun_agent_init_error agent msg buffer buffer_len req err =
      let msg' = answering agent buffer buffer_len req in
      if is_class req request
      then elim (stun_message_init msg' error (stun_message_get_method req) (stun_message_id req)) [
        | none ↦ (false, msg')
        | some msg'' ↦ with_error (stun_message_append_error (with_software agent msg'') err)
      ]
      else (false, msg)
