-- ===== src/Stun/Agent/Finish.antt =====
-- stun/stunagent.c: `stun_agent_finish_message` and `stun_agent_build_unknown_attributes_error`.
use libxice.Base.{ℕ, ◌+◌, ◌-◌, ◌%◌, Bool, true, false, not, ◌&&◌}
use libxice.Base.{Option, none, some, List, [], ◌∷◌, ◌++◌, ◌==◌, if◌then◌else◌, length, set}
use libxice.Base.Memory.{Memory, store_bytes}
use libxice.Stun.Constants.{request, success, StunMessageReturn}
use libxice.Stun.Constants.{rfc3489, rfc5389, wlm2009, oc2007, agent_max_unknown_attributes}
use libxice.Stun.Constants.{long_term_credentials, use_fingerprint}
use libxice.Stun.Constants.Attribute
use libxice.Stun.Constants.Fault
use libxice.Stun.Types.{SavedId, StunAgent, StunMessage, has_flag}
use libxice.Stun.Message.{stun_message_length, stun_message_id, stun_message_find}
use libxice.Stun.Message.{stun_message_get_method, stun_message_has_cookie}
use libxice.Stun.Message.Append.{append_with, bytes16, bytes32, stun_message_append_bytes}
use libxice.Stun.Hmac.{Crypto, stun_sha1}
use libxice.Stun.Crc.{stun_fingerprint}
use libxice.Stun.Agent.{follows_rfc5389, is_wlm2009, stun_agent_find_unknowns}
use libxice.Stun.Agent.Receive.{is_class, creds_of}
use libxice.Stun.Agent.Send.{stun_agent_init_error}

-- The first saved id from `i` on that is free.
unfoldable pub free_id : List SavedId → ℕ → Option ℕ
free_id [] i = none
free_id (s ∷ ids) i = if s.valid then free_id ids (i + 1) else some i

-- `none` is a full table.
abbrev pub slot_of : StunAgent → StunMessage → Option ℕ
slot_of agent msg = if is_class msg request then free_id agent.sent_ids 0 else some 0

-- `skip`, and the message with its long-term key.
abbrev pub with_creds : List ℕ → StunMessage → Option (List ℕ) → Bool × StunMessage
with_creds unset msg none = (true, record msg { long_term_key = unset; long_term_valid = true })
with_creds unset msg (some md5) =
    (false, record msg { long_term_key = md5; long_term_valid = true })

-- `unset` is what the array `md5` holds before anything is written to it.
unfoldable pub prepare_key : Crypto → List ℕ → StunAgent → StunMessage → List ℕ → Bool × StunMessage
prepare_key crypto unset agent msg key =
    if msg.long_term_valid
    then (false, msg)
    else if has_flag agent long_term_credentials
    then with_creds unset msg (
        creds_of crypto msg key (stun_message_find msg Attribute.realm)
          (stun_message_find msg Attribute.username))
    else (false, msg)

-- The key of the hash.
abbrev pub signing_key : StunAgent → StunMessage → List ℕ → List ℕ
signing_key agent msg key = if has_flag agent long_term_credentials then msg.long_term_key else key

-- The hash of a message of the length `len` that ends with the place for it.
unfoldable pub signature : Crypto → StunAgent → Memory → ℕ → List ℕ → List ℕ
signature crypto agent m len hash_key = elim agent.compatibility [
  | rfc3489 ↦ stun_sha1 crypto m len (len - 20) hash_key true
  | oc2007 ↦ stun_sha1 crypto m len (len - 20) hash_key true
  | wlm2009 ↦
      stun_sha1 crypto m len (len - (if has_flag agent use_fingerprint then 12 else 20)) hash_key
        true
  | rfc5389 ↦ stun_sha1 crypto m len (len - 20) hash_key false
]

-- `stun_message_length (msg)` of the message with the bytes.
abbrev pub length_of : StunMessage → Memory → ℕ
length_of msg m = stun_message_length (record msg { buffer = m })

unfoldable pub add_integrity :
    Crypto → StunAgent → StunMessage → List ℕ → StunMessageReturn × StunMessage
add_integrity crypto agent msg hash_key =
    append_with msg Attribute.message_integrity 20
      (λ ptr m. store_bytes m ptr (signature crypto agent m (length_of msg m) hash_key))

unfoldable pub add_fingerprint : StunAgent → StunMessage → StunMessageReturn × StunMessage
add_fingerprint agent msg =
    if follows_rfc5389 agent && has_flag agent use_fingerprint
    then append_with msg Attribute.fingerprint 4 (λ ptr m.
      store_bytes m ptr (bytes32 (stun_fingerprint m (length_of msg m) (is_wlm2009 agent))))
    else (success, msg)

-- The agent, the message and the result.
abbrev pub Finished : Type 0
Finished = StunAgent × StunMessage × ℕ

abbrev pub saved : StunMessage → Option (List ℕ) → SavedId
saved msg key = record {
  id = stun_message_id msg;
  method = stun_message_get_method msg;
  key = key;
  long_term_key = msg.long_term_key;
  long_term_valid = msg.long_term_valid;
  valid = true;
}

-- A request is saved at the index, and the message has its key.
unfoldable pub save : StunAgent → ℕ → Option (List ℕ) → StunMessage → Finished
save agent i key msg = (
  if is_class msg request
      then record agent { sent_ids = set agent.sent_ids i (saved msg key) }
      else agent,
  record msg { key = key },
  stun_message_length msg,
)

abbrev pub then_save : StunAgent → ℕ → Option (List ℕ) → StunMessageReturn × StunMessage → Finished
then_save agent i key (success, msg) = save agent i key msg
then_save agent i key (failed, msg) = (agent, msg, 0)

abbrev pub then_fingerprint :
    StunAgent → ℕ → Option (List ℕ) → StunMessageReturn × StunMessage → Finished
then_fingerprint agent i key (success, msg) = then_save agent i key (add_fingerprint agent msg)
then_fingerprint agent i key (failed, msg) = (agent, msg, 0)

abbrev pub signed :
    Crypto → StunAgent → List ℕ → Bool × StunMessage → StunMessageReturn × StunMessage
signed crypto agent key (true, msg) = (success, msg)
signed crypto agent key (false, msg) = add_integrity crypto agent msg (signing_key agent msg key)

abbrev pub finish_with : Crypto → List ℕ → StunAgent → StunMessage → ℕ → Option (List ℕ) → Finished
finish_with crypto unset agent msg i none = then_fingerprint agent i none (success, msg)
finish_with crypto unset agent msg i (some key) =
    then_fingerprint agent i (some key)
      (signed crypto agent key (prepare_key crypto unset agent msg key))

-- The key of the message goes before the one that is passed.
abbrev pub own_key : Option (List ℕ) → Option (List ℕ) → Option (List ℕ)
own_key none key = key
own_key (some own) key = some own

unfoldable pub stun_agent_finish_message :
    Crypto → List ℕ → StunAgent → StunMessage → Option (List ℕ) → Finished
stun_agent_finish_message crypto unset agent msg key = elim (slot_of agent msg) [
  | none ↦ (agent, msg, 0)
  | some i ↦ finish_with crypto unset agent msg i (own_key msg.key key)
]

-- The types, and the first again where their number is odd and the request has no cookie.
abbrev pub padded_ids : StunMessage → List ℕ → List ℕ
padded_ids req [] = []
padded_ids req (id ∷ ids) =
    if not (stun_message_has_cookie req) && (length (id ∷ ids) % 2 == 1)
    then (id ∷ ids) ++ id ∷ []
    else id ∷ ids

abbrev pub id_bytes : List ℕ → List ℕ
id_bytes [] = []
id_bytes (id ∷ ids) = bytes16 id ++ id_bytes ids

abbrev pub then_finish :
    Crypto → List ℕ → StunAgent → Option (List ℕ) → StunMessageReturn × StunMessage → Finished
then_finish crypto unset agent key (success, msg) =
    stun_agent_finish_message crypto unset agent msg key
then_finish crypto unset agent key (failed, msg) = (agent, msg, 0)

abbrev pub with_unknowns : Crypto → List ℕ → StunAgent → StunMessage → Bool × StunMessage → Finished
with_unknowns crypto unset agent req (false, msg) = (agent, msg, 0)
with_unknowns crypto unset agent req (true, msg) = then_finish crypto unset agent req.key (
    stun_message_append_bytes msg Attribute.unknown_attributes
      (id_bytes (padded_ids req (stun_agent_find_unknowns agent req agent_max_unknown_attributes))))

unfoldable pub stun_agent_build_unknown_attributes_error :
    Crypto → List ℕ → List ℕ → StunAgent → StunMessage → Memory → ℕ → StunMessage → Finished
stun_agent_build_unknown_attributes_error crypto unset package_string agent msg buffer buffer_len
      req =
    with_unknowns crypto unset agent req
      (stun_agent_init_error package_string agent msg buffer buffer_len req Fault.unknown_attribute)
