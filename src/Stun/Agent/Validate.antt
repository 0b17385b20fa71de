-- ===== src/Stun/Agent/Validate.antt =====
-- stun/stunagent.c: the steps of `stun_agent_validate`, from the last to the first.
use libxice.Base.{
  ℕ, zero, suc, ◌%◌, ◌^◌, ltb, Bool, true, false, not, ◌&&◌, ◌||◌, ◌==◌, if◌then◌else◌,
}
use libxice.Base.{Option, none, some, List, [], ◌∷◌}
use libxice.Base.Memory.{Memory, load_bytes}
use libxice.Stun.Constants.{request, response, error}
use libxice.Stun.Constants.{StunValidationStatus, valid, not_stun, incomplete_stun, bad_request}
use libxice.Stun.Constants.{unauthorized_bad_request, unauthorized, unmatched_response}
use libxice.Stun.Constants.{unknown_request_attribute, unknown_attribute}
use libxice.Stun.Constants.{long_term_credentials, force_validater, no_aligned_attributes}
use libxice.Stun.Constants.Attribute
use libxice.Stun.Types.{SavedId, StunAgent, StunMessage, has_flag}
use libxice.Stun.Message.{stun_message_id, stun_message_get_method, stun_message_find}
use libxice.Stun.Message.{stun_message_has_attribute}
use libxice.Stun.Message.Validate.{BufferLength, stun_message_validate_buffer_length}
use libxice.Stun.Message.Validate.{buffer_invalid, buffer_incomplete, buffer_length, out_of_fuel}
use libxice.Stun.Message.Typed.{stun_message_find_error}
use libxice.Stun.Hmac.{Crypto}
use libxice.Stun.Agent.{bytes_eq, stun_agent_find_unknowns}
use libxice.Stun.Agent.Receive.{Validater, is_class, received, passes_demux, match_id}
use libxice.Stun.Agent.Receive.{is_credential_error, ignores_credentials, lacks_credentials}
use libxice.Stun.Agent.Receive.{is_none, value_or_empty, long_term_hash, integrity_hash}

-- The agent, the message and the status.
abbrev pub Outcome : Type 0
Outcome = StunAgent × StunMessage × StunValidationStatus

-- The saved id with the index is free again.
abbrev pub invalidate : List SavedId → ℕ → List SavedId
invalidate [] i = []
invalidate (s ∷ ids) zero = record s { valid = false } ∷ ids
invalidate (s ∷ ids) (suc i) = s ∷ invalidate ids i

-- What a response answers: the index of the saved id, its key, and its long-term key if that is set.
pub record Transaction : Type 0 where
  pub index : Option ℕ
  pub key : Option (List ℕ)
  pub long_term : Option (List ℕ)

abbrev pub no_transaction : Transaction
no_transaction = record { index = none; key = none; long_term = none }

abbrev pub transaction_of : ℕ × SavedId → Transaction
transaction_of (i, s) = record {
  index = some i;
  key = s.key;
  long_term = if s.long_term_valid then some s.long_term_key else none;
}

abbrev pub freed : List SavedId → Option ℕ → List SavedId
freed ids none = ids
freed ids (some i) = invalidate ids i

-- The end: the transaction is over, and the mandatory attributes are all known or not.
unfoldable pub finish_validation : StunAgent → StunMessage → Option ℕ → Outcome
finish_validation agent msg index =
    let agent' = record agent { sent_ids = freed agent.sent_ids index } in
    elim (stun_agent_find_unknowns agent msg 1) [
      | [] ↦ (agent', msg, valid)
      | type ∷ types ↦ (
        agent',
        msg,
        if is_class msg request then unknown_request_attribute else unknown_attribute,
      )
    ]

-- The value of MESSAGE-INTEGRITY at `hash` is compared with the hash for `hash_key`.
unfoldable pub check_hash :
    Crypto → StunAgent → StunMessage → Option ℕ → List ℕ → ℕ → List ℕ → Outcome
check_hash crypto agent msg index key hash hash_key =
    if bytes_eq (integrity_hash crypto agent msg hash hash_key) (load_bytes msg.buffer hash 20)
    then finish_validation agent (record msg { key = some key }) index
    else (agent, msg, unauthorized)

unfoldable pub check_long_term :
    Crypto → StunAgent → StunMessage → Option ℕ → List ℕ → ℕ → Option (List ℕ) → Outcome
check_long_term crypto agent msg index key hash none = (agent, msg, unauthorized)
check_long_term crypto agent msg index key hash (some md5) =
    check_hash crypto agent (record msg { long_term_key = md5; long_term_valid = true }) index key
      hash md5

-- The integrity check with a key that is not empty.
unfoldable pub check_integrity :
    Crypto → StunAgent → StunMessage → Transaction → List ℕ → Option (ℕ × ℕ) → Outcome
check_integrity crypto agent msg t key (some (hlen, hash)) =
    if has_flag agent long_term_credentials
    then check_long_term crypto agent msg t.index key hash
        (long_term_hash crypto msg key t.long_term)
    else check_hash crypto agent msg t.index key hash key
check_integrity crypto agent msg t key none =
    if is_class msg error && is_credential_error (stun_message_find_error msg)
    then finish_validation agent msg t.index
    else (agent, msg, unauthorized)

-- The check is made if credentials count and there is a key.
unfoldable pub with_key : Crypto → StunAgent → StunMessage → Transaction → Option (List ℕ) → Outcome
with_key crypto agent msg t none = finish_validation agent msg t.index
with_key crypto agent msg t (some []) = finish_validation agent msg t.index
with_key crypto agent msg t (some (k ∷ ks)) =
    if ignores_credentials agent msg
    then finish_validation agent msg t.index
    else check_integrity crypto agent msg t (k ∷ ks)
        (stun_message_find msg Attribute.message_integrity)

abbrev pub asks_validater : StunAgent → StunMessage → Transaction → Bool
asks_validater agent msg t =
    stun_message_has_attribute msg Attribute.message_integrity
    && ((is_none t.key && not (ignores_credentials agent msg)) || has_flag agent force_validater)

abbrev pub ask : Option Validater → StunAgent → StunMessage → Option (Option (List ℕ))
ask none agent msg = none
ask (some validater) agent msg =
    validater agent msg (value_or_empty msg (stun_message_find msg Attribute.username))

-- The key of the transaction, or the one that the validater gives.
unfoldable pub find_key :
    Crypto → Option Validater → StunAgent → StunMessage → Transaction → Outcome
find_key crypto validater agent msg t =
    if asks_validater agent msg t
    then elim (ask validater agent msg) [
      | none ↦ (agent, msg, unauthorized)
      | some key ↦ with_key crypto agent msg t key
    ]
    else with_key crypto agent msg t t.key

unfoldable pub check_credentials :
    Crypto → Option Validater → StunAgent → StunMessage → Transaction → Outcome
check_credentials crypto validater agent msg t =
    if is_none t.key && not (ignores_credentials agent msg) && lacks_credentials agent msg
    then (agent, msg, unauthorized_bad_request)
    else find_key crypto validater agent msg t

-- A response or an error must answer a saved id.
unfoldable pub match_response : Crypto → Option Validater → StunAgent → StunMessage → Outcome
match_response crypto validater agent msg =
    if is_class msg response || is_class msg error
    then elim (match_id agent.sent_ids (stun_message_get_method msg) (stun_message_id msg) 0) [
      | none ↦ (agent, msg, unmatched_response)
      | some found ↦ check_credentials crypto validater agent msg (transaction_of found)
    ]
    else check_credentials crypto validater agent msg no_transaction

unfoldable pub check_message : Crypto → Option Validater → StunAgent → StunMessage → Outcome
check_message crypto validater agent msg =
    if passes_demux agent msg
    then match_response crypto validater agent msg
    else (agent, msg, bad_request)

-- `len == (int) buffer_len`, for a `len` that is not negative: the cast keeps the low 32 bits, and gives a
-- negative number where these are 2 ^ 31 or more.
abbrev pub equals_int : ℕ → ℕ → Bool
equals_int len buffer_len = ltb (buffer_len % 2 ^ 32) (2 ^ 31) && (len == buffer_len % 2 ^ 32)

-- What follows on the result of `stun_message_validate_buffer_length`. `none` stands for the reads past
-- the end of the buffer that a message without alignment can lead to.
abbrev pub of_length :
    Crypto → Option Validater → StunAgent → StunMessage → Memory → ℕ → BufferLength → Option Outcome
of_length crypto validater agent msg buffer buffer_len buffer_invalid = some (agent, msg, not_stun)
of_length crypto validater agent msg buffer buffer_len buffer_incomplete =
    some (agent, msg, incomplete_stun)
of_length crypto validater agent msg buffer buffer_len (buffer_length len) =
    if equals_int len buffer_len
    then some (check_message crypto validater agent (received agent buffer buffer_len))
    else some (agent, msg, not_stun)
of_length crypto validater agent msg buffer buffer_len out_of_fuel = none

-- `msg` is the message as the caller passed it.
unfoldable pub stun_agent_validate :
    Crypto → StunAgent → StunMessage → Memory → ℕ → Option Validater → Option Outcome
stun_agent_validate crypto agent msg buffer buffer_len validater =
    of_length crypto validater agent msg buffer buffer_len (
      stun_message_validate_buffer_length buffer buffer_len
        (not (has_flag agent no_aligned_attributes)))
