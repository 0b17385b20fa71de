-- ===== src/Stun/Agent/Tests.antt =====
-- Messages of a few bytes that an agent receives.
use libxice.Base.{◌<◌, All, ℕ, ◌≡◌, refl, arith, true, false}
use libxice.Base.{Option, none, some, List, [], ◌∷◌, ◌++◌, replicate}
use libxice.Base.Memory.{Memory, from_bytes}
use libxice.Stun.Constants.{rfc5389, success, valid}
use libxice.Stun.Constants.Attribute
use libxice.Stun.Types.{SavedId, StunAgent, StunMessage}
use libxice.Stun.Utils.{stun_getw, stun_padding, stun_align}
use libxice.Stun.Message.{stun_message_length, stun_message_id, stun_message_get_method}
use libxice.Stun.Message.{stun_message_get_class, stun_message_find, find_loop, stun_optional}
use libxice.Stun.Message.{stun_message_has_attribute, stun_message_has_cookie}
use libxice.Stun.Message.Typed.{stun_message_find32, stun_message_find_error}
use libxice.Stun.Message.Validate.{
  stun_message_validate_buffer_length, validate_loop, buffer_length,
}
use libxice.Stun.Hmac.{Crypto, stun_sha1}
use libxice.Stun.Crc.{stun_fingerprint, stun_crc32, crc_loop}
use libxice.Stun.Agent.{no_id, stun_agent_init, stun_agent_find_unknowns, stun_agent_is_unknown}
use libxice.Stun.Agent.{unknowns_loop, stun_agent_set_software, stun_agent_default_validater}
use libxice.Stun.Agent.Receive.{Validater, received, match_id, passes_demux, ignores_credentials}
use libxice.Stun.Agent.Receive.{lacks_credentials, integrity_hash}
use libxice.Stun.Agent.Validate.{Outcome, finish_validation, check_hash, check_integrity, with_key}
use libxice.Stun.Agent.Validate.{find_key, check_credentials, match_response, check_message}
use libxice.Stun.Agent.Validate.{stun_agent_validate, ask, transaction_of}
use libxice.Stun.Agent.Transactions.{Waits, IsSettled}
use libxice.Stun.Agent.Authentic.{IsVerified}
use libxice.Stun.Agent.Verdict.{stun_agent_validate_lem, accepted-fingerprint, accepted-request}
use libxice.Stun.Agent.Verdict.{accepted-answer}
use libxice.Stun.Agent.Unknowns.{unknown_types, stun_agent_find_unknowns_lem}

seven_bytes : All (λ b. b < 256) (replicate 20 7)
seven_bytes = ground arith

-- A hash that is made of sevens.
abbrev sevens : Crypto
sevens = record {
  hmac_sha1 = λ key text. replicate 20 7;
  md5 = λ text. text;
  hmac_sha1-length = λ key text. refl;
  hmac_sha1-bytes = λ key text. seven_bytes;
}

abbrev header : ℕ → ℕ → ℕ → List ℕ
header high low len =
    high ∷ low ∷ 0 ∷ len ∷ 0x21 ∷ 0x12 ∷ 0xA4 ∷ 0x42 ∷ 1 ∷ 2 ∷ 3 ∷ 4 ∷ 5 ∷ 6 ∷ 7 ∷ 8 ∷ 9 ∷ 10 ∷ 11
    ∷ 12 ∷ []

-- USERNAME `ab` and MESSAGE-INTEGRITY.
abbrev credentials : List ℕ
credentials = (0 ∷ 6 ∷ 0 ∷ 2 ∷ 97 ∷ 98 ∷ 0 ∷ 0 ∷ []) ++ (0 ∷ 8 ∷ 0 ∷ 20 ∷ replicate 20 7)

abbrev request_bytes : Memory
request_bytes = from_bytes (header 0 1 32 ++ credentials)

abbrev response_bytes : Memory
response_bytes = from_bytes (header 1 1 32 ++ credentials)

abbrev agent_with : ℕ → List SavedId → StunAgent
agent_with flags ids = record {
  compatibility = rfc5389;
  sent_ids = ids;
  known_attributes = 6 ∷ 8 ∷ [];
  usage_flags = flags;
  software_attribute = none;
}

-- A binding request that waits for its response, with the key `k`.
abbrev waiting : SavedId
waiting = record {
  id = 0x21 ∷ 0x12 ∷ 0xA4 ∷ 0x42 ∷ 1 ∷ 2 ∷ 3 ∷ 4 ∷ 5 ∷ 6 ∷ 7 ∷ 8 ∷ 9 ∷ 10 ∷ 11 ∷ 12 ∷ [];
  method = 1;
  key = some (107 ∷ []);
  long_term_key = [];
  long_term_valid = false;
  valid = true;
}

-- Short-term credentials.
abbrev server : StunAgent
server = agent_with 1 (no_id ∷ no_id ∷ [])

abbrev client : StunAgent
client = agent_with 1 (no_id ∷ waiting ∷ [])

abbrev validater : Validater
validater agent msg username = some (some (107 ∷ []))

abbrev blank : StunMessage
blank = record {
  agent = none;
  buffer = from_bytes [];
  buffer_len = 0;
  key = none;
  long_term_key = [];
  long_term_valid = false;
}

abbrev good_request : Outcome
good_request = (server, record (received server request_bytes 52) { key = some (107 ∷ []) }, valid)

abbrev good_response : Outcome
good_response = (
  agent_with 1 (no_id ∷ record waiting { valid = false } ∷ []),
  record (received client response_bytes 52) { key = some (107 ∷ []) },
  valid,
)

request_test :
    stun_agent_validate sevens server blank request_bytes 52 (some validater) ≡ some good_request
unfolding stun_agent_validate stun_message_validate_buffer_length validate_loop stun_getw stun_align
    stun_padding check_message passes_demux match_response check_credentials find_key with_key
    check_integrity check_hash finish_validation stun_agent_find_unknowns unknowns_loop
    stun_optional stun_agent_is_unknown stun_message_has_cookie stun_message_length
    stun_message_find find_loop stun_message_has_attribute stun_message_get_class integrity_hash
    stun_sha1 ignores_credentials lacks_credentials stun_message_find_error
request_test = refl

response_test : stun_agent_validate sevens client blank response_bytes 52 none ≡ some good_response
unfolding stun_agent_validate stun_message_validate_buffer_length validate_loop stun_getw stun_align
    stun_padding check_message passes_demux match_response check_credentials find_key with_key
    check_integrity check_hash finish_validation stun_agent_find_unknowns unknowns_loop
    stun_optional stun_agent_is_unknown stun_message_has_cookie stun_message_length
    stun_message_find find_loop stun_message_has_attribute stun_message_get_class integrity_hash
    stun_sha1 ignores_credentials lacks_credentials stun_message_find_error match_id stun_message_id
    stun_message_get_method
response_test = refl

stun_agent_validate_lem_example :
    (o : Outcome) × (stun_agent_validate sevens client blank response_bytes 52 none ≡ some o)
    × IsSettled client (received client response_bytes 52) o
stun_agent_validate_lem_example =
    stun_agent_validate_lem sevens client blank none response_bytes 52 (ground arith)

accepted-request_example :
    (key : Option (List ℕ)) × (ask (some validater) server (received server request_bytes 52)
      ≡ some key)
    × IsVerified sevens server (received server request_bytes 52) none key
unfolding stun_message_get_class stun_getw
accepted-request_example =
    accepted-request sevens server blank (some validater) request_bytes 52 good_request refl refl
      refl request_test refl

accepted-answer_example :
    (i : ℕ) × (s : SavedId) × Waits client.sent_ids
      (stun_message_get_method (received client response_bytes 52))
      (stun_message_id (received client response_bytes 52))
      i
      s
    × IsVerified sevens client
        (received client response_bytes 52)
        (transaction_of (i, s)).long_term
        s.key
unfolding stun_message_get_class stun_getw ignores_credentials
accepted-answer_example =
    accepted-answer sevens client blank none response_bytes 52 good_response refl refl refl
      response_test refl

-- An indication with FINGERPRINT, for an agent that asks for it.
abbrev indication_bytes : Memory
indication_bytes = from_bytes (header 0 17 8 ++ (0x80 ∷ 0x28 ∷ 0 ∷ 4 ∷ 72 ∷ 98 ∷ 194 ∷ 198 ∷ []))

abbrev peer : StunAgent
peer = agent_with 4 []

abbrev good_indication : Outcome
good_indication = (peer, received peer indication_bytes 28, valid)

indication_test :
    stun_agent_validate sevens peer blank indication_bytes 28 none ≡ some good_indication
unfolding stun_agent_validate stun_message_validate_buffer_length validate_loop stun_getw stun_align
    stun_padding check_message passes_demux match_response check_credentials find_key with_key
    check_integrity check_hash finish_validation stun_agent_find_unknowns unknowns_loop
    stun_optional stun_agent_is_unknown stun_message_has_cookie stun_message_length
    stun_message_find find_loop stun_message_has_attribute stun_message_get_class
    ignores_credentials lacks_credentials stun_message_find_error stun_message_find32
    stun_fingerprint stun_crc32 crc_loop
indication_test = refl

accepted-fingerprint_example :
    (stun_message_validate_buffer_length indication_bytes 28 true ≡ buffer_length 28)
    × (stun_message_has_cookie (received peer indication_bytes 28) ≡ true)
    × (stun_message_find32 (received peer indication_bytes 28) Attribute.fingerprint ≡ (
      success,
      some (
          stun_fingerprint indication_bytes
            (stun_message_length (received peer indication_bytes 28))
            false),
    ))
accepted-fingerprint_example =
    accepted-fingerprint sevens peer blank none indication_bytes 28 good_indication refl refl
      indication_test refl

-- An agent that knows USERNAME only.
stun_agent_find_unknowns_lem_example :
    stun_agent_find_unknowns
      (record server { known_attributes = 6 ∷ [] })
      (received server request_bytes 52)
      5
    ≡ 8 ∷ []
unfolding unknown_types stun_getw stun_align stun_message_length stun_optional stun_agent_is_unknown
stun_agent_find_unknowns_lem_example =
    stun_agent_find_unknowns_lem (record server { known_attributes = 6 ∷ [] })
      (received server request_bytes 52) ((6, 2) ∷ (8, 20) ∷ []) 5 (refl, refl, (refl, refl, refl))

-- A fresh agent with a software name, and a table with the password of `ab`.
setup_test :
    (stun_agent_set_software (stun_agent_init (6 ∷ 8 ∷ []) rfc5389 1) none
      ≡ agent_with 1 (replicate 200 no_id))
    × (stun_agent_default_validater
          (record { username = 97 ∷ 98 ∷ []; password = 107 ∷ [] } ∷ [])
          (97 ∷ 98 ∷ [])
        ≡ some (107 ∷ []))
unfolding stun_agent_set_software stun_agent_init stun_agent_default_validater
setup_test = (refl, refl)
