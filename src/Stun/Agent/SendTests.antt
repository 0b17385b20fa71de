-- ===== src/Stun/Agent/SendTests.antt =====
-- Messages that an agent sets up and finishes.
use libxice.Base.{ℕ, ◌+◌, ◌<◌, ◌≡◌, refl, arith, true, false, All}
use libxice.Base.{none, some, List, [], ◌∷◌, ◌++◌, replicate, length}
use libxice.Base.Memory.{Memory, from_bytes}
use libxice.Stun.Constants.{rfc5389, success}
use libxice.Stun.Constants.Attribute
use libxice.Stun.Types.{SavedId, StunAgent, StunMessage}
use libxice.Stun.Utils.{stun_getw, stun_padding, stun_align, stun_setw, stun_set_type}
use libxice.Stun.Message.{stun_message_init, stun_message_length, stun_message_id}
use libxice.Stun.Message.{stun_message_get_class, stun_message_get_method, stun_message_has_cookie}
use libxice.Stun.Message.Append.{
  stun_message_append, stun_message_append_bytes, stun_message_append_error,
}
use libxice.Stun.Message.Phrase.{stun_strerror}
use libxice.Stun.Message.Written.{CanTake}
use libxice.Stun.Hmac.{Crypto}
use libxice.Stun.Agent.{stun_agent_find_unknowns, unknowns_loop}
use libxice.Stun.Agent.Send.{stun_agent_init_request, stun_agent_init_indication}
use libxice.Stun.Agent.Send.{stun_agent_init_response, stun_agent_init_error}
use libxice.Stun.Agent.Send.{stun_message_append_software}
use libxice.Stun.Agent.Finish.{stun_agent_finish_message, add_integrity, add_fingerprint}
use libxice.Stun.Agent.Finish.{prepare_key, save}
use libxice.Stun.Agent.Finish.{stun_agent_build_unknown_attributes_error}
use libxice.Stun.Agent.Authentic.{IsSigned}
use libxice.Stun.Agent.Signed.{add_integrity-IsSigned}
use libxice.Stun.Message.Typed.{stun_message_find32}
use libxice.Stun.Agent.Receive.{fingerprint_matches}
use libxice.Stun.Agent.Fingerprint.{add_fingerprint_lem}

seven_bytes : All (λ b. b < 256) (replicate 20 7)
seven_bytes = ground arith

abbrev sevens : Crypto
sevens = record {
  hmac_sha1 = λ key text. replicate 20 7;
  md5 = λ text. text;
  hmac_sha1-length = λ key text. refl;
  hmac_sha1-bytes = λ key text. seven_bytes;
}

abbrev free : SavedId
free = record {
  id = [];
  method = 0;
  key = none;
  long_term_key = [];
  long_term_valid = false;
  valid = false;
}

-- Short-term credentials, and SOFTWARE in every message.
abbrev sender : StunAgent
sender = record {
  compatibility = rfc5389;
  sent_ids = free ∷ free ∷ [];
  known_attributes = [];
  usage_flags = 9;
  software_attribute = none;
}

abbrev sent : ℕ → List ℕ → Memory
sent low attrs =
    from_bytes ((0 ∷ low ∷ 0 ∷ length attrs ∷ 0x21 ∷ 0x12 ∷ 0xA4 ∷ 0x42 ∷ replicate 12 9) ++ attrs)

abbrev message : Memory → StunMessage
message bytes = record {
  agent = some sender;
  buffer = bytes;
  buffer_len = 100;
  key = none;
  long_term_key = [];
  long_term_valid = false;
}

-- A binding request with no attributes.
abbrev binding : StunMessage
binding = message (sent 1 [])

binding-CanTake : CanTake binding [] Attribute.message_integrity 20
unfolding stun_getw stun_message_length
binding-CanTake = record {
  chain = refl;
  clear = tt;
  type_fits = omega arith;
  no_wrap = omega arith;
  space = omega arith;
}

add_integrity-IsSigned_example :
    (msg' : StunMessage) × (add_integrity sevens sender binding (107 ∷ []) ≡ (success, msg'))
    × IsSigned sevens sender msg' (107 ∷ [])
add_integrity-IsSigned_example =
    add_integrity-IsSigned sevens sender binding [] (107 ∷ []) binding-CanTake refl

binding-CanTake4 : CanTake binding [] Attribute.fingerprint 4
unfolding stun_getw stun_message_length
binding-CanTake4 = record {
  chain = refl;
  clear = tt;
  type_fits = omega arith;
  no_wrap = omega arith;
  space = omega arith;
}

-- An agent that asks for a fingerprint.
abbrev asking : StunAgent
asking = record sender { usage_flags = 4 }

add_fingerprint_lem_example :
    (msg' : StunMessage) × (add_fingerprint asking binding ≡ (success, msg'))
    × (fingerprint_matches asking msg' (stun_message_find32 msg' Attribute.fingerprint) ≡ true)
add_fingerprint_lem_example = add_fingerprint_lem asking binding [] binding-CanTake4 refl refl

-- With a name of two characters, the second of two bytes.
init_test :
    let (done, msg) =
      stun_agent_init_request
        (97 ∷ 0xc3 ∷ 0xa4 ∷ [])
        sender
        binding
        (from_bytes [])
        100
        1
        (replicate 16 9) in
    (done ≡ true)
    × (stun_message_length msg ≡ 28)
    × (stun_message_id msg ≡ 0x21 ∷ 0x12 ∷ 0xA4 ∷ 0x42 ∷ replicate 12 9)
    × ((stun_agent_init_request [] sender binding (from_bytes []) 19 1 (replicate 16 9)).0 ≡ false)
unfolding stun_agent_init_request stun_message_init stun_set_type stun_message_append_software
    stun_message_append_bytes stun_message_append stun_message_length stun_getw stun_setw
    stun_padding stun_align stun_message_has_cookie stun_message_id
init_test = (refl, refl, refl, refl)

-- The answers to a request, and to what is none.
answer_test :
    let (done, msg) = stun_agent_init_response [] sender binding (from_bytes []) 100 binding in
    (done ≡ true)
    × (stun_message_id msg ≡ stun_message_id binding)
    × ((stun_agent_init_error [] sender binding (from_bytes []) 100 binding 401).0 ≡ true)
    × ((stun_agent_init_error [] sender binding (from_bytes []) 30 binding 401).0 ≡ false)
    × ((stun_agent_init_response [] sender binding (from_bytes []) 100 (message (sent 17 []))).0
        ≡ false)
    × ((stun_agent_init_indication sender binding (from_bytes []) 20 1 (replicate 16 9)).0 ≡ true)
unfolding stun_agent_init_response stun_agent_init_error stun_agent_init_indication
    stun_message_init stun_set_type stun_message_append_software stun_message_append_bytes
    stun_message_append stun_message_append_error stun_strerror stun_message_length stun_getw
    stun_setw stun_padding stun_align stun_message_has_cookie stun_message_id stun_message_get_class
    stun_message_get_method
answer_test = (refl, refl, refl, refl, refl, refl)

-- ERROR-CODE takes 28 bytes here, SOFTWARE 4, and UNKNOWN-ATTRIBUTES with one type 8.
unknown_test :
    (stun_agent_build_unknown_attributes_error sevens [] [] sender binding
      (from_bytes [])
      100
      (message (sent 1 (0 ∷ 6 ∷ 0 ∷ 0 ∷ [])))).2
    ≡ 20 + 28 + 4 + 8
unfolding stun_agent_build_unknown_attributes_error stun_agent_find_unknowns unknowns_loop
    stun_agent_finish_message prepare_key add_integrity add_fingerprint save stun_agent_init_error
    stun_message_init stun_set_type stun_message_append_software stun_message_append_bytes
    stun_message_append stun_message_append_error stun_strerror stun_message_length stun_getw
    stun_setw stun_padding stun_align stun_message_has_cookie stun_message_id stun_message_get_class
    stun_message_get_method libxice.Stun.Message.stun_optional
    libxice.Stun.Agent.stun_agent_is_unknown
unknown_test = refl
