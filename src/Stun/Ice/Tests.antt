-- ===== src/Stun/Ice/Tests.antt =====
-- Connectivity checks of two agents.
use libxice.Base.{ℕ, ◌<◌, ◌≡◌, ◌≢◌, ◌↔◌, refl, arith, true, false, not, All}
use libxice.Base.{none, some, [], ◌∷◌, ◌++◌, replicate}
use libxice.Base.Memory.{Memory, from_bytes}
use libxice.Stun.Constants.{rfc5389}
use libxice.Stun.Types.{SavedId, StunAgent, StunMessage}
use libxice.Stun.Utils.{inet, stun_getw, stun_padding, stun_align, stun_setw, stun_set_type}
use libxice.Stun.Utils.{stun_xor_address}
use libxice.Stun.Message.{
  stun_message_init, stun_message_length, stun_message_id, stun_message_find,
}
use libxice.Stun.Message.{stun_message_get_class, stun_message_get_method, stun_message_has_cookie}
use libxice.Stun.Message.Append.{
  stun_message_append_bytes, stun_message_append, stun_message_append_error,
}
use libxice.Stun.Message.Append.{
  stun_message_append_flag, stun_message_append32, stun_message_append64,
}
use libxice.Stun.Message.Append.{
  stun_message_append_addr, stun_message_append_xor_addr, stun_message_append_xor_addr_full,
}
use libxice.Stun.Message.Typed.{
  stun_message_find32, stun_message_find64, stun_message_find_flag, stun_message_find_addr,
}
use libxice.Stun.Message.Typed.{
  stun_message_find_xor_addr, stun_message_find_xor_addr_full, stun_message_find_error,
}
use libxice.Stun.Message.Phrase.{stun_strerror}
use libxice.Stun.Hmac.{Crypto}
use libxice.Stun.Agent.Send.{
  stun_agent_init_request, stun_agent_init_response, stun_agent_init_error,
}
use libxice.Stun.Agent.Send.{stun_message_append_software}
use libxice.Stun.Agent.Finish.{stun_agent_finish_message, add_integrity, add_fingerprint}
use libxice.Stun.Agent.Finish.{prepare_key, save, free_id}
use libxice.Stun.Ice.{
  rfc5245, ice_success, ice_invalid, role_conflict, respond, Reply,
  stun_usage_ice_conncheck_create_reply,
}
use libxice.Stun.Ice.{stun_usage_ice_conncheck_create, stun_bind_error}
use libxice.Stun.Ice.Process.{
  stun_usage_ice_conncheck_process, stun_usage_ice_conncheck_priority,
  stun_usage_ice_conncheck_use_candidate,
}
use libxice.Stun.Ice.Role.{Conflicts, create_reply-role, conflict-resolved}

seven_bytes : All (λ b. b < 256) (replicate 20 7)
seven_bytes = ground arith

abbrev sevens : Crypto
sevens = record {
  hmac_sha1 = λ key text. replicate 20 7;
  md5 = λ text. text;
  hmac_sha1-length = λ key text. refl;
  hmac_sha1-bytes = λ key text. seven_bytes;
}

abbrev free : SavedId
free = record {
  id = [];
  method = 0;
  key = none;
  long_term_key = [];
  long_term_valid = false;
  valid = false;
}

abbrev peer : StunAgent
peer = record {
  compatibility = rfc5389;
  sent_ids = free ∷ free ∷ [];
  known_attributes = [];
  usage_flags = 0;
  software_attribute = none;
}

abbrev message : Memory → StunMessage
message bytes = record {
  agent = some peer;
  buffer = bytes;
  buffer_len = 200;
  key = none;
  long_term_key = [];
  long_term_valid = false;
}

-- A binding request with ICE-CONTROLLING of the given tie-breaker.
abbrev check_of : ℕ → StunMessage
check_of tie = message (
    from_bytes (
      (0 ∷ 1 ∷ 0 ∷ 12 ∷ 0x21 ∷ 0x12 ∷ 0xA4 ∷ 0x42 ∷ replicate 12 9)
      ++ (0x80 ∷ 0x2a ∷ 0 ∷ 8 ∷ 0 ∷ 0 ∷ 0 ∷ 0 ∷ 0 ∷ 0 ∷ 0 ∷ tie ∷ [])))

create_reply-role_example :
    ((stun_usage_ice_conncheck_create_reply sevens [] [] peer
        (check_of 9)
        (check_of 9)
        (from_bytes [])
        200
        (inet 3478 0x7f000001)
        16
        true
        3
        rfc5245).1
      ≡ false)
    ↔ ((q : ℕ) × Conflicts (check_of 9) true q × (3 < q))
create_reply-role_example =
    create_reply-role sevens [] [] peer (check_of 9) (check_of 9) (from_bytes []) 200
      (inet 3478 0x7f000001) 16 true 3 rfc5245

check_three-Conflicts : Conflicts (check_of 3) true 3
unfolding stun_message_get_class stun_message_get_method stun_message_find64 stun_message_find
    libxice.Stun.Message.find_loop stun_getw stun_message_length stun_padding stun_align
    stun_message_has_cookie
check_three-Conflicts = (refl, refl, refl)

check_nine-Conflicts : Conflicts (check_of 9) true 9
unfolding stun_message_get_class stun_message_get_method stun_message_find64 stun_message_find
    libxice.Stun.Message.find_loop stun_getw stun_message_length stun_padding stun_align
    stun_message_has_cookie
check_nine-Conflicts = (refl, refl, refl)

three_is_not_nine : ◌≢◌ {A = ℕ} 3 9
three_is_not_nine = ground arith

conflict-resolved_example :
    (stun_usage_ice_conncheck_create_reply sevens [] [] peer
      (check_of 9)
      (check_of 9)
      (from_bytes [])
      200
      (inet 3478 0x7f000001)
      16
      true
      3
      rfc5245).1
    ≡ not
        (stun_usage_ice_conncheck_create_reply sevens [] [] peer
          (check_of 3)
          (check_of 3)
          (from_bytes [])
          200
          (inet 3479 0x7f000001)
          16
          true
          9
          rfc5245).1
conflict-resolved_example =
    conflict-resolved sevens [] [] peer peer (check_of 9) (check_of 3) (check_of 9) (check_of 3)
      (from_bytes []) (from_bytes []) 200 200 (inet 3478 0x7f000001) (inet 3479 0x7f000001) 16 16
      true 3 9 rfc5245 check_nine-Conflicts check_three-Conflicts three_is_not_nine

-- The answer of an agent that is controlling and has the given tie-breaker.
abbrev reply : ℕ → Reply
reply tie =
    stun_usage_ice_conncheck_create_reply sevens [] [] peer (check_of 9) (check_of 9)
      (from_bytes []) 200 (inet 3478 0x7f000001) 16 true tie rfc5245

-- Where the tie-breaker of the agent is as great, the agent stays, and its answer is the error 487.
role_test :
    ((reply 3).0 ≡ role_conflict)
    × ((reply 3).1 ≡ false)
    × ((reply 9).0 ≡ ice_success)
    × ((reply 9).1 ≡ true)
    × (stun_usage_ice_conncheck_process (reply 3).2.1 16 rfc5245
        ≡ (ice_success, some (inet 3478 0x7f000001)))
    × (stun_usage_ice_conncheck_process (reply 9).2.1 16 rfc5245 ≡ (role_conflict, none))
unfolding stun_usage_ice_conncheck_create_reply respond stun_bind_error
    stun_usage_ice_conncheck_process stun_usage_ice_conncheck_create
    stun_usage_ice_conncheck_priority stun_usage_ice_conncheck_use_candidate stun_agent_init_request
    stun_agent_init_response stun_agent_init_error stun_agent_finish_message prepare_key
    add_integrity add_fingerprint save free_id stun_message_init stun_set_type
    stun_message_append_software stun_message_append_bytes stun_message_append
    stun_message_append_error stun_message_append_flag stun_message_append32 stun_message_append64
    stun_message_append_addr stun_message_append_xor_addr stun_message_append_xor_addr_full
    stun_xor_address stun_strerror stun_message_length stun_getw stun_setw stun_padding stun_align
    stun_message_has_cookie stun_message_id stun_message_get_class stun_message_get_method
    stun_message_find stun_message_find32 stun_message_find64 stun_message_find_flag
    stun_message_find_addr stun_message_find_xor_addr stun_message_find_xor_addr_full
    stun_message_find_error libxice.Stun.Message.find_loop
role_test = (refl, refl, refl, refl, refl, refl)

-- A check with the priority 77 and USE-CANDIDATE.
abbrev check : StunMessage
check =
    (stun_usage_ice_conncheck_create sevens [] [] peer (check_of 9) (from_bytes []) 200 (97 ∷ [])
      none true true 77 9 [] rfc5245 (replicate 16 9)).1

check_test :
    (stun_usage_ice_conncheck_priority check ≡ 77)
    × (stun_usage_ice_conncheck_use_candidate check ≡ true)
    × (stun_usage_ice_conncheck_use_candidate (check_of 9) ≡ false)
    × (stun_usage_ice_conncheck_process check 16 rfc5245 ≡ (ice_invalid, none))
unfolding stun_usage_ice_conncheck_create_reply respond stun_bind_error
    stun_usage_ice_conncheck_process stun_usage_ice_conncheck_create
    stun_usage_ice_conncheck_priority stun_usage_ice_conncheck_use_candidate stun_agent_init_request
    stun_agent_init_response stun_agent_init_error stun_agent_finish_message prepare_key
    add_integrity add_fingerprint save free_id stun_message_init stun_set_type
    stun_message_append_software stun_message_append_bytes stun_message_append
    stun_message_append_error stun_message_append_flag stun_message_append32 stun_message_append64
    stun_message_append_addr stun_message_append_xor_addr stun_message_append_xor_addr_full
    stun_xor_address stun_strerror stun_message_length stun_getw stun_setw stun_padding stun_align
    stun_message_has_cookie stun_message_id stun_message_get_class stun_message_get_method
    stun_message_find stun_message_find32 stun_message_find64 stun_message_find_flag
    stun_message_find_addr stun_message_find_xor_addr stun_message_find_xor_addr_full
    stun_message_find_error libxice.Stun.Message.find_loop
check_test = (refl, refl, refl, refl)
