-- ===== src/Stun/Turn/Tests.antt =====
-- stun/usages/turn.c and bind.c: runs at fixed inputs.
use libxice.Base.{ℕ, ◌≡◌, refl, false, none, some, List, [], ◌∷◌, ◌++◌}
use libxice.Base.Memory.{from_bytes}
use libxice.Stun.Types.{StunMessage}
use libxice.Stun.Utils.{inet, stun_getw, stun_padding, stun_align}
use libxice.Stun.Message.{stun_message_find, stun_message_length, stun_message_get_class}
use libxice.Stun.Message.{stun_message_get_method}
use libxice.Stun.Message.Typed.{
  stun_message_find_addr, stun_message_find_xor_addr, stun_message_find32,
}
use libxice.Stun.Message.Typed.{stun_message_find_error}
use libxice.Stun.Bind.{bind_success, bind_alternate_server, stun_usage_bind_process}
use libxice.Stun.Turn.{google, rfc5766, relay_success, turn_error}
use libxice.Stun.Turn.Process.{stun_usage_turn_process}
use libxice.Stun.Turn.Process.Stored.{IsComplete, stun_usage_turn_process-IsComplete}

abbrev message_of : List ℕ → StunMessage
message_of bytes = record {
  agent = none;
  buffer = from_bytes bytes;
  buffer_len = 100;
  key = none;
  long_term_key = [];
  long_term_valid = false;
}

-- A response of the method with the attribute MAPPED-ADDRESS, 127.0.0.1:3478.
abbrev answer : ℕ → StunMessage
answer method = message_of (
    (1 ∷ method ∷ 0 ∷ 12 ∷ 0x21 ∷ 0x12 ∷ 0xa4 ∷ 0x42 ∷ 1 ∷ 2 ∷ 3 ∷ 4 ∷ 5 ∷ 6 ∷ 7 ∷ 8 ∷ 9 ∷ 10 ∷ 11
      ∷ 12 ∷ [])
    ++ (0 ∷ 1 ∷ 0 ∷ 8 ∷ 0 ∷ 1 ∷ 13 ∷ 150 ∷ 127 ∷ 0 ∷ 0 ∷ 1 ∷ []))

-- An error 300 with ALTERNATE-SERVER.
abbrev moved : StunMessage
moved = message_of (
    (1 ∷ 17 ∷ 0 ∷ 20 ∷ 0x21 ∷ 0x12 ∷ 0xa4 ∷ 0x42 ∷ 1 ∷ 2 ∷ 3 ∷ 4 ∷ 5 ∷ 6 ∷ 7 ∷ 8 ∷ 9 ∷ 10 ∷ 11 ∷ 12
      ∷ [])
    ++ (0 ∷ 9 ∷ 0 ∷ 4 ∷ 0 ∷ 0 ∷ 3 ∷ 0 ∷ 0x80 ∷ 0x23 ∷ 0 ∷ 8 ∷ 0 ∷ 1 ∷ 13 ∷ 150 ∷ 127 ∷ 0 ∷ 0 ∷ 1
        ∷ []))

answers_test :
    ((stun_usage_turn_process (answer 3) 16 16 none google).relay_addr
      ≡ some (inet 3478 0x7f000001))
    × ((stun_usage_turn_process (answer 3) 16 16 none google).returned ≡ relay_success)
    × ((stun_usage_turn_process (answer 3) 16 16 none rfc5766).returned ≡ turn_error)
    × (stun_usage_bind_process (answer 1) 16 none
        ≡ (bind_success, some (inet 3478 0x7f000001), none))
    × (stun_usage_bind_process moved 16 (some 16)
        ≡ (bind_alternate_server, none, some (inet 3478 0x7f000001)))
unfolding stun_usage_turn_process stun_usage_bind_process stun_getw stun_padding stun_align
    stun_message_find stun_message_length stun_message_get_class stun_message_get_method
    stun_message_find_addr stun_message_find_xor_addr stun_message_find32 stun_message_find_error
    libxice.Stun.Message.find_loop
answers_test = (refl, refl, refl, refl, refl)

stun_usage_turn_process-IsComplete_example :
    IsComplete (answer 3) 16 16 google (stun_usage_turn_process (answer 3) 16 16 none google)
stun_usage_turn_process-IsComplete_example =
    stun_usage_turn_process-IsComplete (answer 3) 16 16 none google
