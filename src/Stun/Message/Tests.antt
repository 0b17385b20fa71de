-- ===== src/Stun/Message/Tests.antt =====
-- Messages of a few bytes, on which the functions of stun/stunmessage.c are run.
use libxice.Base.{ℕ, ◌+◌, ◌^◌, ◌≤◌, ◌<◌, ◌≡◌, ◌≢◌, ◌⊎◌, refl, arith, true, false}
use libxice.Base.{none, some, List, [], ◌∷◌, ◌++◌}
use libxice.Base.Memory.{from_bytes, Agree}
use libxice.Stun.Constants.{response, success}
use libxice.Stun.Constants.Attribute
use libxice.Stun.Types.{StunMessage}
use libxice.Stun.Utils.{stun_getw, stun_padding, stun_align, SockAddr, inet, inet6}
use libxice.Stun.Message.{stun_message_get_class, stun_message_get_method}
use libxice.Stun.Message.{
  stun_message_init, stun_message_length, stun_message_find, stun_message_id,
}
use libxice.Stun.Message.Append.{stun_message_append}
use libxice.Stun.Message.Append.{stun_message_append_addr, stun_message_append_xor_addr_full}
use libxice.Stun.Message.Append.{stun_message_append_error}
use libxice.Stun.Message.Typed.{stun_message_find_addr}
use libxice.Stun.Message.Typed.{stun_message_find_xor_addr_full, stun_message_find_error}
use libxice.Stun.Message.Phrase.{stun_strerror}
use libxice.Stun.Message.Validate.{stun_message_validate_buffer_length, buffer_length}
use libxice.Stun.Message.Accept.{validate_accepts}
use libxice.Stun.Message.Search.{HasAttributes, stun_message_find_iff}
use libxice.Stun.Message.Appended.{stun_message_append_lem, append_overrun, IsAppended}
use libxice.Stun.Message.Init.{stun_message_init_lem, reported}
use libxice.Stun.Message.Written.{CanTake}
use libxice.Stun.Message.AddressTrip.{find_addr-append_addr}
use libxice.Stun.Message.XorTrip.{find_xor_addr-append_xor_addr}
use libxice.Stun.Message.ErrorTrip.{find_error-append_error}

abbrev header : ℕ → List ℕ
header len =
    0 ∷ 1 ∷ 0 ∷ len ∷ 0x21 ∷ 0x12 ∷ 0xA4 ∷ 0x42 ∷ 1 ∷ 2 ∷ 3 ∷ 4 ∷ 5 ∷ 6 ∷ 7 ∷ 8 ∷ 9 ∷ 10 ∷ 11 ∷ 12
    ∷ []

-- A binding request with USERNAME `ab`, and padding behind it.
abbrev named : List ℕ
named = header 8 ++ (0 ∷ 6 ∷ 0 ∷ 2 ∷ 97 ∷ 98 ∷ 0 ∷ 0 ∷ [])

abbrev message_of : List ℕ → ℕ → StunMessage
message_of bytes buffer_len = record {
  agent = none;
  buffer = from_bytes bytes;
  buffer_len = buffer_len;
  key = none;
  long_term_key = [];
  long_term_valid = false;
}

-- The request in a buffer of a hundred bytes.
abbrev request_of_ab : StunMessage
request_of_ab = message_of named 100

validate_accepts_example :
    stun_message_validate_buffer_length (from_bytes named) 28 true ≡ buffer_length 28
unfolding stun_getw stun_align
validate_accepts_example =
    (validate_accepts (from_bytes named) 28 28).1
      (omega arith, refl, refl, omega arith, ((6, 2) ∷ [], (refl, refl, refl)))

stun_message_find_iff_example : stun_message_find request_of_ab Attribute.username ≡ some (2, 24)
unfolding stun_getw stun_align stun_message_length
stun_message_find_iff_example =
    (stun_message_find_iff request_of_ab ((6, 2) ∷ []) Attribute.username 2 24 (refl, refl, refl)).1
      ([], [], refl, tt, refl)

-- The request takes an attribute of any other type.
named-CanTake : (n t : ℕ) → n ≤ 60 → t < 2 ^ 16 → 6 ≢ t → CanTake request_of_ab ((6, 2) ∷ []) t n
unfolding stun_getw stun_align stun_message_length
named-CanTake n t h ht other = record {
  chain = (refl, refl, refl);
  clear = (other, refl, tt);
  type_fits = ht;
  no_wrap = omega arith;
  space = omega arith;
}

stun_message_append_lem_example :
    ((stun_message_length request_of_ab + 4 + 5 ≤ 100)
      × ((msg' : StunMessage) × (stun_message_append request_of_ab Attribute.software 5
            ≡ some (stun_message_length request_of_ab + 4, msg'))
          × IsAppended request_of_ab ((6, 2) ∷ []) Attribute.software 5 msg'))
    ⊎ ((100 < stun_message_length request_of_ab + 4 + 5)
        × (stun_message_append request_of_ab Attribute.software 5 ≡ none))
unfolding stun_getw stun_align stun_message_length
stun_message_append_lem_example =
    stun_message_append_lem request_of_ab ((6, 2) ∷ []) Attribute.software 5 (refl, refl, refl)
      (omega arith) (omega arith)

-- SOFTWARE with two bytes fills a buffer of 34 bytes.
append_overrun_example :
    (ptr : ℕ) × (msg' : StunMessage) × (stun_message_append
        (message_of named 34)
        Attribute.software
        2
      ≡ some (ptr, msg'))
    × (msg'.buffer 34 ≡ 0x20)
unfolding stun_getw stun_align stun_message_length stun_padding
append_overrun_example =
    append_overrun (message_of named 34) ((6, 2) ∷ []) Attribute.software 2 (refl, refl, refl) refl
      (omega arith)

abbrev test_id : List ℕ
test_id = 0x21 ∷ 0x12 ∷ 0xA4 ∷ 0x42 ∷ 12 ∷ 11 ∷ 10 ∷ 9 ∷ 8 ∷ 7 ∷ 6 ∷ 5 ∷ 4 ∷ 3 ∷ 2 ∷ 1 ∷ []

stun_message_init_lem_example :
    ((100 < 20) × (stun_message_init request_of_ab response 1 test_id ≡ none))
    ⊎ ((20 ≤ 100)
        × ((msg' : StunMessage) × (stun_message_init request_of_ab response 1 test_id ≡ some msg')
            × HasAttributes msg' []
            × (stun_message_length msg' ≡ 20)
            × (stun_message_id msg' ≡ test_id)
            × ((stun_message_get_class msg', stun_message_get_method msg') ≡ reported response 1)))
stun_message_init_lem_example =
    stun_message_init_lem request_of_ab response 1 test_id (omega arith) refl (ground arith)

find_addr-append_addr_example :
    (msg' : StunMessage) × (stun_message_append_addr request_of_ab Attribute.mapped_address
        (inet 3478 0x7f000001)
        16
      ≡ (success, msg'))
    × (stun_message_find_addr msg' Attribute.mapped_address 28
        ≡ (success, some (inet 3478 0x7f000001), 16))
    × Agree (from_bytes named) msg'.buffer 4 20
find_addr-append_addr_example =
    find_addr-append_addr request_of_ab ((6, 2) ∷ []) Attribute.mapped_address
      (inet 3478 0x7f000001) 16 28
      (named-CanTake 8 Attribute.mapped_address (omega arith) (omega arith) (ground arith))
      (omega arith, omega arith) (omega arith) (omega arith)

abbrev loopback : SockAddr
loopback = inet6 3478 (0 ∷ 0 ∷ 0 ∷ 0 ∷ 0 ∷ 0 ∷ 0 ∷ 0 ∷ 0 ∷ 0 ∷ 0 ∷ 0 ∷ 0 ∷ 0 ∷ 0 ∷ 1 ∷ [])

find_xor_addr-append_xor_addr_example :
    (msg' : StunMessage) × (stun_message_append_xor_addr_full request_of_ab
        Attribute.xor_mapped_address loopback 28 0x2112A442
      ≡ (success, msg'))
    × (stun_message_find_xor_addr_full msg' Attribute.xor_mapped_address 28 0x2112A442
        ≡ (success, some loopback, 28))
find_xor_addr-append_xor_addr_example =
    find_xor_addr-append_xor_addr request_of_ab ((6, 2) ∷ []) Attribute.xor_mapped_address loopback
      28 28 0x2112A442
      (named-CanTake 20 Attribute.xor_mapped_address (omega arith) (omega arith) (ground arith))
      (omega arith, refl, ground arith) (omega arith) (omega arith) (omega arith) (omega arith)

find_error-append_error_example :
    (msg' : StunMessage) × (stun_message_append_error request_of_ab 401 ≡ (success, msg'))
    × (stun_message_find_error msg' ≡ (success, some 401))
unfolding stun_strerror
find_error-append_error_example =
    find_error-append_error request_of_ab ((6, 2) ∷ []) 401
      (named-CanTake 16 Attribute.error_code (omega arith) (omega arith) (ground arith))
      (omega arith) (omega arith)
