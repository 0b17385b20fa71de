-- ===== src/Stun/Message.antt =====
-- stun/stunmessage.c: the header of a message, and the search for an attribute.
mod Tests
pub mod Phrase
pub mod Append
pub mod Validate
pub mod Typed
pub mod Layout
pub mod Chain
pub mod Accept
pub mod Overrun
pub mod Search
pub mod Extend
pub mod Appended
pub mod Written
pub mod Init
pub mod RoundTrip
pub mod AddressTrip
pub mod XorTrip
pub mod ErrorTrip
use libxice.Base.{ℕ, zero, suc, ◌+◌, ◌*◌, ◌/◌, ◌%◌, ◌^◌, bit_and, bit_or}
use libxice.Base.{Bool, true, false, not, Option, none, some, List}
use libxice.Base.{ltb, ◌==◌, if◌then◌else◌}
use libxice.Base.Memory.{Memory, byte, store_bytes, fill, load_bytes}
use libxice.Stun.Constants.{StunClass, request, indication, response, error, oc2007}
use libxice.Stun.Constants.{message_length_pos, message_trans_id_pos, message_trans_id_len}
use libxice.Stun.Constants.{message_attributes_pos, message_header_length, magic_cookie}
use libxice.Stun.Constants.{attribute_type_len, attribute_value_pos, no_aligned_attributes}
use libxice.Stun.Constants.Attribute
use libxice.Stun.Types.{StunMessage, has_flag}
use libxice.Stun.Utils.{stun_getw, stun_set_type, stun_align}

-- `stun_message_init`; `none` is its result FALSE.
unfoldable pub stun_message_init : StunMessage → StunClass → ℕ → List ℕ → Option StunMessage
stun_message_init msg c m id =
    if ltb msg.buffer_len message_header_length
    then none
    else some (record msg {
      buffer = store_bytes (stun_set_type (fill msg.buffer 0 0 4) 0 c m) message_trans_id_pos id;
    })

-- The result is a uint16_t.
unfoldable pub stun_message_length : StunMessage → ℕ
stun_message_length msg = (stun_getw msg.buffer message_length_pos + message_header_length) % 2 ^ 16

unfoldable pub stun_message_id : StunMessage → List ℕ
stun_message_id msg = load_bytes msg.buffer message_trans_id_pos message_trans_id_len

-- The 32-bit number that four bytes in network order make.
abbrev pub word32 : Memory → ℕ → ℕ
word32 m p = byte m p * 2 ^ 24 + byte m (p + 1) * 2 ^ 16 + byte m (p + 2) * 2 ^ 8 + byte m (p + 3)

-- `stun_message_has_cookie` of stun/stun5389.c.
unfoldable pub stun_message_has_cookie : StunMessage → Bool
stun_message_has_cookie msg = word32 msg.buffer message_trans_id_pos == magic_cookie

-- The type that a Google or MSN data indication is taken for.
abbrev pub effective_type : ℕ → ℕ
effective_type t = if t == 0x0115 then 0x0017 else t

abbrev pub method_of_type : ℕ → ℕ
method_of_type t =
    bit_or (bit_or (bit_and t 0x3e00 / 2 ^ 2) (bit_and t 0x00e0 / 2)) (bit_and t 0x000f)

abbrev pub class_bits : ℕ → ℕ
class_bits t = bit_or (bit_and t 0x0100 / 2 ^ 7) (bit_and t 0x0010 / 2 ^ 4)

abbrev pub class_of_value : ℕ → StunClass
class_of_value v =
    if v == 0 then request else if v == 1 then indication else if v == 2 then response else error

unfoldable pub stun_message_get_method : StunMessage → ℕ
stun_message_get_method msg = method_of_type (effective_type (stun_getw msg.buffer 0))

unfoldable pub stun_message_get_class : StunMessage → StunClass
stun_message_get_class msg = class_of_value (class_bits (effective_type (stun_getw msg.buffer 0)))

-- `msg->agent && msg->agent->compatibility == STUN_COMPATIBILITY_OC2007`
abbrev pub swaps_ids : StunMessage → Bool
swaps_ids msg = elim msg.agent [
  | none ↦ false
  | some agent ↦ elim agent.compatibility [ oc2007 ↦ true | _ ↦ false ]
]

-- `!(msg->agent && (msg->agent->usage_flags & STUN_AGENT_USAGE_NO_ALIGNED_ATTRIBUTES))`
abbrev pub is_aligned : StunMessage → Bool
is_aligned msg = elim msg.agent [
  | none ↦ true
  | some agent ↦ not (has_flag agent no_aligned_attributes)
]

-- In MS-TURN, IDs of REALM and NONCE are swapped.
abbrev pub wire_type : StunMessage → ℕ → ℕ
wire_type msg type =
    if swaps_ids msg
    then if type == Attribute.realm
      then Attribute.nonce
      else if type == Attribute.nonce
      then Attribute.realm
      else type
    else type

-- The search for `type` does not go past an attribute of type `atype`.
abbrev pub hides : ℕ → ℕ → Bool
hides type atype =
    if atype == Attribute.message_integrity
    then not (type == Attribute.fingerprint)
    else atype == Attribute.fingerprint

-- The room that a value takes.
abbrev pub stride : Bool → ℕ → ℕ
stride aligned alen = if aligned then stun_align alen else alen

-- The loop of `stun_message_find`, with fuel: the length and the offset of the value.
unfoldable pub find_loop : Memory → Bool → ℕ → ℕ → ℕ → ℕ → Option (ℕ × ℕ)
find_loop m aligned type length zero offset = none
find_loop m aligned type length (suc fuel) offset =
    let atype = stun_getw m offset in
    let alen = stun_getw m (offset + attribute_type_len) in
    let rest =
      find_loop m aligned type length fuel (offset + attribute_value_pos + stride aligned alen) in
    if ltb offset length
    then if atype == type
      then some (alen, offset + attribute_value_pos)
      else if hides type atype
      then none
      else rest
    else none

-- Each round moves the offset on, so that as many rounds as the message has bytes are enough.
unfoldable pub stun_message_find : StunMessage → ℕ → Option (ℕ × ℕ)
stun_message_find msg type =
    let length = stun_message_length msg in
    find_loop msg.buffer (is_aligned msg) (wire_type msg type) length length message_attributes_pos

unfoldable pub stun_message_has_attribute : StunMessage → ℕ → Bool
stun_message_has_attribute msg type = elim (stun_message_find msg type) [
  | none ↦ false
  | some found ↦ true
]

-- `t` is a uint16_t.
unfoldable pub stun_optional : ℕ → Bool
stun_optional t = t / 2 ^ 15 == 1
