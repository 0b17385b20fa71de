-- ===== src/Stun/Constants.antt =====
-- stun/constants.h, and the enumerations of stun/stunmessage.h and stun/stunagent.h.
pub mod Attribute
pub mod Method
pub mod Fault
use libxice.Base.{ℕ, ◌+◌}

abbrev pub message_type_len : ℕ
message_type_len = 2

abbrev pub message_length_pos : ℕ
message_length_pos = 0 + message_type_len

abbrev pub message_trans_id_pos : ℕ
message_trans_id_pos = message_length_pos + 2

abbrev pub message_trans_id_len : ℕ
message_trans_id_len = 16

abbrev pub message_attributes_pos : ℕ
message_attributes_pos = message_trans_id_pos + message_trans_id_len

abbrev pub message_header_length : ℕ
message_header_length = message_attributes_pos

abbrev pub attribute_type_len : ℕ
attribute_type_len = 2

abbrev pub attribute_value_pos : ℕ
attribute_value_pos = attribute_type_len + 2

abbrev pub attribute_header_length : ℕ
attribute_header_length = attribute_value_pos

abbrev pub agent_max_saved_ids : ℕ
agent_max_saved_ids = 200

abbrev pub agent_max_unknown_attributes : ℕ
agent_max_unknown_attributes = 256

abbrev pub magic_cookie : ℕ
magic_cookie = 0x2112A442

-- `StunClass`
pub data StunClass : Type 0 where
  request indication response error : StunClass

-- The value of an enumerator.
abbrev pub class_value : StunClass → ℕ
class_value request = 0
class_value indication = 1
class_value response = 2
class_value error = 3

-- `StunMessageReturn`
pub data StunMessageReturn : Type 0 where
  success not_found invalid not_enough_space unsupported_address : StunMessageReturn

-- `StunCompatibility`
pub data StunCompatibility : Type 0 where
  rfc3489 rfc5389 wlm2009 oc2007 : StunCompatibility

-- `StunValidationStatus`
pub data StunValidationStatus : Type 0 where
  valid not_stun incomplete_stun bad_request unauthorized_bad_request : StunValidationStatus
  unauthorized unmatched_response unknown_request_attribute : StunValidationStatus
  unknown_attribute : StunValidationStatus

-- `StunAgentUsageFlags`
pub data UsageFlag : Type 0 where
  short_term_credentials long_term_credentials use_fingerprint add_software : UsageFlag
  ignore_credentials no_indication_auth force_validater no_aligned_attributes : UsageFlag

abbrev pub flag_value : UsageFlag → ℕ
flag_value short_term_credentials = 0x01
flag_value long_term_credentials = 0x02
flag_value use_fingerprint = 0x04
flag_value add_software = 0x08
flag_value ignore_credentials = 0x10
flag_value no_indication_auth = 0x20
flag_value force_validater = 0x40
flag_value no_aligned_attributes = 0x80
