-- ===== src/Stun/Types.antt =====
-- The structures of stun/stunagent.h and stun/stunmessage.h.
use libxice.Base.{ℕ, Bool, not, List, Option, ◌==◌, bit_and}
use libxice.Base.Memory.{Memory}
use libxice.Stun.Constants.{StunCompatibility, UsageFlag, flag_value}

-- `StunAgentSavedIds`. A key and its length are one list of bytes, and NULL is `none`.
pub record SavedId : Type 0 where
  pub id : List ℕ
  pub method : ℕ
  pub key : Option (List ℕ)
  pub long_term_key : List ℕ
  pub long_term_valid : Bool
  pub valid : Bool

-- `struct stun_agent_t`. `known_attributes` is the array up to its terminating 0.
pub record StunAgent : Type 0 where
  pub compatibility : StunCompatibility
  pub sent_ids : List SavedId
  pub known_attributes : List ℕ
  pub usage_flags : ℕ
  pub software_attribute : Option (List ℕ)

-- `struct _StunMessage`. Code that is given a message reads of its agent only `compatibility` and
-- `usage_flags`, which stay as `stun_agent_init` set them.
pub record StunMessage : Type 0 where
  pub agent : Option StunAgent
  pub buffer : Memory
  pub buffer_len : ℕ
  pub key : Option (List ℕ)
  pub long_term_key : List ℕ
  pub long_term_valid : Bool

-- `agent->usage_flags & flag`
abbrev pub has_flag : StunAgent → UsageFlag → Bool
has_flag agent flag = not (bit_and agent.usage_flags (flag_value flag) == 0)
