-- ===== src/Stun/Agent.antt =====
-- stun/stunagent.c: the agent, its transactions, and the unknown attributes of a message.
mod Tests
mod SendTests
pub mod Receive
pub mod Validate
pub mod Accepted
pub mod Transactions
pub mod Authentic
pub mod Forget
pub mod Unknowns
pub mod Send
pub mod Finish
pub mod Signed
pub mod Fingerprint
pub mod Grown
pub mod Ended
pub mod Saved
pub mod Matching
pub mod Verdict
use libxice.Base.{ℕ, zero, suc, ◌+◌, ◌*◌, ◌/◌, ◌%◌, ◌^◌, Bool, true, false, not, ◌&&◌, ◌||◌}
use libxice.Base.{
  Option, none, some, List, [], ◌∷◌, ◌++◌, ltb, ◌==◌, if◌then◌else◌, replicate, take, length,
}
use libxice.Base.Memory.{Memory}
use libxice.Stun.Constants.{StunCompatibility, rfc5389, wlm2009, agent_max_saved_ids}
use libxice.Stun.Constants.{attribute_type_len, attribute_value_pos, message_attributes_pos}
use libxice.Stun.Constants.{no_aligned_attributes}
use libxice.Stun.Constants.Attribute
use libxice.Stun.Types.{SavedId, StunAgent, StunMessage, has_flag}
use libxice.Stun.Utils.{stun_getw}
use libxice.Stun.Message.{stun_message_length, stun_optional, stride}

abbrev pub no_id : SavedId
no_id = record {
  id = [];
  method = 0;
  key = none;
  long_term_key = [];
  long_term_valid = false;
  valid = false;
}

-- Of the saved ids the function sets `valid` only; what else they hold is not read before it is set.
unfoldable pub stun_agent_init : List ℕ → StunCompatibility → ℕ → StunAgent
stun_agent_init known_attributes compatibility usage_flags = record {
  compatibility = compatibility;
  sent_ids = replicate agent_max_saved_ids no_id;
  known_attributes = known_attributes;
  usage_flags = usage_flags;
  software_attribute = none;
}

-- `memcmp (a, b, n) == 0`, of lists of one length.
abbrev pub bytes_eq : List ℕ → List ℕ → Bool
bytes_eq [] [] = true
bytes_eq [] (y ∷ ys) = false
bytes_eq (x ∷ xs) [] = false
bytes_eq (x ∷ xs) (y ∷ ys) = x == y && bytes_eq xs ys

-- The loop of `stun_agent_forget_transaction`.
unfoldable pub forget_id : List SavedId → List ℕ → List SavedId × Bool
forget_id [] id = ([], false)
forget_id (s ∷ ids) id =
    let (ids', found) = forget_id ids id in
    if s.valid && bytes_eq id s.id
    then (record s { valid = false } ∷ ids, true)
    else (s ∷ ids', found)

unfoldable pub stun_agent_forget_transaction : StunAgent → List ℕ → StunAgent × Bool
stun_agent_forget_transaction agent id =
    let (ids, found) = forget_id agent.sent_ids id in (record agent { sent_ids = ids }, found)

abbrev pub mem_type : List ℕ → ℕ → Bool
mem_type [] type = false
mem_type (known ∷ rest) type = (known == type) || mem_type rest type

unfoldable pub stun_agent_is_unknown : StunAgent → ℕ → Bool
stun_agent_is_unknown agent type = not (mem_type agent.known_attributes type)

-- The loop of `stun_agent_find_unknowns`, with fuel; `room` is how many more types the list takes.
-- The types are the numbers that the bytes in network order make.
unfoldable pub unknowns_loop : StunAgent → Memory → ℕ → ℕ → ℕ → ℕ → List ℕ
unknowns_loop agent m len zero room offset = []
unknowns_loop agent m len (suc fuel) zero offset = []
unknowns_loop agent m len (suc fuel) (suc room) offset =
    let atype = stun_getw m offset in
    let alen = stun_getw m (offset + attribute_type_len) in
    let next =
      offset + (attribute_value_pos + stride (not (has_flag agent no_aligned_attributes)) alen) in
    let taken = unknowns_loop agent m len fuel room next in
    let passed = unknowns_loop agent m len fuel (suc room) next in
    if ltb offset len
    then if not (stun_optional atype) && stun_agent_is_unknown agent atype
      then atype ∷ taken
      else passed
    else []

-- Each round moves the offset on, so that as many rounds as the message has bytes are enough.
unfoldable pub stun_agent_find_unknowns : StunAgent → StunMessage → ℕ → List ℕ
stun_agent_find_unknowns agent msg max =
    let len = stun_message_length msg in
    unknowns_loop agent msg.buffer len len max message_attributes_pos

unfoldable pub stun_agent_set_software : StunAgent → Option (List ℕ) → StunAgent
stun_agent_set_software agent software = record agent { software_attribute = software }

-- The compatibility modes that follow RFC 5389.
abbrev pub follows_rfc5389 : StunAgent → Bool
follows_rfc5389 agent = elim agent.compatibility [ rfc5389 ↦ true | wlm2009 ↦ true | _ ↦ false ]

abbrev pub is_wlm2009 : StunAgent → Bool
is_wlm2009 agent = elim agent.compatibility [ wlm2009 ↦ true | _ ↦ false ]

-- An entry of the table that `stun_agent_default_validater` is given. A password and its length are
-- one list of bytes; the table ends before the entry with no username.
pub record StunDefaultValidaterData : Type 0 where
  pub username : List ℕ
  pub password : List ℕ

-- The password, if the result is TRUE.
unfoldable pub stun_agent_default_validater :
    List StunDefaultValidaterData → List ℕ → Option (List ℕ)
stun_agent_default_validater [] username = none
stun_agent_default_validater (val ∷ rest) username =
    if (length username == length val.username) && bytes_eq username val.username
    then some val.password
    else stun_agent_default_validater rest username
