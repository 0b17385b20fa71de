-- ===== src/Stun/Agent/Verdict.antt =====
-- stun/stunagent.c: what the result of `stun_agent_validate` says of the packet and of the agent.
use libxice.Base.{ℕ, ◌%◌, ◌^◌, ◌≡◌, ◌≢◌, inl, inr, refl, arith}
use libxice.Base.{true, false, not, ◌||◌, Bool-cases}
use libxice.Base.{Option, none, some, List}
use libxice.Base.Memory.{Memory}
use libxice.Stun.Constants.{request, short_term_credentials, long_term_credentials, success}
use libxice.Stun.Constants.{
  ignore_credentials, force_validater, no_aligned_attributes, use_fingerprint,
}
use libxice.Stun.Constants.{not_stun, incomplete_stun}
use libxice.Stun.Constants.Attribute
use libxice.Stun.Types.{SavedId, StunAgent, StunMessage, has_flag}
use libxice.Stun.Message.{stun_message_id, stun_message_get_method, stun_message_has_cookie}
use libxice.Stun.Message.{stun_message_length}
use libxice.Stun.Message.Typed.{stun_message_find32}
use libxice.Stun.Message.Validate.{BufferLength, stun_message_validate_buffer_length, buffer_length}
use libxice.Stun.Message.Validate.{buffer_invalid, buffer_incomplete, out_of_fuel}
use libxice.Stun.Message.Accept.{validate-ne-out_of_fuel}
use libxice.Stun.Hmac.{Crypto}
use libxice.Stun.Crc.{stun_fingerprint}
use libxice.Stun.Agent.{follows_rfc5389, is_wlm2009}
use libxice.Stun.Agent.Receive.{Validater, is_class, received, passes_demux}
use libxice.Stun.Agent.Receive.{ignores_credentials}
use libxice.Stun.Agent.Validate.{Outcome, no_transaction, transaction_of, ask}
use libxice.Stun.Agent.Validate.{asks_validater, match_response}
use libxice.Stun.Agent.Validate.{check_message, equals_int, of_length, stun_agent_validate}
use libxice.Stun.Agent.Accepted.{is_accepted}
use libxice.Stun.Agent.Transactions.{Waits, is_answer, IsSettled, check_message-IsSettled}
use libxice.Stun.Agent.Authentic.{IsVerified, asked_lem}
use libxice.Stun.Agent.Matching.{matches_lem, request-counts, request-integrity}
use libxice.Stun.Agent.Matching.{request-finds, answer-Waits}

module _ (crypto : Crypto) (agent : StunAgent) (msg : StunMessage)
    (validater : Option Validater) where
  module _ (buffer : Memory) (buffer_len : ℕ) where
    -- The message that is checked, and what is found of its length.
    abbrev m : StunMessage
    m = received agent buffer buffer_len

    abbrev parsed : BufferLength
    parsed =
        stun_message_validate_buffer_length buffer buffer_len
          (not (has_flag agent no_aligned_attributes))

    of_length-IsSettled :
        (r : BufferLength)
        → r ≢ out_of_fuel
        → (o : Outcome) × (of_length crypto validater agent msg buffer buffer_len r ≡ some o)
          × IsSettled agent m o
    of_length-IsSettled buffer_invalid ends = ((agent, msg, not_stun), refl, inl (refl, refl))
    of_length-IsSettled buffer_incomplete ends =
        ((agent, msg, incomplete_stun), refl, inl (refl, refl))
    of_length-IsSettled (buffer_length len) ends = elim (Bool-cases (equals_int len buffer_len)) [
      | inl whole ↦ rw whole (
        check_message crypto validater agent m,
        refl,
        check_message-IsSettled crypto validater agent m,
      )
      | inr part ↦ rw part ((agent, msg, not_stun), refl, inl (refl, refl))
    ]
    of_length-IsSettled out_of_fuel ends = absurd (ends refl)

    -- With aligned attributes the validation always gives a result. Where it does not accept the message,
    -- and where the message is no answer, the agent stays as it was; an accepted response or error
    -- response has the method and the transaction id of a saved id that waits, and frees that one only.
    pub stun_agent_validate_lem :
        has_flag agent no_aligned_attributes ≡ false
        → (o : Outcome) × (stun_agent_validate crypto agent msg buffer buffer_len validater
            ≡ some o)
          × IsSettled agent m o
    unfolding stun_agent_validate
    stun_agent_validate_lem aligned =
        of_length-IsSettled parsed (rw aligned (validate-ne-out_of_fuel buffer buffer_len))

    of_length-accepted :
        (r : BufferLength) (o : Outcome)
        → of_length crypto validater agent msg buffer buffer_len r ≡ some o
        → is_accepted o.2 ≡ true
        → (r ≡ buffer_length (buffer_len % 2 ^ 32)) × (o ≡ check_message crypto validater agent m)
    of_length-accepted buffer_invalid o e accepted = absurd (cc)
    of_length-accepted buffer_incomplete o e accepted = absurd (cc)
    of_length-accepted (buffer_length len) o e accepted =
        elim (Bool-cases (equals_int len buffer_len)) [
          | inl whole ↦ (ground arith, let a = rw whole at e in cc)
          | inr part ↦ absurd (let a = rw part at e in cc)
        ]
    of_length-accepted out_of_fuel o e accepted = absurd (cc)

    matched :
        (o : Outcome)
        → stun_agent_validate crypto agent msg buffer buffer_len validater ≡ some o
        → is_accepted o.2 ≡ true
        → (parsed ≡ buffer_length (buffer_len % 2 ^ 32))
          × (passes_demux agent m ≡ true)
          × (o ≡ match_response crypto validater agent m)
    unfolding stun_agent_validate check_message
    matched o e accepted =
        let (whole, same) = of_length-accepted parsed o e accepted in
        elim (Bool-cases (passes_demux agent m)) [
          | inl passes ↦ (whole, passes, rw passes at same)
          | inr fails ↦ absurd (let a = rw fails at same in cc)
        ]

    -- An agent of RFC 5389 or WLM 2009 that asks for a fingerprint accepts a buffer only if the length
    -- of the message is that of the buffer modulo 2 ^ 32, so that it fills a buffer below 4 GiB exactly,
    -- and if it has the magic cookie and a FINGERPRINT whose number is the one that is computed from
    -- it.
    pub accepted-fingerprint :
        (o : Outcome)
        → follows_rfc5389 agent ≡ true
        → has_flag agent use_fingerprint ≡ true
        → stun_agent_validate crypto agent msg buffer buffer_len validater ≡ some o
        → is_accepted o.2 ≡ true
        → (parsed ≡ buffer_length (buffer_len % 2 ^ 32))
          × (stun_message_has_cookie m ≡ true)
          × (stun_message_find32 m Attribute.fingerprint ≡ (
            success,
            some (stun_fingerprint buffer (stun_message_length m) (is_wlm2009 agent)),
          ))
    unfolding passes_demux
    accepted-fingerprint o modern uses e accepted =
        let (whole, passes, same) = matched o e accepted in
        let p = rw (modern, uses) at passes in
        (
          whole,
          ground arith,
          matches_lem agent m (stun_message_find32 m Attribute.fingerprint) (ground arith),
        )

    -- Where an agent with short-term or long-term credentials, which does not ignore them, accepts a
    -- request, the validater gave a key for it, and if that is a key with bytes in it, the request has a
    -- MESSAGE-INTEGRITY that is the hash of the message for that key.
    pub accepted-request :
        (o : Outcome)
        → has_flag agent ignore_credentials ≡ false
        → has_flag agent short_term_credentials || has_flag agent long_term_credentials ≡ true
        → is_class m request ≡ true
        → stun_agent_validate crypto agent msg buffer buffer_len validater ≡ some o
        → is_accepted o.2 ≡ true
        → (key : Option (List ℕ)) × (ask validater agent m ≡ some key)
          × IsVerified crypto agent m none key
    accepted-request o heeds wants req e accepted =
        let (counts, no_answer) = request-counts agent m heeds req in
        let (whole, passes, same) = matched o e accepted in
        let (lets, finds) =
          request-finds crypto validater agent m counts no_answer (rw same at accepted) in
        let asks : asks_validater agent m no_transaction ≡ true =
          rw (request-integrity agent m wants req lets, counts) refl in
        asked_lem crypto agent validater m no_transaction counts asks finds

    -- Where credentials count and the validater is not forced, an accepted response or error response
    -- answers a saved id that waits with its method and transaction id, and if that has a key with bytes
    -- in it, the message has a MESSAGE-INTEGRITY that is the hash of the message for that key.
    pub accepted-answer :
        (o : Outcome)
        → ignores_credentials agent m ≡ false
        → has_flag agent force_validater ≡ false
        → is_answer m ≡ true
        → stun_agent_validate crypto agent msg buffer buffer_len validater ≡ some o
        → is_accepted o.2 ≡ true
        → (i : ℕ) × (s : SavedId) × Waits agent.sent_ids
            (stun_message_get_method m)
            (stun_message_id m)
            i
            s
          × IsVerified crypto agent m (transaction_of (i, s)).long_term s.key
    accepted-answer o counts free answer e accepted =
        let (whole, passes, same) = matched o e accepted in
        answer-Waits crypto validater agent m counts free answer (rw same at accepted)
