-- ===== src/Stun/Agent/Matching.antt =====
-- What `stun_agent_validate` has tested of a request and of an answer that it lets through.
use libxice.Base.{ℕ, ◌≡◌, inl, inr, refl, arith}
use libxice.Base.{Bool, true, false, ◌&&◌, ◌||◌, Bool-cases}
use libxice.Base.{Option, none, some, List, Option-cases}
use libxice.Stun.Constants.{request, short_term_credentials, long_term_credentials, success}
use libxice.Stun.Constants.{ignore_credentials, force_validater}
use libxice.Stun.Constants.Attribute
use libxice.Stun.Types.{SavedId, StunAgent, StunMessage, has_flag}
use libxice.Stun.Message.{stun_message_id, stun_message_get_method}
use libxice.Stun.Message.{stun_message_length, stun_message_has_attribute}
use libxice.Stun.Message.Typed.{Found}
use libxice.Stun.Hmac.{Crypto}
use libxice.Stun.Crc.{stun_fingerprint}
use libxice.Stun.Agent.{follows_rfc5389, is_wlm2009}
use libxice.Stun.Agent.Receive.{Validater, is_class, match_id}
use libxice.Stun.Agent.Receive.{ignores_credentials, lacks_credentials, fingerprint_matches}
use libxice.Stun.Agent.Validate.{Outcome, Transaction, no_transaction, transaction_of, ask}
use libxice.Stun.Agent.Validate.{asks_validater, find_key, check_credentials, match_response}
use libxice.Stun.Agent.Validate.{check_message, of_length, stun_agent_validate}
use libxice.Stun.Agent.Accepted.{is_accepted}
use libxice.Stun.Agent.Transactions.{Waits, is_answer}
use libxice.Stun.Agent.Transactions.{match_id-Waits}
use libxice.Stun.Agent.Authentic.{IsVerified, with_key_lem}

pub matches_lem :
    (agent : StunAgent) (msg : StunMessage) (found : Found ℕ)
    → fingerprint_matches agent msg found ≡ true
    → found
      ≡ (success, some (stun_fingerprint msg.buffer (stun_message_length msg) (is_wlm2009 agent)))
matches_lem agent msg (success, some fpr) h = ground arith
matches_lem agent msg (r, none) h = ground arith
matches_lem agent msg (r, some fpr) h = ground arith

and_false : (b : Bool) → b && false ≡ false
and_false b = ground arith

pub request-counts :
    (agent : StunAgent) (msg : StunMessage)
    → has_flag agent ignore_credentials ≡ false
    → is_class msg request ≡ true
    → (ignores_credentials agent msg ≡ false) × (is_answer msg ≡ false)
unfolding ignores_credentials
request-counts agent msg heeds req = (ground arith, ground arith)

pub request-integrity :
    (agent : StunAgent) (msg : StunMessage)
    → has_flag agent short_term_credentials || has_flag agent long_term_credentials ≡ true
    → is_class msg request ≡ true
    → lacks_credentials agent msg ≡ false
    → stun_message_has_attribute msg Attribute.message_integrity ≡ true
unfolding lacks_credentials
request-integrity agent msg wants req h = ground arith

module _ (crypto : Crypto) (validater : Option Validater) (agent : StunAgent)
    (msg : StunMessage) where
  pub request-finds :
      ignores_credentials agent msg ≡ false
      → is_answer msg ≡ false
      → is_accepted (match_response crypto validater agent msg).2 ≡ true
      → (lacks_credentials agent msg ≡ false)
        × (is_accepted (find_key crypto validater agent msg no_transaction).2 ≡ true)
  unfolding match_response check_credentials
  request-finds counts no_answer accepted = elim (Bool-cases (lacks_credentials agent msg)) [
    | inl lacks ↦ absurd (let a = rw (no_answer, counts, lacks) at accepted in cc)
    | inr lets ↦ (lets, rw (no_answer, counts, lets) at accepted)
  ]

  saved_key_lem :
      (i : ℕ) (s : SavedId) (key : Option (List ℕ))
      → s.key ≡ key
      → ignores_credentials agent msg ≡ false
      → has_flag agent force_validater ≡ false
      → is_accepted (check_credentials crypto validater agent msg (transaction_of (i, s))).2 ≡ true
      → IsVerified crypto agent msg (transaction_of (i, s)).long_term key
  unfolding check_credentials find_key libxice.Stun.Agent.Validate.with_key
      libxice.Stun.Agent.Validate.check_integrity
  saved_key_lem i s none e counts free accepted = inl refl
  saved_key_lem i s (some key) e counts free accepted =
      with_key_lem crypto agent msg (transaction_of (i, s)) (some key) counts (
        rw (e, free, and_false (stun_message_has_attribute msg Attribute.message_integrity)) at
          accepted)

  pub answer-Waits :
      ignores_credentials agent msg ≡ false
      → has_flag agent force_validater ≡ false
      → is_answer msg ≡ true
      → is_accepted (match_response crypto validater agent msg).2 ≡ true
      → (i : ℕ) × (s : SavedId) × Waits agent.sent_ids
          (stun_message_get_method msg)
          (stun_message_id msg)
          i
          s
        × IsVerified crypto agent msg (transaction_of (i, s)).long_term s.key
  unfolding match_response
  answer-Waits counts free answer accepted =
      elim (Option-cases
        (match_id agent.sent_ids (stun_message_get_method msg) (stun_message_id msg) 0)) [
          | inl unmatched ↦ absurd (let a = rw (answer, unmatched) at accepted in cc)
          | inr ((i, s), e) ↦
              let (d, at_d, waits) =
                match_id-Waits agent.sent_ids (stun_message_get_method msg) (stun_message_id msg) 0
                  i s e in
              (d, s, waits, saved_key_lem i s s.key refl counts free (rw (answer, e) at accepted))
        ]
