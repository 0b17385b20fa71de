-- ===== src/Stun/Agent/Accepted.antt =====
-- What holds of a message that `stun_agent_validate` lets through.
use libxice.Base.{ℕ, ◌≡◌, ◌⊎◌, inl, inr, refl, arith}
use libxice.Base.{Bool, true, false, not, ◌&&◌, Bool-cases}
use libxice.Base.{Option, none, some, List, [], ◌∷◌, Option-cases}
use libxice.Stun.Constants.{StunValidationStatus, valid}
use libxice.Stun.Constants.{unknown_request_attribute, unknown_attribute}
use libxice.Stun.Constants.Attribute
use libxice.Stun.Types.{StunAgent, StunMessage}
use libxice.Stun.Message.{stun_message_find}
use libxice.Stun.Hmac.{Crypto}
use libxice.Stun.Agent.{bytes_eq}
use libxice.Stun.Agent.Receive.{Validater}
use libxice.Stun.Agent.Receive.{ignores_credentials, lacks_credentials, is_none}
use libxice.Stun.Agent.Receive.{long_term_hash}
use libxice.Stun.Agent.Validate.{Outcome, Transaction, freed}
use libxice.Stun.Agent.Validate.{finish_validation, check_hash, check_long_term}
use libxice.Stun.Agent.Validate.{check_integrity, with_key, find_key, check_credentials, ask}
use libxice.Stun.Agent.Validate.{asks_validater}

-- The statuses that are given at the end of the function only.
abbrev pub is_accepted : StunValidationStatus → Bool
is_accepted valid = true
is_accepted unknown_request_attribute = true
is_accepted unknown_attribute = true
is_accepted _ = false

-- An accepted message ends the transaction with the index, and no other; any other message changes
-- nothing of the agent.
abbrev pub Settles : StunAgent → Option ℕ → Outcome → Type 0
Settles agent index o =
    ((is_accepted o.2 ≡ true) × (o.0 ≡ record agent { sent_ids = freed agent.sent_ids index }))
    ⊎ ((is_accepted o.2 ≡ false) × (o.0 ≡ agent))

module _ (agent : StunAgent) where
  finish-Settles :
      (msg : StunMessage) (index : Option ℕ)
      → Settles agent index (finish_validation agent msg index)
  unfolding finish_validation
  finish-Settles msg index = ground arith

  module _ (crypto : Crypto) where
    hash-Settles :
        (msg : StunMessage) (index : Option ℕ) (key : List ℕ) (hash : ℕ) (hash_key : List ℕ)
        → Settles agent index (check_hash crypto agent msg index key hash hash_key)
    unfolding check_hash
    hash-Settles msg index key hash hash_key =
        ground (arith, finish-Settles (record msg { key = some key }) index)

    long_term-Settles :
        (msg : StunMessage) (index : Option ℕ) (key : List ℕ) (hash : ℕ) (h : Option (List ℕ))
        → Settles agent index (check_long_term crypto agent msg index key hash h)
    unfolding check_long_term
    long_term-Settles msg index key hash none = inr (refl, refl)
    long_term-Settles msg index key hash (some md5) =
        hash-Settles (record msg { long_term_key = md5; long_term_valid = true }) index key hash md5

    integrity-Settles :
        (msg : StunMessage) (t : Transaction) (key : List ℕ) (found : Option (ℕ × ℕ))
        → Settles agent t.index (check_integrity crypto agent msg t key found)
    unfolding check_integrity
    integrity-Settles msg t key (some (hlen, hash)) = ground (
      arith,
      hash-Settles msg t.index key hash key,
      long_term-Settles msg t.index key hash (long_term_hash crypto msg key t.long_term),
    )
    integrity-Settles msg t key none = ground (arith, finish-Settles msg t.index)

    with_key-Settles :
        (msg : StunMessage) (t : Transaction) (key : Option (List ℕ))
        → Settles agent t.index (with_key crypto agent msg t key)
    unfolding with_key
    with_key-Settles msg t none = finish-Settles msg t.index
    with_key-Settles msg t (some []) = finish-Settles msg t.index
    with_key-Settles msg t (some (k ∷ ks)) = ground (
      arith,
      finish-Settles msg t.index,
      integrity-Settles msg t (k ∷ ks) (stun_message_find msg Attribute.message_integrity),
    )

    pub credentials-Settles :
        (validater : Option Validater) (msg : StunMessage) (t : Transaction)
        → Settles agent t.index (check_credentials crypto validater agent msg t)
    unfolding check_credentials find_key
    credentials-Settles validater msg t =
        elim (Bool-cases
          (is_none t.key && not (ignores_credentials agent msg) && lacks_credentials agent msg)) [
            | inl missing ↦ rw missing (inr (refl, refl))
            | inr given ↦ elim (Bool-cases (asks_validater agent msg t)) [
              | inr own ↦ rw (given, own) (with_key-Settles msg t t.key)
              | inl asked ↦ elim (Option-cases (ask validater agent msg)) [
                | inl refused ↦ rw (given, asked, refused) (inr (refl, refl))
                | inr (key, e) ↦ rw (given, asked, e) (with_key-Settles msg t key)
              ]
            ]
          ]

pub bytes_eq→eq : (xs ys : List ℕ) → bytes_eq xs ys ≡ true → xs ≡ ys
bytes_eq→eq [] [] h = refl
bytes_eq→eq [] (y ∷ ys) h = cc
bytes_eq→eq (x ∷ xs) [] h = cc
bytes_eq→eq (x ∷ xs) (y ∷ ys) h = ground (arith, bytes_eq→eq xs ys)
