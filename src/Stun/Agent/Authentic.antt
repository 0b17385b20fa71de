-- ===== src/Stun/Agent/Authentic.antt =====
-- stun/stunagent.c: the keys for which `stun_agent_validate` compares MESSAGE-INTEGRITY.
use libxice.Base.{ℕ, ◌≡◌, ◌⊎◌, inl, inr, refl, arith}
use libxice.Base.{true, false, ◌&&◌, if◌then◌else◌, Bool-cases}
use libxice.Base.{Option, none, some, List, [], ◌∷◌, Option-cases}
use libxice.Base.Memory.{load_bytes}
use libxice.Stun.Constants.{error, long_term_credentials}
use libxice.Stun.Constants.Attribute
use libxice.Stun.Types.{StunAgent, StunMessage, has_flag}
use libxice.Stun.Message.{stun_message_find}
use libxice.Stun.Message.Typed.{stun_message_find_error}
use libxice.Stun.Hmac.{Crypto}
use libxice.Stun.Agent.Receive.{Validater, is_class, ignores_credentials}
use libxice.Stun.Agent.Receive.{is_credential_error}
use libxice.Stun.Agent.Receive.{long_term_hash, integrity_hash}
use libxice.Stun.Agent.Validate.{Transaction, check_hash, check_long_term}
use libxice.Stun.Agent.Validate.{check_integrity, with_key, find_key, ask}
use libxice.Stun.Agent.Validate.{asks_validater}
use libxice.Stun.Agent.Accepted.{is_accepted, bytes_eq→eq}

-- The key of the hash for the key of a transaction or a validater.
abbrev pub hash_key_of :
    Crypto → StunAgent → StunMessage → List ℕ → Option (List ℕ) → Option (List ℕ)
hash_key_of crypto agent msg key saved =
    if has_flag agent long_term_credentials then long_term_hash crypto msg key saved else some key

-- MESSAGE-INTEGRITY is in the message, and its value is the hash of the message for the key.
abbrev pub IsSigned : Crypto → StunAgent → StunMessage → List ℕ → Type 0
IsSigned crypto agent msg hash_key =
    (hlen : ℕ) × (hash : ℕ) × (stun_message_find msg Attribute.message_integrity
      ≡ some (hlen, hash))
    × (integrity_hash crypto agent msg hash hash_key ≡ load_bytes msg.buffer hash 20)

-- There is no key, or it is empty, or the message is signed with it.
abbrev pub IsVerified :
    Crypto → StunAgent → StunMessage → Option (List ℕ) → Option (List ℕ) → Type 0
IsVerified crypto agent msg saved key =
    (key ≡ none)
    ⊎ ((key ≡ some [])
        ⊎ ((k : ℕ) × (ks : List ℕ) × (hash_key : List ℕ) × (key ≡ some (k ∷ ks))
            × (hash_key_of crypto agent msg (k ∷ ks) saved ≡ some hash_key)
            × IsSigned crypto agent msg hash_key))

module _ (crypto : Crypto) (agent : StunAgent) where
  hash_lem :
      (msg : StunMessage) (index : Option ℕ) (key : List ℕ) (hash : ℕ) (hash_key : List ℕ)
      → is_accepted (check_hash crypto agent msg index key hash hash_key).2 ≡ true
      → integrity_hash crypto agent msg hash hash_key ≡ load_bytes msg.buffer hash 20
  unfolding check_hash
  hash_lem msg index key hash hash_key accepted =
      bytes_eq→eq (integrity_hash crypto agent msg hash hash_key) (load_bytes msg.buffer hash 20)
        (ground arith)

  long_term_lem :
      (msg : StunMessage) (index : Option ℕ) (key : List ℕ) (hash : ℕ) (h : Option (List ℕ))
      → is_accepted (check_long_term crypto agent msg index key hash h).2 ≡ true
      → (hash_key : List ℕ) × (h ≡ some hash_key)
        × (integrity_hash crypto agent msg hash hash_key ≡ load_bytes msg.buffer hash 20)
  unfolding check_long_term integrity_hash libxice.Stun.Message.stun_message_length
  long_term_lem msg index key hash none accepted = absurd (cc)
  long_term_lem msg index key hash (some md5) accepted = (
    md5,
    refl,
    hash_lem (record msg { long_term_key = md5; long_term_valid = true }) index key hash md5
        accepted,
  )

  counts-no_error :
      (msg : StunMessage)
      → ignores_credentials agent msg ≡ false
      → is_class msg error && is_credential_error (stun_message_find_error msg) ≡ false
  unfolding ignores_credentials
  counts-no_error msg counts = ground arith

  integrity_lem :
      (msg : StunMessage) (t : Transaction) (k : ℕ) (ks : List ℕ)
      → ignores_credentials agent msg ≡ false
      → is_accepted (with_key crypto agent msg t (some (k ∷ ks))).2 ≡ true
      → (hash_key : List ℕ) × (hash_key_of crypto agent msg (k ∷ ks) t.long_term ≡ some hash_key)
        × IsSigned crypto agent msg hash_key
  unfolding with_key check_integrity
  integrity_lem msg t k ks counts accepted =
      elim (Option-cases (stun_message_find msg Attribute.message_integrity)) [
        | inl missing ↦
            absurd (let a = rw (counts, missing, counts-no_error msg counts) at accepted in cc)
        | inr ((hlen, hash), found) ↦ elim (Bool-cases (has_flag agent long_term_credentials)) [
          | inl long ↦
              let (md5, e, same) =
                long_term_lem msg t.index (k ∷ ks) hash
                  (long_term_hash crypto msg (k ∷ ks) t.long_term)
                  (rw (counts, found, long) at accepted) in
              (md5, rw long e, (hlen, hash, found, same))
          | inr short ↦ (
            k ∷ ks,
            rw short refl,
            (
              hlen,
              hash,
              found,
              hash_lem msg t.index (k ∷ ks) hash (k ∷ ks) (rw (counts, found, short) at accepted),
            ),
          )
        ]
      ]

  pub with_key_lem :
      (msg : StunMessage) (t : Transaction) (key : Option (List ℕ))
      → ignores_credentials agent msg ≡ false
      → is_accepted (with_key crypto agent msg t key).2 ≡ true
      → IsVerified crypto agent msg t.long_term key
  with_key_lem msg t none counts accepted = inl refl
  with_key_lem msg t (some []) counts accepted = inr (inl refl)
  with_key_lem msg t (some (k ∷ ks)) counts accepted =
      let (hash_key, e, signed) = integrity_lem msg t k ks counts accepted in
      inr (inr (k, ks, hash_key, refl, e, signed))

  pub asked_lem :
      (validater : Option Validater) (msg : StunMessage) (t : Transaction)
      → ignores_credentials agent msg ≡ false
      → asks_validater agent msg t ≡ true
      → is_accepted (find_key crypto validater agent msg t).2 ≡ true
      → (key : Option (List ℕ)) × (ask validater agent msg ≡ some key)
        × IsVerified crypto agent msg t.long_term key
  unfolding find_key
  asked_lem validater msg t counts asks accepted = elim (Option-cases (ask validater agent msg)) [
    | inl refused ↦ absurd (let a = rw (asks, refused) at accepted in cc)
    | inr (key, e) ↦ (key, e, with_key_lem msg t key counts (rw (asks, e) at accepted))
  ]
