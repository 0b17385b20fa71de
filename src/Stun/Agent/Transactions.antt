-- ===== src/Stun/Agent/Transactions.antt =====
-- Responses, the transactions that they end, and the authentication of messages.
use libxice.Base.{ℕ, zero, suc, ◌+◌, ◌≡◌, ◌⊎◌, inl, inr, refl, arith}
use libxice.Base.{Bool, true, false, ◌&&◌, ◌||◌, ◌==◌, Bool-cases}
use mathlib.Core.Path.{subst}
use libxice.Base.{Option, none, some, List, [], ◌∷◌, Option-cases}
use libxice.Stun.Constants.{response, error}
use libxice.Stun.Types.{SavedId, StunAgent, StunMessage}
use libxice.Stun.Message.{stun_message_id, stun_message_get_method}
use libxice.Stun.Hmac.{Crypto}
use libxice.Stun.Agent.{bytes_eq}
use libxice.Stun.Agent.Receive.{Validater, is_class, match_id}
use libxice.Stun.Agent.Validate.{Outcome, no_transaction, transaction_of, invalidate}
use libxice.Stun.Agent.Validate.{match_response, check_message}
use libxice.Stun.Agent.Accepted.{is_accepted, credentials-Settles, bytes_eq→eq}

abbrev pub get_elem? : List SavedId → ℕ → Option SavedId
get_elem? [] i = none
get_elem? (s ∷ ids) zero = some s
get_elem? (s ∷ ids) (suc i) = get_elem? ids i

-- The saved id at `i` waits for a response with the method and the id.
abbrev pub Waits : List SavedId → ℕ → List ℕ → ℕ → SavedId → Type 0
Waits ids method id i s =
    (get_elem? ids i ≡ some s) × (s.valid ≡ true) × (s.method ≡ method) × (id ≡ s.id)

answers-Waits :
    (ids : List SavedId) (t : SavedId) (method : ℕ) (id : List ℕ)
    → (t.valid && (t.method == method)) && bytes_eq id t.id ≡ true
    → Waits (t ∷ ids) method id 0 t
answers-Waits ids t method id h =
    (refl, ground arith, ground arith, bytes_eq→eq id t.id (ground arith))

pub match_id-Waits :
    (ids : List SavedId) (method : ℕ) (id : List ℕ) (k i : ℕ) (s : SavedId)
    → match_id ids method id k ≡ some (i, s)
    → (d : ℕ) × (i ≡ k + d) × Waits ids method id d s
unfolding match_id
match_id-Waits [] method id k i s e = absurd (cc)
match_id-Waits (t ∷ ids) method id k i s e =
    elim (Bool-cases ((t.valid && (t.method == method)) && bytes_eq id t.id)) [
      | inl hit ↦
          let e' : ◌≡◌ {A = Option (ℕ × SavedId)} (some (k, t)) (some (i, s)) = rw hit at e in
          (
            0,
            ground arith,
            subst (Waits (t ∷ ids) method id 0) (cc) (answers-Waits ids t method id hit),
          )
      | inr other ↦
          let (d, at_d, waits) = match_id-Waits ids method id (k + 1) i s (rw other at e) in
          (suc d, omega arith, waits)
    ]

-- The message is a response or an error response.
abbrev pub is_answer : StunMessage → Bool
is_answer msg = is_class msg response || is_class msg error

-- What a run of `stun_agent_validate` does to the saved ids: a message that is not accepted and one
-- that is no answer leave the agent as it was; an accepted answer has the method and the id of a saved
-- id that waited, and frees it.
abbrev pub IsSettled : StunAgent → StunMessage → Outcome → Type 0
IsSettled agent msg o =
    ((is_accepted o.2 ≡ false) × (o.0 ≡ agent))
    ⊎ (((is_accepted o.2 ≡ true) × (is_answer msg ≡ false) × (o.0 ≡ agent))
        ⊎ ((is_accepted o.2 ≡ true)
            × (is_answer msg ≡ true)
            × ((i : ℕ) × (s : SavedId) × Waits agent.sent_ids (stun_message_get_method msg)
                  (stun_message_id msg) i s
                × (o.0 ≡ record agent { sent_ids = invalidate agent.sent_ids i }))))

module _ (crypto : Crypto) (validater : Option Validater) (agent : StunAgent)
    (msg : StunMessage) where
  match_response-IsSettled : IsSettled agent msg (match_response crypto validater agent msg)
  unfolding match_response
  match_response-IsSettled = elim (Bool-cases (is_answer msg)) [
    | inr other ↦ rw other (elim (credentials-Settles agent crypto validater msg no_transaction) [
      | inl (accepted, same) ↦ inr (inl (accepted, refl, same))
      | inr rejected ↦ inl rejected
    ])
    | inl answer ↦
        elim (Option-cases
          (match_id agent.sent_ids (stun_message_get_method msg) (stun_message_id msg) 0)) [
            | inl unmatched ↦ rw (answer, unmatched) (inl (refl, refl))
            | inr ((i, s), e) ↦
                let (d, at_d, waits) =
                  match_id-Waits agent.sent_ids (stun_message_get_method msg) (stun_message_id msg)
                    0 i s e in
                rw (answer, e)
                  (elim (credentials-Settles agent crypto validater msg (transaction_of (i, s))) [
                    | inl (accepted, freed) ↦ inr (
                        inr (
                          accepted,
                          refl,
                          (
                            i,
                            s,
                            subst
                                (λ j.
                                  Waits agent.sent_ids (stun_message_get_method msg)
                                    (stun_message_id msg) j s)
                                (omega arith) waits,
                            freed,
                          ),
                        ))
                    | inr rejected ↦ inl rejected
                  ])
          ]
  ]

  pub check_message-IsSettled : IsSettled agent msg (check_message crypto validater agent msg)
  unfolding check_message
  check_message-IsSettled = ground (arith, match_response-IsSettled)
