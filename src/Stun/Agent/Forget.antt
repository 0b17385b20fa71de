-- ===== src/Stun/Agent/Forget.antt =====
-- stun/stunagent.c: `stun_agent_forget_transaction`.
use libxice.Base.{ℕ, suc, ◌≡◌, ◌⊎◌, inl, inr, refl, ap, Bool, true, false, ◌&&◌, Bool-cases}
use libxice.Base.{some, List, [], ◌∷◌, All, take, arith}
use libxice.Stun.Types.{SavedId, StunAgent}
use libxice.Stun.Agent.{bytes_eq, forget_id, stun_agent_forget_transaction}
use libxice.Stun.Agent.Validate.{invalidate}
use libxice.Stun.Agent.Accepted.{bytes_eq→eq}
use libxice.Stun.Agent.Transactions.{get_elem?}

-- The saved id is free, or has another transaction id.
abbrev pub IsOther : List ℕ → SavedId → Type 0
IsOther id s = s.valid && bytes_eq id s.id ≡ false

-- The first transaction with the id is at `i`, and is freed in `ids'`.
abbrev pub IsForgotten : List SavedId → List ℕ → List SavedId → Type 0
IsForgotten ids id ids' =
    (i : ℕ) × (s : SavedId) × (get_elem? ids i ≡ some s)
    × (s.valid ≡ true)
    × (id ≡ s.id)
    × All (IsOther id) (take i ids)
    × (ids' ≡ invalidate ids i)

abbrev pub Forgets : List SavedId → List ℕ → List SavedId × Bool → Type 0
Forgets ids id (ids', found) =
    ((found ≡ true) × IsForgotten ids id ids')
    ⊎ ((found ≡ false) × (ids' ≡ ids) × All (IsOther id) ids)

forget_id_lem : (ids : List SavedId) (id : List ℕ) → Forgets ids id (forget_id ids id)
unfolding forget_id
forget_id_lem [] id = inr (refl, refl, tt)
forget_id_lem (s ∷ ids) id = elim (Bool-cases (s.valid && bytes_eq id s.id)) [
  | inl hit ↦
      rw hit (inl (refl, (0, s, refl, ground arith, bytes_eq→eq id s.id (ground arith), tt, refl)))
  | inr miss ↦ rw miss (elim (forget_id_lem ids id) [
    | inl (found, (i, t, at_i, valid, same, before, freed)) ↦
        inl (found, (suc i, t, at_i, valid, same, (miss, before), ap (λ ids'. s ∷ ids') freed))
    | inr (found, kept, others) ↦ inr (found, ap (λ ids'. s ∷ ids') kept, (refl, others))
  ])
]

-- The function frees the first saved id that waits with the transaction id and reports TRUE, and the
-- rest of the agent stays as it was; if there is none it changes nothing and reports FALSE.
pub stun_agent_forget_transaction_lem :
    (agent : StunAgent) (id : List ℕ)
    → let (agent', found) = stun_agent_forget_transaction agent id in
      (agent' ≡ record agent { sent_ids = agent'.sent_ids })
      × Forgets agent.sent_ids id (agent'.sent_ids, found)
unfolding stun_agent_forget_transaction
stun_agent_forget_transaction_lem agent id = (refl, forget_id_lem agent.sent_ids id)
