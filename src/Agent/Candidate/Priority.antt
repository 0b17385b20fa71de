-- ===== src/Agent/Candidate/Priority.antt =====
-- The order of candidates and pairs that the priorities make.
use Prim.Native.Nat.{min, max}
use libxice.Base.{
  ℕ, ◌+◌, ◌-◌, ◌*◌, ◌%◌, ◌^◌, ◌≤◌, ◌<◌, ◌≡◌, ◌⊎◌, ◌↔◌, ◌/◌, arith, ltb, if◌then◌else◌,
}
use libxice.Agent.Candidate.{XiceCandidate, type_preference_of}
use libxice.Agent.Candidate.{xice_candidate_ice_priority_full, xice_candidate_ice_priority}
use libxice.Agent.Candidate.{xice_candidate_pair_priority}

-- For arguments in the ranges of the comment the formula does not wrap, its value lies between 1 and
-- 0x7effffff, and its parts are got back from it: two such priorities are equal only for equal
-- arguments.
pub ice_priority_full_lem :
    (t l c : ℕ)
    → t ≤ 126
    → l ≤ 65535
    → 1 ≤ c
    → c ≤ 255
    → let p = xice_candidate_ice_priority_full t l c in
      (1 ≤ p)
      × (p ≤ 0x7effffff)
      × (p / 0x1000000 ≡ t)
      × (p / 0x100 % 0x10000 ≡ l)
      × (p % 0x100 ≡ 0x100 - c)
unfolding xice_candidate_ice_priority_full
ice_priority_full_lem t l c ht hl lo hi = omega arith

-- The type decides before the component, and of one type the lower component comes first.
pub ice_priority_order :
    (a b : XiceCandidate)
    → 1 ≤ a.component_id
    → a.component_id ≤ 256
    → 1 ≤ b.component_id
    → b.component_id ≤ 256
    → (xice_candidate_ice_priority b < xice_candidate_ice_priority a) ↔ (
        (type_preference_of b.type < type_preference_of a.type)
        ⊎ ((type_preference_of b.type ≡ type_preference_of a.type)
            × (a.component_id < b.component_id)))
unfolding xice_candidate_ice_priority
ice_priority_order a b ha ha' hb hb' = (λ h. ground arith, λ h. ground arith)

-- Two agents give a pair the same priority but for the last bit, which says whether the controlling
-- agent's candidate has the higher priority, provided that neither priority reaches 2 ^ 31. The
-- smaller priority decides between pairs, and then the larger.
pub pair_priority_lem :
    (o a : ℕ)
    → o < 2 ^ 31
    → a < 2 ^ 31
    → let p = xice_candidate_pair_priority o a in
      let q = xice_candidate_pair_priority a o in
      (p / 2 ≡ q / 2)
      × (p ≡ 2 ^ 32 * min o a + 2 * max o a + (if ltb a o then 1 else 0))
      × (p < 2 ^ 63)
unfolding xice_candidate_pair_priority
pair_priority_lem o a ho ha = (ground arith, ground arith, ground arith)

-- For larger priorities, which a 32-bit number allows, the doubled maximum loses its highest bit: the
-- pair with the higher maximum gets the lower priority.
pub pair_priority_wraps :
    (o : ℕ)
    → 2 ^ 31 ≤ o
    → o < 2 ^ 32
    → xice_candidate_pair_priority o 1 ≡ 2 ^ 32 + 2 * (o - 2 ^ 31) + 1
unfolding xice_candidate_pair_priority
pair_priority_wraps o lo hi = ground arith
