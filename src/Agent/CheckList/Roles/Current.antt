-- ===== src/Agent/CheckList/Roles/Current.antt =====
-- agent/conncheck.c: the priorities of the pairs are those of the agent's role.
use libxice.Base.{◌≡◌, refl, sym, Bool, true, false, Bool-cases, inl, inr}
use libxice.Base.{List, [], ◌∷◌, All}
use libxice.Agent.CheckList.{CandidateCheckPair, Stream, XiceAgent}
use libxice.Agent.CheckList.Roles.{agent_candidate_pair_priority, recalculate, recalculate_streams}
use libxice.Agent.CheckList.Roles.{priv_recalculate_pair_priorities, priv_check_for_role_conflict}
use libxice.Agent.CheckList.Roles.{same_role}

-- A pair has the priority that an agent of the role gives it.
abbrev pub IsCurrent : Bool → CandidateCheckPair → Type 0
IsCurrent mode p = p.priority ≡ agent_candidate_pair_priority mode p.local p.remote

abbrev pub AllCurrent : Bool → List Stream → Type 0
AllCurrent mode ss = All (λ s. All (IsCurrent mode) s.conncheck_list) ss

recalculate-IsCurrent :
    (mode : Bool) (ps : List CandidateCheckPair) → All (IsCurrent mode) (recalculate mode ps)
recalculate-IsCurrent mode [] = tt
recalculate-IsCurrent mode (p ∷ ps) = (refl, recalculate-IsCurrent mode ps)

recalculate_streams-AllCurrent :
    (mode : Bool) (ss : List Stream) → AllCurrent mode (recalculate_streams mode ss)
recalculate_streams-AllCurrent mode [] = tt
recalculate_streams-AllCurrent mode (s ∷ ss) =
    (recalculate-IsCurrent mode s.conncheck_list, recalculate_streams-AllCurrent mode ss)

same_role_lem : (a b : Bool) → same_role a b ≡ true → b ≡ a
same_role_lem true b e = e
same_role_lem false true e = sym e
same_role_lem false false e = refl

-- After `priv_check_for_role_conflict` the agent has the role that it was given, and if the pairs of all
-- streams had the priorities of the old role, they have those of the new one.
pub priv_check_for_role_conflict_lem :
    (agent : XiceAgent) (control : Bool)
    → AllCurrent agent.controlling_mode agent.streams
    → let agent' = priv_check_for_role_conflict agent control in
      (agent'.controlling_mode ≡ control) × AllCurrent control agent'.streams
unfolding priv_check_for_role_conflict priv_recalculate_pair_priorities
priv_check_for_role_conflict_lem agent control h =
    elim (Bool-cases (same_role control agent.controlling_mode)) [
      | inl e ↦ rw e (rw (sym (same_role_lem control _ e)) (refl, h))
      | inr e ↦ rw e (refl, recalculate_streams-AllCurrent control agent.streams)
    ]
