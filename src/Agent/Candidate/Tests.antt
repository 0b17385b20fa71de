-- ===== src/Agent/Candidate/Tests.antt =====
-- Candidates on which the functions of agent/candidate.c are run.
use Prim.Native.Nat.{min, max}
use libxice.Base.{◌+◌, ◌*◌, ◌/◌, ◌^◌, ◌<◌, ◌≡◌, refl, arith}
use libxice.Base.{ltb, if◌then◌else◌}
use libxice.Agent.Candidate.{XiceCandidate, host, relayed, xice_candidate_new}
use libxice.Agent.Candidate.{xice_candidate_jingle_priority, xice_candidate_msn_priority}
use libxice.Agent.Candidate.{xice_candidate_pair_priority}
use libxice.Agent.Candidate.Priority.{pair_priority_lem}

abbrev candidate : XiceCandidate
candidate = record (xice_candidate_new host) { component_id = 1 }

abbrev relay : XiceCandidate
relay = record (xice_candidate_new relayed) { component_id = 1 }

old_priority_test :
    (xice_candidate_jingle_priority candidate ≡ 1000) × (xice_candidate_msn_priority relay ≡ 450)
unfolding xice_candidate_jingle_priority xice_candidate_msn_priority xice_candidate_new
old_priority_test = (refl, refl)

pair_priority_lem_example :
    let p = xice_candidate_pair_priority 2013266431 1006633471 in
    let q = xice_candidate_pair_priority 1006633471 2013266431 in
    (p / 2 ≡ q / 2)
    × (p
        ≡ 2 ^ 32 * min 2013266431 1006633471
          + 2 * max 2013266431 1006633471
          + (if ltb 1006633471 2013266431 then 1 else 0))
    × (p < 2 ^ 63)
pair_priority_lem_example = pair_priority_lem 2013266431 1006633471 (omega arith) (omega arith)
