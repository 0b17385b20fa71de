-- ===== src/Agent/CheckList/Roles.antt =====
-- agent/conncheck.c: new pairs, the limit of the list, and the priorities after a role conflict.
pub mod Current
pub mod Flaws
use libxice.Base.{ℕ, zero, suc, ◌+◌, ◌-◌, Bool, true, false, not, ◌&&◌, ◌||◌, Option, none, some}
use libxice.Base.{List, [], ◌∷◌, ◌++◌, length, take, ltb, leb, ◌==◌, if◌then◌else◌}
use libxice.Agent.Candidate.{XiceCandidate, xice_candidate_pair_priority}
use libxice.Agent.CheckList.{CandidateCheckPair, Component, Stream, XiceAgent, StateChanged}
use libxice.Agent.CheckList.{XiceCheckState, frozen, waiting, in_progress, cancelled, discovered}
use libxice.Agent.CheckList.{XiceComponentState, ready, failed, disconnected, gathering, connecting}
use libxice.Agent.CheckList.{connected, last, is_waiting, is_frozen, is_in_progress, is_failed}
use libxice.Agent.CheckList.{is_valid, set_list, agent_find_stream, stream_find_component_by_id}
use libxice.Agent.CheckList.Update.{list_of}

-- The list after the upper limit is enforced. `i` is the last pair that is kept, and what follows it goes.
unfoldable pub priv_limit_conn_check_list_size :
    List CandidateCheckPair → ℕ → List CandidateCheckPair
priv_limit_conn_check_list_size ps upper_limit =
    if ltb upper_limit (length ps)
    then (let c = length ps - upper_limit in if c == length ps then [] else take c ps)
    else ps

unfoldable pub agent_candidate_pair_priority : Bool → XiceCandidate → XiceCandidate → ℕ
agent_candidate_pair_priority controlling_mode local remote =
    if controlling_mode
    then xice_candidate_pair_priority local.priority remote.priority
    else xice_candidate_pair_priority remote.priority local.priority

abbrev pub recalculate : Bool → List CandidateCheckPair → List CandidateCheckPair
recalculate controlling_mode [] = []
recalculate controlling_mode (p ∷ ps) =
    record p { priority = agent_candidate_pair_priority controlling_mode p.local p.remote }
    ∷ recalculate controlling_mode ps

abbrev pub recalculate_streams : Bool → List Stream → List Stream
recalculate_streams controlling_mode [] = []
recalculate_streams controlling_mode (s ∷ ss) =
    record s { conncheck_list = recalculate controlling_mode s.conncheck_list }
    ∷ recalculate_streams controlling_mode ss

unfoldable pub priv_recalculate_pair_priorities : XiceAgent → XiceAgent
priv_recalculate_pair_priorities agent = record agent {
  streams = recalculate_streams agent.controlling_mode agent.streams;
}

abbrev pub same_role : Bool → Bool → Bool
same_role true b = b
same_role false b = not b

unfoldable pub priv_check_for_role_conflict : XiceAgent → Bool → XiceAgent
priv_check_for_role_conflict agent control =
    if not (same_role control agent.controlling_mode)
    then priv_recalculate_pair_priorities (record agent { controlling_mode = control })
    else agent

-- `g_snprintf (…, "%s:%s", …)` cut off at XICE_CANDIDATE_PAIR_MAX_FOUNDATION with its 0.
abbrev pub pair_foundation : XiceCandidate → XiceCandidate → List ℕ
pair_foundation local remote = take 65 (local.foundation ++ (58 ∷ remote.foundation))

abbrev pub peer_reflexive_pair :
    Bool → ℕ → ℕ → XiceCandidate → CandidateCheckPair → CandidateCheckPair
peer_reflexive_pair controlling_mode stream_id component_id local_cand parent_pair = record {
  stream_id = stream_id;
  component_id = component_id;
  local = local_cand;
  remote = parent_pair.remote;
  foundation = pair_foundation local_cand parent_pair.remote;
  state = discovered;
  nominated = false;
  controlling = controlling_mode;
  priority = agent_candidate_pair_priority controlling_mode local_cand parent_pair.remote;
  has_message = false;
}

-- The agent with the pair in the list of the stream, and the pair.
unfoldable pub priv_add_peer_reflexive_pair :
    XiceAgent → ℕ → ℕ → XiceCandidate → CandidateCheckPair → XiceAgent × CandidateCheckPair
priv_add_peer_reflexive_pair agent stream_id component_id local_cand parent_pair =
    let pair =
      peer_reflexive_pair agent.controlling_mode stream_id component_id local_cand parent_pair in
    let ps = list_of (agent_find_stream agent.streams stream_id) ++ (pair ∷ []) in
    (record agent { streams = set_list stream_id ps agent.streams }, pair)
