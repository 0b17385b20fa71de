-- ===== src/Agent/CheckList/Tests.antt =====
-- agent/conncheck.c: runs at fixed inputs.
use libxice.Base.{ℕ, ◌-◌, ◌≤◌, ◌<◌, ◌≡◌, refl, Bool, true, false, arith, ◌⊎◌}
use libxice.Base.{some, List, [], ◌∷◌, All, length}
use libxice.Agent.Candidate.{XiceCandidate, xice_candidate_new, host}
use libxice.Agent.CheckList.{CandidateCheckPair, Component, Stream, XiceAgent, XiceCheckState}
use libxice.Agent.CheckList.{waiting, in_progress, succeeded, frozen, connecting, ready}
use libxice.Agent.CheckList.{priv_conn_check_unfreeze_next, second_step}
use libxice.Agent.CheckList.{priv_conn_check_find_next_waiting, agent_find_stream}
use libxice.Agent.CheckList.{stream_find_component_by_id}
use libxice.Agent.CheckList.Update.{highest_nominated, priv_prune_pending_checks, count_nominated}
use libxice.Agent.CheckList.Update.{state_for_ready, priv_update_check_list_state_for_ready}
use libxice.Agent.CheckList.Update.{agent_signal_component_state_change}
use libxice.Agent.CheckList.Roles.{priv_limit_conn_check_list_size, priv_check_for_role_conflict}
use libxice.Agent.CheckList.Roles.{agent_candidate_pair_priority}
use libxice.Agent.CheckList.Frozen.{Unfreezes, HasNone, priv_conn_check_unfreeze_next_lem}
use libxice.Agent.CheckList.Ready.{IsPending}
use libxice.Agent.CheckList.Ready.Signal.{
  HasWinner, MayBecomeReady, Signalled, Silent, priv_update_check_list_state_for_ready_lem,
}
use libxice.Agent.CheckList.Roles.Current.{AllCurrent, priv_check_for_role_conflict_lem}
use libxice.Agent.CheckList.Roles.Flaws.{priv_limit_conn_check_list_size_lem, second_step_lem}

abbrev candidate : ℕ → XiceCandidate
candidate priority = record (xice_candidate_new host) { priority = priority; foundation = 49 ∷ [] }

abbrev pair_of : XiceCheckState → Bool → ℕ → CandidateCheckPair
pair_of state nominated priority = record {
  stream_id = 1;
  component_id = 1;
  local = candidate 5;
  remote = candidate 4;
  foundation = 49 ∷ 58 ∷ 49 ∷ [];
  state = state;
  nominated = nominated;
  controlling = true;
  priority = priority;
  has_message = false;
}

-- A nominated pair, and checks that are not better.
abbrev checks : List CandidateCheckPair
checks =
    pair_of succeeded true 9
    ∷ pair_of in_progress false 7
    ∷ pair_of frozen false 5
    ∷ pair_of waiting false 3
    ∷ []

abbrev the_component : Component
the_component = record {
  id = 1;
  state = connecting;
  remote_candidates = candidate 4 ∷ [];
  has_tcp = false;
}

abbrev stream_with : List CandidateCheckPair → Stream
stream_with ps = record {
  id = 1;
  n_components = 1;
  components = the_component ∷ [];
  conncheck_list = ps;
}

abbrev agent_with : List CandidateCheckPair → XiceAgent
agent_with ps = record {
  streams = stream_with ps ∷ [];
  controlling_mode = true;
  reliable = false;
  signals = [];
}

ready_test :
    (priv_update_check_list_state_for_ready (agent_with checks) 1 1).signals
    ≡ record { stream_id = 1; component_id = 1; state = ready } ∷ []
unfolding priv_update_check_list_state_for_ready state_for_ready priv_prune_pending_checks
    count_nominated highest_nominated agent_signal_component_state_change agent_find_stream
    stream_find_component_by_id
ready_test = refl

next_test : priv_conn_check_find_next_waiting checks ≡ some 3
unfolding priv_conn_check_find_next_waiting
next_test = refl

priv_update_check_list_state_for_ready_lem_example :
    let stream = stream_with checks in
    let agent' = priv_update_check_list_state_for_ready (agent_with checks) 1 1 in
    ((HasWinner 1 stream
        × MayBecomeReady (agent_with checks) the_component
        × Signalled (agent_with checks) agent' 1 1 the_component)
      ⊎ ((¬ (HasWinner 1 stream × MayBecomeReady (agent_with checks) the_component))
          × Silent (agent_with checks) agent' 1 1 the_component))
    × (HasWinner 1 stream
        → (t : Stream) × (agent_find_stream agent'.streams 1 ≡ some t)
          × All (λ p. ¬ IsPending 1 p) t.conncheck_list)
unfolding agent_find_stream stream_find_component_by_id
priv_update_check_list_state_for_ready_lem_example =
    priv_update_check_list_state_for_ready_lem (agent_with checks) 1 1 (stream_with checks)
      the_component refl refl

priv_conn_check_unfreeze_next_lem_example :
    let r = priv_conn_check_unfreeze_next (agent_with checks) in
    ((r.1 ≡ false) × (r.0 ≡ agent_with checks) × All HasNone (agent_with checks).streams)
    ⊎ ((r.1 ≡ true)
        × (r.0 ≡ record (agent_with checks) { streams = r.0.streams })
        × Unfreezes (agent_with checks).streams r.0.streams)
priv_conn_check_unfreeze_next_lem_example = priv_conn_check_unfreeze_next_lem (agent_with checks)

abbrev prioritised : CandidateCheckPair
prioritised = pair_of waiting false (agent_candidate_pair_priority true (candidate 5) (candidate 4))

priv_check_for_role_conflict_lem_example :
    let agent' = priv_check_for_role_conflict (agent_with (prioritised ∷ [])) false in
    (agent'.controlling_mode ≡ false) × AllCurrent false agent'.streams
priv_check_for_role_conflict_lem_example =
    priv_check_for_role_conflict_lem (agent_with (prioritised ∷ [])) false ((refl, tt), tt)

priv_limit_conn_check_list_size_lem_example :
    (length checks ≤ 3 → priv_limit_conn_check_list_size checks 3 ≡ checks)
    × (3 < length checks → length (priv_limit_conn_check_list_size checks 3) ≡ length checks - 3)
priv_limit_conn_check_list_size_lem_example =
    priv_limit_conn_check_list_size_lem checks 3 (omega arith)

second_step_lem_example :
    second_step (pair_of succeeded true 9) (record (stream_with checks) { id = 2 } ∷ []) checks 0
    ≡ (checks, 0)
second_step_lem_example =
    second_step_lem (pair_of succeeded true 9) (record (stream_with checks) { id = 2 } ∷ []) checks
      0 (refl, (refl, (refl, (refl, tt))))
