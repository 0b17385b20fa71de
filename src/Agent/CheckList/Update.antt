-- ===== src/Agent/CheckList/Update.antt =====
-- agent/conncheck.c: the end of the checks of a component, and the signal of its state (agent/agent.c).
use libxice.Base.{ℕ, zero, suc, ◌+◌, Bool, true, false, not, ◌&&◌, ◌||◌, Option, none, some}
use libxice.Base.{List, [], ◌∷◌, length, ltb, ◌==◌, if◌then◌else◌}
use libxice.Agent.CheckList.{CandidateCheckPair, Component, Stream, XiceAgent}
use libxice.Agent.CheckList.{cancelled}
use libxice.Agent.CheckList.{XiceComponentState, ready, failed, disconnected, gathering, connecting}
use libxice.Agent.CheckList.{connected, last, is_waiting, is_frozen, is_in_progress, is_failed}
use libxice.Agent.CheckList.{is_valid, set_list, agent_find_stream, stream_find_component_by_id}

-- The pair is nominated and on the valid list.
abbrev pub nominates : ℕ → CandidateCheckPair → Bool
nominates component_id p = (p.component_id == component_id) && (is_valid p.state && p.nominated)

-- `highest_nominated_priority`, which is `top` before the loop.
unfoldable pub highest_nominated : ℕ → List CandidateCheckPair → ℕ → ℕ
highest_nominated component_id [] top = top
highest_nominated component_id (p ∷ ps) top =
    highest_nominated component_id ps
      (if nominates component_id p && ltb top p.priority then p.priority else top)

abbrev pub cancel : CandidateCheckPair → CandidateCheckPair
cancel p = record p { state = cancelled }

-- The check is cancelled for a better nominated pair.
abbrev pub is_beaten : ℕ → CandidateCheckPair → Bool
is_beaten top p = not (top == 0) && ltb p.priority top

-- The second loop of `priv_prune_pending_checks`, for one pair.
abbrev pub prune_pair : ℕ → ℕ → CandidateCheckPair → CandidateCheckPair
prune_pair component_id top p =
    if p.component_id == component_id
    then (if is_frozen p.state || is_waiting p.state
        then cancel p
        else if is_in_progress p.state && is_beaten top p
        then record p { state = cancelled; has_message = false }
        else p)
    else p

abbrev pub is_kept : ℕ → ℕ → CandidateCheckPair → Bool
is_kept component_id top p =
    (p.component_id == component_id) && (is_in_progress p.state && not (is_beaten top p))

abbrev pub prune_pairs : ℕ → ℕ → List CandidateCheckPair → List CandidateCheckPair
prune_pairs component_id top [] = []
prune_pairs component_id top (p ∷ ps) =
    prune_pair component_id top p ∷ prune_pairs component_id top ps

abbrev pub count_kept : ℕ → ℕ → List CandidateCheckPair → ℕ
count_kept component_id top [] = 0
count_kept component_id top (p ∷ ps) =
    (if is_kept component_id top p then 1 else 0) + count_kept component_id top ps

-- The list, and the number of the checks that go on.
unfoldable pub priv_prune_pending_checks : List CandidateCheckPair → ℕ → List CandidateCheckPair × ℕ
priv_prune_pending_checks ps component_id =
    let top = highest_nominated component_id ps 0 in
    (prune_pairs component_id top ps, count_kept component_id top ps)

-- `nominated`
unfoldable pub count_nominated : ℕ → List CandidateCheckPair → ℕ
count_nominated component_id [] = 0
count_nominated component_id (p ∷ ps) =
    (if nominates component_id p then 1 else 0) + count_nominated component_id ps

-- The list of `priv_update_check_list_state_for_ready`, and whether the component becomes READY.
unfoldable pub state_for_ready : List CandidateCheckPair → ℕ → List CandidateCheckPair × Bool
state_for_ready ps component_id =
    if ltb 0 (count_nominated component_id ps)
    then (let (ps', kept) = priv_prune_pending_checks ps component_id in (ps', kept == 0))
    else (ps, false)

-- The order of the states as numbers.
abbrev pub state_number : XiceComponentState → ℕ
state_number disconnected = 0
state_number gathering = 1
state_number connecting = 2
state_number connected = 3
state_number ready = 4
state_number failed = 5
state_number last = 6

abbrev pub is_failure : XiceComponentState → Bool
is_failure failed = true
is_failure _ = false

abbrev pub set_state : ℕ → XiceComponentState → List Component → List Component
set_state id state [] = []
set_state id state (c ∷ cs) =
    if c.id == id then record c { state = state } ∷ cs else c ∷ set_state id state cs

abbrev pub set_component : ℕ → ℕ → XiceComponentState → List Stream → List Stream
set_component stream_id id state [] = []
set_component stream_id id state (s ∷ ss) =
    if s.id == stream_id
    then record s { components = set_state id state s.components } ∷ ss
    else s ∷ set_component stream_id id state ss

-- Whether the state of a component that was found is changed.
abbrev pub takes_state : XiceAgent → XiceComponentState → Component → Bool
takes_state agent state c =
    not (agent.reliable && (not c.has_tcp && not (is_failure state)))
    && (not (state_number c.state == state_number state) && ltb (state_number state) 6)

abbrev pub signal_found : XiceAgent → ℕ → ℕ → XiceComponentState → Option Component → XiceAgent
signal_found agent stream_id component_id state none = agent
signal_found agent stream_id component_id state (some c) =
    if takes_state agent state c
    then record agent {
      streams = set_component stream_id component_id state agent.streams;
      signals =
          record { stream_id = stream_id; component_id = component_id; state = state }
          ∷ agent.signals;
    }
    else agent

abbrev pub component_in : Option Stream → ℕ → Option Component
component_in none id = none
component_in (some s) id = stream_find_component_by_id s.components id

-- `agent_find_component`
abbrev pub agent_find_component : XiceAgent → ℕ → ℕ → Option Component
agent_find_component agent stream_id component_id =
    component_in (agent_find_stream agent.streams stream_id) component_id

unfoldable pub agent_signal_component_state_change :
    XiceAgent → ℕ → ℕ → XiceComponentState → XiceAgent
agent_signal_component_state_change agent stream_id component_id state =
    signal_found agent stream_id component_id state
      (agent_find_component agent stream_id component_id)

abbrev pub list_of : Option Stream → List CandidateCheckPair
list_of none = []
list_of (some s) = s.conncheck_list

-- The stream is the one of `agent_find_stream`.
unfoldable pub priv_update_check_list_state_for_ready : XiceAgent → ℕ → ℕ → XiceAgent
priv_update_check_list_state_for_ready agent stream_id component_id =
    let (ps, is_ready) =
      state_for_ready (list_of (agent_find_stream agent.streams stream_id)) component_id in
    let agent' = record agent { streams = set_list stream_id ps agent.streams } in
    if is_ready
    then agent_signal_component_state_change agent' stream_id component_id ready
    else agent'

-- No check of the component is left that has not failed.
unfoldable pub all_failed : ℕ → ℕ → List CandidateCheckPair → Bool
all_failed stream_id component_id [] = true
all_failed stream_id component_id (p ∷ ps) =
    not
      ((p.stream_id == stream_id) && ((p.component_id == component_id) && not (is_failed p.state)))
    && all_failed stream_id component_id ps

abbrev pub has_remotes : Option Component → Bool
has_remotes none = false
has_remotes (some c) = ltb 0 (length c.remote_candidates)

-- One component of the loop of `priv_update_check_list_failed_components`.
abbrev pub fail_component : XiceAgent → ℕ → ℕ → XiceAgent
fail_component agent stream_id component_id =
    if has_remotes (agent_find_component agent stream_id component_id)
      && all_failed stream_id component_id (list_of (agent_find_stream agent.streams stream_id))
    then agent_signal_component_state_change agent stream_id component_id failed
    else agent

-- The components from `next` on, `left` of them.
unfoldable pub fail_components : ℕ → XiceAgent → ℕ → ℕ → XiceAgent
fail_components zero agent stream_id next = agent
fail_components (suc left) agent stream_id next =
    fail_components left (fail_component agent stream_id next) stream_id (next + 1)

unfoldable pub priv_update_check_list_failed_components : XiceAgent → Stream → XiceAgent
priv_update_check_list_failed_components agent stream =
    fail_components stream.n_components agent stream.id 1
