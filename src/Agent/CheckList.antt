-- ===== src/Agent/CheckList.antt =====
-- agent/conncheck.c: the list of the connectivity checks of a stream, with the states of its pairs, and the
-- functions of agent/agent.c and agent/stream.c that it calls.
pub mod Update
pub mod Frozen
pub mod Ready
pub mod Roles
mod Tests
use libxice.Base.{ℕ, zero, suc, ◌+◌, ◌-◌, Bool, true, false, not, ◌&&◌, ◌||◌, Option, none, some}
use libxice.Base.{List, [], ◌∷◌, map, length, take, ltb, leb, ◌==◌, if◌then◌else◌}
use mathlib.Core.Option
use libxice.Agent.Candidate.{XiceCandidate, xice_candidate_pair_priority}

-- `XiceCheckState`
pub data XiceCheckState : Type 0 where
  waiting in_progress succeeded failed frozen cancelled discovered : XiceCheckState

-- `XiceComponentState`, with `last` for its dummy state.
pub data XiceComponentState : Type 0 where
  disconnected gathering connecting connected ready failed last : XiceComponentState

-- `struct _CandidateCheckPair` without the timer and the buffer. The foundation is its bytes before the
-- terminating 0; `has_message` says whether `stun_message.buffer` is not NULL.
pub record CandidateCheckPair : Type 0 where
  pub stream_id : ℕ
  pub component_id : ℕ
  pub local : XiceCandidate
  pub remote : XiceCandidate
  pub foundation : List ℕ
  pub state : XiceCheckState
  pub nominated : Bool
  pub controlling : Bool
  pub priority : ℕ
  pub has_message : Bool

-- What of `struct _Component` the check list uses; `has_tcp` says whether `tcp` is not NULL.
pub record Component : Type 0 where
  pub id : ℕ
  pub state : XiceComponentState
  pub remote_candidates : List XiceCandidate
  pub has_tcp : Bool

pub record Stream : Type 0 where
  pub id : ℕ
  pub n_components : ℕ
  pub components : List Component
  pub conncheck_list : List CandidateCheckPair

-- An emission of SIGNAL_COMPONENT_STATE_CHANGED.
pub record StateChanged : Type 0 where
  pub stream_id : ℕ
  pub component_id : ℕ
  pub state : XiceComponentState

-- What of `struct _XiceAgent` the check list uses, with the signals that were emitted, the last one first.
pub record XiceAgent : Type 0 where
  pub streams : List Stream
  pub controlling_mode : Bool
  pub reliable : Bool
  pub signals : List StateChanged

abbrev pub is_waiting : XiceCheckState → Bool
is_waiting waiting = true
is_waiting _ = false

abbrev pub is_frozen : XiceCheckState → Bool
is_frozen frozen = true
is_frozen _ = false

abbrev pub is_in_progress : XiceCheckState → Bool
is_in_progress in_progress = true
is_in_progress _ = false

abbrev pub is_failed : XiceCheckState → Bool
is_failed failed = true
is_failed _ = false

-- The pair is on the valid list.
abbrev pub is_valid : XiceCheckState → Bool
is_valid succeeded = true
is_valid discovered = true
is_valid _ = false

-- The position of the first waiting pair.
unfoldable pub priv_conn_check_find_next_waiting : List CandidateCheckPair → Option ℕ
priv_conn_check_find_next_waiting [] = none
priv_conn_check_find_next_waiting (p ∷ ps) =
    if is_waiting p.state then some 0 else Option.map suc (priv_conn_check_find_next_waiting ps)

-- The loop over one list: `i` is the position, `top` is `max_frozen_priority`, and `best` is `pair`.
unfoldable pub find_frozen : List CandidateCheckPair → ℕ → ℕ → Option ℕ → Option ℕ
find_frozen [] i top best = best
find_frozen (p ∷ ps) i top best =
    let better = is_frozen p.state && ltb top p.priority in
    find_frozen ps (suc i) (if better then p.priority else top) (if better then some i else best)

abbrev pub unfreeze_at : ℕ → List CandidateCheckPair → List CandidateCheckPair
unfreeze_at i [] = []
unfreeze_at zero (p ∷ ps) = record p { state = waiting } ∷ ps
unfreeze_at (suc i) (p ∷ ps) = p ∷ unfreeze_at i ps

-- One stream, where `rest` is what the other streams give.
abbrev pub unfreeze_stream :
    Stream → List Stream → Option ℕ → Option (List Stream) → Option (List Stream)
unfreeze_stream s ss (some i) rest =
    some (record s { conncheck_list = unfreeze_at i s.conncheck_list } ∷ ss)
unfreeze_stream s ss none rest = Option.map (λ ts. s ∷ ts) rest

-- The streams with one pair unfrozen, or `none` if there is no such pair.
unfoldable pub unfreeze_streams : List Stream → Option (List Stream)
unfreeze_streams [] = none
unfreeze_streams (s ∷ ss) =
    unfreeze_stream s ss (find_frozen s.conncheck_list 0 0 none) (unfreeze_streams ss)

abbrev pub with_streams : XiceAgent → Option (List Stream) → XiceAgent × Bool
with_streams agent (some ss) = (record agent { streams = ss }, true)
with_streams agent none = (agent, false)

unfoldable pub priv_conn_check_unfreeze_next : XiceAgent → XiceAgent × Bool
priv_conn_check_unfreeze_next agent = with_streams agent (unfreeze_streams agent.streams)

-- `strcmp (a, b) == 0`
abbrev pub same_string : List ℕ → List ℕ → Bool
same_string [] [] = true
same_string [] (y ∷ ys) = false
same_string (x ∷ xs) [] = false
same_string (x ∷ xs) (y ∷ ys) = (x == y) && same_string xs ys

abbrev pub is_ready : XiceComponentState → Bool
is_ready connected = true
is_ready ready = true
is_ready _ = false

unfoldable pub stream_all_components_ready : List Component → Bool
stream_all_components_ready [] = true
stream_all_components_ready (c ∷ cs) = is_ready c.state && stream_all_components_ready cs

unfoldable pub agent_find_stream : List Stream → ℕ → Option Stream
agent_find_stream [] id = none
agent_find_stream (s ∷ ss) id = if s.id == id then some s else agent_find_stream ss id

unfoldable pub stream_find_component_by_id : List Component → ℕ → Option Component
stream_find_component_by_id [] id = none
stream_find_component_by_id (c ∷ cs) id =
    if c.id == id then some c else stream_find_component_by_id cs id

-- The pairs with the test that are frozen and have the foundation start to wait.
abbrev pub thaws : (CandidateCheckPair → Bool) → List ℕ → CandidateCheckPair → Bool
thaws test foundation p = test p && (is_frozen p.state && same_string p.foundation foundation)

abbrev pub thaw :
    (CandidateCheckPair → Bool) → List ℕ → List CandidateCheckPair → List CandidateCheckPair
thaw test foundation [] = []
thaw test foundation (p ∷ ps) =
    (if thaws test foundation p then record p { state = waiting } else p) ∷ thaw test foundation ps

abbrev pub thawed : (CandidateCheckPair → Bool) → List ℕ → List CandidateCheckPair → ℕ
thawed test foundation [] = 0
thawed test foundation (p ∷ ps) =
    (if thaws test foundation p then 1 else 0) + thawed test foundation ps

-- Step (1) of 'Updating Pair States'.
abbrev pub first_step : CandidateCheckPair → List CandidateCheckPair → List CandidateCheckPair × ℕ
first_step ok ps =
    let test = λ (p : CandidateCheckPair). p.stream_id == ok.stream_id in
    (thaw test ok.foundation ps, thawed test ok.foundation ps)

-- Step (2): the loop over the identifiers of the streams, which looks at the one list `ps` each time.
unfoldable pub second_step :
    CandidateCheckPair → List Stream → List CandidateCheckPair → ℕ → List CandidateCheckPair × ℕ
second_step ok [] ps unfrozen = (ps, unfrozen)
second_step ok (s ∷ ss) ps unfrozen =
    let test =
      λ (p : CandidateCheckPair). (p.stream_id == s.id) && not (p.stream_id == ok.stream_id) in
    let now = unfrozen + thawed test ok.foundation ps in
    let ps' = thaw test ok.foundation ps in
    let rest = second_step ok ss ps' now in if now == 0 then rest else (ps', now)

-- A list of checks is written back to the first stream with the identifier.
abbrev pub set_list : ℕ → List CandidateCheckPair → List Stream → List Stream
set_list id ps [] = []
set_list id ps (s ∷ ss) =
    if s.id == id then record s { conncheck_list = ps } ∷ ss else s ∷ set_list id ps ss

abbrev pub both_steps : XiceAgent → Stream → CandidateCheckPair → List CandidateCheckPair × ℕ
both_steps agent stream ok =
    let (ps, unfrozen) = first_step ok stream.conncheck_list in
    if stream_all_components_ready stream.components
    then second_step ok agent.streams ps unfrozen
    else (ps, unfrozen)

abbrev pub unfreeze_in : XiceAgent → CandidateCheckPair → Option Stream → Option XiceAgent
unfreeze_in agent ok none = none
unfreeze_in agent ok (some stream) =
    let (ps, unfrozen) = both_steps agent stream ok in
    let agent' = record agent { streams = set_list ok.stream_id ps agent.streams } in
    some (if unfrozen == 0 then (priv_conn_check_unfreeze_next agent').0 else agent')

abbrev pub is_succeeded : XiceCheckState → Bool
is_succeeded succeeded = true
is_succeeded _ = false

-- `none` for a failed assertion. `ok` is a pair of the list.
unfoldable pub priv_conn_check_unfreeze_related : XiceAgent → CandidateCheckPair → Option XiceAgent
priv_conn_check_unfreeze_related agent ok =
    if is_succeeded ok.state
    then unfreeze_in agent ok (agent_find_stream agent.streams ok.stream_id)
    else none
