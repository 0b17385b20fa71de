-- ===== src/Agent/CheckList/Ready/Signal.antt =====
-- agent/conncheck.c and agent/agent.c: the signal that a component is READY.
use libxice.Base.{ℕ, ◌≡◌, refl, ap, true, false, ◌==◌, arith}
use libxice.Base.{Bool-cases, inl, inr, ◌⊎◌, ◌↔◌, Option, some, List, [], ◌∷◌, All}
use mathlib.Core.Option
use libxice.Agent.CheckList.{CandidateCheckPair, Component, Stream, XiceAgent, set_list}
use libxice.Agent.CheckList.{XiceComponentState, ready, failed, disconnected, gathering, connecting}
use libxice.Agent.CheckList.{connected, last, agent_find_stream, stream_find_component_by_id}
use libxice.Agent.CheckList.Update.{set_state, set_component, takes_state}
use libxice.Agent.CheckList.Update.{state_number, state_for_ready, agent_find_component}
use libxice.Agent.CheckList.Update.{agent_signal_component_state_change}
use libxice.Agent.CheckList.Update.{priv_update_check_list_state_for_ready}
use libxice.Agent.CheckList.Ready.{Any, IsWinner, IsPending, state_for_ready_lem}

module _ (id : ℕ) where
  find-set_list :
      (ps : List CandidateCheckPair) (ss : List Stream) (s : Stream)
      → agent_find_stream ss id ≡ some s
      → agent_find_stream (set_list id ps ss) id ≡ some (record s { conncheck_list = ps })
  unfolding agent_find_stream
  find-set_list ps [] s h = absurd (cc)
  find-set_list ps (x ∷ ss) s h = elim (Bool-cases (x.id == id)) [
    | inl e ↦
        rw (e, e)
          (ap
            (λ (o : Option Stream).
              Option.map {A = Stream} (λ t. record t { conncheck_list = ps }) o)
            (rw e at h))
    | inr e ↦ rw (e, e) (find-set_list ps ss s (rw e at h))
  ]

  find-set_component :
      (c : ℕ) (state : XiceComponentState) (ss : List Stream) (s : Stream)
      → agent_find_stream ss id ≡ some s
      → agent_find_stream (set_component id c state ss) id
        ≡ some (record s { components = set_state c state s.components })
  unfolding agent_find_stream
  find-set_component c state [] s h = absurd (cc)
  find-set_component c state (x ∷ ss) s h = elim (Bool-cases (x.id == id)) [
    | inl e ↦
        rw (e, e)
          (ap
            (λ (o : Option Stream).
              Option.map {A = Stream}
                (λ t. record t { components = set_state c state t.components }) o)
            (rw e at h))
    | inr e ↦ rw (e, e) (find-set_component c state ss s (rw e at h))
  ]

  find-set_state :
      (state : XiceComponentState) (cs : List Component) (c : Component)
      → stream_find_component_by_id cs id ≡ some c
      → stream_find_component_by_id (set_state id state cs) id ≡ some (record c { state = state })
  unfolding stream_find_component_by_id
  find-set_state state [] c h = absurd (cc)
  find-set_state state (x ∷ cs) c h = elim (Bool-cases (x.id == id)) [
    | inl e ↦
        rw (e, e)
          (ap
            (λ (o : Option Component).
              Option.map {A = Component} (λ t. record t { state = state }) o)
            (rw e at h))
    | inr e ↦ rw (e, e) (find-set_state state cs c (rw e at h))
  ]

number-ready : (x : XiceComponentState) → ((state_number x == 4) ≡ true) ↔ (x ≡ ready)
number-ready disconnected = (λ h. absurd (cc), λ h. absurd (cc))
number-ready gathering = (λ h. absurd (cc), λ h. absurd (cc))
number-ready connecting = (λ h. absurd (cc), λ h. absurd (cc))
number-ready connected = (λ h. absurd (cc), λ h. absurd (cc))
number-ready ready = (λ h. refl, λ h. refl)
number-ready failed = (λ h. absurd (cc), λ h. absurd (cc))
number-ready last = (λ h. absurd (cc), λ h. absurd (cc))

-- The component is not READY yet, and in a reliable agent it has a tcp socket.
abbrev pub MayBecomeReady : XiceAgent → Component → Type 0
MayBecomeReady agent c = (agent.reliable ≡ true → c.has_tcp ≡ true) × ¬ (c.state ≡ ready)

takes-MayBecomeReady :
    (agent : XiceAgent) (c : Component)
    → (takes_state agent ready c ≡ true) ↔ MayBecomeReady agent c
takes-MayBecomeReady agent c =
    let (there, back) = number-ready c.state in
    (
      λ h. (λ r. ground (arith, h, r), λ e. absurd (ground (arith, h, back e))),
      λ (r, n). elim (Bool-cases (state_number c.state == 4)) [
        | inl e ↦ absurd (n (there e))
        | inr e ↦ ground (arith, r, e)
      ],
    )

-- Some nominated valid pair of the component is better than its checks in progress.
abbrev pub HasWinner : ℕ → Stream → Type 0
HasWinner c s = Any (IsWinner c s.conncheck_list) s.conncheck_list

-- The signal of READY, the state of the component, and nothing besides.
abbrev pub Signalled : XiceAgent → XiceAgent → ℕ → ℕ → Component → Type 0
Signalled agent agent' stream_id c comp =
    (agent'.signals
      ≡ record { stream_id = stream_id; component_id = c; state = ready } ∷ agent.signals)
    × (agent_find_component agent' stream_id c ≡ some (record comp { state = ready }))

abbrev pub Silent : XiceAgent → XiceAgent → ℕ → ℕ → Component → Type 0
Silent agent agent' stream_id c comp =
    (agent'.signals ≡ agent.signals) × (agent_find_component agent' stream_id c ≡ some comp)

module _ (agent : XiceAgent) (stream_id c : ℕ) (s : Stream) (comp : Component)
    (in_agent : agent_find_stream agent.streams stream_id ≡ some s)
    (in_stream : stream_find_component_by_id s.components c ≡ some comp) where
  abbrev pruned : XiceAgent
  pruned = record agent {
    streams = set_list stream_id (state_for_ready s.conncheck_list c).0 agent.streams;
  }

  -- The stream after the call.
  abbrev Updated : XiceAgent → Type 0
  Updated agent' =
      (t : Stream) × (agent_find_stream agent'.streams stream_id ≡ some t)
      × (t.conncheck_list ≡ (state_for_ready s.conncheck_list c).0)

  pruned-find :
      agent_find_stream pruned.streams stream_id
      ≡ some (record s { conncheck_list = (state_for_ready s.conncheck_list c).0 })
  pruned-find =
      find-set_list stream_id (state_for_ready s.conncheck_list c).0 agent.streams s in_agent

  pruned-component : agent_find_component pruned stream_id c ≡ some comp
  pruned-component = rw pruned-find in_stream

  signal-takes :
      takes_state agent ready comp ≡ true
      → let agent' = agent_signal_component_state_change pruned stream_id c ready in
        Signalled agent agent' stream_id c comp × Updated agent'
  unfolding agent_signal_component_state_change
  signal-takes takes =
      let found = find-set_component stream_id c ready pruned.streams _ pruned-find in
      let comp' = find-set_state c ready s.components comp in_stream in
      rw (pruned-component, takes) ((refl, rw found comp'), (_, found, refl))

  signal-ignores :
      takes_state agent ready comp ≡ false
      → agent_signal_component_state_change pruned stream_id c ready ≡ pruned
  unfolding agent_signal_component_state_change
  signal-ignores ignored = rw (pruned-component, ignored) refl

-- In a stream of the agent with a component, `priv_update_check_list_state_for_ready` signals READY and gives
-- the component that state exactly if some nominated valid pair of the component has a higher priority
-- than each of its checks in progress, the component is not READY yet, and it has a tcp socket if the
-- agent is reliable. In each other case nothing is signalled and the component stays as it was. If there is
-- such a pair, no check of the component is left in the stream that is frozen, waits, or is in progress.
pub priv_update_check_list_state_for_ready_lem :
    (agent : XiceAgent) (stream_id c : ℕ) (s : Stream) (comp : Component)
    → agent_find_stream agent.streams stream_id ≡ some s
    → stream_find_component_by_id s.components c ≡ some comp
    → let agent' = priv_update_check_list_state_for_ready agent stream_id c in
      ((HasWinner c s × MayBecomeReady agent comp × Signalled agent agent' stream_id c comp)
        ⊎ ((¬ (HasWinner c s × MayBecomeReady agent comp)) × Silent agent agent' stream_id c comp))
      × (HasWinner c s
          → (t : Stream) × (agent_find_stream agent'.streams stream_id ≡ some t)
            × All (λ p. ¬ IsPending c p) t.conncheck_list)
unfolding priv_update_check_list_state_for_ready
priv_update_check_list_state_for_ready_lem agent stream_id c s comp in_agent in_stream =
    let (won, clear) = state_for_ready_lem c s.conncheck_list in
    let may = takes-MayBecomeReady agent comp in
    let found = pruned-find agent stream_id c s comp in_agent in_stream in
    let kept = pruned-component agent stream_id c s comp in_agent in_stream in
    elim (Bool-cases (state_for_ready s.conncheck_list c).1) [
      | inr lost ↦
          rw (in_agent, lost)
            (
              inr ((λ (w, m). absurd (cc (won.1 w, lost))), (refl, kept)),
              λ w. absurd (cc (won.1 w, lost)),
            )
      | inl wins ↦ elim (Bool-cases (takes_state agent ready comp)) [
        | inl takes ↦
            let (signalled, (t, at, list)) =
              signal-takes agent stream_id c s comp in_agent in_stream takes in
            rw (in_agent, wins)
              (inl (won.0 wins, may.0 takes, signalled), λ w. (t, at, rw list (clear wins)))
        | inr ignored ↦
            let same = signal-ignores agent stream_id c s comp in_agent in_stream ignored in
            rw (in_agent, wins, same)
              (
                inr ((λ (w, m). absurd (cc (may.1 m, ignored))), (refl, kept)),
                λ w. (_, found, clear wins),
              )
      ]
    ]
