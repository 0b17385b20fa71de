-- ===== src/Stun/Ice/Role.antt =====
-- stun/usages/ice.c: the role after a binding request.
use libxice.Base.{
  ℕ, ◌≤◌, ◌<◌, ◌≡◌, ◌≢◌, ◌↔◌, ◌⊎◌, inl, inr, refl, sym, ◌∙◌, Bool, true, false, not, Bool-cases,
  Option-cases, ltb→lt, ==_iff,
}
use libxice.Base.{Option, none, some, List, ltb, ◌==◌, arith}
use libxice.Base.Memory.{Memory}
use libxice.Stun.Constants.{request, success}
use libxice.Stun.Constants.Method
use libxice.Stun.Types.{StunAgent, StunMessage}
use libxice.Stun.Utils.{SockAddr}
use libxice.Stun.Message.{stun_message_get_method}
use libxice.Stun.Message.Typed.{stun_message_find64}
use libxice.Stun.Hmac.{Crypto}
use libxice.Stun.Agent.Receive.{is_class}
use libxice.Stun.Ice.{
  IceCompatibility, IceReturn, ice_success, role_conflict, own_role, with_tie, respond, reply_with,
  finished_reply,
}
use libxice.Stun.Agent.Send.{stun_agent_init_response}
use libxice.Stun.Agent.Finish.{Finished, stun_agent_finish_message}
use libxice.Stun.Constants.{
  StunMessageReturn, not_found, invalid, not_enough_space, unsupported_address,
}
use libxice.Stun.Ice.{stun_usage_ice_conncheck_create_reply}

module _ (crypto : Crypto) (unset package_string : List ℕ) where
  finished-control :
      (ret : IceReturn) (control : Bool) (f : Finished)
      → (finished_reply crypto unset package_string ret control f).1 ≡ control
  finished-control ret control (agent, m, len) = ground arith

  reply-control :
      (ret : IceReturn) (control : Bool) (agent : StunAgent) (p : StunMessageReturn × StunMessage)
      → (reply_with crypto unset package_string ret control agent p).1 ≡ control
  reply-control ret control agent (success, m) =
      finished-control ret control (stun_agent_finish_message crypto unset agent m none)
  reply-control ret control agent (not_found, m) = refl
  reply-control ret control agent (invalid, m) = refl
  reply-control ret control agent (not_enough_space, m) = refl
  reply-control ret control agent (unsupported_address, m) = refl

  -- What is sent does not change the role.
  respond-control :
      (compatibility : IceCompatibility) (ret : IceReturn) (control : Bool) (agent : StunAgent)
      (req : StunMessage) (src : SockAddr) (srclen : ℕ) (started : Bool × StunMessage)
      → (respond crypto unset package_string compatibility ret control agent req src srclen
          started).1
        ≡ control
  unfolding respond
  respond-control compatibility ret control agent req src srclen (false, m) = refl
  respond-control compatibility ret control agent req src srclen (true, m) =
      reply-control ret control agent _

-- The request is a binding request of a peer that has the same role and the tie-breaker `q`.
abbrev pub Conflicts : StunMessage → Bool → ℕ → Type 0
Conflicts req control q =
    (is_class req request ≡ true)
    × (stun_message_get_method req ≡ Method.binding)
    × (with_tie (stun_message_find64 req (own_role control)) ≡ some q)

same_tie : (q q' : ℕ) → ◌≡◌ {A = Option ℕ} (some q) (some q') → q ≡ q'
same_tie q q' e = ground arith

not-not : (b : Bool) → not (not b) ≡ b
not-not true = refl
not-not false = refl

not-ne : (b : Bool) → b ≢ not b
not-ne true h = absurd (cc)
not-ne false h = absurd (cc)

module _ (crypto : Crypto) (unset package_string : List ℕ) (agent : StunAgent)
    (req msg : StunMessage) (buf : Memory) (len : ℕ) (src : SockAddr) (srclen : ℕ) (control : Bool)
    (tie : ℕ) (compatibility : IceCompatibility) where
  abbrev role_after : Bool
  role_after =
      (stun_usage_ice_conncheck_create_reply crypto unset package_string agent req msg buf len src
        srclen control tie compatibility).1

  not_asked : is_class req request ≡ false → role_after ≡ control
  unfolding stun_usage_ice_conncheck_create_reply
  not_asked other = rw (other, role_after) refl

  module _ (asked : is_class req request ≡ true) where
    not_bound : (stun_message_get_method req == Method.binding) ≡ false → role_after ≡ control
    unfolding stun_usage_ice_conncheck_create_reply
    not_bound other = rw (asked, other, role_after) refl

    module _ (bound : (stun_message_get_method req == Method.binding) ≡ true) where
      silent_peer :
          with_tie (stun_message_find64 req (own_role control)) ≡ none → role_after ≡ control
      unfolding stun_usage_ice_conncheck_create_reply
      silent_peer e =
          rw (asked, bound, e, role_after)
            (respond-control crypto unset package_string compatibility ice_success control agent req
              src srclen (stun_agent_init_response package_string agent msg buf len req))

      greater_peer :
          (q : ℕ)
          → with_tie (stun_message_find64 req (own_role control)) ≡ some q
          → ltb tie q ≡ true
          → role_after ≡ not control
      unfolding stun_usage_ice_conncheck_create_reply
      greater_peer q e less =
          rw (asked, bound, e, less, role_after)
            (respond-control crypto unset package_string compatibility role_conflict (not control)
              agent req src srclen (stun_agent_init_response package_string agent msg buf len req))

      smaller_peer :
          (q : ℕ)
          → with_tie (stun_message_find64 req (own_role control)) ≡ some q
          → ltb tie q ≡ false
          → role_after ≡ control
      unfolding stun_usage_ice_conncheck_create_reply
      smaller_peer q e more = rw (asked, bound, e, more, role_after) refl

  role-cases :
      ((q : ℕ) × Conflicts req control q × (tie < q) × (role_after ≡ not control))
      ⊎ ((role_after ≡ control) × ((q : ℕ) → Conflicts req control q → q ≤ tie))
  role-cases = elim (Bool-cases (is_class req request)) [
    | inr other ↦ inr (not_asked other, λ q c. absurd (let a = c.0 in cc))
    | inl asked ↦ elim (Bool-cases (stun_message_get_method req == Method.binding)) [
      | inr other ↦ inr (not_bound asked other, λ q c. absurd (ground (arith, c.1, other)))
      | inl bound ↦ elim (Option-cases (with_tie (stun_message_find64 req (own_role control)))) [
        | inl silent ↦ inr (silent_peer asked bound silent, λ q c. absurd (let a = c.2 in cc))
        | inr (q, e) ↦ elim (Bool-cases (ltb tie q)) [
          | inl less ↦ inl (
            q,
            (asked, (==_iff (stun_message_get_method req) Method.binding).0 bound, e),
            ltb→lt tie q less,
            greater_peer asked bound q e less,
          )
          | inr more ↦ inr (
            smaller_peer asked bound q e more,
            λ q' c. ground (arith, same_tie q q' (sym e ∙ c.2), more),
          )
        ]
      ]
    ]
  ]

  -- The role changes exactly for a binding request of a peer that has the same role and a greater
  -- tie-breaker.
  pub create_reply-role :
      (role_after ≡ not control) ↔ ((q : ℕ) × Conflicts req control q × (tie < q))
  create_reply-role = elim role-cases [
    | inl (q, c, less, changed) ↦ (λ h. (q, c, less), λ h. changed)
    | inr (same, small) ↦ (
      λ h. absurd (not-ne control (sym same ∙ h)),
      λ (q, c, less). absurd (let le = small q c in omega arith),
    )
  ]

  -- The role where the peer's tie-breaker is known.
  pub greater-changes : (q : ℕ) → Conflicts req control q → tie < q → role_after ≡ not control
  greater-changes q c less = create_reply-role.1 (q, c, less)

  pub smaller-stays : (q : ℕ) → Conflicts req control q → q ≤ tie → role_after ≡ control
  smaller-stays q c small = elim role-cases [
    | inl (q', c', less, changed) ↦
        absurd (let same = same_tie q q' (sym c.2 ∙ c'.2) in ground (arith, same, small, less))
    | inr (same, le) ↦ same
  ]

-- Two agents, each of which handles the check of the other.
module _ (crypto : Crypto) (unset package_string : List ℕ) (a b : StunAgent)
    (to_a to_b msg_a msg_b : StunMessage) (buf_a buf_b : Memory) (len_a len_b : ℕ)
    (src_a src_b : SockAddr) (srclen_a srclen_b : ℕ) (control : Bool) (tie_a tie_b : ℕ)
    (compatibility : IceCompatibility) where
  abbrev role_a : Bool
  role_a =
      (stun_usage_ice_conncheck_create_reply crypto unset package_string a to_a msg_a buf_a len_a
        src_a srclen_a control tie_a compatibility).1

  abbrev role_b : Bool
  role_b =
      (stun_usage_ice_conncheck_create_reply crypto unset package_string b to_b msg_b buf_b len_b
        src_b srclen_b control tie_b compatibility).1

  apart-resolved :
      Conflicts to_a control tie_b
      → Conflicts to_b control tie_a
      → (tie_a < tie_b) ⊎ (tie_b < tie_a)
      → role_a ≡ not role_b
  apart-resolved ca cb (inl less) =
      let ea =
        greater-changes crypto unset package_string a to_a msg_a buf_a len_a src_a srclen_a control
          tie_a compatibility tie_b ca less in
      let eb =
        smaller-stays crypto unset package_string b to_b msg_b buf_b len_b src_b srclen_b control
          tie_b compatibility tie_a cb (omega arith) in
      cc
  apart-resolved ca cb (inr less) =
      let ea =
        smaller-stays crypto unset package_string a to_a msg_a buf_a len_a src_a srclen_a control
          tie_a compatibility tie_b ca (omega arith) in
      let eb =
        greater-changes crypto unset package_string b to_b msg_b buf_b len_b src_b srclen_b control
          tie_b compatibility tie_a cb less in
      let twice = not-not control in cc

  -- Two agents that have the same role and different tie-breakers have different roles after each
  -- has handled the binding request of the other.
  pub conflict-resolved :
      Conflicts to_a control tie_b
      → Conflicts to_b control tie_a
      → tie_a ≢ tie_b
      → role_a ≡ not role_b
  conflict-resolved ca cb apart = elim (Bool-cases (ltb tie_a tie_b)) [
    | inl less ↦ apart-resolved ca cb (inl (ltb→lt tie_a tie_b less))
    | inr more ↦ apart-resolved ca cb (inr (ground (arith, more, apart)))
  ]
