-- ===== src/Stun/Agent/Unknowns.antt =====
-- stun/stunagent.c: `stun_agent_find_unknowns`.
use libxice.Base.{ℕ, zero, suc, ◌+◌, ◌≤◌, ◌≡◌, refl, not, ◌&&◌, if◌then◌else◌, Bool-cases, inl, inr}
use libxice.Base.{List, [], ◌∷◌, take, ap, arith}
use libxice.Base.{Bool, true, ltb, lt→ltb}
use mathlib.Core.Path.{subst}
use libxice.Base.Memory.{Memory}
use libxice.Stun.Constants.{no_aligned_attributes}
use libxice.Stun.Types.{StunAgent, StunMessage, has_flag}
use libxice.Stun.Message.{stun_message_length, stun_optional, stride}
use libxice.Stun.Message.Layout.{Attr, IsChain}
use libxice.Stun.Message.Chain.{offset-le-end}
use libxice.Stun.Agent.{unknowns_loop, stun_agent_find_unknowns, stun_agent_is_unknown}

-- The types that an agent must know and does not, in order.
unfoldable pub unknown_types : StunAgent → List Attr → List ℕ
unknown_types agent [] = []
unknown_types agent ((t, n) ∷ attrs) =
    let rest = unknown_types agent attrs in
    if not (stun_optional t) && stun_agent_is_unknown agent t then t ∷ rest else rest

module _ (agent : StunAgent) (m : Memory) (len : ℕ) where
  abbrev aligned : Bool
  aligned = not (has_flag agent no_aligned_attributes)

  unknowns_loop_lem :
      (attrs : List Attr) (fuel room offset : ℕ)
      → len ≤ offset + fuel
      → IsChain m aligned offset len attrs
      → unknowns_loop agent m len fuel room offset ≡ take room (unknown_types agent attrs)
  unfolding unknowns_loop unknown_types
  unknowns_loop_lem [] zero zero offset enough chain = refl
  unknowns_loop_lem [] zero (suc room) offset enough chain = refl
  unknowns_loop_lem [] (suc fuel) zero offset enough chain = refl
  unknowns_loop_lem [] (suc fuel) (suc room) offset enough chain = ground arith
  unknowns_loop_lem ((t, n) ∷ attrs) zero room offset enough (e, e', chain) =
      let h = offset-le-end m aligned (offset + 4 + stride aligned n) len attrs chain in
      absurd (omega arith)
  unknowns_loop_lem ((t, n) ∷ attrs) (suc fuel) zero offset enough chain = refl
  unknowns_loop_lem ((t, n) ∷ attrs) (suc fuel) (suc room) offset enough (e, e', chain) =
      let h = offset-le-end m aligned (offset + 4 + stride aligned n) len attrs chain in
      let next : offset + 4 + stride aligned n ≡ offset + (4 + stride aligned n) = omega arith in
      let chain' : IsChain m aligned (offset + (4 + stride aligned n)) len attrs =
        subst (λ o. IsChain m aligned o len attrs) next chain in
      let inside : ltb offset len ≡ true = lt→ltb offset len (omega arith) in
      elim (Bool-cases (not (stun_optional t) && stun_agent_is_unknown agent t)) [
        | inl unknown ↦
            rw (e, e', inside, unknown)
              (ap (λ ts. t ∷ ts)
                (unknowns_loop_lem attrs fuel room (offset + (4 + stride aligned n)) (omega arith)
                  chain'))
        | inr known ↦
            rw (e, e', inside, known)
              (unknowns_loop_lem attrs fuel (suc room) (offset + (4 + stride aligned n))
                (omega arith) chain')
      ]

-- In a message that is a list of attributes the function gives the types that are mandatory and not
-- among the known ones, in their order, up to `max` of them.
pub stun_agent_find_unknowns_lem :
    (agent : StunAgent) (msg : StunMessage) (attrs : List Attr) (max : ℕ)
    → IsChain msg.buffer
        (not (has_flag agent no_aligned_attributes))
        20
        (stun_message_length msg)
        attrs
    → stun_agent_find_unknowns agent msg max ≡ take max (unknown_types agent attrs)
unfolding stun_agent_find_unknowns
stun_agent_find_unknowns_lem agent msg attrs max chain =
    unknowns_loop_lem agent msg.buffer (stun_message_length msg) attrs (stun_message_length msg) max
      20 (omega arith) chain
