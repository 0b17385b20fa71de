-- ===== src/Agent/CheckList/Frozen.antt =====
-- agent/conncheck.c: which frozen check is unfrozen next.
use libxice.Base.{ℕ, suc, ◌+◌, ◌≤◌, ◌<◌, ◌≡◌, refl, ap, ◌∙◌, true, false, ◌&&◌}
use libxice.Base.{Bool-cases, inl, inr, arith, Option, none, some, List, [], ◌∷◌, ◌++◌, length, All}
use libxice.Base.{ltb, ◌⊎◌}
use libxice.Agent.CheckList.{CandidateCheckPair, Stream, XiceAgent, waiting, is_frozen}
use libxice.Agent.CheckList.{find_frozen, unfreeze_at, unfreeze_stream, unfreeze_streams}
use libxice.Agent.CheckList.{with_streams, priv_conn_check_unfreeze_next}

-- The priority of the pair, if it is frozen, is below a bound, or at most the bound.
abbrev pub IsBelow : ℕ → CandidateCheckPair → Type 0
IsBelow top p = is_frozen p.state ≡ true → p.priority < top

abbrev pub IsUpTo : ℕ → CandidateCheckPair → Type 0
IsUpTo top p = is_frozen p.state ≡ true → p.priority ≤ top

-- A frozen pair of a priority above `top` has the highest priority of the frozen pairs of a list, and is the
-- first of them.
abbrev pub IsHighest :
    ℕ → List CandidateCheckPair → CandidateCheckPair → List CandidateCheckPair → Type 0
IsHighest top before p after =
    (is_frozen p.state ≡ true)
    × (top < p.priority)
    × All (IsBelow p.priority) before
    × All (IsUpTo p.priority) after

abbrev IsFoundAt :
    List CandidateCheckPair
    → ℕ
    → ℕ
    → Option ℕ
    → List CandidateCheckPair
    → CandidateCheckPair
    → List CandidateCheckPair
    → Type 0
IsFoundAt ps i top found before p after =
    (ps ≡ before ++ (p ∷ after)) × (found ≡ some (i + length before)) × IsHighest top before p after

abbrev IsFound : List CandidateCheckPair → ℕ → ℕ → Option ℕ → Type 0
IsFound ps i top found =
    (before : List CandidateCheckPair) × (p : CandidateCheckPair) × (after : List
      CandidateCheckPair)
    × IsFoundAt ps i top found before p after

IsFound-here :
    (p : CandidateCheckPair) (ps : List CandidateCheckPair) (i top : ℕ) (found : Option ℕ)
    → (is_frozen p.state && ltb top p.priority) ≡ true
    → found ≡ some i
    → All (IsUpTo p.priority) ps
    → IsFound (p ∷ ps) i top found
IsFound-here p ps i top found h e all =
    ([], p, ps, (refl, e ∙ ap some (omega arith), (ground arith, ground arith, tt, all)))

IsFound-behind :
    (p : CandidateCheckPair) (ps : List CandidateCheckPair) (i top t : ℕ) (found : Option ℕ)
    → top ≤ t
    → IsUpTo t p
    → IsFound ps (suc i) t found
    → IsFound (p ∷ ps) i top found
IsFound-behind p ps i top t found le up (before, q, after, (eq, e, (f, less, lower, upto))) = (
  p ∷ before,
  q,
  after,
  (
    ap (λ xs. p ∷ xs) eq,
    e ∙ ap some (omega arith),
    (f, omega (arith, le, less), ((λ x. omega (arith, up x, less)), lower), upto),
  ),
)

module _ (p : CandidateCheckPair) (ps : List CandidateCheckPair) (i top : ℕ) (best : Option ℕ) where
  find_frozen_better :
      (is_frozen p.state && ltb top p.priority) ≡ true
      → find_frozen (p ∷ ps) i top best ≡ find_frozen ps (suc i) p.priority (some i)
  unfolding find_frozen
  find_frozen_better b = rw b refl

  find_frozen_worse :
      (is_frozen p.state && ltb top p.priority) ≡ false
      → find_frozen (p ∷ ps) i top best ≡ find_frozen ps (suc i) top best
  unfolding find_frozen
  find_frozen_worse b = rw b refl

find_frozen_lem :
    (ps : List CandidateCheckPair) (i top : ℕ) (best : Option ℕ)
    → ((find_frozen ps i top best ≡ best) × All (IsUpTo top) ps)
      ⊎ IsFound ps i top (find_frozen ps i top best)
unfolding find_frozen
find_frozen_lem [] i top best = inl (refl, tt)
find_frozen_lem (p ∷ ps) i top best = elim (Bool-cases (is_frozen p.state && ltb top p.priority)) [
  | inl b ↦
      rw (find_frozen_better p ps i top best b)
        (elim (find_frozen_lem ps (suc i) p.priority (some i)) [
          | inl (e, all) ↦ inr (IsFound-here p ps i top _ b e all)
          | inr f ↦ inr (IsFound-behind p ps i top p.priority _ (ground arith) (λ x. omega arith) f)
        ])
  | inr b ↦ rw (find_frozen_worse p ps i top best b) (elim (find_frozen_lem ps (suc i) top best) [
    | inl (e, all) ↦ inl (e, ((λ x. ground arith), all))
    | inr f ↦ inr (IsFound-behind p ps i top top _ (omega arith) (λ x. ground arith) f)
  ])
]

unfreeze_at-length :
    (before : List CandidateCheckPair) (p : CandidateCheckPair) (after : List CandidateCheckPair)
    → unfreeze_at (length before) (before ++ (p ∷ after))
      ≡ before ++ (record p { state = waiting } ∷ after)
unfreeze_at-length [] p after = refl
unfreeze_at-length (x ∷ xs) p after = ap (λ ys. x ∷ ys) (unfreeze_at-length xs p after)

-- One frozen pair, the one of highest priority in the first stream that has a frozen pair of a priority
-- above 0, waits now, and nothing else changed.
pub data Unfreezes : List Stream → List Stream → Type 0 where
  unfrozen :
      (s : Stream) (ss : List Stream) (before : List CandidateCheckPair) (p : CandidateCheckPair)
      (after : List CandidateCheckPair)
      → s.conncheck_list ≡ before ++ (p ∷ after)
      → IsHighest 0 before p after
      → Unfreezes
          (s ∷ ss)
          (record s { conncheck_list = before ++ (record p { state = waiting } ∷ after) } ∷ ss)
  passed :
      (s : Stream) {ss ss' : List Stream}
      → All (IsUpTo 0) s.conncheck_list
      → Unfreezes ss ss'
      → Unfreezes (s ∷ ss) (s ∷ ss')

-- No stream has a frozen pair of a priority above 0.
abbrev pub HasNone : Stream → Type 0
HasNone s = All (IsUpTo 0) s.conncheck_list

abbrev IsUnfrozen : List Stream → Option (List Stream) → Type 0
IsUnfrozen ss none = All HasNone ss
IsUnfrozen ss (some ss') = Unfreezes ss ss'

found-IsUnfrozen :
    (s : Stream) (ss : List Stream) (found : Option ℕ) (rest : Option (List Stream))
    → IsFound s.conncheck_list 0 0 found
    → IsUnfrozen (s ∷ ss) (unfreeze_stream s ss found rest)
found-IsUnfrozen s ss found rest (before, p, after, (eq, e, h)) = rw e (
    rw
      (ap (λ xs. unfreeze_at (0 + length before) xs) eq
        ∙ ap (λ n. unfreeze_at n (before ++ (p ∷ after))) (omega arith)
        ∙ unfreeze_at-length before p after)
      (unfrozen s ss before p after eq h))

none-IsUnfrozen :
    (s : Stream) (ss : List Stream) (rest : Option (List Stream))
    → HasNone s
    → IsUnfrozen ss rest
    → IsUnfrozen (s ∷ ss) (unfreeze_stream s ss none rest)
none-IsUnfrozen s ss none h u = (h, u)
none-IsUnfrozen s ss (some ss') h u = passed s h u

unfreeze_streams-IsUnfrozen : (ss : List Stream) → IsUnfrozen ss (unfreeze_streams ss)
unfolding unfreeze_streams
unfreeze_streams-IsUnfrozen [] = tt
unfreeze_streams-IsUnfrozen (s ∷ ss) = elim (find_frozen_lem s.conncheck_list 0 0 none) [
  | inl (e, all) ↦
      rw e (none-IsUnfrozen s ss (unfreeze_streams ss) all (unfreeze_streams-IsUnfrozen ss))
  | inr f ↦ found-IsUnfrozen s ss _ _ f
]

abbrev IsNext : XiceAgent → Option (List Stream) → Type 0
IsNext agent found =
    let r = with_streams agent found in
    ((r.1 ≡ false) × (r.0 ≡ agent) × All HasNone agent.streams)
    ⊎ ((r.1 ≡ true)
        × (r.0 ≡ record agent { streams = r.0.streams })
        × Unfreezes agent.streams r.0.streams)

with_streams-IsNext :
    (agent : XiceAgent) (found : Option (List Stream))
    → IsUnfrozen agent.streams found
    → IsNext agent found
with_streams-IsNext agent none h = inl (refl, refl, h)
with_streams-IsNext agent (some ss) h = inr (refl, refl, h)

-- `priv_conn_check_unfreeze_next` gives TRUE if it let the frozen pair of highest priority wait, in the
-- first stream that has a frozen pair of a priority above 0, and changed nothing else; otherwise it gives
-- FALSE, no stream has such a pair, and the agent is as it was.
pub priv_conn_check_unfreeze_next_lem :
    (agent : XiceAgent)
    → let r = priv_conn_check_unfreeze_next agent in
      ((r.1 ≡ false) × (r.0 ≡ agent) × All HasNone agent.streams)
      ⊎ ((r.1 ≡ true)
          × (r.0 ≡ record agent { streams = r.0.streams })
          × Unfreezes agent.streams r.0.streams)
unfolding priv_conn_check_unfreeze_next
priv_conn_check_unfreeze_next_lem agent =
    with_streams-IsNext agent (unfreeze_streams agent.streams)
      (unfreeze_streams-IsUnfrozen agent.streams)
