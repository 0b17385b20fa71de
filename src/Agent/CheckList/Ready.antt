-- ===== src/Agent/CheckList/Ready.antt =====
-- agent/conncheck.c: when a component becomes READY, and what becomes of its checks then.
pub mod Signal
use libxice.Base.{ℕ, ◌≤◌, ◌<◌, ◌≡◌, refl, ◌∙◌, sym, Bool, true, false, ◌&&◌, ◌||◌}
use libxice.Base.{
  Bool-cases, inl, inr, arith, List, [], ◌∷◌, All, if◌then◌else◌, ltb, lt→ltb, ◌⊎◌, ◌↔◌,
}
use libxice.Agent.CheckList.{CandidateCheckPair}
use libxice.Agent.CheckList.{is_in_progress, is_frozen, is_waiting}
use libxice.Agent.CheckList.Update.{nominates, highest_nominated, prune_pair, prune_pairs}
use libxice.Agent.CheckList.Update.{is_kept, count_kept, is_beaten, priv_prune_pending_checks}
use libxice.Agent.CheckList.Update.{count_nominated, state_for_ready}

-- Some element of a list has the property.
pub data Any {A : Type 0} (P : A → Type 0) : List A → Type 0 where
  here : {x : A} {xs : List A} → P x → Any P (x ∷ xs)
  later : {x : A} {xs : List A} → Any P xs → Any P (x ∷ xs)

abbrev pub IsNominee : ℕ → CandidateCheckPair → Type 0
IsNominee c p = nominates c p ≡ true

-- The check of the component is frozen, waits, or is in progress.
abbrev pub IsPending : ℕ → CandidateCheckPair → Type 0
IsPending c p =
    (p.component_id ≡ c)
    × ((is_frozen p.state || (is_waiting p.state || is_in_progress p.state)) ≡ true)

abbrev pub IsRunning : ℕ → CandidateCheckPair → Type 0
IsRunning c p = (p.component_id ≡ c) × (is_in_progress p.state ≡ true)

-- `max_priority` after a pair.
abbrev raised : Bool → ℕ → ℕ → ℕ
raised b top q = if b && ltb top q then q else top

raised_upper : (b : Bool) (top q : ℕ) → (top ≤ raised b top q) × (b ≡ true → q ≤ raised b top q)
raised_upper b top q = (ground arith, λ e. ground arith)

raised_cases : (b : Bool) (top q : ℕ) → (raised b top q ≡ top) ⊎ ((b ≡ true) × (q ≡ raised b top q))
raised_cases b top q = ground arith

highest-upper :
    (c : ℕ) (ps : List CandidateCheckPair) (top : ℕ)
    → (top ≤ highest_nominated c ps top)
      × All (λ p. IsNominee c p → p.priority ≤ highest_nominated c ps top) ps
unfolding highest_nominated
highest-upper c [] top = (omega arith, tt)
highest-upper c (p ∷ ps) top =
    let t = raised (nominates c p) top p.priority in
    let up = raised_upper (nominates c p) top p.priority in
    let ih = highest-upper c ps t in
    (omega (arith, up.0, ih.0), ((λ e. omega (arith, up.1 e, ih.0)), ih.1))

highest-attained :
    (c : ℕ) (ps : List CandidateCheckPair) (top : ℕ)
    → (highest_nominated c ps top ≡ top)
      ⊎ Any (λ p. IsNominee c p × (p.priority ≡ highest_nominated c ps top)) ps
unfolding highest_nominated
highest-attained c [] top = inl refl
highest-attained c (p ∷ ps) top =
    elim (highest-attained c ps (raised (nominates c p) top p.priority)) [
      | inr found ↦ inr (later found)
      | inl e ↦ elim (raised_cases (nominates c p) top p.priority) [
        | inl same ↦ inl (e ∙ same)
        | inr better ↦ inr (here (better.0, better.1 ∙ sym e))
      ]
    ]

prune_pair-IsPending :
    (c top : ℕ) (p : CandidateCheckPair)
    → is_kept c top p ≡ false
    → ¬ IsPending c (prune_pair c top p)
prune_pair-IsPending c top p h (e, o) = ground arith

prune_pairs-IsPending :
    (c top : ℕ) (ps : List CandidateCheckPair)
    → count_kept c top ps ≡ 0
    → All (λ p. ¬ IsPending c p) (prune_pairs c top ps)
prune_pairs-IsPending c top [] h = tt
prune_pairs-IsPending c top (p ∷ ps) h = (
  prune_pair-IsPending c top p (ground (arith, h)),
  prune_pairs-IsPending c top ps (ground (arith, h)),
)

count_nominated-Any :
    (c : ℕ) (ps : List CandidateCheckPair) → 0 < count_nominated c ps → Any (IsNominee c) ps
unfolding count_nominated
count_nominated-Any c [] h = absurd (omega arith)
count_nominated-Any c (p ∷ ps) h = elim (Bool-cases (nominates c p)) [
  | inl e ↦ here e
  | inr e ↦ later (count_nominated-Any c ps (ground (arith, h, e)))
]

Any-count_nominated :
    (c : ℕ) (ps : List CandidateCheckPair) → Any (IsNominee c) ps → 0 < count_nominated c ps
unfolding count_nominated
Any-count_nominated c [] x = elim x [ ]
Any-count_nominated c (p ∷ ps) (here h) = ground (arith, h)
Any-count_nominated c (p ∷ ps) (later h) = omega (arith, Any-count_nominated c ps h)

module _ {A : Type 0} where
  All-map : (P Q : A → Type 0) (xs : List A) → ((x : A) → P x → Q x) → All P xs → All Q xs
  All-map P Q [] f h = tt
  All-map P Q (x ∷ xs) f (h, hs) = (f x h, All-map P Q xs f hs)

  Any-map : {P Q : A → Type 0} {xs : List A} → ((x : A) → P x → Q x) → Any P xs → Any Q xs
  Any-map f (here h) = here (f _ h)
  Any-map f (later h) = later (Any-map f h)

  Any-All :
      {P : A → Type 0} (Q : A → Type 0) {xs : List A} → Any P xs → All Q xs → (x : A) × P x × Q x
  Any-All Q (here h) (q, qs) = (_, h, q)
  Any-All Q (later h) (q, qs) = Any-All Q h qs

abbrev IsBeaten : ℕ → ℕ → CandidateCheckPair → Type 0
IsBeaten c top p = IsRunning c p → is_beaten top p ≡ true

kept-IsBeaten :
    (c top : ℕ) (ps : List CandidateCheckPair) → (count_kept c top ps ≡ 0) ↔ All (IsBeaten c top) ps
kept-IsBeaten c top [] = (λ h. tt, λ h. refl)
kept-IsBeaten c top (p ∷ ps) =
    let ih = kept-IsBeaten c top ps in
    (
      λ h. (λ (e, r). ground (arith, h, e, r), ih.0 (ground (arith, h))),
      λ (b, bs). ground (arith, b, ih.1 bs),
    )

-- The pair is nominated and valid, and better than every check of the component that is in progress.
abbrev pub IsWinner : ℕ → List CandidateCheckPair → CandidateCheckPair → Type 0
IsWinner c ps q = IsNominee c q × All (λ p. IsRunning c p → p.priority < q.priority) ps

beaten-IsWinner :
    (c : ℕ) (ps : List CandidateCheckPair)
    → Any (IsNominee c) ps
    → All (IsBeaten c (highest_nominated c ps 0)) ps
    → Any (IsWinner c ps) ps
beaten-IsWinner c ps some_nominee beaten = elim (highest-attained c ps 0) [
  | inl e ↦
      Any-map
        (λ q n. (
          n,
          All-map (IsBeaten c (highest_nominated c ps 0)) _ ps
              (λ p b r. absurd (ground (arith, b r, e))) beaten,
        ))
        some_nominee
  | inr found ↦
      Any-map
        (λ q (n, e). (
          n,
          All-map (IsBeaten c (highest_nominated c ps 0)) _ ps (λ p b r. ground (arith, b r, e))
              beaten,
        ))
        found
]

winner-IsBeaten :
    (c : ℕ) (ps : List CandidateCheckPair)
    → Any (IsWinner c ps) ps
    → All (IsBeaten c (highest_nominated c ps 0)) ps
winner-IsBeaten c ps winner =
    let (q, (n, all), up) =
      Any-All (λ p. IsNominee c p → p.priority ≤ highest_nominated c ps 0) winner
        (highest-upper c ps 0).1 in
    All-map (λ p. IsRunning c p → p.priority < q.priority) _ ps
      (λ p less r. ground (arith, less r, up n)) all

becomes_ready :
    (c : ℕ) (ps : List CandidateCheckPair)
    → ((state_for_ready ps c).1 ≡ true)
      ↔ ((0 < count_nominated c ps) × (count_kept c (highest_nominated c ps 0) ps ≡ 0))
unfolding state_for_ready priv_prune_pending_checks
becomes_ready c ps = ground arith

ready_list :
    (c : ℕ) (ps : List CandidateCheckPair)
    → 0 < count_nominated c ps
    → (state_for_ready ps c).0 ≡ prune_pairs c (highest_nominated c ps 0) ps
unfolding state_for_ready priv_prune_pending_checks
ready_list c ps h = rw (lt→ltb 0 (count_nominated c ps) h) refl

-- `state_for_ready` asks for READY exactly if some nominated valid pair of the component has a higher
-- priority than each of its checks that is in progress; then no check of the component is left that is
-- frozen, waits, or is in progress.
pub state_for_ready_lem :
    (c : ℕ) (ps : List CandidateCheckPair)
    → (((state_for_ready ps c).1 ≡ true) ↔ Any (IsWinner c ps) ps)
      × ((state_for_ready ps c).1 ≡ true → All (λ p. ¬ IsPending c p) (state_for_ready ps c).0)
state_for_ready_lem c ps =
    let top = highest_nominated c ps 0 in
    let ready = becomes_ready c ps in
    (
      (
        (λ r.
            beaten-IsWinner c ps (count_nominated-Any c ps (ready.0 r).0)
              ((kept-IsBeaten c top ps).0 (ready.0 r).1)),
        (λ w. ready.1 (
          Any-count_nominated c ps (Any-map (λ q h. h.0) w),
          (kept-IsBeaten c top ps).1 (winner-IsBeaten c ps w),
        )),
      ),
      (λ r. rw (ready_list c ps (ready.0 r).0) (prune_pairs-IsPending c top ps (ready.0 r).1)),
    )
