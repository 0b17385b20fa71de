-- ===== src/Agent/CheckList/Roles/Flaws.antt =====
-- agent/conncheck.c: the limit of the check list, and the second step of the unfreezing.
use libxice.Base.{
  ℕ, zero, suc, ◌+◌, ◌-◌, ◌≤◌, ◌<◌, ◌≡◌, refl, ap, ◌∙◌, Bool, true, false, not, ◌&&◌,
}
use libxice.Base.{arith, List, [], ◌∷◌, All, length, take, lt→ltb, le→ltb, ◌==◌, if◌then◌else◌}
use libxice.Agent.CheckList.{CandidateCheckPair, Stream, second_step, thaw, thawed, is_frozen}
use libxice.Agent.CheckList.{same_string}
use libxice.Agent.CheckList.Roles.{priv_limit_conn_check_list_size}

length-take : (n : ℕ) (ps : List CandidateCheckPair) → n ≤ length ps → length (take n ps) ≡ n
length-take zero ps h = refl
length-take (suc n) [] h = absurd (omega (arith, h))
length-take (suc n) (p ∷ ps) h = ap suc (length-take n ps (omega (arith, h)))

-- A list with more pairs than the limit, which is not 0, keeps as many pairs as are too many, and not as
-- many as the limit allows; a list within the limit stays as it is.
pub priv_limit_conn_check_list_size_lem :
    (ps : List CandidateCheckPair) (upper_limit : ℕ)
    → 0 < upper_limit
    → (length ps ≤ upper_limit → priv_limit_conn_check_list_size ps upper_limit ≡ ps)
      × (upper_limit < length ps
          → length (priv_limit_conn_check_list_size ps upper_limit) ≡ length ps - upper_limit)
unfolding priv_limit_conn_check_list_size
priv_limit_conn_check_list_size_lem ps upper_limit h = (
  (λ le. rw (le→ltb upper_limit (length ps) le) refl),
  (λ lt.
      let e : (length ps - upper_limit == length ps) ≡ false = ground (arith, h, lt) in
      rw (lt→ltb upper_limit (length ps) lt) (rw e (length-take _ ps (omega arith)))),
)

-- A list of which all pairs belong to the stream of the successful check.
abbrev pub IsOwn : ℕ → CandidateCheckPair → Type 0
IsOwn id p = p.stream_id ≡ id

and_false : (a b c : Bool) → b ≡ false → ((a && b) && c) ≡ false
and_false true b c e = rw e refl
and_false false b c e = refl

if_same : {A : Type 0} (b : Bool) (x : A) → (if b then x else x) ≡ x
if_same true x = refl
if_same false x = refl

stays :
    (ok : CandidateCheckPair) (id : ℕ) (ps : List CandidateCheckPair)
    → All (IsOwn ok.stream_id) ps
    → let test =
        λ (p : CandidateCheckPair). (p.stream_id == id) && not (p.stream_id == ok.stream_id) in
      (thaw test ok.foundation ps ≡ ps) × (thawed test ok.foundation ps ≡ 0)
stays ok id [] h = (refl, refl)
stays ok id (p ∷ ps) (own, h) =
    let ih = stays ok id ps h in
    let foreign : not (p.stream_id == ok.stream_id) ≡ false = ground (arith, own) in
    let t =
      and_false (p.stream_id == id) _ (is_frozen p.state && same_string p.foundation ok.foundation)
        foreign in
    (rw t (ap (λ xs. p ∷ xs) ih.0), rw t (omega (arith, ih.1)))

-- The second step of `priv_conn_check_unfreeze_related`, which is to unfreeze checks of other streams,
-- changes nothing if all checks of a stream belong to it: it looks at the list of the stream of the
-- successful check each time, and never at the lists of the other streams.
pub second_step_lem :
    (ok : CandidateCheckPair) (ss : List Stream) (ps : List CandidateCheckPair) (unfrozen : ℕ)
    → All (IsOwn ok.stream_id) ps
    → second_step ok ss ps unfrozen ≡ (ps, unfrozen)
unfolding second_step
second_step_lem ok [] ps n h = refl
second_step_lem ok (s ∷ ss) ps n h =
    let (same, none_thawed) = stays ok s.id ps h in
    let e : n
          + thawed (λ p. (p.stream_id == s.id) && not (p.stream_id == ok.stream_id)) ok.foundation
              ps
        ≡ n =
      omega (arith, none_thawed) in
    rw same (
      rw e (
        ap (λ r. if n == 0 then r else (ps, n)) (second_step_lem ok ss ps n h)
        ∙ if_same (n == 0) (ps, n)))
