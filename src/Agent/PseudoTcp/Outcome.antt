-- ===== src/Agent/PseudoTcp/Outcome.antt =====
-- agent/pseudotcp.c: what holds of the outcome of a run, if it is not aborted.
use libxice.Base.{◌≡◌, refl, Bool, true, false, if◌then◌else◌}
use libxice.Agent.PseudoTcp.{Run, done, aborted, starved, ◌>>=◌, g_assert}

-- The result is as stated, or the program was aborted; fuel did not run out.
abbrev pub Ensures : {A : Type 0} → (A → Type 0) → Run A → Type 0
Ensures P (done a) = P a
Ensures P aborted = Unit
Ensures P starved = ⊥

pub >>=-Ensures :
    {A B : Type 0} (P : A → Type 0) (Q : B → Type 0) (m : Run A) (f : A → Run B)
    → Ensures P m
    → ((a : A) → P a → Ensures Q (f a))
    → Ensures Q (m >>= f)
>>=-Ensures P Q (done a) f h next = next a h
>>=-Ensures P Q aborted f h next = tt
>>=-Ensures P Q starved f h next = absurd h

pub g_assert-Ensures :
    {A : Type 0} (P : A → Type 0) (test : Bool) (rest : Run A)
    → Ensures P rest
    → Ensures P (g_assert test rest)
g_assert-Ensures P true rest h = h
g_assert-Ensures P false rest h = tt

pub Ensures-weaken :
    {A : Type 0} (P Q : A → Type 0) (m : Run A) → ((a : A) → P a → Q a) → Ensures P m → Ensures Q m
Ensures-weaken P Q (done a) f h = f a h
Ensures-weaken P Q aborted f h = tt
Ensures-weaken P Q starved f h = absurd h

pub if-Ensures :
    {A : Type 0} (P : A → Type 0) (test : Bool) (x y : Run A)
    → (test ≡ true → Ensures P x)
    → (test ≡ false → Ensures P y)
    → Ensures P (if test then x else y)
if-Ensures P true x y h k = h refl
if-Ensures P false x y h k = k refl

pub Ensures-done :
    {A : Type 0} (P : A → Type 0) (m : Run A) (a : A) → Ensures P m → m ≡ done a → P a
Ensures-done P m a h e = rw e at h
