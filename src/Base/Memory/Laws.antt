-- ===== src/Base/Memory/Laws.antt =====
-- What is read from memory after a write.
use libxice.Base.Lists.{length, get_or, All}
use libxice.Base.Memory.{Memory, store_bytes, load_bytes, Agree}
use Prim.Native.Nat.{ℕ, zero, suc, ◌+◌, ◌-◌, ◌%◌, ◌^◌, ◌≤◌, ◌<◌}
use mathlib.Core.Path.{◌≡◌, refl, ap, ap₂, ◌∙◌}
use mathlib.Core.Logic.{◌⊎◌}
use mathlib.Core.List.{List, [], ◌∷◌, ◌++◌}
use native.Mathlib.Nat.{add-zero}
use native.Mathlib.Omega.{arith}

pub store_bytes_outside :
    (m : Memory) (p : ℕ) (xs : List ℕ) (q : ℕ)
    → (q < p) ⊎ (p + length xs ≤ q)
    → store_bytes m p xs q ≡ m q
store_bytes_outside m p xs q h = ground arith

pub store_bytes_inside :
    (m : Memory) (p : ℕ) (xs : List ℕ) (i : ℕ)
    → i < length xs
    → store_bytes m p xs (p + i) ≡ get_or xs i 0
store_bytes_inside m p xs i h =
    let e : p + i - p ≡ i = omega arith in ground (arith, ap (λ (j : ℕ). get_or xs j 0) e)

-- Bytes that lie in memory from `p` on are loaded from there.
pub load_bytes_lem :
    (m : Memory) (p : ℕ) (xs : List ℕ)
    → All (λ x. x < 256) xs
    → ((i : ℕ) → i < length xs → m (p + i) ≡ get_or xs i 0)
    → load_bytes m p (length xs) ≡ xs
load_bytes_lem m p [] small h = refl
load_bytes_lem m p (x ∷ xs) small h =
    ap₂ ◌∷◌ (omega (arith, h 0 (omega arith), ap m (add-zero p)))
      (load_bytes_lem m (p + 1) xs small.1 (λ i hi. ap m (omega arith) ∙ h (suc i) (omega arith)))

pub load_bytes-Agree :
    (m m' : Memory) (p n : ℕ) → Agree m m' p (p + n) → load_bytes m' p n ≡ load_bytes m p n
load_bytes-Agree m m' p zero same = refl
load_bytes-Agree m m' p (suc n) same =
    ap₂ ◌∷◌ (ap (λ (v : ℕ). v % 2 ^ 8) (same p (omega arith) (omega arith)))
      (load_bytes-Agree m m' (p + 1) n (λ q lo hi. same q (omega arith) (omega arith)))

pub load_store_bytes :
    (m : Memory) (p : ℕ) (xs : List ℕ)
    → All (λ x. x < 256) xs
    → load_bytes (store_bytes m p xs) p (length xs) ≡ xs
load_store_bytes m p xs small =
    load_bytes_lem (store_bytes m p xs) p xs small (store_bytes_inside m p xs)

pub length-load_bytes : (m : Memory) (p n : ℕ) → length (load_bytes m p n) ≡ n
length-load_bytes m p zero = refl
length-load_bytes m p (suc n) = ap suc (length-load_bytes m (p + 1) n)

pub load_bytes-append :
    (m : Memory) (p n k : ℕ) → load_bytes m p (n + k) ≡ load_bytes m p n ++ load_bytes m (p + n) k
load_bytes-append m p zero k = ap₂ (load_bytes m) (omega arith) (omega arith)
load_bytes-append m p (suc n) k =
    let more : suc n + k ≡ suc (n + k) = omega arith in
    let there : p + 1 + n ≡ p + suc n = omega arith in
    rw more (
      ap (λ (xs : List ℕ). m p % 2 ^ 8 ∷ xs)
        (load_bytes-append m (p + 1) n k
          ∙ ap (λ (q : ℕ). load_bytes m (p + 1) n ++ load_bytes m q k) there))

-- Reading from an offset of the pointer.
pub load_bytes_shifted :
    (m : Memory) (n p k : ℕ) → load_bytes (λ i. m (n + i)) p k ≡ load_bytes m (n + p) k
load_bytes_shifted m n p zero = refl
load_bytes_shifted m n p (suc k) =
    let next : n + (p + 1) ≡ n + p + 1 = omega arith in
    ap (λ (xs : List ℕ). m (n + p) % 2 ^ 8 ∷ xs)
      (load_bytes_shifted m n (p + 1) k ∙ ap (λ (q : ℕ). load_bytes m q k) next)
