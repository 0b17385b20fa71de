-- ===== src/Base/Bits.antt =====
-- Binary digits: one equation for the lowest digit of each native bit operation, and the laws that
-- the byte-level code needs.
use Prim.Native.Nat.{ℕ, zero, suc, ◌+◌, ◌-◌, ◌*◌, ◌/◌, ◌%◌, ◌^◌, ◌≤◌, ◌<◌, min, max, differ}
use Prim.Native.Nat.{bitwise, digits, bit_and-bitwise, bit_or-bitwise, bit_xor-bitwise}
use Prim.Native.Nat.{bit_and, bit_or, bit_xor}
use mathlib.Core.Path.{◌≡◌, refl, sym, ap, ◌∙◌, ◌≡⟨◌⟩◌, ◌∎}
use mathlib.Core.Bool.{Bool, true, ◌&&◌}
use native.Mathlib.Nat.{pow-suc, one-le-pow, div-div-eq-div-mul}
use native.Mathlib.Omega.{arith}

module _ (z : ℕ → ℕ) (f : ℕ → ℕ → ℕ) where
  -- One round more than is needed changes nothing.
  one_more : (n a b : ℕ) → a ≤ n → digits z f (suc n) a b ≡ digits z f n a b
  one_more zero zero b enough = refl
  one_more zero (suc a) b enough = absurd (omega arith)
  one_more (suc n) zero b enough = refl
  one_more (suc n) (suc a) b enough = omega (arith, one_more n (suc a / 2) (b / 2) (omega arith))

  many_more : (k n a b : ℕ) → a ≤ n → digits z f (k + n) a b ≡ digits z f n a b
  many_more zero n a b enough = ap (λ (t : ℕ). digits z f t a b) (omega arith)
  many_more (suc k) n a b enough =
      let next : suc k + n ≡ suc (k + n) = omega arith in
      ap (λ (t : ℕ). digits z f t a b) next
      ∙ one_more (k + n) a b (omega arith)
      ∙ many_more k n a b enough

  lowest_digit :
      (a b : ℕ)
      → bitwise z f (suc a) b ≡ f (suc a % 2) (b % 2) + 2 * bitwise z f (suc a / 2) (b / 2)
  lowest_digit a b =
      let half = suc a / 2 in
      let all : a - half + half ≡ a = omega arith in
      omega (
        arith,
        many_more (a - half) half half (b / 2) (omega arith),
        ap (λ (n : ℕ). digits z f n half (b / 2)) all,
      )

pub bit_and_digit : (a b : ℕ) → bit_and a b ≡ min (a % 2) (b % 2) + 2 * bit_and (a / 2) (b / 2)
bit_and_digit zero b = simp bit_and-bitwise (omega arith)
bit_and_digit (suc a) b = simp bit_and-bitwise (lowest_digit (λ y. 0) min a b)

pub bit_or_digit : (a b : ℕ) → bit_or a b ≡ max (a % 2) (b % 2) + 2 * bit_or (a / 2) (b / 2)
bit_or_digit zero b = simp bit_or-bitwise (omega arith)
bit_or_digit (suc a) b = simp bit_or-bitwise (lowest_digit (λ y. y) max a b)

differ-zero : (b : ℕ) → b ≡ differ 0 (b % 2) + 2 * (b / 2)
differ-zero b = omega arith

pub bit_xor_digit : (a b : ℕ) → bit_xor a b ≡ differ (a % 2) (b % 2) + 2 * bit_xor (a / 2) (b / 2)
bit_xor_digit zero b = simp bit_xor-bitwise (differ-zero b)
bit_xor_digit (suc a) b = simp bit_xor-bitwise (lowest_digit (λ y. y) differ a b)

-- Recursion on a bound `n` of the first number.
or-zero_below : (n a : ℕ) → a ≤ n → bit_or a 0 ≡ a
or-zero_below n zero h = refl
or-zero_below zero (suc a) h = absurd (omega arith)
or-zero_below (suc n) (suc a) h =
    omega (arith, bit_or_digit (suc a) 0, or-zero_below n (suc a / 2) (omega arith))

and-zero_below : (n a : ℕ) → a ≤ n → bit_and a 0 ≡ 0
and-zero_below n zero h = refl
and-zero_below zero (suc a) h = absurd (omega arith)
and-zero_below (suc n) (suc a) h =
    omega (arith, bit_and_digit (suc a) 0, and-zero_below n (suc a / 2) (omega arith))

double_shift : (q k : ℕ) → q * 2 ^ suc k ≡ 2 * (q * 2 ^ k)
double_shift q k = omega (arith, ap (λ (t : ℕ). q * t) (pow-suc 2 k))

-- `(q << k) | r` is a sum if `r` has at most `k` digits.
pub bit_or-shifted : (k q r : ℕ) → r < 2 ^ k → bit_or (q * 2 ^ k) r ≡ q * 2 ^ k + r
bit_or-shifted zero q r h = ground (arith, or-zero_below q q)
bit_or-shifted (suc k) q r h = ground (
  arith,
  bit_or_digit (q * 2 ^ suc k) r,
  double_shift q k,
  bit_or-shifted k q (r / 2) (omega arith),
)

masked-sum : (k q r : ℕ) → r < 2 ^ k → bit_and (q * 2 ^ k + r) (2 ^ k - 1) ≡ r
masked-sum zero q r h = ground (arith, and-zero_below (q * 1 + r) (q * 1 + r))
masked-sum (suc k) q r h = ground (
  arith,
  bit_and_digit (q * 2 ^ suc k + r) (2 ^ suc k - 1),
  double_shift q k,
  pow-suc 2 k,
  one-le-pow k 2,
  masked-sum k q (r / 2) (omega arith),
)

-- `a & (2 ^ k - 1)` is the remainder.
pub bit_and-low_mask : (k a : ℕ) → bit_and a (2 ^ k - 1) ≡ a % 2 ^ k
bit_and-low_mask k a = ground (arith, one-le-pow k 2, masked-sum k (a / 2 ^ k) (a % 2 ^ k))

differ-lt-two : (a b : ℕ) → a < 2 → b < 2 → differ a b < 2
differ-lt-two zero b p q = q
differ-lt-two (suc zero) zero p q = p
differ-lt-two (suc zero) (suc b) p q = omega arith
differ-lt-two (suc (suc a)) b p q = absurd (omega arith)

differ_self_inverse : (a b : ℕ) → a < 2 → b < 2 → differ (differ a b) b ≡ a
differ_self_inverse zero zero p q = refl
differ_self_inverse zero (suc zero) p q = refl
differ_self_inverse (suc zero) zero p q = refl
differ_self_inverse (suc zero) (suc zero) p q = refl
differ_self_inverse (suc (suc a)) b p q = absurd (omega arith)
differ_self_inverse zero (suc (suc b)) p q = absurd (omega arith)
differ_self_inverse (suc zero) (suc (suc b)) p q = absurd (omega arith)

xor_twice_below : (n a b : ℕ) → a ≤ n → b ≤ n → bit_xor (bit_xor a b) b ≡ a
xor_twice_below zero zero zero p q = refl
xor_twice_below zero (suc a) b p q = absurd (omega arith)
xor_twice_below zero zero (suc b) p q = absurd (omega arith)
xor_twice_below (suc n) a b p q = omega (
  arith,
  bit_xor_digit (bit_xor a b) b,
  halves,
  xor_twice_below n (a / 2) (b / 2) (omega arith) (omega arith),
)
  where
    low : differ (a % 2) (b % 2) < 2
    low = differ-lt-two (a % 2) (b % 2) (omega arith) (omega arith)

    halves : bit_xor (bit_xor a b) b ≡ bit_xor (bit_xor (a / 2) (b / 2)) (b / 2) * 2 + a % 2
    halves = ground (
      arith,
      bit_xor_digit (bit_xor a b) b,
      bit_xor_digit a b,
      low,
      differ_self_inverse (a % 2) (b % 2) (omega arith) (omega arith),
    )

-- Exclusive or with a fixed number undoes itself.
pub xor_twice : (a b : ℕ) → bit_xor (bit_xor a b) b ≡ a
xor_twice a b = xor_twice_below (a + b) a b (omega arith) (omega arith)

-- The result has no more digits than the operands.
pub bit_xor-lt : (k a b : ℕ) → a < 2 ^ k → b < 2 ^ k → bit_xor a b < 2 ^ k
bit_xor-lt zero zero zero p q = omega arith
bit_xor-lt zero (suc a) b p q = absurd (omega arith)
bit_xor-lt zero zero (suc b) p q = absurd (omega arith)
bit_xor-lt (suc k) a b p q = omega (
  arith,
  bit_xor_digit a b,
  differ-lt-two (a % 2) (b % 2) (omega arith) (omega arith),
  pow-suc 2 k,
  bit_xor-lt k (a / 2) (b / 2) (omega (arith, pow-suc 2 k)) (omega (arith, pow-suc 2 k)),
)

pub bit_xor-halves :
    (a b : ℕ)
    → (bit_xor a b / 2 ≡ bit_xor (a / 2) (b / 2)) × (bit_xor a b % 2 ≡ differ (a % 2) (b % 2))
bit_xor-halves a b =
    let low = differ-lt-two (a % 2) (b % 2) (omega arith) (omega arith) in
    (omega (arith, bit_xor_digit a b, low), omega (arith, bit_xor_digit a b, low))

differ-remainder : (a b : ℕ) → a < 2 → b < 2 → differ a b ≡ (a + b) % 2
differ-remainder zero zero p q = refl
differ-remainder zero (suc zero) p q = refl
differ-remainder (suc zero) zero p q = refl
differ-remainder (suc zero) (suc zero) p q = refl
differ-remainder (suc (suc a)) b p q = absurd (omega arith)
differ-remainder zero (suc (suc b)) p q = absurd (omega arith)
differ-remainder (suc zero) (suc (suc b)) p q = absurd (omega arith)

-- The lowest digits add without a carry.
bit_xor-parity : (a b : ℕ) → bit_xor a b % 2 ≡ (a + b) % 2
bit_xor-parity a b =
    omega
      (arith, (bit_xor-halves a b).1, differ-remainder (a % 2) (b % 2) (omega arith) (omega arith))

xor-zero_below : (n a : ℕ) → a ≤ n → bit_xor a 0 ≡ a
xor-zero_below zero zero h = refl
xor-zero_below zero (suc a) h = absurd (omega arith)
xor-zero_below (suc n) a h =
    omega (arith, bit_xor-halves a 0, bit_xor-parity a 0, xor-zero_below n (a / 2) (omega arith))

right_comm_below :
    (n a b c : ℕ) → a ≤ n → b ≤ n → c ≤ n → bit_xor (bit_xor a b) c ≡ bit_xor (bit_xor a c) b
right_comm_below zero zero zero zero p q r = refl
right_comm_below zero (suc a) b c p q r = absurd (omega arith)
right_comm_below zero zero (suc b) c p q r = absurd (omega arith)
right_comm_below zero zero zero (suc c) p q r = absurd (omega arith)
right_comm_below (suc n) a b c p q r = omega (
  arith,
  bit_xor-parity a b,
  bit_xor-parity a c,
  bit_xor-parity (bit_xor a b) c,
  bit_xor-parity (bit_xor a c) b,
  (bit_xor-halves (bit_xor a b) c).0 ∙ ap (λ (t : ℕ). bit_xor t (c / 2)) (bit_xor-halves a b).0,
  (bit_xor-halves (bit_xor a c) b).0 ∙ ap (λ (t : ℕ). bit_xor t (b / 2)) (bit_xor-halves a c).0,
  right_comm_below n (a / 2) (b / 2) (c / 2) (omega arith) (omega arith) (omega arith),
)

-- The order of two operands does not count.
pub bit_xor-right_comm : (a b c : ℕ) → bit_xor (bit_xor a b) c ≡ bit_xor (bit_xor a c) b
bit_xor-right_comm a b c =
    right_comm_below (a + b + c) a b c (omega arith) (omega arith) (omega arith)

pub bit_xor-shifted : (k q r : ℕ) → r < 2 ^ k → bit_xor r (q * 2 ^ k) ≡ q * 2 ^ k + r
bit_xor-shifted zero q zero h = simp bit_xor-bitwise (omega arith)
bit_xor-shifted zero q (suc r) h = absurd (omega arith)
bit_xor-shifted (suc k) q r h = ground (
  arith,
  bit_xor-halves r (q * 2 ^ suc k),
  bit_xor-parity r (q * 2 ^ suc k),
  double_shift q k,
  bit_xor-shifted k q (r / 2) (omega (arith, pow-suc 2 k)),
)

-- A number of at most `k` digits does not reach the digits above.
pub bit_xor-high : (k a b : ℕ) → b < 2 ^ k → bit_xor a b / 2 ^ k ≡ a / 2 ^ k
bit_xor-high zero a zero h = omega (arith, xor-zero_below a a)
bit_xor-high zero a (suc b) h = absurd (omega arith)
bit_xor-high (suc k) a b h =
    halved (bit_xor a b)
    ∙ ap (λ (t : ℕ). t / 2 ^ k) (bit_xor-halves a b).0
    ∙ bit_xor-high k (a / 2) (b / 2) (omega (arith, pow-suc 2 k))
    ∙ sym (halved a)
  where
    halved : (x : ℕ) → x / 2 ^ suc k ≡ x / 2 / 2 ^ k
    halved x =
        ap (λ (t : ℕ). x / t) (omega (arith, pow-suc 2 k)) ∙ sym (div-div-eq-div-mul x 2 (2 ^ k))

-- A test of each number below a bound, by computing.
unfoldable pub holds_below : (ℕ → Bool) → ℕ → Bool
holds_below test zero = true
holds_below test (suc bound) = holds_below test bound && test bound

pub holds_below_lem :
    (test : ℕ → Bool) (bound i : ℕ) → i < bound → holds_below test bound ≡ true → test i ≡ true
unfolding holds_below
holds_below_lem test zero i small all = absurd (omega arith)
holds_below_lem test (suc bound) i small all = ground (arith, holds_below_lem test bound i)

bit_and-even : (a x : ℕ) → bit_and a (2 * x) ≡ 2 * bit_and (a / 2) x
bit_and-even a x = ground (arith, bit_and_digit a (2 * x))

-- A mask with `k` zeros at its end.
pub bit_and-shifted_mask :
    (k a mask : ℕ) → bit_and a (mask * 2 ^ k) ≡ bit_and (a / 2 ^ k) mask * 2 ^ k
bit_and-shifted_mask zero a mask = ground arith
bit_and-shifted_mask (suc k) a mask =
    bit_and a (mask * 2 ^ suc k)
    ≡⟨ ap (bit_and a) (double_shift mask k) ⟩ bit_and a (2 * (mask * 2 ^ k))
    ≡⟨ bit_and-even a (mask * 2 ^ k) ⟩ 2 * bit_and (a / 2) (mask * 2 ^ k)
    ≡⟨ ap (λ (t : ℕ). 2 * t) (bit_and-shifted_mask k (a / 2) mask) ⟩
      2 * (bit_and (a / 2 / 2 ^ k) mask * 2 ^ k)
    ≡⟨ ap (λ (t : ℕ). 2 * (bit_and t mask * 2 ^ k)) shifted ⟩
      2 * (bit_and (a / 2 ^ suc k) mask * 2 ^ k)
    ≡⟨ omega (arith, double_shift (bit_and (a / 2 ^ suc k) mask) k) ⟩
      bit_and (a / 2 ^ suc k) mask * 2 ^ suc k ∎
  where
    shifted : a / 2 / 2 ^ k ≡ a / 2 ^ suc k
    shifted = div-div-eq-div-mul a 2 (2 ^ k) ∙ ap (λ (t : ℕ). a / t) (omega (arith, pow-suc 2 k))
