-- ===== src/Base/Memory.antt =====
-- The bytes that a `uint8_t *` gives access to, as a function of the offset from the pointer.
-- A cell of type uint8_t keeps its value modulo 256, whatever was stored; there is no end, so that an
-- access past the size of a buffer is seen as what it is.
pub mod Laws
use libxice.Base.Tests.{◌==◌, if◌then◌else◌, ltb, leb}
use libxice.Base.Lists.{length, get_or}
use libxice.Base.Bits.{bit_or-shifted}
use Prim.Native.Nat.{ℕ, zero, suc, ◌+◌, ◌-◌, ◌*◌, ◌%◌, ◌^◌, ◌≤◌, ◌<◌, bit_or}
use mathlib.Core.Path.{◌≡◌, refl}
use mathlib.Core.Logic.{◌⊎◌}
use mathlib.Core.Bool.{◌&&◌}
use mathlib.Core.List.{List, [], ◌∷◌}
use native.Mathlib.Omega.{arith}

abbrev pub Memory : Type 0
Memory = ℕ → ℕ

abbrev pub byte : Memory → ℕ → ℕ
byte m p = m p % 2 ^ 8

-- `*p = v`
abbrev pub store : Memory → ℕ → ℕ → Memory
store m p v q = if p == q then v else m q

-- `memcpy (p, xs, length xs)`
abbrev pub store_bytes : Memory → ℕ → List ℕ → Memory
store_bytes m p xs q = if leb p q && ltb q (p + length xs) then get_or xs (q - p) 0 else m q

-- `memset (p, v, n)`
abbrev pub fill : Memory → ℕ → ℕ → ℕ → Memory
fill m p v n q = if leb p q && ltb q (p + n) then v else m q

-- The `n` bytes from `p` on.
abbrev pub load_bytes : Memory → ℕ → ℕ → List ℕ
load_bytes m p zero = []
load_bytes m p (suc n) = byte m p ∷ load_bytes m (p + 1) n

-- A buffer that holds the given bytes, and then zeros.
abbrev pub from_bytes : List ℕ → Memory
from_bytes xs p = get_or xs p 0

-- The two memories hold the same bytes at `lo ≤ p < hi`.
abbrev pub Agree : Memory → Memory → ℕ → ℕ → Type 0
Agree m m' lo hi = (p : ℕ) → lo ≤ p → p < hi → m' p ≡ m p
