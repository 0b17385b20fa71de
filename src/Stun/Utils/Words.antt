-- ===== src/Stun/Utils/Words.antt =====
-- Padding and 16-bit words as arithmetic.
use libxice.Base.{ℕ, ◌+◌, ◌-◌, ◌*◌, ◌/◌, ◌%◌, ◌^◌, ◌≤◌, ◌<◌, bit_and, ◌≡◌, arith, ◌⊎◌}
use libxice.Base.Bits.{bit_and-low_mask, bit_and_digit, bit_or-shifted}
use libxice.Base.Memory.{Memory, byte}
use libxice.Stun.Utils.{stun_padding, stun_align, stun_getw, stun_setw}

pub stun_padding_lem : (l : ℕ) → stun_padding l ≡ (4 - l % 4) % 4
unfolding stun_padding
stun_padding_lem l = ground (arith, bit_and-low_mask 2 l, bit_and-low_mask 2 (4 - bit_and l 3))

quad_mask : (a : ℕ) → a < 2 ^ 64 → bit_and a (2 ^ 64 - 4) ≡ a / 4 * 4
quad_mask a h = omega (
  arith,
  bit_and_digit a (2 ^ 64 - 4),
  bit_and_digit (a / 2) (2 ^ 63 - 2),
  bit_and-low_mask 62 (a / 2 / 2),
)

pub stun_align_lem : (l : ℕ) → l + 3 < 2 ^ 64 → stun_align l ≡ (l + 3) / 4 * 4
unfolding stun_align
stun_align_lem l h = omega (arith, quad_mask ((l + 3) % 2 ^ 64) (omega arith))

-- The padded length is the length and its padding, the least multiple of 4 that is not below it.
pub stun_align-padding :
    (l : ℕ)
    → l + 3 < 2 ^ 64
    → (stun_align l ≡ l + stun_padding l) × (stun_align l % 4 ≡ 0) × (stun_padding l < 4)
stun_align-padding l h = omega (arith, stun_align_lem l h, stun_padding_lem l)

pub stun_getw_lem : (m : Memory) (p : ℕ) → stun_getw m p ≡ byte m p * 256 + byte m (p + 1)
unfolding stun_getw
stun_getw_lem m p = bit_or-shifted 8 (byte m p) (byte m (p + 1)) (omega arith)

pub stun_getw-lt : (m : Memory) (p : ℕ) → stun_getw m p < 2 ^ 16
stun_getw-lt m p = omega (arith, stun_getw_lem m p)

low_byte : (v : ℕ) → bit_and v 0xff ≡ v % 256
low_byte v = bit_and-low_mask 8 v

-- A word that was written is read back, up to its 16 bits.
pub stun_getw-setw : (m : Memory) (p v : ℕ) → stun_getw (stun_setw m p v) p ≡ v % 2 ^ 16
unfolding stun_setw
stun_getw-setw m p v = ground (arith, stun_getw_lem (stun_setw m p v) p, low_byte (v % 2 ^ 16))

-- `stun_setw` writes two bytes, and no others.
pub stun_setw-Agree : (m : Memory) (p v q : ℕ) → (q < p) ⊎ (p + 2 ≤ q) → stun_setw m p v q ≡ m q
unfolding stun_setw
stun_setw-Agree m p v q h = ground arith

pub stun_getw-Agree :
    (m m' : Memory) (p : ℕ) → m' p ≡ m p → m' (p + 1) ≡ m (p + 1) → stun_getw m' p ≡ stun_getw m p
unfolding stun_getw
stun_getw-Agree m m' p e e' = rw (e, e')
