-- ===== src/Stun/Crc/Serial.antt =====
-- stun/stuncrc32.c: the table-driven CRC against the bit-serial one.
use native.Mathlib.Nat.{pow-suc}
use libxice.Base.{ℕ, zero, suc, ◌*◌, ◌/◌, ◌%◌, ◌^◌, ◌<◌, ◌≡◌, refl, ap, sym, ◌∙◌, arith}
use libxice.Base.{bit_xor, bit_and, Bool, true, false, ◌&&◌, List, [], ◌∷◌, All, get_or}
use libxice.Base.{==_iff, ◌==◌, if◌then◌else◌}
use libxice.Base.Bits.{bit_and-low_mask, holds_below, holds_below_lem, bit_xor-halves}
use libxice.Base.Bits.{bit_xor-right_comm, bit_xor-shifted, bit_xor-high}
use libxice.Stun.Crc.{crc_step, crc_loop, stun_crc32}
use libxice.Stun.Crc.Table.{crc32_tab}

-- One bit: the register is shifted, and the reversed polynomial is subtracted where a one falls out.
abbrev pub bit_step : ℕ → ℕ
bit_step crc = if crc % 2 == 1 then bit_xor (crc / 2) 0xEDB88320 else crc / 2

abbrev pub bit_steps : ℕ → ℕ → ℕ
bit_steps zero crc = crc
bit_steps (suc n) crc = bit_steps n (bit_step crc)

-- The CRC of the bytes, bit by bit.
abbrev pub serial_crc : ℕ → List ℕ → ℕ
serial_crc crc [] = crc
serial_crc crc (p ∷ ps) = serial_crc (bit_steps 8 (bit_xor crc p)) ps

bit_step-xor : (a c : ℕ) → bit_step (bit_xor a (2 * c)) ≡ bit_xor (bit_step a) c
bit_step-xor a c = ground (arith, bit_xor-halves a (2 * c), bit_xor-right_comm (a / 2) c 0xEDB88320)

bit_steps-xor : (n a c : ℕ) → bit_steps n (bit_xor a (c * 2 ^ n)) ≡ bit_xor (bit_steps n a) c
bit_steps-xor zero a c = ap (bit_xor a) (omega arith)
bit_steps-xor (suc n) a c =
    let e : c * 2 ^ suc n ≡ 2 * (c * 2 ^ n) = omega (arith, ap (λ (t : ℕ). c * t) (pow-suc 2 n)) in
    rw (e, bit_step-xor a (c * 2 ^ n)) (bit_steps-xor n (bit_step a) c)

table_test : holds_below (λ i. get_or crc32_tab i 0 == bit_steps 8 i) 256 ≡ true
unfolding holds_below
table_test = refl

-- Every entry of the table is what eight steps make of its index.
table_lem : (i : ℕ) → i < 256 → get_or crc32_tab i 0 ≡ bit_steps 8 i
table_lem i h =
    let e = holds_below_lem (λ i. get_or crc32_tab i 0 == bit_steps 8 i) 256 i h table_test in
    (==_iff (get_or crc32_tab i 0) (bit_steps 8 i)).0 e

bit_steps-byte : (x : ℕ) → bit_steps 8 x ≡ bit_xor (get_or crc32_tab (x % 256) 0) (x / 256)
bit_steps-byte x =
    let e : x ≡ bit_xor (x % 2 ^ 8) (x / 2 ^ 8 * 2 ^ 8) =
      omega (arith, bit_xor-shifted 8 (x / 2 ^ 8) (x % 2 ^ 8) (omega arith)) in
    ap (bit_steps 8) e
    ∙ bit_steps-xor 8 (x % 256) (x / 256)
    ∙ ap (λ (t : ℕ). bit_xor t (x / 256)) (sym (table_lem (x % 256) (omega arith)))

no_typo : (b : Bool) (x y : ℕ) → (if b && false then x else y) ≡ y
no_typo true x y = refl
no_typo false x y = refl

step_lem : (crc p : ℕ) → p < 256 → crc_step false crc p ≡ bit_steps 8 (bit_xor crc p)
step_lem crc p h =
    let x = bit_xor crc p in
    let entry = get_or crc32_tab (bit_and x 0xFF) 0 in
    ap (λ (t : ℕ). bit_xor t (crc / 256)) (no_typo (entry == 0x8bbeb8ea) 0x8bbe8ea entry)
    ∙ ap (λ (t : ℕ). bit_xor (get_or crc32_tab t 0) (crc / 256)) (bit_and-low_mask 8 x)
    ∙ ap (bit_xor (get_or crc32_tab (x % 256) 0)) (sym (bit_xor-high 8 crc p h))
    ∙ sym (bit_steps-byte x)

crc_loop_lem :
    (crc : ℕ) (ps : List ℕ) → All (λ p. p < 256) ps → crc_loop false crc ps ≡ serial_crc crc ps
unfolding crc_loop
crc_loop_lem crc [] h = refl
crc_loop_lem crc (p ∷ ps) (hp, hs) =
    rw (step_lem crc p hp) (crc_loop_lem (bit_steps 8 (bit_xor crc p)) ps hs)

-- The table-driven CRC of a text is the CRC-32 that the reversed polynomial 0xEDB88320 defines: all
-- ones at the start, one step for each bit, and the complement at the end.
pub stun_crc32_lem :
    (ps : List ℕ)
    → All (λ p. p < 256) ps
    → stun_crc32 ps false ≡ bit_xor (serial_crc 0xffffffff ps) 0xffffffff
unfolding stun_crc32
stun_crc32_lem ps h = ap (λ (t : ℕ). bit_xor t 0xffffffff) (crc_loop_lem 0xffffffff ps h)
