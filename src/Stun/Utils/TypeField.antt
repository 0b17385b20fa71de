-- ===== src/Stun/Utils/TypeField.antt =====
-- The class and the method in the first two bytes of a message.
use libxice.Base.{ℕ, ◌+◌, ◌*◌, ◌/◌, ◌<◌, ◌≡◌, refl, arith, Bool, true, ◌&&◌, ◌==◌}
use libxice.Base.{bit_and, bit_or}
use libxice.Base.Bits.{holds_below, holds_below_lem}
use libxice.Stun.Utils.{type_high, type_low}

-- Both bytes are bytes, and the method, and the class, are got from the word that they make.
abbrev pub word : ℕ → ℕ → ℕ
word c m = type_high c m * 256 + type_low c m

abbrev round : ℕ → ℕ → Bool
round c m =
    (type_high c m / 64 == 0)
    && (type_low c m / 256 == 0)
    && (bit_or (bit_or (bit_and (word c m) 0x3e00 / 4) (bit_and (word c m) 0x00e0 / 2))
          (bit_and (word c m) 0x000f)
        == m)
    && (bit_or (bit_and (word c m) 0x0100 / 128) (bit_and (word c m) 0x0010 / 16) == c)

rounds : holds_below (λ c. holds_below (round c) 4096) 4 ≡ true
unfolding holds_below
rounds = refl

round_holds : (c m : ℕ) → c < 4 → m < 4096 → round c m ≡ true
round_holds c m hc hm =
    holds_below_lem (round c) 4096 m hm
      (holds_below_lem (λ d. holds_below (round d) 4096) 4 c hc rounds)

-- What the two bytes are, for a class value below 4 and a method of 12 bits.
pub record IsTypeField (c m : ℕ) : Type 0 where
  pub high_bits : type_high c m < 64
  pub low_bits : type_low c m < 256
  pub method_back :
      bit_or
        (bit_or (bit_and (word c m) 0x3e00 / 4) (bit_and (word c m) 0x00e0 / 2))
        (bit_and (word c m) 0x000f)
      ≡ m
  pub class_back : bit_or (bit_and (word c m) 0x0100 / 128) (bit_and (word c m) 0x0010 / 16) ≡ c

pub type_field : (c m : ℕ) → c < 4 → m < 4096 → IsTypeField c m
type_field c m hc hm = ground (arith, round_holds c m hc hm)
