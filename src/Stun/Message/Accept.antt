-- ===== src/Stun/Message/Accept.antt =====
-- What `stun_message_validate_buffer_length` accepts.
use libxice.Base.{
  ℕ, zero, suc, ◌+◌, ◌-◌, ◌/◌, ◌*◌, ◌%◌, ◌^◌, ◌≤◌, ◌<◌, ◌≡◌, refl, sym, ap, ◌∙◌, arith,
}
use libxice.Base.{true, List, [], ◌∷◌, inl, inr, ◌≢◌}
use libxice.Base.{◌⊎◌, ◌↔◌}
use mathlib.Core.Path.{subst, subst₂}
use native.Mathlib.Decide.{dec_lt}
use libxice.Base.Memory.{Memory, byte}
use libxice.Stun.Utils.{stun_getw, stun_align}
use libxice.Stun.Utils.Words.{stun_align_lem, stun_getw-lt, stun_padding_lem}
use libxice.Stun.Message.Layout.{Attr, IsChain}
use libxice.Stun.Message.Chain.{offset-le-end}
use libxice.Stun.Message.Validate.{BufferLength, buffer_invalid, buffer_incomplete, buffer_length}
use libxice.Stun.Message.Validate.{out_of_fuel, validate_loop, stun_message_validate_buffer_length}

module _ (m : Memory) (mlen : ℕ) where
  abbrev alen_at : ℕ → ℕ
  alen_at p = stun_align (stun_getw m (p + 2))

  alen_lem : (p : ℕ) → alen_at p ≡ (stun_getw m (p + 2) + 3) / 4 * 4
  alen_lem p = stun_align_lem (stun_getw m (p + 2)) (omega (arith, stun_getw-lt m (p + 2)))

  -- The three outcomes of a round, on what is left of an aligned message.
  loop-end : (fuel p : ℕ) → validate_loop (suc fuel) m true mlen p 0 ≡ buffer_length mlen
  unfolding validate_loop
  loop-end fuel p = refl

  loop-short :
      (fuel p len : ℕ)
      → 4 ≤ len
      → len < 2 ^ 64
      → len < 4 + alen_at p
      → validate_loop (suc fuel) m true mlen p len ≡ buffer_invalid
  unfolding validate_loop
  loop-short fuel p len lo hi h = ground arith

  loop-next :
      (fuel p len : ℕ)
      → 4 ≤ len
      → len < 2 ^ 64
      → 4 + alen_at p ≤ len
      → validate_loop (suc fuel) m true mlen p len
        ≡ validate_loop fuel m true mlen (p + 4 + alen_at p) (len - 4 - alen_at p)
  unfolding validate_loop
  loop-next fuel p len lo hi h = ground arith

  -- The loop decides whether attributes fill the bytes that are left.
  abbrev Decides : ℕ → ℕ → BufferLength → Type 0
  Decides p len r =
      ((r ≡ buffer_length mlen) × ((attrs : List Attr) × IsChain m true p (p + len) attrs))
      ⊎ ((r ≡ buffer_invalid) × ((attrs : List Attr) → IsChain m true p (p + len) attrs → ⊥))

  Decides-short :
      (p len : ℕ) (r : BufferLength)
      → 4 ≤ len
      → len < 4 + alen_at p
      → r ≡ buffer_invalid
      → Decides p len r
  Decides-short p len r lo h e = inr (e, none_fits)
    where
      none_fits : (attrs : List Attr) → IsChain m true p (p + len) attrs → ⊥
      none_fits [] c = absurd (omega arith)
      none_fits ((t, n) ∷ attrs) c = omega (
        arith,
        offset-le-end m true (p + 4 + stun_align n) (p + len) attrs c.2,
        ap stun_align c.1,
      )

  Decides-next :
      (p len : ℕ) (r : BufferLength)
      → 4 ≤ len
      → 4 + alen_at p ≤ len
      → Decides (p + 4 + alen_at p) (len - 4 - alen_at p) r
      → Decides p len r
  Decides-next p len r lo fits (inl (e, (attrs, c))) = inl (
    e,
    (
      (stun_getw m p, stun_getw m (p + 2)) ∷ attrs,
      (refl, refl, subst (λ end. IsChain m true (p + 4 + alen_at p) end attrs) (omega arith) c),
    ),
  )
  Decides-next p len r lo fits (inr (e, refused)) = inr (e, none_fits)
    where
      none_fits : (attrs : List Attr) → IsChain m true p (p + len) attrs → ⊥
      none_fits [] c = absurd (omega arith)
      none_fits ((t, n) ∷ attrs) c = refused attrs (
          subst₂ (λ s end. IsChain m true (p + 4 + stun_align s) end attrs) (sym c.1) (omega arith)
            c.2)

  loop-Decides :
      (fuel p len : ℕ)
      → len < fuel
      → len % 4 ≡ 0
      → len < 2 ^ 64
      → Decides p len (validate_loop fuel m true mlen p len)
  loop-Decides zero p len hf h4 hi = absurd (omega arith)
  loop-Decides (suc fuel) p zero hf h4 hi = inl (loop-end fuel p, ([], omega arith))
  loop-Decides (suc fuel) p (suc n) hf h4 hi = elim (dec_lt (suc n) (4 + alen_at p)) [
    | yes h ↦
        Decides-short p (suc n) _ (omega arith) h (loop-short fuel p (suc n) (omega arith) hi h)
    | no h ↦ rw (loop-next fuel p (suc n) (omega arith) hi (omega arith)) (
        Decides-next p (suc n) _ (omega arith) (omega arith) (
          loop-Decides fuel (p + 4 + alen_at p) (suc n - 4 - alen_at p) (omega arith)
            (omega (arith, alen_lem p)) (omega arith)))
  ]

module _ (m : Memory) (length : ℕ) where
  abbrev mlen_of : ℕ
  mlen_of = stun_getw m 2 + 20

  abbrev loop_of : BufferLength
  loop_of = validate_loop mlen_of m true mlen_of 20 (mlen_of - 20)

  abbrev PassesHeader : Type 0
  PassesHeader = (byte m 0 < 64) × (mlen_of % 4 ≡ 0) × (mlen_of ≤ length)

  header-checked :
      (n : ℕ)
      → stun_message_validate_buffer_length m length true ≡ buffer_length n
      → PassesHeader × (loop_of ≡ buffer_length n)
  unfolding stun_message_validate_buffer_length
  header-checked n h = ground (arith, stun_padding_lem mlen_of)

  header-passed : PassesHeader → stun_message_validate_buffer_length m length true ≡ loop_of
  unfolding stun_message_validate_buffer_length
  header-passed h = ground (arith, stun_padding_lem mlen_of)

  loop_of-Decides : mlen_of % 4 ≡ 0 → Decides m mlen_of 20 (mlen_of - 20) loop_of
  loop_of-Decides h =
      loop-Decides m mlen_of mlen_of 20 (mlen_of - 20) (omega arith) (omega arith)
        (omega (arith, stun_getw-lt m 2))

  -- Where the header passes, the result is decided by the attributes.
  accepted-of :
      (n : ℕ)
      → PassesHeader
      → loop_of ≡ buffer_length n
      → (n ≡ mlen_of) × ((attrs : List Attr) × IsChain m true 20 n attrs)
  accepted-of n (first, four, fits) e = elim (loop_of-Decides four) [
    | inl (e', (attrs, c)) ↦
        let same : n ≡ mlen_of = cc in
        (same, (attrs, subst (λ end. IsChain m true 20 end attrs) (omega arith) c))
    | inr (e', none_fits) ↦ absurd (cc)
  ]

  accepts-of :
      (n : ℕ) (attrs : List Attr)
      → PassesHeader
      → n ≡ mlen_of
      → IsChain m true 20 n attrs
      → loop_of ≡ buffer_length n
  accepts-of n attrs (first, four, fits) e c = elim (loop_of-Decides four) [
    | inl (e', _) ↦ rw e e'
    | inr (e', none_fits) ↦
        absurd (none_fits attrs (subst (λ end. IsChain m true 20 end attrs) (omega arith) c))
  ]

  loop_of-cases : mlen_of % 4 ≡ 0 → (loop_of ≡ buffer_length mlen_of) ⊎ (loop_of ≡ buffer_invalid)
  loop_of-cases four = elim (loop_of-Decides four) [ inl (e, _) ↦ inl e | inr (e, _) ↦ inr e ]

-- With the padding of RFC 5389 a message is accepted exactly if its first two bits are zero, its
-- length is a multiple of four that the buffer holds, and its bytes behind the header are attributes
-- from end to end; what is returned is then the length of the message.
pub validate_accepts :
    (m : Memory) (length n : ℕ)
    → (stun_message_validate_buffer_length m length true ≡ buffer_length n) ↔ (
        (byte m 0 < 64)
        × (n ≡ stun_getw m 2 + 20)
        × (n % 4 ≡ 0)
        × (n ≤ length)
        × ((attrs : List Attr) × IsChain m true 20 n attrs))
validate_accepts m length n = (there, back)
  where
    there :
        stun_message_validate_buffer_length m length true ≡ buffer_length n
        → (byte m 0 < 64)
          × (n ≡ stun_getw m 2 + 20)
          × (n % 4 ≡ 0)
          × (n ≤ length)
          × ((attrs : List Attr) × IsChain m true 20 n attrs)
    there h =
        let (pass, e) = header-checked m length n h in
        let (same, chain) = accepted-of m length n pass e in
        (pass.0, same, omega arith, omega arith, chain)

    back :
        (byte m 0 < 64)
          × (n ≡ stun_getw m 2 + 20)
          × (n % 4 ≡ 0)
          × (n ≤ length)
          × ((attrs : List Attr) × IsChain m true 20 n attrs)
        → stun_message_validate_buffer_length m length true ≡ buffer_length n
    back (first, same, four, fits, (attrs, c)) =
        let pass : PassesHeader m length = omega arith in
        header-passed m length pass ∙ accepts-of m length n attrs pass same c

-- Incomplete is the answer exactly for a non-empty buffer that begins like a STUN message and either
-- has no whole length field, or names a length, a multiple of four, that it does not hold.
pub validate_incomplete :
    (m : Memory) (length : ℕ)
    → (stun_message_validate_buffer_length m length true ≡ buffer_incomplete) ↔ (
        (0 < length)
        × (byte m 0 < 64)
        × ((length < 4) ⊎ ((stun_getw m 2 % 4 ≡ 0) × (length < stun_getw m 2 + 20))))
unfolding stun_message_validate_buffer_length
validate_incomplete m length = (
  λ h. ground (arith, stun_padding_lem (mlen_of m length), loop_of-cases m length),
  λ h. ground (arith, stun_padding_lem (mlen_of m length)),
)

-- On an aligned message the loop ends, whatever the bytes are.
pub validate-ne-out_of_fuel :
    (m : Memory) (length : ℕ) → stun_message_validate_buffer_length m length true ≢ out_of_fuel
unfolding stun_message_validate_buffer_length
validate-ne-out_of_fuel m length h =
    ground (arith, stun_padding_lem (mlen_of m length), loop_of-cases m length)
