-- ===== src/Stun/Message/Search.antt =====
-- What `stun_message_find` finds in a message whose bytes are a list of attributes.
use mathlib.Core.Path.{ap₂, subst}
use native.Mathlib.Decide.{ℕ_discrete}
use libxice.Base.{ℕ, zero, suc, ◌+◌, ◌≤◌, ◌<◌, ◌≡◌, ◌≢◌, ◌↔◌, inl, inr}
use libxice.Base.{refl, sym, ap, ◌∙◌, arith, Bool, true, false, List, [], ◌∷◌, ◌++◌}
use libxice.Base.{Option, none, some, Bool-cases}
use libxice.Base.Memory.{Memory}
use libxice.Stun.Types.{StunMessage}
use libxice.Stun.Utils.{stun_getw}
use libxice.Stun.Message.{find_loop, hides, stride, stun_message_find, stun_message_length}
use libxice.Stun.Message.{wire_type, is_aligned}
use libxice.Stun.Message.Layout.{Attr, IsChain, end_of}
use libxice.Stun.Message.Chain.{offset-le-end}

-- None of the attributes is of the type, and none hides it.
abbrev pub IsClear : ℕ → List Attr → Type 0
IsClear type [] = Unit
IsClear type ((t, n) ∷ attrs) = (t ≢ type) × (hides type t ≡ false) × IsClear type attrs

-- The first attribute of the type has the length `n`, its value lies at `p`, and no attribute before
-- it hides it.
abbrev pub IsFirst : ℕ → Bool → ℕ → List Attr → ℕ → ℕ → Type 0
IsFirst type aligned offset attrs n p =
    (before : List Attr) × (after : List Attr) × (attrs ≡ before ++ (type, n) ∷ after)
    × IsClear type before
    × (p ≡ end_of aligned offset before + 4)

found_parts :
    (a b c d : ℕ) → ◌≡◌ {A = Option (ℕ × ℕ)} (some (a, b)) (some (c, d)) → (a ≡ c) × (b ≡ d)
found_parts a b c d e = ground arith

module _ (m : Memory) (aligned : Bool) (type length : ℕ) where
  abbrev next : ℕ → ℕ
  next offset = offset + 4 + stride aligned (stun_getw m (offset + 2))

  find_loop-end : (fuel : ℕ) → find_loop m aligned type length fuel length ≡ none
  unfolding find_loop
  find_loop-end zero = refl
  find_loop-end (suc fuel) = ground arith

  find_loop-hit :
      (fuel offset : ℕ)
      → offset < length
      → stun_getw m offset ≡ type
      → find_loop m aligned type length (suc fuel) offset
        ≡ some (stun_getw m (offset + 2), offset + 4)
  unfolding find_loop
  find_loop-hit fuel offset h e = ground arith

  find_loop-hidden :
      (fuel offset : ℕ)
      → stun_getw m offset ≢ type
      → hides type (stun_getw m offset) ≡ true
      → find_loop m aligned type length (suc fuel) offset ≡ none
  unfolding find_loop
  find_loop-hidden fuel offset e h = ground arith

  find_loop-next :
      (fuel offset : ℕ)
      → offset < length
      → stun_getw m offset ≢ type
      → hides type (stun_getw m offset) ≡ false
      → find_loop m aligned type length (suc fuel) offset
        ≡ find_loop m aligned type length fuel (next offset)
  unfolding find_loop
  find_loop-next fuel offset h e c = ground arith

  -- A first attribute is found.
  find_loop-IsFirst :
      (fuel offset : ℕ) (before after : List Attr) (n : ℕ)
      → length ≤ fuel + offset
      → IsChain m aligned offset length (before ++ (type, n) ∷ after)
      → IsClear type before
      → find_loop m aligned type length fuel offset ≡ some (n, end_of aligned offset before + 4)
  find_loop-IsFirst zero offset [] after n hf c clear =
      absurd
        (omega (arith, offset-le-end m aligned (offset + 4 + stride aligned n) length after c.2))
  find_loop-IsFirst zero offset ((t, k) ∷ before) after n hf c clear = absurd (
      omega (
        arith,
        offset-le-end m aligned (offset + 4 + stride aligned k) length (before ++ (type, n) ∷ after)
            c.2,
      ))
  find_loop-IsFirst (suc fuel) offset [] after n hf c clear =
      find_loop-hit fuel offset
        (omega (arith, offset-le-end m aligned (offset + 4 + stride aligned n) length after c.2))
        c.0
      ∙ ap (λ (k : ℕ). some (k, offset + 4)) c.1
  find_loop-IsFirst (suc fuel) offset ((t, k) ∷ before) after n hf c clear =
      let le =
        offset-le-end m aligned (offset + 4 + stride aligned k) length (before ++ (type, n) ∷ after)
          c.2 in
      find_loop-next fuel offset (omega arith) (λ e. clear.0 (sym c.0 ∙ e))
        (ap (hides type) c.0 ∙ clear.1)
      ∙ ap (λ (s : ℕ). find_loop m aligned type length fuel (offset + 4 + stride aligned s)) c.1
      ∙ find_loop-IsFirst fuel (offset + 4 + stride aligned k) before after n (omega arith) c.2
          clear.2

  -- What is found is a first attribute.
  IsFirst-find_loop :
      (fuel offset : ℕ) (attrs : List Attr) (n p : ℕ)
      → IsChain m aligned offset length attrs
      → find_loop m aligned type length fuel offset ≡ some (n, p)
      → IsFirst type aligned offset attrs n p
  IsFirst-find_loop fuel offset [] n p c e =
      absurd (cc (find_loop-end fuel, ap (find_loop m aligned type length fuel) c))
  IsFirst-find_loop zero offset ((t, k) ∷ attrs) n p c e = absurd (unfold find_loop in cc e)
  IsFirst-find_loop (suc fuel) offset ((t, k) ∷ attrs) n p c e = elim (ℕ_discrete t type) [
    | yes same ↦
        let (hit_n, hit_p) =
          found_parts (stun_getw m (offset + 2)) (offset + 4) n p
            (sym (find_loop-hit fuel offset (inside c.2) (c.0 ∙ same)) ∙ e) in
        ([], attrs, ap₂ (λ (a b : ℕ). (a, b) ∷ attrs) same (sym c.1 ∙ hit_n), tt, sym hit_p)
    | no other ↦ elim (Bool-cases (hides type t)) [
      | inl hidden ↦ absurd (
          cc (
            find_loop-hidden fuel offset (λ q. other (sym c.0 ∙ q)) (ap (hides type) c.0 ∙ hidden)))
      | inr seen ↦
          let rest : find_loop m aligned type length fuel (offset + 4 + stride aligned k)
              ≡ some (n, p) =
            ap (λ (s : ℕ). find_loop m aligned type length fuel (offset + 4 + stride aligned s))
              (sym c.1)
            ∙ sym (
                find_loop-next fuel offset (inside c.2) (λ q. other (sym c.0 ∙ q))
                  (ap (hides type) c.0 ∙ seen))
            ∙ e in
          let (before, after, split, clear, at) =
            IsFirst-find_loop fuel (offset + 4 + stride aligned k) attrs n p c.2 rest in
          (
            (t, k) ∷ before,
            after,
            ap (λ (l : List Attr). (t, k) ∷ l) split,
            (other, seen, clear),
            at,
          )
    ]
  ]
    where
      inside : IsChain m aligned (offset + 4 + stride aligned k) length attrs → offset < length
      inside h =
          omega (arith, offset-le-end m aligned (offset + 4 + stride aligned k) length attrs h)

-- The whole message is a header and the attributes `attrs`.
abbrev pub HasAttributes : StunMessage → List Attr → Type 0
HasAttributes msg attrs = IsChain msg.buffer (is_aligned msg) 20 (stun_message_length msg) attrs

-- In a message that is a list of attributes the search gives a length and a place exactly if they are
-- those of the first attribute of the type (REALM and NONCE swapped for MS-TURN), and if no
-- MESSAGE-INTEGRITY or FINGERPRINT before it hides it: after the first only FINGERPRINT is seen, and
-- after the second nothing.
pub stun_message_find_iff :
    (msg : StunMessage) (attrs : List Attr) (type n p : ℕ)
    → HasAttributes msg attrs
    → (stun_message_find msg type ≡ some (n, p))
      ↔ IsFirst (wire_type msg type) (is_aligned msg) 20 attrs n p
unfolding stun_message_find
stun_message_find_iff msg attrs type n p c = (there, back)
  where
    t : ℕ
    t = wire_type msg type

    len : ℕ
    len = stun_message_length msg

    there : stun_message_find msg type ≡ some (n, p) → IsFirst t (is_aligned msg) 20 attrs n p
    there e = IsFirst-find_loop msg.buffer (is_aligned msg) t len len 20 attrs n p c e

    back : IsFirst t (is_aligned msg) 20 attrs n p → stun_message_find msg type ≡ some (n, p)
    back (before, after, split, clear, at) =
        find_loop-IsFirst msg.buffer (is_aligned msg) t len len 20 before after n (omega arith)
          (subst (λ l. IsChain msg.buffer (is_aligned msg) 20 len l) split c) clear
        ∙ ap (λ (q : ℕ). some (n, q)) (sym at)
