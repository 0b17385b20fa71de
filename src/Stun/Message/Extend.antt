-- ===== src/Stun/Message/Extend.antt =====
-- What `stun_message_append` does to the attributes of a message, and to the bytes behind them.
use libxice.Base.{ℕ, ◌+◌, ◌%◌, ◌^◌, ◌≤◌, ◌<◌, ◌≡◌, ◌⊎◌, inl, inr, ◌∙◌, arith}
use libxice.Base.{Bool, true, false, if◌then◌else◌}
use libxice.Base.Memory.{Memory, fill}
use libxice.Stun.Types.{StunMessage}
use libxice.Stun.Utils.{stun_getw, stun_setw, stun_align, stun_padding}
use libxice.Stun.Utils.Words.{stun_getw-Agree, stun_getw-setw, stun_setw-Agree}
use libxice.Stun.Utils.Words.{stun_align_lem, stun_padding_lem, stun_align-padding}
use libxice.Stun.Message.{stride, stun_message_has_cookie, wire_type}
use libxice.Stun.Message.Append.{length_field, padding_of, append_buffer}

-- The room that a value of the length takes with its padding.
pub room-stride :
    (aligned cookie : Bool) (length : ℕ)
    → length < 2 ^ 16
    → length + (if aligned then stun_padding length else 0)
      ≡ stride aligned (if aligned then if cookie then length else stun_align length else length)
room-stride true true length h = omega (arith, stun_align-padding length (omega arith))
room-stride true false length h = omega (
  arith,
  stun_align_lem length (omega arith),
  stun_padding_lem length,
  stun_align_lem (stun_align length) (omega (arith, stun_align_lem length (omega arith))),
)
room-stride false cookie length h = omega arith

module _ (msg : StunMessage) (type length mlen : ℕ) (header : 20 ≤ mlen) where
  abbrev pub typed : Memory
  typed = stun_setw msg.buffer mlen (wire_type msg type)

  abbrev pub field : ℕ
  field = length_field (record msg { buffer = typed }) length

  abbrev measured : Memory
  measured = stun_setw typed (mlen + 2) field

  abbrev padded : Memory
  padded = fill measured (mlen + 4 + length) 0x20 (padding_of msg length)

  abbrev pub result : Memory
  result = append_buffer msg type length mlen

  -- The write of the message's length changes the bytes 2 and 3.
  result-padded : (q : ℕ) → (q < 2) ⊎ (4 ≤ q) → result q ≡ padded q
  result-padded q h = stun_setw-Agree padded 2 _ q (ground arith)

  result-typed : (q : ℕ) → mlen ≤ q → q < mlen + 2 → result q ≡ typed q
  result-typed q lo hi =
      result-padded q (inr (omega arith))
      ∙ ground (arith, stun_setw-Agree typed (mlen + 2) field q (inl (omega arith)))

  result-measured : (q : ℕ) → mlen + 2 ≤ q → q < mlen + 4 → result q ≡ measured q
  result-measured q lo hi = result-padded q (inr (omega arith)) ∙ ground arith

  -- Outside the bytes 2 and 3, the four bytes at `mlen` and the padding nothing changes.
  pub result-kept :
      (q : ℕ)
      → (q < 2) ⊎ (4 ≤ q)
      → (q < mlen)
        ⊎ (((mlen + 4 ≤ q) × (q < mlen + 4 + length))
            ⊎ (mlen + 4 + length + padding_of msg length ≤ q))
      → result q ≡ msg.buffer q
  result-kept q away h =
      result-padded q away
      ∙ ground (
        arith,
        stun_setw-Agree msg.buffer mlen (wire_type msg type) q,
        stun_setw-Agree typed (mlen + 2) field q,
      )

  pub result-pad :
      (q : ℕ)
      → mlen + 4 + length ≤ q
      → q < mlen + 4 + length + padding_of msg length
      → result q ≡ 0x20
  result-pad q lo hi = result-padded q (inr (omega arith)) ∙ ground arith

  pub result-type : wire_type msg type < 2 ^ 16 → stun_getw result mlen ≡ wire_type msg type
  result-type h =
      stun_getw-Agree typed result mlen (result-typed mlen (omega arith) (omega arith))
        (result-typed (mlen + 1) (omega arith) (omega arith))
      ∙ stun_getw-setw msg.buffer mlen (wire_type msg type)
      ∙ omega arith

  pub result-field : field < 2 ^ 16 → stun_getw result (mlen + 2) ≡ field
  result-field h =
      stun_getw-Agree measured result (mlen + 2)
        (result-measured (mlen + 2) (omega arith) (omega arith))
        (result-measured (mlen + 2 + 1) (omega arith) (omega arith))
      ∙ stun_getw-setw typed (mlen + 2) field
      ∙ omega arith

  pub result-length :
      mlen + 4 + length + padding_of msg length < 2 ^ 16
      → (stun_getw result 2 + 20) % 2 ^ 16 ≡ mlen + 4 + length + padding_of msg length
  result-length h = omega (arith, stun_getw-setw padded 2 _)

  -- The cookie lies before the place where the attribute is written.
  pub typed-has_cookie :
      stun_message_has_cookie (record msg { buffer = typed }) ≡ stun_message_has_cookie msg
  unfolding stun_message_has_cookie
  typed-has_cookie =
      rw (kept 4 (omega arith), kept 5 (omega arith), kept 6 (omega arith), kept 7 (omega arith))
    where
      kept : (q : ℕ) → q < 20 → typed q ≡ msg.buffer q
      kept q h = stun_setw-Agree msg.buffer mlen (wire_type msg type) q (inl (omega arith))
