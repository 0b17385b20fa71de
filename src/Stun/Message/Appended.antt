-- ===== src/Stun/Message/Appended.antt =====
-- `stun_message_append` puts one attribute behind those of the message.
use libxice.Base.{ℕ, ◌+◌, ◌^◌, ◌≤◌, ◌<◌, ◌≡◌, ◌⊎◌, inl, inr, refl, ◌∙◌, arith}
use libxice.Base.{List, [], ◌∷◌, ◌++◌, none, some}
use libxice.Base.{lt→ltb, le→ltb}
use native.Mathlib.Decide.{dec_lt}
use libxice.Base.Memory.{Agree}
use libxice.Stun.Types.{StunMessage}
use libxice.Stun.Utils.{stun_getw}
use libxice.Stun.Utils.Words.{stun_align_lem, stun_padding_lem}
use libxice.Stun.Message.{stun_message_length, stun_message_has_cookie, wire_type}
use libxice.Stun.Message.{is_aligned}
use libxice.Stun.Message.Append.{length_field, padding_of, append_buffer, stun_message_append}
use libxice.Stun.Message.Layout.{Attr}
use libxice.Stun.Message.Chain.{IsChain-Agree, IsChain-append, offset-le-end}
use libxice.Stun.Message.Search.{HasAttributes}
use libxice.Stun.Message.Extend.{room-stride, result-kept, result-pad, result-type, result-field}
use libxice.Stun.Message.Extend.{result-length, typed-has_cookie, field}

-- `msg'` is `msg` with an attribute of the type behind its attributes, with room for `n` bytes.
pub record IsAppended (msg : StunMessage) (attrs : List Attr) (type n : ℕ) (msg' : StunMessage)
    : Type 0 where
  pub attributes : HasAttributes msg' (attrs ++ (wire_type msg type, length_field msg n) ∷ [])
  pub longer : stun_message_length msg' ≡ stun_message_length msg + 4 + n + padding_of msg n
  -- The header but its length, the attributes before and the place of the value are as they were.
  pub header_kept : Agree msg.buffer msg'.buffer 0 2
  pub before_kept : Agree msg.buffer msg'.buffer 4 (stun_message_length msg)
  pub value_kept :
      Agree msg.buffer msg'.buffer (stun_message_length msg + 4) (stun_message_length msg + 4 + n)
  pub rest_kept : (q : ℕ) → stun_message_length msg' ≤ q → msg'.buffer q ≡ msg.buffer q
  pub same_agent : msg'.agent ≡ msg.agent
  pub same_size : msg'.buffer_len ≡ msg.buffer_len

module _ (msg : StunMessage) (attrs : List Attr) (type n : ℕ) (chain : HasAttributes msg attrs)
    (type_fits : wire_type msg type < 2 ^ 16)
    (no_wrap : stun_message_length msg + 4 + n + 3 < 2 ^ 16) where
  abbrev mlen : ℕ
  mlen = stun_message_length msg

  abbrev after : StunMessage
  after = record msg { buffer = append_buffer msg type n mlen }

  header : 20 ≤ mlen
  header = offset-le-end msg.buffer (is_aligned msg) 20 mlen attrs chain

  padding-lt : padding_of msg n < 4
  padding-lt = ground (arith, stun_padding_lem n)

  field-length_field : field msg type n mlen header ≡ length_field msg n
  field-length_field = rw (typed-has_cookie msg type n mlen header)

  field-lt : length_field msg n < 2 ^ 16
  field-lt = ground (arith, stun_align_lem n)

  after-length : stun_message_length after ≡ mlen + 4 + n + padding_of msg n
  unfolding stun_message_length
  after-length = result-length msg type n mlen header (omega (arith, padding-lt))

  after-field : stun_getw after.buffer (mlen + 2) ≡ length_field msg n
  after-field =
      result-field msg type n mlen header (rw field-length_field field-lt) ∙ field-length_field

  kept-before : Agree msg.buffer after.buffer 4 mlen
  kept-before q lo hi = result-kept msg type n mlen header q (inr lo) (inl hi)

  after-HasAttributes : HasAttributes after (attrs ++ (wire_type msg type, length_field msg n) ∷ [])
  after-HasAttributes =
      IsChain-append after.buffer (is_aligned msg) 20 mlen (stun_message_length after) attrs
        (wire_type msg type) (length_field msg n)
        (IsChain-Agree msg.buffer after.buffer (is_aligned msg) 20 mlen attrs
          (λ q lo hi. kept-before q (omega arith) hi) chain)
        (result-type msg type n mlen header type_fits) after-field
        (omega (
          arith,
          after-length,
          room-stride (is_aligned msg) (stun_message_has_cookie msg) n (omega arith),
        ))

  pub append-IsAppended : IsAppended msg attrs type n after
  append-IsAppended = record {
    attributes = after-HasAttributes;
    longer = after-length;
    header_kept =
        λ q lo hi. result-kept msg type n mlen header q (inl hi) (inl (omega (arith, header)));
    before_kept = kept-before;
    value_kept = λ q lo hi.
        result-kept msg type n mlen header q (inr (omega (arith, header))) (inr (inl (lo, hi)));
    rest_kept = λ q lo.
        result-kept msg type n mlen header q (inr (omega (arith, header, after-length)))
          (inr (inr (omega (arith, after-length))));
    same_agent = refl;
    same_size = refl;
  }

-- An append that fits succeeds: the value lies behind the header of a new attribute, which is the last
-- of the message; the attributes before it, the place of the value and all bytes behind the padding
-- are as they were. One that does not fit gives NULL and changes nothing.
pub stun_message_append_lem :
    (msg : StunMessage) (attrs : List Attr) (type n : ℕ)
    → HasAttributes msg attrs
    → wire_type msg type < 2 ^ 16
    → stun_message_length msg + 4 + n + 3 < 2 ^ 16
    → ((stun_message_length msg + 4 + n ≤ msg.buffer_len)
        × ((msg' : StunMessage) × (stun_message_append msg type n
              ≡ some (stun_message_length msg + 4, msg'))
            × IsAppended msg attrs type n msg'))
      ⊎ ((msg.buffer_len < stun_message_length msg + 4 + n)
          × (stun_message_append msg type n ≡ none))
unfolding stun_message_append
stun_message_append_lem msg attrs type n chain fits no_wrap =
    elim (dec_lt msg.buffer_len (stun_message_length msg + 4 + n)) [
      | yes h ↦ inr (h, rw (lt→ltb _ _ h))
      | no h ↦ inl (
        omega arith,
        (
          record msg { buffer = append_buffer msg type n (stun_message_length msg) },
          rw (le→ltb msg.buffer_len (stun_message_length msg + 4 + n) (omega arith)),
          append-IsAppended msg attrs type n chain fits no_wrap,
        ),
      )
    ]

-- The padding is not counted in the check: where a value with padding fills the buffer exactly, the
-- padding is written behind the end of the buffer.
pub append_overrun :
    (msg : StunMessage) (attrs : List Attr) (type n : ℕ)
    → HasAttributes msg attrs
    → stun_message_length msg + 4 + n ≡ msg.buffer_len
    → 0 < padding_of msg n
    → (ptr : ℕ) × (msg' : StunMessage) × (stun_message_append msg type n ≡ some (ptr, msg'))
      × (msg'.buffer msg.buffer_len ≡ 0x20)
unfolding stun_message_append
append_overrun msg attrs type n chain full padded = (
  stun_message_length msg + 4,
  record msg { buffer = append_buffer msg type n (stun_message_length msg) },
  rw (le→ltb msg.buffer_len (stun_message_length msg + 4 + n) (omega arith)),
  result-pad msg type n (stun_message_length msg)
      (offset-le-end msg.buffer (is_aligned msg) 20 (stun_message_length msg) attrs chain)
      msg.buffer_len (omega arith) (omega arith),
)
