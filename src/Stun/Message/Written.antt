-- ===== src/Stun/Message/Written.antt =====
-- The functions that append an attribute and write its value: the value is found again.
use mathlib.Core.Path.{subst}
use libxice.Base.{ℕ, ◌+◌, ◌%◌, ◌^◌, ◌≤◌, ◌<◌, ◌≡◌, ◌⊎◌, inl, refl, sym, ap, ◌∙◌, arith}
use libxice.Base.{List, [], ◌∷◌, ◌++◌, some}
use libxice.Base.{le→ltb}
use libxice.Base.Memory.{Memory, Agree}
use libxice.Stun.Constants.{success}
use libxice.Stun.Utils.Words.{stun_getw-Agree}
use libxice.Stun.Types.{StunMessage}
use libxice.Stun.Message.{stun_message_length, wire_type, is_aligned, stun_message_find}
use libxice.Stun.Message.Append.{length_field, padding_of, append_buffer, stun_message_append}
use libxice.Stun.Message.Append.{append_with}
use libxice.Stun.Message.Layout.{Attr, IsChain}
use libxice.Stun.Message.Chain.{IsChain-value, IsChain-Agree, offset-le-end, end-end_of}
use libxice.Stun.Message.Search.{HasAttributes, IsClear, stun_message_find_iff}
use libxice.Stun.Message.Appended.{IsAppended, append-IsAppended}

-- `msg` can take an attribute of the type with `n` bytes, and none of its attributes keeps that from
-- being found.
pub record CanTake (msg : StunMessage) (attrs : List Attr) (type n : ℕ) : Type 0 where
  pub chain : HasAttributes msg attrs
  pub clear : IsClear (wire_type msg type) attrs
  pub type_fits : wire_type msg type < 2 ^ 16
  pub no_wrap : stun_message_length msg + 4 + n + 3 < 2 ^ 16
  pub space : stun_message_length msg + 4 + n ≤ msg.buffer_len

-- `msg'` is `msg` with the attribute behind `attrs`, where it is found, and a value `written`.
pub record IsWritten (msg : StunMessage) (attrs : List Attr) (type n : ℕ)
    (written : Memory → Memory) (msg' : StunMessage) : Type 0 where
  pub attributes : HasAttributes msg' (attrs ++ (wire_type msg type, length_field msg n) ∷ [])
  pub found : stun_message_find msg' type ≡ some (length_field msg n, stun_message_length msg + 4)
  pub longer : stun_message_length msg' ≡ stun_message_length msg + 4 + n + padding_of msg n
  pub bytes : msg'.buffer ≡ written (append_buffer msg type n (stun_message_length msg))
  pub header_kept : Agree msg.buffer msg'.buffer 4 20
  pub same_agent : msg'.agent ≡ msg.agent
  pub same_size : msg'.buffer_len ≡ msg.buffer_len

-- The writes `f` stay in the `n` bytes from `ptr` on.
abbrev pub IsLocal : ℕ → (ℕ → Memory → Memory) → Type 0
IsLocal n f = (ptr : ℕ) (m : Memory) (q : ℕ) → (q < ptr) ⊎ (ptr + n ≤ q) → f ptr m q ≡ m q

append-some :
    (msg : StunMessage) (type n : ℕ)
    → stun_message_length msg + 4 + n ≤ msg.buffer_len
    → stun_message_append msg type n
      ≡ some (
        stun_message_length msg + 4,
        record msg { buffer = append_buffer msg type n (stun_message_length msg) },
      )
unfolding stun_message_append
append-some msg type n h = rw (le→ltb msg.buffer_len (stun_message_length msg + 4 + n) h)

append_with-some :
    (msg : StunMessage) (type n : ℕ) (f : ℕ → Memory → Memory) {p : ℕ} {msg' : StunMessage}
    → stun_message_append msg type n ≡ some (p, msg')
    → append_with msg type n f ≡ (success, record msg' { buffer = f p msg'.buffer })
append_with-some msg type n f e = rw (e, append_with)

module _ (msg : StunMessage) (attrs : List Attr) (type n : ℕ) (f : ℕ → Memory → Memory)
    (can : CanTake msg attrs type n) (local : IsLocal n f) where
  abbrev ptr : ℕ
  ptr = stun_message_length msg + 4

  abbrev appended : Memory
  appended = append_buffer msg type n (stun_message_length msg)

  abbrev written : StunMessage
  written = record msg { buffer = f ptr appended }

  abbrev step : IsAppended msg attrs type n (record msg { buffer = appended })
  step = append-IsAppended msg attrs type n can.chain can.type_fits can.no_wrap

  header : 20 ≤ stun_message_length msg
  header = offset-le-end msg.buffer (is_aligned msg) 20 (stun_message_length msg) attrs can.chain

  low_kept : (q : ℕ) → q < ptr → f ptr appended q ≡ appended q
  low_kept q h = local ptr appended q (inl h)

  written-length : stun_message_length written ≡ stun_message_length msg + 4 + n + padding_of msg n
  unfolding stun_message_length
  written-length =
      ap (λ (w : ℕ). (w + 20) % 2 ^ 16)
        (stun_getw-Agree appended (f ptr appended) 2 (low_kept 2 (omega (arith, header)))
          (low_kept 3 (omega (arith, header))))
      ∙ step.longer

  written-HasAttributes :
      HasAttributes written (attrs ++ (wire_type msg type, length_field msg n) ∷ [])
  written-HasAttributes =
      subst
        (λ end.
          IsChain written.buffer (is_aligned msg) 20 end
            (attrs ++ (wire_type msg type, length_field msg n) ∷ []))
        (step.longer ∙ sym written-length)
        (IsChain-value appended written.buffer (is_aligned msg) 20 (stun_message_length msg)
          (stun_message_length (record msg { buffer = appended })) attrs (wire_type msg type)
          (length_field msg n) (λ q lo hi. low_kept q hi) before step.attributes)
    where
      before : IsChain appended (is_aligned msg) 20 (stun_message_length msg) attrs
      before =
          IsChain-Agree msg.buffer appended (is_aligned msg) 20 (stun_message_length msg) attrs
            (λ q lo hi. step.before_kept q (omega arith) hi) can.chain

  append_with-eq : append_with msg type n f ≡ (success, written)
  append_with-eq = append_with-some msg type n f (append-some msg type n can.space)

  written-find : stun_message_find written type ≡ some (length_field msg n, ptr)
  written-find =
      (stun_message_find_iff written (attrs ++ (wire_type msg type, length_field msg n) ∷ []) type
          (length_field msg n) ptr written-HasAttributes).1
        (
          attrs,
          [],
          refl,
          can.clear,
          ap (λ (p : ℕ). p + 4)
              (end-end_of msg.buffer (is_aligned msg) 20 (stun_message_length msg) attrs can.chain),
        )

  pub append_with-IsWritten :
      (msg' : StunMessage) × (append_with msg type n f ≡ (success, msg'))
      × IsWritten msg attrs type n (f ptr) msg'
  append_with-IsWritten = (
    written,
    append_with-eq,
    record {
      attributes = written-HasAttributes;
      found = written-find;
      longer = written-length;
      bytes = refl;
      header_kept = λ q lo hi.
          low_kept q (omega (arith, header)) ∙ step.before_kept q lo (omega (arith, header));
      same_agent = refl;
      same_size = refl;
    },
  )
