-- ===== src/Stun/Agent/Fingerprint.antt =====
-- stun/stunagent.c: the FINGERPRINT that `stun_agent_finish_message` writes, against the check of
-- `stun_agent_validate`.
use mathlib.Core.Path.{ap₂}
use libxice.Base.{ℕ, ◌+◌, ◌-◌, ◌/◌, ◌%◌, ◌^◌, ◌≤◌, ◌<◌, ◌≡◌, inl, refl, sym, ap, ◌∙◌, arith}
use libxice.Base.{Bool, true, false, ◌&&◌, some, List, [], ◌∷◌, ◌++◌, get_or, ltb, ltb→lt, ◌==◌}
use libxice.Base.{if◌then◌else◌, bit_xor, bit_and}
use libxice.Base.Bits.{holds_below, holds_below_lem, bit_xor-lt, bit_and-low_mask}
use libxice.Base.Memory.{Memory, store_bytes, Agree}
use libxice.Base.Memory.Laws.{store_bytes_outside, load_bytes-Agree}
use libxice.Stun.Constants.{use_fingerprint, success}
use libxice.Stun.Constants.Attribute
use libxice.Stun.Types.{StunAgent, StunMessage, has_flag}
use libxice.Stun.Utils.Words.{stun_padding_lem}
use libxice.Stun.Message.{stun_message_length, stun_message_find, is_aligned, word32}
use libxice.Stun.Message.Append.{append_buffer, padding_of, bytes16, bytes32}
use libxice.Stun.Message.Typed.{stun_message_find32}
use libxice.Stun.Message.Layout.{Attr}
use libxice.Stun.Message.Chain.{offset-le-end}
use libxice.Stun.Message.Appended.{append-IsAppended}
use libxice.Stun.Message.Written.{CanTake, IsLocal, append_with-IsWritten}
use libxice.Stun.Message.RoundTrip.{length_field_of_quad, word32_of_bytes, find32_of_found}
use libxice.Stun.Crc.{crc_step, crc_loop, stun_crc32, stun_fingerprint}
use libxice.Stun.Crc.Table.{crc32_tab}
use libxice.Stun.Agent.{follows_rfc5389, is_wlm2009}
use libxice.Stun.Agent.Receive.{fingerprint_matches}
use libxice.Stun.Agent.Finish.{length_of, add_fingerprint}

table_test : holds_below (λ i. ltb (get_or crc32_tab i 0) (2 ^ 32)) 256 ≡ true
unfolding holds_below
table_test = refl

entry-lt : (b : Bool) (lkp : ℕ) → lkp < 2 ^ 32 → (if b then 0x8bbe8ea else lkp) < 2 ^ 32
entry-lt true lkp h = omega arith
entry-lt false lkp h = h

table-lt : (i : ℕ) → i < 256 → get_or crc32_tab i 0 < 2 ^ 32
table-lt i h =
    ltb→lt (get_or crc32_tab i 0) (2 ^ 32)
      (holds_below_lem (λ i. ltb (get_or crc32_tab i 0) (2 ^ 32)) 256 i h table_test)

step-lt : (typo : Bool) (crc p : ℕ) → crc < 2 ^ 32 → crc_step typo crc p < 2 ^ 32
step-lt typo crc p h =
    let byte_small : bit_and (bit_xor crc p) 0xFF < 256 =
      omega (arith, bit_and-low_mask 8 (bit_xor crc p)) in
    let lkp = get_or crc32_tab (bit_and (bit_xor crc p) 0xFF) 0 in
    bit_xor-lt 32 _ (crc / 2 ^ 8)
      (entry-lt ((lkp == 0x8bbeb8ea) && typo) lkp
        (table-lt (bit_and (bit_xor crc p) 0xFF) byte_small))
      (omega arith)

loop-lt : (typo : Bool) (crc : ℕ) (ps : List ℕ) → crc < 2 ^ 32 → crc_loop typo crc ps < 2 ^ 32
unfolding crc_loop
loop-lt typo crc [] h = h
loop-lt typo crc (p ∷ ps) h = loop-lt typo (crc_step typo crc p) ps (step-lt typo crc p h)

fingerprint-lt : (m : Memory) (len : ℕ) (typo : Bool) → stun_fingerprint m len typo < 2 ^ 32
unfolding stun_fingerprint stun_crc32
fingerprint-lt m len typo =
    bit_xor-lt 32 _ 0x5354554e
      (bit_xor-lt 32 _ 0xffffffff (loop-lt typo 0xffffffff _ (omega arith)) (omega arith))
      (omega arith)

-- The checksum reads nothing from `len - 8` on.
fingerprint-Agree :
    (m m' : Memory) (len : ℕ) (typo : Bool)
    → 28 ≤ len
    → Agree m m' 0 (len - 8)
    → stun_fingerprint m' len typo ≡ stun_fingerprint m len typo
unfolding stun_fingerprint
fingerprint-Agree m m' len typo long same =
    let type = load_bytes-Agree m m' 0 2 (λ q lo hi. same q lo (omega arith)) in
    let rest = load_bytes-Agree m m' 4 (len - 12) (λ q lo hi. same q (omega arith) (omega arith)) in
    ap₂
      (λ (a b : List ℕ).
        bit_xor (stun_crc32 (a ++ (bytes16 ((len + 2 ^ 32 - 20) % 2 ^ 16) ++ b)) typo) 0x5354554e)
      type rest

-- The fingerprint as a number that is appended.
abbrev print_of : StunAgent → StunMessage → Memory → ℕ
print_of agent msg m = stun_fingerprint m (length_of msg m) (is_wlm2009 agent)

print-IsLocal :
    (agent : StunAgent) (msg : StunMessage)
    → IsLocal 4 (λ ptr m. store_bytes m ptr (bytes32 (print_of agent msg m)))
print-IsLocal agent msg ptr m q h = store_bytes_outside m ptr (bytes32 (print_of agent msg m)) q h

no_padding : (msg : StunMessage) → padding_of msg 4 ≡ 0
no_padding msg = ground (arith, stun_padding_lem 4)

module _ (agent : StunAgent) (msg : StunMessage) (attrs : List Attr)
    (can : CanTake msg attrs Attribute.fingerprint 4) where
  abbrev p : ℕ
  p = stun_message_length msg + 4

  abbrev appended : Memory
  appended = append_buffer msg Attribute.fingerprint 4 (stun_message_length msg)

  header : 20 ≤ stun_message_length msg
  header = offset-le-end msg.buffer (is_aligned msg) 20 (stun_message_length msg) attrs can.chain

  full : length_of msg appended ≡ p + 4
  full =
      let step =
        append-IsAppended msg attrs Attribute.fingerprint 4 can.chain can.type_fits can.no_wrap in
      omega (arith, step.longer, no_padding msg)

  -- An agent that asks for a fingerprint adds one that passes the check of the validation, to a
  -- message that is a list of attributes and has room for it.
  pub add_fingerprint_lem :
      follows_rfc5389 agent ≡ true
      → has_flag agent use_fingerprint ≡ true
      → (msg' : StunMessage) × (add_fingerprint agent msg ≡ (success, msg'))
        × (fingerprint_matches agent msg' (stun_message_find32 msg' Attribute.fingerprint) ≡ true)
  unfolding add_fingerprint
  add_fingerprint_lem modern uses =
      let fpr = print_of agent msg appended in
      let (msg', e, w) =
        append_with-IsWritten msg attrs Attribute.fingerprint 4
          (λ ptr m. store_bytes m ptr (bytes32 (print_of agent msg m))) can
          (print-IsLocal agent msg) in
      let outside : Agree appended msg'.buffer 0 p = λ q lo hi.
        ap (λ (b : Memory). b q) w.bytes
        ∙ store_bytes_outside appended p (bytes32 fpr) q (inl hi) in
      let longer : stun_message_length msg' ≡ p + 4 = omega (arith, w.longer, no_padding msg) in
      let again : stun_fingerprint msg'.buffer (stun_message_length msg') (is_wlm2009 agent) ≡ fpr =
        ap (λ (l : ℕ). stun_fingerprint msg'.buffer l (is_wlm2009 agent)) longer
        ∙ fingerprint-Agree appended msg'.buffer (p + 4) (is_wlm2009 agent) (omega (arith, header))
            (λ q lo hi. outside q lo (omega arith))
        ∙ ap (λ (l : ℕ). stun_fingerprint appended l (is_wlm2009 agent)) (sym full) in
      let found : stun_message_find msg' Attribute.fingerprint ≡ some (4, p) =
        w.found ∙ ap (λ (n : ℕ). some (n, p)) (length_field_of_quad msg 4 refl (omega arith)) in
      let value : word32 msg'.buffer p ≡ fpr =
        ap (λ (b : Memory). word32 b p) w.bytes
        ∙ word32_of_bytes appended p fpr
            (fingerprint-lt appended (length_of msg appended) (is_wlm2009 agent)) in
      (
        msg',
        rw (modern, uses) e,
        rw (find32_of_found msg' Attribute.fingerprint p found) (ground (arith, value, again)),
      )
