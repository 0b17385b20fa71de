-- ===== src/Stun/Agent/Signed.antt =====
-- stun/stunagent.c: what `stun_agent_finish_message` writes is what `stun_agent_validate` computes.
use libxice.Base.{ℕ, ◌+◌, ◌-◌, ◌%◌, ◌^◌, ◌≤◌, ◌<◌, ◌≡◌, ◌⊎◌, inl, inr, refl, sym, ap, ◌∙◌, arith}
use libxice.Base.{Bool, true, false, ◌&&◌, some, List, ◌++◌, length, All}
use mathlib.Core.Path.{ap₂}
use libxice.Base.Memory.{Memory, store_bytes, load_bytes, Agree}
use libxice.Base.Memory.Laws.{store_bytes_outside, load_store_bytes, load_bytes-Agree}
use libxice.Stun.Constants.{
  StunCompatibility, rfc3489, rfc5389, wlm2009, oc2007, use_fingerprint, success,
}
use libxice.Stun.Constants.Attribute
use libxice.Stun.Types.{StunAgent, StunMessage, has_flag}
use libxice.Stun.Utils.Words.{stun_padding_lem}
use libxice.Stun.Message.{stun_message_length, stun_message_find, is_aligned}
use libxice.Stun.Message.Append.{append_buffer, padding_of, bytes16}
use libxice.Stun.Message.Layout.{Attr}
use libxice.Stun.Message.Chain.{offset-le-end}
use libxice.Stun.Message.Appended.{append-IsAppended}
use libxice.Stun.Message.Written.{CanTake, IsLocal, append_with-IsWritten}
use libxice.Stun.Message.RoundTrip.{length_field_of_quad}
use libxice.Stun.Hmac.{Crypto, sha1_text, sha1_padding, stun_sha1}
use libxice.Stun.Agent.{is_wlm2009}
use libxice.Stun.Agent.Receive.{integrity_hash}
use libxice.Stun.Agent.Finish.{signature, length_of, add_integrity}
use libxice.Stun.Agent.Authentic.{IsSigned}

-- The text reads nothing from `len - 24` on.
sha1-Agree :
    (crypto : Crypto) (m m' : Memory) (len msg_len : ℕ) (key : List ℕ) (padding : Bool)
    → 44 ≤ len
    → Agree m m' 0 (len - 24)
    → stun_sha1 crypto m' len msg_len key padding ≡ stun_sha1 crypto m len msg_len key padding
unfolding stun_sha1
sha1-Agree crypto m m' len msg_len key padding long same =
    let type = load_bytes-Agree m m' 0 2 (λ q lo hi. same q lo (omega arith)) in
    let rest = load_bytes-Agree m m' 4 (len - 28) (λ q lo hi. same q (omega arith) (omega arith)) in
    ap (crypto.hmac_sha1 key)
      (ap₂ (λ a b. a ++ (bytes16 (msg_len % 2 ^ 16) ++ (b ++ sha1_padding len padding))) type rest)

compatibility-cases :
    (c : StunCompatibility) → (c ≡ rfc3489) ⊎ ((c ≡ oc2007) ⊎ ((c ≡ wlm2009) ⊎ (c ≡ rfc5389)))
compatibility-cases rfc3489 = inl refl
compatibility-cases oc2007 = inr (inl refl)
compatibility-cases wlm2009 = inr (inr (inl refl))
compatibility-cases rfc5389 = inr (inr (inr refl))

-- The two hashes agree for a message that ends with the place for the hash.
integrity-signature :
    (crypto : Crypto) (agent : StunAgent) (msg : StunMessage) (m : Memory) (p : ℕ) (key : List ℕ)
    → 24 ≤ p
    → stun_message_length msg ≡ p + 20
    → Agree m msg.buffer 0 p
    → is_wlm2009 agent && has_flag agent use_fingerprint ≡ false
    → integrity_hash crypto agent msg p key ≡ signature crypto agent m (p + 20) key
unfolding integrity_hash signature
integrity-signature crypto agent msg m p key high len same plain =
    let kept = λ (l : ℕ) (pad : Bool).
      sha1-Agree crypto m msg.buffer (p + 20) l key pad (omega arith)
        (λ q lo hi. same q lo (omega arith)) in
    let e : p + 20 - 20 ≡ p = omega arith in
    elim (compatibility-cases agent.compatibility) [
      | inl c ↦ rw (c, e) (kept p true)
      | inr (inl c) ↦ rw (c, e) (kept p true)
      | inr (inr (inl c)) ↦ rw (c, len, rw c at plain, e) (kept p true)
      | inr (inr (inr c)) ↦ rw (c, e) (kept p false)
    ]

signature-length :
    (crypto : Crypto) (agent : StunAgent) (m : Memory) (len : ℕ) (key : List ℕ)
    → length (signature crypto agent m len key) ≡ 20
unfolding signature stun_sha1
signature-length crypto agent m len key = elim (compatibility-cases agent.compatibility) [
  | inl c ↦ rw c (crypto.hmac_sha1-length key (sha1_text m len (len - 20) true))
  | inr (inl c) ↦ rw c (crypto.hmac_sha1-length key (sha1_text m len (len - 20) true))
  | inr (inr (inl c)) ↦ rw c (crypto.hmac_sha1-length key _)
  | inr (inr (inr c)) ↦ rw c (crypto.hmac_sha1-length key (sha1_text m len (len - 20) false))
]

signature-bytes :
    (crypto : Crypto) (agent : StunAgent) (m : Memory) (len : ℕ) (key : List ℕ)
    → All (λ b. b < 256) (signature crypto agent m len key)
unfolding signature stun_sha1
signature-bytes crypto agent m len key = elim (compatibility-cases agent.compatibility) [
  | inl c ↦ rw c (crypto.hmac_sha1-bytes key (sha1_text m len (len - 20) true))
  | inr (inl c) ↦ rw c (crypto.hmac_sha1-bytes key (sha1_text m len (len - 20) true))
  | inr (inr (inl c)) ↦ rw c (crypto.hmac_sha1-bytes key _)
  | inr (inr (inr c)) ↦ rw c (crypto.hmac_sha1-bytes key (sha1_text m len (len - 20) false))
]

-- The hash stays in its place.
pub signature-IsLocal :
    (crypto : Crypto) (agent : StunAgent) (msg : StunMessage) (key : List ℕ)
    → IsLocal 20 (λ ptr m. store_bytes m ptr (signature crypto agent m (length_of msg m) key))
signature-IsLocal crypto agent msg key ptr m q h =
    store_bytes_outside m ptr (signature crypto agent m (length_of msg m) key) q
      (ground (arith, h, signature-length crypto agent m (length_of msg m) key))

no_padding : (msg : StunMessage) → padding_of msg 20 ≡ 0
no_padding msg = ground (arith, stun_padding_lem 20)

-- MESSAGE-INTEGRITY as the function appends it is what the validation compares it with, for the same
-- key, but for WLM 2009 with a fingerprint, whose length field counts that too.
pub add_integrity-IsSigned :
    (crypto : Crypto) (agent : StunAgent) (msg : StunMessage) (attrs : List Attr) (key : List ℕ)
    → CanTake msg attrs Attribute.message_integrity 20
    → is_wlm2009 agent && has_flag agent use_fingerprint ≡ false
    → (msg' : StunMessage) × (add_integrity crypto agent msg key ≡ (success, msg'))
      × IsSigned crypto agent msg' key
unfolding add_integrity
add_integrity-IsSigned crypto agent msg attrs key can plain =
    let p = stun_message_length msg + 4 in
    let appended = append_buffer msg Attribute.message_integrity 20 (stun_message_length msg) in
    let step =
      append-IsAppended msg attrs Attribute.message_integrity 20 can.chain can.type_fits
        can.no_wrap in
    let full : length_of msg appended ≡ p + 20 = omega (arith, step.longer, no_padding msg) in
    let sig = signature crypto agent appended (length_of msg appended) key in
    let f : ℕ → Memory → Memory =
      λ ptr m. store_bytes m ptr (signature crypto agent m (length_of msg m) key) in
    let (msg', e, w) =
      append_with-IsWritten msg attrs Attribute.message_integrity 20 f can
        (signature-IsLocal crypto agent msg key) in
    let header =
      offset-le-end msg.buffer (is_aligned msg) 20 (stun_message_length msg) attrs can.chain in
    let outside : Agree appended msg'.buffer 0 p =
      λ q lo hi. ap (λ (b : Memory). b q) w.bytes ∙ store_bytes_outside appended p sig q (inl hi) in
    let hashed : integrity_hash crypto agent msg' p key
        ≡ signature crypto agent appended (p + 20) key =
      integrity-signature crypto agent msg' appended p key (omega arith)
        (omega (arith, w.longer, no_padding msg)) outside plain in
    let loaded : load_bytes msg'.buffer p 20 ≡ sig =
      ap (λ (b : Memory). load_bytes b p 20) w.bytes
      ∙ ap (load_bytes (store_bytes appended p sig) p)
          (sym (signature-length crypto agent appended (length_of msg appended) key))
      ∙ load_store_bytes appended p sig
          (signature-bytes crypto agent appended (length_of msg appended) key) in
    let found : stun_message_find msg' Attribute.message_integrity ≡ some (20, p) =
      w.found ∙ ap (λ (n : ℕ). some (n, p)) (length_field_of_quad msg 20 refl (omega arith)) in
    (
      msg',
      e,
      (
        20,
        p,
        found,
        hashed ∙ ap (λ (l : ℕ). signature crypto agent appended l key) (sym full) ∙ sym loaded,
      ),
    )
