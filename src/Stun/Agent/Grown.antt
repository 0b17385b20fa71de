-- ===== src/Stun/Agent/Grown.antt =====
-- stun/stunagent.c: what the attributes that `stun_agent_finish_message` appends do to a message.
use libxice.Base.{ℕ, ◌+◌, ◌%◌, ◌^◌, ◌≤◌, ◌<◌, ◌≡◌, refl, sym, ap, ◌∙◌, inl, inr, arith, ltb}
use libxice.Base.{Bool, true, false, not, ◌&&◌, ◌||◌, Bool-cases, Option, none, some, List}
use libxice.Base.{if◌then◌else◌}
use mathlib.Core.Path.{subst}
use libxice.Base.Memory.{Memory, Agree}
use libxice.Base.Memory.Laws.{store_bytes_outside}
use libxice.Stun.Constants.{StunMessageReturn, success, not_enough_space, long_term_credentials}
use libxice.Stun.Constants.{use_fingerprint}
use libxice.Stun.Constants.Attribute
use libxice.Stun.Types.{StunAgent, StunMessage, has_flag}
use libxice.Stun.Utils.{stun_getw}
use libxice.Stun.Utils.Words.{stun_getw-Agree, stun_padding_lem}
use libxice.Stun.Message.{stun_message_length}
use libxice.Stun.Message.{stun_message_find, stun_message_has_attribute}
use libxice.Stun.Message.Append.{
  stun_message_append, append_with, append_buffer, padding_of, bytes32,
}
use libxice.Stun.Message.Extend.{result-kept, result-length}
use libxice.Stun.Hmac.{Crypto}
use libxice.Stun.Crc.{stun_fingerprint}
use libxice.Stun.Agent.{follows_rfc5389, is_wlm2009}
use libxice.Stun.Agent.Receive.{creds_of}
use libxice.Stun.Agent.Finish.{with_creds, prepare_key, signing_key, signed, add_integrity}
use libxice.Stun.Agent.Finish.{add_fingerprint, length_of}
use libxice.Stun.Agent.Signed.{signature-IsLocal}

-- The header but its length is as it was, and the message is longer by `size` bytes.
abbrev pub Grown : StunMessage → ℕ → StunMessage → Type 0
Grown msg size msg' =
    Agree msg.buffer msg'.buffer 0 2
    × Agree msg.buffer msg'.buffer 4 20
    × (msg'.buffer_len ≡ msg.buffer_len)
    × (stun_message_length msg' ≡ stun_message_length msg + size)

-- What is appended fits, or it needs more than the buffer has.
abbrev pub Step : StunMessage → ℕ → StunMessageReturn × StunMessage → Type 0
Step msg size (success, msg') =
    Grown msg size msg' × (0 < size → stun_message_length msg + size ≤ msg.buffer_len)
Step msg size (not_enough_space, msg') =
    (0 < size) × (msg.buffer_len < stun_message_length msg + size)
Step msg size _ = ⊥

pub none-Step :
    (msg msg' : StunMessage)
    → msg'.buffer ≡ msg.buffer
    → msg'.buffer_len ≡ msg.buffer_len
    → Step msg 0 (success, msg')
unfolding stun_message_length
none-Step msg msg' same size = (
  (
    λ q lo hi. ap (λ (m : Memory). m q) same,
    λ q lo hi. ap (λ (m : Memory). m q) same,
    size,
    ap (λ (m : Memory). (stun_getw m 2 + 20) % 2 ^ 16) same ∙ omega arith,
  ),
  λ h. absurd (omega (arith, h)),
)

length-kept :
    (msg : StunMessage) (m m' : Memory) (n : ℕ)
    → m' 2 ≡ m 2
    → m' 3 ≡ m 3
    → (stun_getw m 2 + 20) % 2 ^ 16 ≡ n
    → stun_message_length (record msg { buffer = m' }) ≡ n
unfolding stun_message_length
length-kept msg m m' n e e' long =
    ap (λ (w : ℕ). (w + 20) % 2 ^ 16) (stun_getw-Agree m m' 2 e e') ∙ long

append-Step :
    (msg : StunMessage) (type n : ℕ) (f : ℕ → Memory → Memory)
    → 20 ≤ stun_message_length msg
    → stun_message_length msg + (4 + n) < 2 ^ 16
    → padding_of msg n ≡ 0
    → ((ptr : ℕ) (m : Memory) (q : ℕ) → q < ptr → f ptr m q ≡ m q)
    → Step msg (4 + n) (append_with msg type n f)
unfolding stun_message_append
append-Step msg type n f header no_wrap no_pad behind =
    let mlen = stun_message_length msg in
    let m = append_buffer msg type n mlen in
    let kept : (q : ℕ) → q < 20 → f (mlen + 4) m q ≡ m q =
      λ q h. behind (mlen + 4) m q (omega (arith, h, header)) in
    let long =
      length-kept msg m (f (mlen + 4) m) (mlen + (4 + n)) (kept 2 (omega arith))
        (kept 3 (omega arith))
        (result-length msg type n mlen header (omega (arith, no_pad, no_wrap))
          ∙ omega (arith, no_pad)) in
    elim (Bool-cases (ltb msg.buffer_len (mlen + 4 + n))) [
      | inl full ↦
          let e : append_with msg type n f ≡ (not_enough_space, msg) =
            rw (append_with, full) refl in
          subst (Step msg (4 + n)) (sym e) (omega arith, ground (arith, full))
      | inr room ↦
          let e : append_with msg type n f ≡ (success, record msg { buffer = f (mlen + 4) m }) =
            rw (append_with, room) refl in
          subst (Step msg (4 + n)) (sym e) (
            (
              λ q lo hi.
                  kept q (omega (arith, hi))
                  ∙ result-kept msg type n mlen header q (inl hi) (inl (omega (arith, header, hi))),
              λ q lo hi.
                  kept q (omega (arith, hi))
                  ∙ result-kept msg type n mlen header q (inr lo) (inl (omega (arith, header, hi))),
              refl,
              long,
            ),
            λ h. ground (arith, room),
          )
    ]

no_pad : (msg : StunMessage) (n : ℕ) → n % 4 ≡ 0 → padding_of msg n ≡ 0
no_pad msg n h = ground (arith, stun_padding_lem n)

-- Whether FINGERPRINT is appended, and MESSAGE-INTEGRITY: a key, and for a long-term one the attributes
-- to compute it from.
abbrev pub needs_fingerprint : StunAgent → Bool
needs_fingerprint agent = follows_rfc5389 agent && has_flag agent use_fingerprint

abbrev pub needs_integrity : StunAgent → StunMessage → Option (List ℕ) → Bool
needs_integrity agent msg none = false
needs_integrity agent msg (some key) =
    msg.long_term_valid
    || (not (has_flag agent long_term_credentials)
        || (stun_message_has_attribute msg Attribute.realm
            && stun_message_has_attribute msg Attribute.username))

abbrev pub integrity_size : StunAgent → StunMessage → Option (List ℕ) → ℕ
integrity_size agent msg key = if needs_integrity agent msg key then 24 else 0

abbrev pub fingerprint_size : StunAgent → ℕ
fingerprint_size agent = if needs_fingerprint agent then 8 else 0

integrity-Step :
    (crypto : Crypto) (agent : StunAgent) (msg : StunMessage) (key : List ℕ)
    → 20 ≤ stun_message_length msg
    → stun_message_length msg + 24 < 2 ^ 16
    → Step msg 24 (add_integrity crypto agent msg key)
unfolding add_integrity
integrity-Step crypto agent msg key header no_wrap =
    append-Step msg Attribute.message_integrity 20 _ header no_wrap (no_pad msg 20 refl)
      (λ ptr m q h. signature-IsLocal crypto agent msg key ptr m q (inl h))

pub fingerprint-Step :
    (agent : StunAgent) (msg : StunMessage)
    → 20 ≤ stun_message_length msg
    → stun_message_length msg + 8 < 2 ^ 16
    → Step msg (fingerprint_size agent) (add_fingerprint agent msg)
unfolding add_fingerprint
fingerprint-Step agent msg header no_wrap = elim (Bool-cases (needs_fingerprint agent)) [
  | inr plain ↦ rw plain (none-Step msg msg refl refl)
  | inl asked ↦ rw asked (
      append-Step msg Attribute.fingerprint 4 _ header no_wrap (no_pad msg 4 refl) (λ ptr m q h.
        store_bytes_outside m ptr
          (bytes32 (stun_fingerprint m (length_of msg m) (is_wlm2009 agent))) q (inl h)))
]

abbrev is_there : Option (ℕ × ℕ) → Bool
is_there none = false
is_there (some found) = true

-- The message that is signed has the same bytes.
module _ (crypto : Crypto) (unset : List ℕ) (agent : StunAgent) (msg : StunMessage) (key : List ℕ)
    (header : 20 ≤ stun_message_length msg) (no_wrap : stun_message_length msg + 24 < 2 ^ 16) where
  keyed-Step :
      (md5 : List ℕ) → Step msg 24 (signed crypto agent key (with_creds unset msg (some md5)))
  unfolding stun_message_length
  keyed-Step md5 =
      integrity-Step crypto agent (record msg { long_term_key = md5; long_term_valid = true })
        (if has_flag agent long_term_credentials then md5 else key) header no_wrap

  unkeyed-Step : Step msg 0 (signed crypto agent key (with_creds unset msg none))
  unkeyed-Step =
      none-Step msg (record msg { long_term_key = unset; long_term_valid = true }) refl refl

  prepared-Step :
      (valid flagged : Bool) (realm username : Option (ℕ × ℕ))
      → Step msg
          (if valid || (not flagged || (is_there realm && is_there username)) then 24 else 0)
          (signed crypto agent key (
            if valid
            then (false, msg)
            else if flagged
            then with_creds unset msg (creds_of crypto msg key realm username)
            else (false, msg)))
  prepared-Step true flagged realm username =
      integrity-Step crypto agent msg (signing_key agent msg key) header no_wrap
  prepared-Step false false realm username =
      integrity-Step crypto agent msg (signing_key agent msg key) header no_wrap
  prepared-Step false true none username = unkeyed-Step
  prepared-Step false true (some r) none = unkeyed-Step
  prepared-Step false true (some r) (some u) = keyed-Step _

  pub signed-Step :
      Step msg
        (integrity_size agent msg (some key))
        (signed crypto agent key (prepare_key crypto unset agent msg key))
  unfolding prepare_key stun_message_has_attribute
  signed-Step =
      prepared-Step msg.long_term_valid (has_flag agent long_term_credentials)
        (stun_message_find msg Attribute.realm) (stun_message_find msg Attribute.username)
