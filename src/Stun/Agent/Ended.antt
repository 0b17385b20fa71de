-- ===== src/Stun/Agent/Ended.antt =====
-- stun/stunagent.c: how `stun_agent_finish_message` ends.
use libxice.Base.{ℕ, ◌+◌, ◌≡◌, ◌⊎◌, inl, inr, refl, arith}
use libxice.Base.{Option, none, some, List}
use libxice.Base.{◌^◌, ◌≤◌, ◌<◌, ◌∙◌}
use native.Mathlib.Decide.{dec_lt}
use libxice.Stun.Agent.Grown.{
  Grown, Step, none-Step, signed-Step, fingerprint-Step, integrity_size, fingerprint_size,
}
use libxice.Stun.Constants.{StunMessageReturn, success, not_found, invalid, not_enough_space}
use libxice.Stun.Constants.{unsupported_address}
use libxice.Stun.Types.{StunAgent, StunMessage}
use libxice.Stun.Message.{stun_message_length}
use libxice.Stun.Hmac.{Crypto}
use libxice.Stun.Agent.Finish.{save, then_save, then_fingerprint, finish_with}
use libxice.Stun.Agent.Finish.{prepare_key, signed, add_fingerprint, Finished}

-- What MESSAGE-INTEGRITY and FINGERPRINT need.
abbrev pub size_needed : StunAgent → StunMessage → Option (List ℕ) → ℕ
size_needed agent msg key = integrity_size agent msg key + fingerprint_size agent

-- A failure gives 0 and leaves the agent, and success saves the message with what was appended.
abbrev pub Ended : StunAgent → StunMessage → ℕ → Option (List ℕ) → ℕ → Finished → Type 0
Ended agent msg i key n r =
    ((r.0 ≡ agent) × (r.2 ≡ 0) × (0 < n) × (msg.buffer_len < stun_message_length msg + n))
    ⊎ ((msg' : StunMessage) × (r ≡ save agent i key msg')
        × Grown msg n msg'
        × (0 < n → stun_message_length msg + n ≤ msg.buffer_len))

module _ (agent : StunAgent) (i : ℕ) (key : Option (List ℕ)) (msg : StunMessage) (a : ℕ) where
  save-Ended :
      (b : ℕ) (m1 : StunMessage) (p : StunMessageReturn × StunMessage)
      → Step msg a (success, m1)
      → Step m1 b p
      → Ended agent msg i key (a + b) (then_save agent i key p)
  save-Ended b m1 (success, m2) ((h0, h4, l, n), room) ((h0', h4', l', n'), room') = inr (
    m2,
    refl,
    (
      λ q lo hi. h0' q lo hi ∙ h0 q lo hi,
      λ q lo hi. h4' q lo hi ∙ h4 q lo hi,
      l' ∙ l,
      omega (arith, n, n'),
    ),
    λ h. elim (dec_lt 0 b) [
      | yes some_b ↦ omega (arith, room' some_b, n, l)
      | no none_b ↦ omega (arith, room (omega (arith, h, none_b)), none_b)
    ],
  )
  save-Ended b m1 (not_enough_space, m2) ((h0, h4, l, n), room) (some_b, full) =
      inl (refl, refl, omega (arith, some_b), omega (arith, full, l, n))
  save-Ended b m1 (not_found, m2) h f = absurd f
  save-Ended b m1 (invalid, m2) h f = absurd f
  save-Ended b m1 (unsupported_address, m2) h f = absurd f

  fingerprint-Ended :
      (p : StunMessageReturn × StunMessage)
      → 20 ≤ stun_message_length msg
      → stun_message_length msg + a + 8 < 2 ^ 16
      → Step msg a p
      → Ended agent msg i key (a + fingerprint_size agent) (then_fingerprint agent i key p)
  fingerprint-Ended (success, m1) header no_wrap step =
      save-Ended (fingerprint_size agent) m1 (add_fingerprint agent m1) step (
        fingerprint-Step agent m1 (omega (arith, step.0.3, header))
          (omega (arith, step.0.3, no_wrap)))
  fingerprint-Ended (not_enough_space, m1) header no_wrap (some_a, full) =
      inl (refl, refl, omega (arith, some_a), omega (arith, full))
  fingerprint-Ended (not_found, m1) header no_wrap f = absurd f
  fingerprint-Ended (invalid, m1) header no_wrap f = absurd f
  fingerprint-Ended (unsupported_address, m1) header no_wrap f = absurd f

integrity_size-le :
    (agent : StunAgent) (msg : StunMessage) (key : Option (List ℕ))
    → integrity_size agent msg key ≤ 24
integrity_size-le agent msg key = ground arith

pub finish-Ended :
    (crypto : Crypto) (unset : List ℕ) (agent : StunAgent) (msg : StunMessage) (i : ℕ)
    (key : Option (List ℕ))
    → 20 ≤ stun_message_length msg
    → stun_message_length msg + 32 < 2 ^ 16
    → Ended agent msg i key (size_needed agent msg key) (finish_with crypto unset agent msg i key)
finish-Ended crypto unset agent msg i none header no_wrap =
    fingerprint-Ended agent i none msg 0 (success, msg) header (omega arith)
      (none-Step msg msg refl refl)
finish-Ended crypto unset agent msg i (some key) header no_wrap =
    fingerprint-Ended agent i (some key) msg (integrity_size agent msg (some key))
      (signed crypto agent key (prepare_key crypto unset agent msg key)) header
      (omega (arith, integrity_size-le agent msg (some key)))
      (signed-Step crypto unset agent msg key header (omega arith))
