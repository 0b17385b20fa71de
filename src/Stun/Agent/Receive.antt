-- ===== src/Stun/Agent/Receive.antt =====
-- stun/stunagent.c: `stun_agent_validate`.
use libxice.Base.{ℕ, ◌+◌, ◌-◌, Bool, true, false, not, ◌&&◌, ◌||◌}
use libxice.Base.{Option, none, some, List, [], ◌∷◌, ◌==◌, if◌then◌else◌}
use libxice.Base.Memory.{Memory, load_bytes}
use libxice.Stun.Constants.{StunClass, request, indication, error, class_value}
use libxice.Stun.Constants.{success, rfc3489, rfc5389, wlm2009, oc2007}
use libxice.Stun.Constants.{short_term_credentials, long_term_credentials, use_fingerprint}
use libxice.Stun.Constants.{ignore_credentials, no_indication_auth}
use libxice.Stun.Constants.Attribute
use libxice.Stun.Types.{SavedId, StunAgent, StunMessage, has_flag}
use libxice.Stun.Message.{stun_message_length, stun_message_has_cookie}
use libxice.Stun.Message.{stun_message_get_class, stun_message_find}
use libxice.Stun.Message.{stun_message_has_attribute}
use libxice.Stun.Message.Typed.{stun_message_find32, stun_message_find_error, Found}
use libxice.Stun.Hmac.{Crypto, stun_sha1, stun_hash_creds}
use libxice.Stun.Crc.{stun_fingerprint}
use libxice.Stun.Agent.{bytes_eq, follows_rfc5389, is_wlm2009}

-- `StunMessageIntegrityValidate`: `none` is FALSE, and `some k` is TRUE with the key `k`. A username
-- that is not in the message is empty.
abbrev pub Validater : Type 0
Validater = StunAgent → StunMessage → List ℕ → Option (Option (List ℕ))

abbrev pub is_class : StunMessage → StunClass → Bool
is_class msg c = class_value (stun_message_get_class msg) == class_value c

-- The message that the function sets up.
abbrev pub received : StunAgent → Memory → ℕ → StunMessage
received agent buffer buffer_len = record {
  agent = some agent;
  buffer = buffer;
  buffer_len = buffer_len;
  key = none;
  long_term_key = [];
  long_term_valid = false;
}

-- The number in the FINGERPRINT attribute is the checksum of the message.
abbrev pub fingerprint_matches : StunAgent → StunMessage → Found ℕ → Bool
fingerprint_matches agent msg (success, some fpr) =
    fpr == stun_fingerprint msg.buffer (stun_message_length msg) (is_wlm2009 agent)
fingerprint_matches agent msg _ = false

-- The checks of the cookie and of the fingerprint.
unfoldable pub passes_demux : StunAgent → StunMessage → Bool
passes_demux agent msg =
    not (follows_rfc5389 agent && not (stun_message_has_cookie msg))
    && not (
        (follows_rfc5389 agent && has_flag agent use_fingerprint)
        && not (fingerprint_matches agent msg (stun_message_find32 msg Attribute.fingerprint)))

-- The first saved id that a response with the method and the id answers, and its index.
unfoldable pub match_id : List SavedId → ℕ → List ℕ → ℕ → Option (ℕ × SavedId)
match_id [] method id i = none
match_id (s ∷ ids) method id i =
    if (s.valid && (s.method == method)) && bytes_eq id s.id
    then some (i, s)
    else match_id ids method id (i + 1)

-- `find_error` gives 400 or 401.
abbrev pub is_credential_error : Found ℕ → Bool
is_credential_error (success, some code) = (code == 400) || (code == 401)
is_credential_error _ = false

unfoldable pub ignores_credentials : StunAgent → StunMessage → Bool
ignores_credentials agent msg =
    has_flag agent ignore_credentials
    || (is_class msg error && is_credential_error (stun_message_find_error msg))
    || (is_class msg indication && has_flag agent no_indication_auth)

abbrev pub lacks : StunMessage → ℕ → Bool
lacks msg type = not (stun_message_has_attribute msg type)

-- Credentials that the usage flags ask for are missing from a request or an indication.
unfoldable pub lacks_credentials : StunAgent → StunMessage → Bool
lacks_credentials agent msg =
    (is_class msg request || is_class msg indication)
    && ((has_flag agent short_term_credentials
          && (lacks msg Attribute.username || lacks msg Attribute.message_integrity))
        || (has_flag agent long_term_credentials
            && is_class msg request
            && (lacks msg Attribute.username
                || lacks msg Attribute.message_integrity
                || lacks msg Attribute.nonce
                || lacks msg Attribute.realm))
        || (not (has_flag agent ignore_credentials)
            && stun_message_has_attribute msg Attribute.username
            && lacks msg Attribute.message_integrity))

abbrev pub is_none {ℓ} : {A : Type ℓ} → Option A → Bool
is_none none = true
is_none (some a) = false

-- The value of an attribute that was found.
abbrev pub value_of : StunMessage → ℕ × ℕ → List ℕ
value_of msg (len, ptr) = load_bytes msg.buffer ptr len

abbrev pub value_or_empty : StunMessage → Option (ℕ × ℕ) → List ℕ
value_or_empty msg none = []
value_or_empty msg (some found) = value_of msg found

-- The key that goes into the hash, if the short-term key is `key`: with long-term credentials the
-- saved one, or the hash of the realm, the username and the password. `none` where one is missing.
abbrev pub creds_of :
    Crypto → StunMessage → List ℕ → Option (ℕ × ℕ) → Option (ℕ × ℕ) → Option (List ℕ)
creds_of crypto msg key (some realm) (some username) =
    some (stun_hash_creds crypto (value_of msg realm) (value_of msg username) key)
creds_of crypto msg key _ _ = none

unfoldable pub long_term_hash : Crypto → StunMessage → List ℕ → Option (List ℕ) → Option (List ℕ)
long_term_hash crypto msg key (some saved) = some saved
long_term_hash crypto msg key none =
    creds_of crypto msg key (stun_message_find msg Attribute.realm)
      (stun_message_find msg Attribute.username)

-- The hash of the message up to the value of MESSAGE-INTEGRITY at `hash`.
unfoldable pub integrity_hash : Crypto → StunAgent → StunMessage → ℕ → List ℕ → List ℕ
integrity_hash crypto agent msg hash key = elim agent.compatibility [
  | rfc3489 ↦ stun_sha1 crypto msg.buffer (hash + 20) hash key true
  | oc2007 ↦ stun_sha1 crypto msg.buffer (hash + 20) hash key true
  | wlm2009 ↦ stun_sha1 crypto msg.buffer (hash + 20) (stun_message_length msg - 20) key true
  | rfc5389 ↦ stun_sha1 crypto msg.buffer (hash + 20) hash key false
]
