-- ===== src/Stun/Message/Phrase.antt =====
-- `stun_strerror` of stun/stunmessage.c.
use Prim.Native.Char.{code}
use Prim.Native.String.{String}
use libxice.Base.{ℕ, List, [], ◌∷◌, ◌==◌, if◌then◌else◌}
use libxice.Stun.Constants.Fault

-- The bytes of an ASCII text.
abbrev pub codes : String → List ℕ
codes String.[] = []
codes (String.◌∷◌ c s) = code c ∷ codes s

-- `tab`
abbrev pub error_table : List (ℕ × String)
error_table =
    (Fault.try_alternate, "Try alternate server")
    ∷ (Fault.bad_request, "Bad request")
    ∷ (Fault.unauthorized, "Unauthorized")
    ∷ (Fault.unknown_attribute, "Unknown Attribute")
    ∷ (Fault.allocation_mismatch, "Allocation Mismatch")
    ∷ (Fault.stale_nonce, "Stale Nonce")
    ∷ (Fault.act_dst_already, "Active Destination Already Set")
    ∷ (Fault.unsupported_family, "Address Family not Supported")
    ∷ (Fault.unsupported_transport, "Unsupported Transport Protocol")
    ∷ (Fault.invalid_ip, "Invalid IP Address")
    ∷ (Fault.invalid_port, "Invalid Port")
    ∷ (Fault.op_tcp_only, "Operation for TCP Only")
    ∷ (Fault.conn_already, "Connection Already Exists")
    ∷ (Fault.allocation_quota_reached, "Allocation Quota Reached")
    ∷ (Fault.role_conflict, "Role conflict")
    ∷ (Fault.server_error, "Server Error")
    ∷ (Fault.server_capacity, "Insufficient Capacity")
    ∷ (Fault.insufficient_capacity, "Insufficient Capacity")
    ∷ []

-- The phrase of the first row with the code.
abbrev pub phrase_in : List (ℕ × String) → ℕ → String
phrase_in [] code = "Unknown error"
phrase_in ((c, phrase) ∷ rows) code = if c == code then phrase else phrase_in rows code

unfoldable pub stun_strerror : ℕ → List ℕ
stun_strerror code = codes (phrase_in error_table code)
