-- ===== src/Stun/Turn/Process/Stored.antt =====
-- stun/usages/turn.c: the addresses that come with a success.
use libxice.Base.{ℕ, arith, Bool-cases, ◌≡◌, refl, Bool, true, false, ◌==◌, Option, none, some}
use libxice.Base.{inl, inr, if◌then◌else◌, ◌/◌}
use mathlib.Core.Option
use libxice.Stun.Turn.Process.Addresses.{IsStored, find_addr-IsStored, find_xor_addr-IsStored}
use libxice.Stun.Constants.{
  success, not_found, invalid, StunClass, request, indication, response, error,
}
use libxice.Stun.Constants.{not_enough_space, unsupported_address}
use libxice.Stun.Constants.Attribute
use libxice.Stun.Constants.Method
use libxice.Stun.Types.{StunMessage}
use libxice.Stun.Utils.{SockAddr}
use libxice.Stun.Message.{stun_message_get_class, stun_message_get_method}
use libxice.Stun.Message.{stun_message_has_attribute}
use libxice.Stun.Message.Typed.{Found, FoundAddr, stun_message_find_addr}
use libxice.Stun.Message.Typed.{stun_message_find_xor_addr, stun_message_find_error}
use libxice.Stun.Turn.{TurnCompatibility, draft9, google, msn, oc2007, rfc5766}
use libxice.Stun.Turn.{TurnReturn, relay_success, mapped_success, turn_error, turn_invalid}
use libxice.Stun.Turn.{turn_alternate_server, msn_mapped_address}
use libxice.Stun.Turn.Process.{Allocated, only, turn_alternate_of, turn_alternate, on_turn_error}
use libxice.Stun.Turn.Process.{mapped_return, with_relay, allocated, stun_usage_turn_process}

-- The attribute with the address of the relay, and the one with the mapped address.
abbrev pub relay_attribute : TurnCompatibility → ℕ
relay_attribute draft9 = Attribute.relay_address
relay_attribute rfc5766 = Attribute.relay_address
relay_attribute _ = Attribute.mapped_address

abbrev pub mapped_attribute : TurnCompatibility → Option ℕ
mapped_attribute draft9 = some Attribute.xor_mapped_address
mapped_attribute rfc5766 = some Attribute.xor_mapped_address
mapped_attribute google = none
mapped_attribute _ = some msn_mapped_address

-- The standards xor the addresses.
abbrev pub read_address : TurnCompatibility → StunMessage → ℕ → ℕ → FoundAddr
read_address draft9 msg type len = stun_message_find_xor_addr msg type len
read_address rfc5766 msg type len = stun_message_find_xor_addr msg type len
read_address _ msg type len = stun_message_find_addr msg type len

abbrev pub read_mapped : StunMessage → ℕ → TurnCompatibility → Option FoundAddr
read_mapped msg len c = Option.map (λ type. read_address c msg type len) (mapped_attribute c)

-- The attribute was read, and its address is the one that is stored.
abbrev pub Reads : FoundAddr → Option SockAddr → Type 0
Reads (v, found, len) stored =
    (v ≡ success) × ((a : SockAddr) × (found ≡ some a) × (stored ≡ some a))

abbrev pub ReadsMapped : Option FoundAddr → Option SockAddr → Type 0
ReadsMapped none stored = ⊥
ReadsMapped (some f) stored = Reads f stored

abbrev pub Unreadable : Option FoundAddr → Type 0
Unreadable none = Unit {0}
Unreadable (some f) = ¬ (f.0 ≡ success)

abbrev pub IsAllocation : StunMessage → StunClass → Type 0
IsAllocation msg class =
    (stun_message_get_method msg ≡ Method.allocate) × (stun_message_get_class msg ≡ class)

-- What each value says, where `relay` and `mapped` is what reading the two attributes gives.
abbrev pub Says : StunMessage → FoundAddr → Option FoundAddr → TurnReturn → Allocated → Type 0
Says msg relay mapped relay_success r =
    IsAllocation msg response × Reads relay r.relay_addr × Unreadable mapped
Says msg relay mapped mapped_success r =
    IsAllocation msg response × Reads relay r.relay_addr × ReadsMapped mapped r.addr
Says msg relay mapped turn_error r = ¬ (IsAllocation msg response × (relay.0 ≡ success))
Says msg relay mapped turn_invalid r = ¬ IsAllocation msg response
Says msg relay mapped turn_alternate_server r =
    IsAllocation msg error × (r.relay_addr ≡ none) × (r.addr ≡ none)

abbrev pub IsComplete : StunMessage → ℕ → ℕ → TurnCompatibility → Allocated → Type 0
IsComplete msg relay_len len c r =
    Says msg (read_address c msg (relay_attribute c) relay_len) (read_mapped msg len c) r.returned r

module _ (msg : StunMessage) (allocation : IsAllocation msg response) where
  abbrev Answers : FoundAddr → Option FoundAddr → Allocated → Type 0
  Answers relay mapped r = Says msg relay mapped r.returned r

  -- Where the address of the relay was read.
  read-Answers :
      (a : SockAddr) (l : ℕ) (f : FoundAddr)
      → IsStored f
      → Answers
          (success, some a, l)
          (some f)
          (with_relay msg (mapped_return f) (success, some a, l))
  read-Answers a l (success, none, k) h = absurd h
  read-Answers a l (success, some b, k) h =
      (allocation, (refl, (a, refl, refl)), (refl, (b, refl, refl)))
  read-Answers a l (not_found, found, k) h = (allocation, (refl, (a, refl, refl)), λ e. absurd (cc))
  read-Answers a l (invalid, found, k) h = (allocation, (refl, (a, refl, refl)), λ e. absurd (cc))
  read-Answers a l (not_enough_space, found, k) h =
      (allocation, (refl, (a, refl, refl)), λ e. absurd (cc))
  read-Answers a l (unsupported_address, found, k) h =
      (allocation, (refl, (a, refl, refl)), λ e. absurd (cc))

  with_relay-Answers :
      (relay f : FoundAddr)
      → IsStored relay
      → IsStored f
      → Answers relay (some f) (with_relay msg (mapped_return f) relay)
  with_relay-Answers (success, none, l) f r h = absurd r
  with_relay-Answers (success, some a, l) f r h = read-Answers a l f h
  with_relay-Answers (not_found, found, l) f r h = λ (k, e). absurd (cc)
  with_relay-Answers (invalid, found, l) f r h = λ (k, e). absurd (cc)
  with_relay-Answers (not_enough_space, found, l) f r h = λ (k, e). absurd (cc)
  with_relay-Answers (unsupported_address, found, l) f r h = λ (k, e). absurd (cc)

  -- GOOGLE has no mapped address.
  without_mapped-Answers :
      (relay : FoundAddr)
      → IsStored relay
      → Answers relay none (with_relay msg (relay_success, none) relay)
  without_mapped-Answers (success, none, l) r = absurd r
  without_mapped-Answers (success, some a, l) r = (allocation, (refl, (a, refl, refl)), tt)
  without_mapped-Answers (not_found, found, l) r = λ (k, e). absurd (cc)
  without_mapped-Answers (invalid, found, l) r = λ (k, e). absurd (cc)
  without_mapped-Answers (not_enough_space, found, l) r = λ (k, e). absurd (cc)
  without_mapped-Answers (unsupported_address, found, l) r = λ (k, e). absurd (cc)

  allocated-IsComplete :
      (relay_len len : ℕ) (c : TurnCompatibility)
      → IsComplete msg relay_len len c (allocated msg relay_len len c)
  allocated-IsComplete relay_len len google =
      without_mapped-Answers _ (find_addr-IsStored msg Attribute.mapped_address relay_len)
  allocated-IsComplete relay_len len msn =
      with_relay-Answers _ _ (find_addr-IsStored msg Attribute.mapped_address relay_len)
        (find_addr-IsStored msg msn_mapped_address len)
  allocated-IsComplete relay_len len oc2007 =
      with_relay-Answers _ _ (find_addr-IsStored msg Attribute.mapped_address relay_len)
        (find_addr-IsStored msg msn_mapped_address len)
  allocated-IsComplete relay_len len draft9 =
      with_relay-Answers _ _ (find_xor_addr-IsStored msg Attribute.relay_address relay_len)
        (find_xor_addr-IsStored msg Attribute.xor_mapped_address len)
  allocated-IsComplete relay_len len rfc5766 =
      with_relay-Answers _ _ (find_xor_addr-IsStored msg Attribute.relay_address relay_len)
        (find_xor_addr-IsStored msg Attribute.xor_mapped_address len)

module _ (msg : StunMessage) (relay_len len : ℕ) (c : TurnCompatibility) where
  -- An error is no success.
  module _ (allocation : IsAllocation msg error) where
    error-IsComplete : IsComplete msg relay_len len c (only turn_error)
    error-IsComplete = λ (k, e). absurd (cc (k.1, allocation.1))

    invalid-IsComplete : IsComplete msg relay_len len c (only turn_invalid)
    invalid-IsComplete = λ k. absurd (cc (k.1, allocation.1))

    if_IsComplete :
        (b : Bool) (x y : Allocated)
        → IsComplete msg relay_len len c x
        → IsComplete msg relay_len len c y
        → IsComplete msg relay_len len c (if b then x else y)
    if_IsComplete true x y hx hy = hx
    if_IsComplete false x y hx hy = hy

    turn_alternate_of-IsComplete :
        (f : FoundAddr) → IsComplete msg relay_len len c (turn_alternate_of f)
    turn_alternate_of-IsComplete (success, found, l) = (allocation, refl, refl)
    turn_alternate_of-IsComplete (not_found, found, l) = error-IsComplete
    turn_alternate_of-IsComplete (invalid, found, l) = error-IsComplete
    turn_alternate_of-IsComplete (not_enough_space, found, l) = error-IsComplete
    turn_alternate_of-IsComplete (unsupported_address, found, l) = error-IsComplete

    turn_alternate-IsComplete :
        (alternate_len : Option ℕ)
        → IsComplete msg relay_len len c (turn_alternate msg alternate_len)
    turn_alternate-IsComplete (some l) = turn_alternate_of-IsComplete _
    turn_alternate-IsComplete none =
        if_IsComplete (stun_message_has_attribute msg Attribute.alternate_server)
          (only turn_alternate_server) (only turn_error) (allocation, refl, refl) error-IsComplete

    on_turn_error-IsComplete :
        (alternate_len : Option ℕ) (code : Found ℕ)
        → IsComplete msg relay_len len c (on_turn_error msg alternate_len code)
    on_turn_error-IsComplete l (success, some code) =
        if_IsComplete (code / 100 == 3) (turn_alternate msg l) (only turn_error)
          (turn_alternate-IsComplete l) error-IsComplete
    on_turn_error-IsComplete l (success, none) = invalid-IsComplete
    on_turn_error-IsComplete l (not_found, code) = invalid-IsComplete
    on_turn_error-IsComplete l (invalid, code) = invalid-IsComplete
    on_turn_error-IsComplete l (not_enough_space, code) = invalid-IsComplete
    on_turn_error-IsComplete l (unsupported_address, code) = invalid-IsComplete

  by_class :
      (k : StunClass) (x y : Allocated)
      → stun_message_get_class msg ≡ k
      → (k ≡ error → IsComplete msg relay_len len c x)
      → (k ≡ response → IsComplete msg relay_len len c y)
      → IsComplete msg relay_len len c (elim k [
        | request ↦ only turn_invalid
        | indication ↦ only turn_invalid
        | error ↦ x
        | response ↦ y
      ])
  by_class request x y e hx hy = λ k. absurd (cc (k.1, e))
  by_class indication x y e hx hy = λ k. absurd (cc (k.1, e))
  by_class error x y e hx hy = hx refl
  by_class response x y e hx hy = hy refl

-- Whatever the message is. RELAY_SUCCESS and MAPPED_SUCCESS are returned for a response to ALLOCATE only,
-- and the address of the relay is the one that RELAY-ADDRESS says, xored, or MAPPED-ADDRESS in the
-- modes GOOGLE, MSN and OC2007. With MAPPED_SUCCESS the mapped address is the one of XOR-MAPPED-ADDRESS, or
-- of MSN's attribute in the modes MSN and OC2007; with RELAY_SUCCESS that attribute could not be read, or
-- the mode is GOOGLE. ALTERNATE_SERVER is returned for an error of ALLOCATE only, with neither address.
-- ERROR is not returned for a response to ALLOCATE with an address of the relay that can be read, and
-- INVALID is returned for no response to ALLOCATE.
pub stun_usage_turn_process-IsComplete :
    (msg : StunMessage) (relay_len len : ℕ) (alternate_len : Option ℕ) (c : TurnCompatibility)
    → IsComplete msg relay_len len c (stun_usage_turn_process msg relay_len len alternate_len c)
unfolding stun_usage_turn_process
stun_usage_turn_process-IsComplete msg relay_len len alternate_len c =
    elim (Bool-cases (stun_message_get_method msg == Method.allocate)) [
      | inr other ↦ rw (stun_usage_turn_process, other) (λ k. absurd (ground (arith, k.0, other)))
      | inl same ↦
          let method : stun_message_get_method msg ≡ Method.allocate = ground (arith, same) in
          rw (stun_usage_turn_process, same)
            (by_class msg relay_len len c (stun_message_get_class msg) _ _ refl
              (λ e.
                on_turn_error-IsComplete msg relay_len len c (method, e) alternate_len
                  (stun_message_find_error msg))
              (λ e. allocated-IsComplete msg (method, e) relay_len len c))
    ]
