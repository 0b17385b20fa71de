-- ===== src/Stun/Turn/Process/Addresses.antt =====
-- stun/usages/turn.c: an address that is found is stored.
use libxice.Base.{ℕ, Bool, true, false, Option, none, some, Option-cases}
use libxice.Base.{inl, inr, if◌then◌else◌}
use libxice.Stun.Constants.{StunMessageReturn, success, not_found, invalid, magic_cookie}
use libxice.Stun.Constants.{not_enough_space, unsupported_address}
use libxice.Stun.Types.{StunMessage}
use libxice.Stun.Utils.{SockAddr, stun_xor_address}
use libxice.Stun.Message.{stun_message_find}
use libxice.Stun.Message.Typed.{FoundAddr, stun_message_find_addr, xor_found}
use libxice.Stun.Message.Typed.{stun_message_find_xor_addr}

abbrev HasAddress : Option SockAddr → Type 0
HasAddress none = ⊥
HasAddress (some addr) = Unit {0}

-- A success comes with an address.
abbrev pub IsStored : FoundAddr → Type 0
IsStored (success, found, len) = HasAddress found
IsStored (failed, found, len) = Unit {0}

if_IsStored : (b : Bool) (x y : FoundAddr) → IsStored x → IsStored y → IsStored (if b then x else y)
if_IsStored true x y hx hy = hx
if_IsStored false x y hx hy = hy

some-IsStored : (v : StunMessageReturn) (addr : SockAddr) (len : ℕ) → IsStored (v, some addr, len)
some-IsStored success addr len = tt
some-IsStored not_found addr len = tt
some-IsStored invalid addr len = tt
some-IsStored not_enough_space addr len = tt
some-IsStored unsupported_address addr len = tt

pub find_addr-IsStored :
    (msg : StunMessage) (type len : ℕ) → IsStored (stun_message_find_addr msg type len)
unfolding stun_message_find_addr
find_addr-IsStored msg type len = elim (Option-cases (stun_message_find msg type)) [
  | inl e ↦ rw (stun_message_find_addr, e) tt
  | inr (x, e) ↦ rw (stun_message_find_addr, e) (search if_IsStored)
]

xor_found-IsStored :
    (msg : StunMessage) (cookie : ℕ) (f : FoundAddr)
    → IsStored f
    → IsStored (xor_found msg cookie f)
xor_found-IsStored msg cookie (v, none, len) h = h
xor_found-IsStored msg cookie (v, some addr, len) h =
    some-IsStored (stun_xor_address msg.buffer addr len cookie).0
      (stun_xor_address msg.buffer addr len cookie).1 len

pub find_xor_addr-IsStored :
    (msg : StunMessage) (type len : ℕ) → IsStored (stun_message_find_xor_addr msg type len)
unfolding stun_message_find_xor_addr
find_xor_addr-IsStored msg type len =
    xor_found-IsStored msg magic_cookie _ (find_addr-IsStored msg type len)
