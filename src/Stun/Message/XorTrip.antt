-- ===== src/Stun/Message/XorTrip.antt =====
-- Address attributes under the exclusive or with the cookie and the transaction id.
use mathlib.Core.Path.{ap₂}
use libxice.Base.{ℕ, suc, ◌+◌, ◌/◌, ◌%◌, ◌^◌, ◌≤◌, ◌<◌, ◌≡◌, refl, ap, ◌∙◌, arith}
use libxice.Base.{List, [], ◌∷◌, some, bit_xor}
use libxice.Base.{length, All, le→ltb}
use libxice.Base.Memory.{Memory, byte, Agree}
use libxice.Base.Bits.{xor_twice, bit_xor-lt}
use libxice.Stun.Constants.{success}
use libxice.Stun.Types.{StunMessage}
use libxice.Stun.Utils.{SockAddr, inet, inet6, other_family, xor_bytes, stun_xor_address}
use libxice.Stun.Message.Append.{stun_message_append_addr, stun_message_append_xor_addr_full}
use libxice.Stun.Message.Typed.{stun_message_find_addr}
use libxice.Stun.Message.Typed.{stun_message_find_xor_addr_full}
use libxice.Stun.Message.Layout.{Attr}
use libxice.Stun.Message.Written.{CanTake}
use libxice.Stun.Message.AddressTrip.{value_size, sizeof_addr, IsAddr, find_addr-append_addr}

-- The exclusive or of an IPv6 address is undone by the same bytes.
length-xor_bytes : (m : Memory) (p : ℕ) (xs : List ℕ) → length (xor_bytes m p xs) ≡ length xs
unfolding xor_bytes
length-xor_bytes m p [] = refl
length-xor_bytes m p (x ∷ xs) = ap suc (length-xor_bytes m (p + 1) xs)

xor_bytes-All :
    (m : Memory) (p : ℕ) (xs : List ℕ)
    → All (λ x. x < 256) xs
    → All (λ x. x < 256) (xor_bytes m p xs)
unfolding xor_bytes
xor_bytes-All m p [] h = tt
xor_bytes-All m p (x ∷ xs) h =
    (bit_xor-lt 8 x (byte m p) h.0 (omega arith), xor_bytes-All m (p + 1) xs h.1)

xor_bytes_twice :
    (m m' : Memory) (p : ℕ) (xs : List ℕ)
    → Agree m m' p (p + length xs)
    → xor_bytes m' p (xor_bytes m p xs) ≡ xs
unfolding xor_bytes
xor_bytes_twice m m' p [] same = refl
xor_bytes_twice m m' p (x ∷ xs) same =
    ap₂ ◌∷◌
      (ap (λ (b : ℕ). bit_xor (bit_xor x (byte m p)) (b % 2 ^ 8))
          (same p (omega arith) (omega arith))
        ∙ xor_twice x (byte m p))
      (xor_bytes_twice m m' (p + 1) xs (λ q lo hi. same q (omega arith) (omega arith)))

-- The address that the exclusive or makes.
abbrev xored : Memory → ℕ → SockAddr → SockAddr
xored m cookie (inet port addr) = inet (bit_xor port (cookie / 2 ^ 16)) (bit_xor addr cookie)
xored m cookie (inet6 port addr) = inet6 (bit_xor port (cookie / 2 ^ 16)) (xor_bytes m 4 addr)
xored m cookie other_family = other_family

stun_xor_address-xored :
    (m : Memory) (addr : SockAddr) (addrlen cookie : ℕ)
    → IsAddr addr
    → sizeof_addr addr ≤ addrlen
    → stun_xor_address m addr addrlen cookie ≡ (success, xored m cookie addr)
unfolding stun_xor_address
stun_xor_address-xored m (inet port addr) addrlen cookie h big = rw (le→ltb addrlen 16 big)
stun_xor_address-xored m (inet6 port addr) addrlen cookie h big = rw (le→ltb addrlen 28 big)
stun_xor_address-xored m other_family addrlen cookie h big = absurd h

xored-IsAddr :
    (m : Memory) (cookie : ℕ) (addr : SockAddr)
    → cookie < 2 ^ 32
    → IsAddr addr
    → IsAddr (xored m cookie addr)
xored-IsAddr m cookie (inet port addr) hc (hp, ha) =
    (bit_xor-lt 16 port (cookie / 2 ^ 16) hp (omega arith), bit_xor-lt 32 addr cookie ha hc)
xored-IsAddr m cookie (inet6 port addr) hc (hp, sixteen, small) = (
  bit_xor-lt 16 port (cookie / 2 ^ 16) hp (omega arith),
  length-xor_bytes m 4 addr ∙ sixteen,
  xor_bytes-All m 4 addr small,
)
xored-IsAddr m cookie other_family hc h = absurd h

xored_twice :
    (m m' : Memory) (cookie : ℕ) (addr : SockAddr)
    → IsAddr addr
    → Agree m m' 4 20
    → xored m' cookie (xored m cookie addr) ≡ addr
xored_twice m m' cookie (inet port addr) h same =
    ap₂ inet (xor_twice port (cookie / 2 ^ 16)) (xor_twice addr cookie)
xored_twice m m' cookie (inet6 port addr) (hp, sixteen, small) same =
    ap₂ inet6 (xor_twice port (cookie / 2 ^ 16))
      (xor_bytes_twice m m' 4 addr (λ q lo hi. same q lo (omega arith)))
xored_twice m m' cookie other_family h same = absurd h

-- The family, and with it the sizes, stays.
xored-sizes :
    (m : Memory) (cookie : ℕ) (addr : SockAddr)
    → (value_size (xored m cookie addr) ≡ value_size addr)
      × (sizeof_addr (xored m cookie addr) ≡ sizeof_addr addr)
      × (sizeof_addr addr ≤ 28)
xored-sizes m cookie (inet port addr) = (refl, refl, omega arith)
xored-sizes m cookie (inet6 port addr) = (refl, refl, omega arith)
xored-sizes m cookie other_family = (refl, refl, omega arith)

append_xor_of_success :
    (msg : StunMessage) (type : ℕ) (addr xor : SockAddr) (addrlen cookie : ℕ)
    → addrlen ≤ 128
    → stun_xor_address msg.buffer addr addrlen cookie ≡ (success, xor)
    → stun_message_append_xor_addr_full msg type addr addrlen cookie
      ≡ stun_message_append_addr msg type xor addrlen
unfolding stun_message_append_xor_addr_full
append_xor_of_success msg type addr xor addrlen cookie small e = ground (arith, e)

find_xor_of_found :
    (msg : StunMessage) (type buflen cookie size : ℕ) (xor addr : SockAddr)
    → stun_message_find_addr msg type buflen ≡ (success, some xor, size)
    → stun_xor_address msg.buffer xor size cookie ≡ (success, addr)
    → stun_message_find_xor_addr_full msg type buflen cookie ≡ (success, some addr, size)
unfolding stun_message_find_xor_addr_full
find_xor_of_found msg type buflen cookie size xor addr e x = rw (e, x)

-- An address that was appended under the exclusive or with a cookie is found under the same cookie.
pub find_xor_addr-append_xor_addr :
    (msg : StunMessage) (attrs : List Attr) (type : ℕ) (addr : SockAddr) (addrlen buflen cookie : ℕ)
    → CanTake msg attrs type (value_size addr)
    → IsAddr addr
    → cookie < 2 ^ 32
    → sizeof_addr addr ≤ addrlen
    → addrlen ≤ 128
    → sizeof_addr addr ≤ buflen
    → (msg' : StunMessage) × (stun_message_append_xor_addr_full msg type addr addrlen cookie
        ≡ (success, msg'))
      × (stun_message_find_xor_addr_full msg' type buflen cookie
          ≡ (success, some addr, sizeof_addr addr))
find_xor_addr-append_xor_addr msg attrs type addr addrlen buflen cookie can fits hc big small room =
    let xor = xored msg.buffer cookie addr in
    let (same_value, same_size, _) = xored-sizes msg.buffer cookie addr in
    let (msg', e, found, kept) =
      find_addr-append_addr msg attrs type xor addrlen buflen (rw same_value can)
        (xored-IsAddr msg.buffer cookie addr hc fits) (rw same_size big) (rw same_size room) in
    (
      msg',
      append_xor_of_success msg type addr xor addrlen cookie small
            (stun_xor_address-xored msg.buffer addr addrlen cookie fits big)
          ∙ e,
      find_xor_of_found msg' type buflen cookie (sizeof_addr addr) xor addr
          (found ∙ ap (λ (s : ℕ). (success, some xor, s)) same_size)
          (stun_xor_address-xored msg'.buffer xor (sizeof_addr addr) cookie
              (xored-IsAddr msg.buffer cookie addr hc fits) (omega (arith, same_size))
            ∙ ap (λ (a : SockAddr). (success, a))
                (xored_twice msg.buffer msg'.buffer cookie addr fits kept)),
    )
