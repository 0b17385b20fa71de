-- ===== src/Agent/Address.antt =====
-- agent/address.c: addresses of IPv4 and IPv6.
mod Tests
pub mod Private
use libxice.Base.{ℕ, ◌+◌, ◌*◌, ◌/◌, ◌%◌, ◌^◌, bit_and, Bool, true, false, ◌&&◌, ◌||◌, not}
use libxice.Base.{Option, none, some, List, [], ◌∷◌, ◌==◌, if◌then◌else◌, get_or}
use libxice.Base.Memory.{Memory, byte}

-- The union `struct _XiceAddress`. A port and an IPv4 address are the numbers that their bytes in
-- network order make, an IPv6 address is its bytes; `unspec` is any other family.
pub data XiceAddress : Type 0 where
  unspec : XiceAddress
  ip4 : ℕ → ℕ → XiceAddress
  ip6 : ℕ → List ℕ → ℕ → XiceAddress

-- Whether the 16 bytes are the same (`IN6_ARE_ADDR_EQUAL`, `memcmp`).
pub bytes_eq : List ℕ → List ℕ → Bool
bytes_eq [] [] = true
bytes_eq [] (y ∷ ys) = false
bytes_eq (x ∷ xs) [] = false
bytes_eq (x ∷ xs) (y ∷ ys) = x == y && bytes_eq xs ys

-- An address after the call, whatever it was.
pub xice_address_init : XiceAddress
xice_address_init = unspec

pub xice_address_set_ipv4 : ℕ → XiceAddress
xice_address_set_ipv4 addr_ipv4 = ip4 0 (if addr_ipv4 == 0 then 0 else addr_ipv4)

pub xice_address_set_ipv6 : List ℕ → XiceAddress
xice_address_set_ipv6 addr_ipv6 = ip6 0 addr_ipv6 0

-- `port` is a guint, and htons takes its low 16 bits. On another family nothing happens.
pub xice_address_set_port : XiceAddress → ℕ → XiceAddress
xice_address_set_port unspec port = unspec
xice_address_set_port (ip4 old addr) port = ip4 (port % 2 ^ 16) addr
xice_address_set_port (ip6 old addr scope_id) port = ip6 (port % 2 ^ 16) addr scope_id

-- `none` is NULL.
pub xice_address_get_port : Option XiceAddress → ℕ
xice_address_get_port none = 0
xice_address_get_port (some unspec) = 0
xice_address_get_port (some (ip4 port addr)) = port
xice_address_get_port (some (ip6 port addr scope_id)) = port

-- `inet_pton`, for each of the two families: the address that it stores, if its result is positive.
module _ (inet_pton4 : List ℕ → Option ℕ) (inet_pton6 : List ℕ → Option (List ℕ)) where
  abbrev pub set_from_ipv6_string : XiceAddress → Option (List ℕ) → Bool × XiceAddress
  set_from_ipv6_string addr none = (false, addr)
  set_from_ipv6_string addr (some a) = (true, xice_address_set_ipv6 a)

  abbrev pub set_from_ipv4_string : XiceAddress → List ℕ → Option ℕ → Bool × XiceAddress
  set_from_ipv4_string addr str (some a) = (true, xice_address_set_ipv4 a)
  set_from_ipv4_string addr str none = set_from_ipv6_string addr (inet_pton6 str)

  -- The result, and the address.
  pub xice_address_set_from_string : XiceAddress → List ℕ → Bool × XiceAddress
  xice_address_set_from_string addr str = set_from_ipv4_string addr str (inet_pton4 str)

-- A `struct sockaddr` of the two families is what the union holds of it.
pub xice_address_set_from_sockaddr : XiceAddress → XiceAddress → XiceAddress
xice_address_set_from_sockaddr addr unspec = addr
xice_address_set_from_sockaddr addr (ip4 port a) = ip4 port a
xice_address_set_from_sockaddr addr (ip6 port a scope_id) = ip6 port a scope_id

-- What is in `*sa` afterwards.
pub xice_address_copy_to_sockaddr : XiceAddress → XiceAddress → XiceAddress
xice_address_copy_to_sockaddr unspec sa = sa
xice_address_copy_to_sockaddr (ip4 port a) sa = ip4 port a
xice_address_copy_to_sockaddr (ip6 port a scope_id) sa = ip6 port a scope_id

pub xice_address_equal : XiceAddress → XiceAddress → Bool
unfolding bytes_eq
xice_address_equal (ip4 p a) (ip4 q b) = (a == b) && (p == q)
xice_address_equal (ip6 p a s) (ip6 q b t) = bytes_eq a b && (p == q) && (s == t)
xice_address_equal _ _ = false

-- `addr` is the address after ntohl.
pub ipv4_address_is_private : ℕ → Bool
ipv4_address_is_private addr =
    (bit_and addr 0xff000000 == 0x0a000000)
    || (bit_and addr 0xfff00000 == 0xac100000)
    || (bit_and addr 0xffff0000 == 0xc0a80000)
    || (bit_and addr 0xff000000 == 0x7f000000)

abbrev pub loopback6 : List ℕ
loopback6 = 0 ∷ 0 ∷ 0 ∷ 0 ∷ 0 ∷ 0 ∷ 0 ∷ 0 ∷ 0 ∷ 0 ∷ 0 ∷ 0 ∷ 0 ∷ 0 ∷ 0 ∷ 1 ∷ []

pub ipv6_address_is_private : List ℕ → Bool
unfolding bytes_eq
ipv6_address_is_private addr =
    ((get_or addr 0 0 == 0xfe) && (bit_and (get_or addr 1 0) 0xc == 0x80))
    || (bit_and (get_or addr 0 0) 0xfe == 0xfc)
    || bytes_eq addr loopback6

pub xice_address_is_private : XiceAddress → Bool
unfolding ipv4_address_is_private ipv6_address_is_private
xice_address_is_private unspec = false
xice_address_is_private (ip4 port addr) = ipv4_address_is_private addr
xice_address_is_private (ip6 port addr scope_id) = ipv6_address_is_private addr

pub xice_address_is_valid : XiceAddress → Bool
xice_address_is_valid unspec = false
xice_address_is_valid (ip4 port addr) = true
xice_address_is_valid (ip6 port addr scope_id) = true

pub xice_address_ip_version : XiceAddress → ℕ
xice_address_ip_version unspec = 0
xice_address_ip_version (ip4 port addr) = 4
xice_address_ip_version (ip6 port addr scope_id) = 6
