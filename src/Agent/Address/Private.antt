-- ===== src/Agent/Address/Private.antt =====
-- Equality of addresses, and which addresses count as private.
use native.Mathlib.Nat.{mod-eq_of_lt}
use libxice.Base.{ℕ, ◌-◌, ◌+◌, ◌*◌, ◌/◌, ◌%◌, ◌^◌, ◌<◌, ◌≡◌, ◌⊎◌, ◌↔◌, refl, ap, arith}
use libxice.Base.{true, List, [], ◌∷◌, get_or, bit_and, ◌∙◌}
use libxice.Base.Bits.{bit_and-shifted_mask, bit_and-low_mask}
use libxice.Agent.Address.{XiceAddress, unspec, ip4, ip6, bytes_eq, xice_address_equal}
use libxice.Agent.Address.{ipv4_address_is_private, ipv6_address_is_private, loopback6}
use libxice.Agent.Address.{xice_address_is_valid}

bytes_eq_iff : (xs ys : List ℕ) → (bytes_eq xs ys ≡ true) ↔ (xs ≡ ys)
unfolding bytes_eq
bytes_eq_iff [] [] = (λ h. refl, λ h. refl)
bytes_eq_iff [] (y ∷ ys) = (λ h. cc, λ h. cc)
bytes_eq_iff (x ∷ xs) [] = (λ h. cc, λ h. cc)
bytes_eq_iff (x ∷ xs) (y ∷ ys) =
    (λ h. ground (arith, bytes_eq_iff xs ys), λ h. ground (arith, bytes_eq_iff xs ys))

-- Of valid addresses it is equality of the family, the address and the port, for IPv6 also of the
-- scope; an address of another family equals none.
pub xice_address_equal_iff :
    (a b : XiceAddress)
    → (xice_address_equal a b ≡ true) ↔ ((xice_address_is_valid a ≡ true) × (a ≡ b))
unfolding xice_address_equal xice_address_is_valid
xice_address_equal_iff unspec unspec = (λ h. ground arith, λ h. ground arith)
xice_address_equal_iff unspec (ip4 q b) = (λ h. ground arith, λ h. ground arith)
xice_address_equal_iff unspec (ip6 q b t) = (λ h. ground arith, λ h. ground arith)
xice_address_equal_iff (ip4 p a) unspec = (λ h. ground arith, λ h. ground arith)
xice_address_equal_iff (ip4 p a) (ip4 q b) = (λ h. ground arith, λ h. ground arith)
xice_address_equal_iff (ip4 p a) (ip6 q b t) = (λ h. ground arith, λ h. ground arith)
xice_address_equal_iff (ip6 p a s) unspec = (λ h. ground arith, λ h. ground arith)
xice_address_equal_iff (ip6 p a s) (ip4 q b) = (λ h. ground arith, λ h. ground arith)
xice_address_equal_iff (ip6 p a s) (ip6 q b t) =
    (λ h. ground (arith, bytes_eq_iff a b), λ h. ground (arith, bytes_eq_iff a b))

masked :
    (k n addr : ℕ)
    → addr / 2 ^ k < 2 ^ n
    → bit_and addr ((2 ^ n - 1) * 2 ^ k) ≡ addr / 2 ^ k * 2 ^ k
masked k n addr h =
    bit_and-shifted_mask k addr (2 ^ n - 1)
    ∙ ap (λ (t : ℕ). t * 2 ^ k) (bit_and-low_mask n (addr / 2 ^ k) ∙ mod-eq_of_lt h)

-- The private IPv4 addresses are those of 10.0.0.0/8, 172.16.0.0/12, 192.168.0.0/16 and 127.0.0.0/8.
pub ipv4_address_is_private_iff :
    (addr : ℕ)
    → addr < 2 ^ 32
    → (ipv4_address_is_private addr ≡ true) ↔ (
        (addr / 2 ^ 24 ≡ 10)
        ⊎ ((addr / 2 ^ 20 ≡ 172 * 16 + 1)
            ⊎ ((addr / 2 ^ 16 ≡ 192 * 256 + 168) ⊎ (addr / 2 ^ 24 ≡ 127))))
unfolding ipv4_address_is_private
ipv4_address_is_private_iff addr h = (
  λ p. ground (arith, masked 24 8 addr, masked 20 12 addr, masked 16 16 addr),
  λ p. ground (arith, masked 24 8 addr, masked 20 12 addr, masked 16 16 addr),
)

low_nibble : (b : ℕ) → bit_and b 0xc ≡ b / 4 % 4 * 4
low_nibble b = bit_and-shifted_mask 2 b 3 ∙ ap (λ (t : ℕ). t * 4) (bit_and-low_mask 2 (b / 4))

-- Of the IPv6 addresses only those of fc00::/7 and ::1 are private. The test for fe80::/10 compares
-- two bits with a number that they cannot make.
pub ipv6_address_is_private_iff :
    (addr : List ℕ)
    → get_or addr 0 0 < 256
    → (ipv6_address_is_private addr ≡ true) ↔ ((get_or addr 0 0 / 2 ≡ 0x7e) ⊎ (addr ≡ loopback6))
unfolding ipv6_address_is_private
ipv6_address_is_private_iff addr h = (
  λ p. ground (
    arith,
    low_nibble (get_or addr 1 0),
    masked 1 7 (get_or addr 0 0),
    bytes_eq_iff addr loopback6,
  ),
  λ p. ground (
    arith,
    low_nibble (get_or addr 1 0),
    masked 1 7 (get_or addr 0 0),
    bytes_eq_iff addr loopback6,
  ),
)
