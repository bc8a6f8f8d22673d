-- ===== src/Network.antt =====
-- utils/network.py: private and valid addresses, subnets. The parsers `ipaddress.ip_address` and
-- `ipaddress.ip_network(…, strict=False)` are parameters; `none` stands for their `ValueError`.
use sentinel_pi.Prelude.{
  ℕ, ◌+◌, ◌-◌, ◌*◌, ◌/◌, ◌^◌, ◌≤◌, ◌≡◌, ◌⊎◌, ◌↔◌, String, Bool, true, false, ◌||◌, Option, none,
  some, List, [], ◌∷◌, ◌==◌, arith,
}

-- An IPv4 address is its 32-bit number; of an IPv6 address, its 128-bit number and its properties.
pub data Address : Type 0 where
  v4 : ℕ → Address
  v6 : ℕ → (is_private is_loopback is_link_local : Bool) → Address

pub data Subnet : Type 0 where
  net4 : ℕ → ℕ → Subnet
  net6 : ℕ → ℕ → Subnet

-- `addr in net` for one version: the first `prefix` of `width` bits agree.
unfoldable pub same_prefix : ℕ → ℕ → ℕ → ℕ → Bool
same_prefix width address base prefix =
    address / 2 ^ (width - prefix) == base / 2 ^ (width - prefix)

unfoldable pub contains : Subnet → Address → Bool
unfolding same_prefix
contains (net4 base prefix) (v4 a) = same_prefix 32 a base prefix
contains (net6 base prefix) (v6 a _ _ _) = same_prefix 128 a base prefix
contains _ _ = false

abbrev pub ipv4 : ℕ → ℕ → ℕ → ℕ → ℕ
ipv4 a b c d = a * 16777216 + b * 65536 + c * 256 + d

-- `_PRIVATE_NETWORKS`
abbrev pub private_networks : List Subnet
private_networks =
    net4 (ipv4 10 0 0 0) 8
    ∷ net4 (ipv4 172 16 0 0) 12
    ∷ net4 (ipv4 192 168 0 0) 16
    ∷ net4 (ipv4 127 0 0 0) 8
    ∷ net4 (ipv4 169 254 0 0) 16
    ∷ net4 (ipv4 224 0 0 0) 4
    ∷ net4 (ipv4 255 255 255 255) 32
    ∷ []

unfoldable pub in_any : List Subnet → Address → Bool
unfolding contains
in_any [] a = false
in_any (n ∷ ns) a = contains n a || in_any ns a

unfoldable pub is_private : Address → Bool
unfolding in_any
is_private (v6 _ private loopback link_local) = private || loopback || link_local
is_private (v4 a) = in_any private_networks (v4 a)

module _ (ip_address : String → Option Address) where
  unfoldable pub is_private_ip : String → Bool
  unfolding is_private
  is_private_ip ip = elim (ip_address ip) [ none ↦ false | some a ↦ is_private a ]

  unfoldable pub is_valid_ip : String → Bool
  is_valid_ip ip = elim (ip_address ip) [ none ↦ false | some a ↦ true ]

  module _ (ip_network : String → Option Subnet) where
    unfoldable pub ip_in_subnet : String → String → Bool
    unfolding contains
    ip_in_subnet ip subnet = elim (ip_address ip) [
      | none ↦ false
      | some a ↦ elim (ip_network subnet) [ none ↦ false | some n ↦ contains n a ]
    ]

    unfoldable pub ip_in_any_subnet : String → List String → Bool
    unfolding ip_in_subnet
    ip_in_any_subnet ip [] = false
    ip_in_any_subnet ip (s ∷ subnets) = ip_in_subnet ip s || ip_in_any_subnet ip subnets

-- The IPv4 ranges that the docstring of `is_private_ip` names, by their first and last addresses.
abbrev pub IsPrivateRange : ℕ → Type 0
IsPrivateRange a =
    ((ipv4 10 0 0 0 ≤ a) × (a ≤ ipv4 10 255 255 255))
    ⊎ ((ipv4 172 16 0 0 ≤ a) × (a ≤ ipv4 172 31 255 255))
    ⊎ ((ipv4 192 168 0 0 ≤ a) × (a ≤ ipv4 192 168 255 255))
    ⊎ ((ipv4 127 0 0 0 ≤ a) × (a ≤ ipv4 127 255 255 255))
    ⊎ ((ipv4 169 254 0 0 ≤ a) × (a ≤ ipv4 169 254 255 255))
    ⊎ ((ipv4 224 0 0 0 ≤ a) × (a ≤ ipv4 239 255 255 255))
    ⊎ (a ≡ ipv4 255 255 255 255)

-- An IPv4 address counts as private exactly if it lies in one of the seven ranges.
pub is_private-ranges : (a : ℕ) → (is_private (v4 a) ≡ true) ↔ IsPrivateRange a
unfolding is_private same_prefix
is_private-ranges a = ((λ h. ground arith), (λ h. ground arith))
