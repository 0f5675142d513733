-- ===== src/Lan.antt =====
-- `is_preferred_lan_ip` of crates/cli/src/main.rs, which picks the address to offer to peers.
pub mod Label
mod Tests
use send_rs.Prelude.{
  ℕ, ◌+◌, ◌*◌, ◌^◌, ◌≤◌, ◌<◌, ◌≡◌, Bool, true, false, List, ◌&&◌, ◌⊎◌, ◌↔◌, nat_eq, leb, arith,
  if◌then◌else◌, inl, inr,
}

pub data IpAddr : Type 0 where
  v4 : ℕ → ℕ → ℕ → ℕ → IpAddr
  v6 : List ℕ → IpAddr

unfoldable pub is_preferred_lan_ip : IpAddr → Bool
is_preferred_lan_ip (IpAddr.v4 a b c d) =
    if nat_eq a 10
    then true
    else if nat_eq a 172 && (leb 16 b && leb b 31)
    then true
    else if nat_eq a 192 && nat_eq b 168
    then true
    else false
is_preferred_lan_ip (IpAddr.v6 segments) = false

-- The address as one number of 32 bits.
abbrev pub address : ℕ → ℕ → ℕ → ℕ → ℕ
address a b c d = a * 2 ^ 24 + b * 2 ^ 16 + c * 2 ^ 8 + d

-- The blocks that RFC 1918 sets aside: 10/8, 172.16/12 and 192.168/16.
abbrev pub IsPrivate : ℕ → Type 0
IsPrivate n =
    ((10 * 2 ^ 24 ≤ n) × (n < 11 * 2 ^ 24))
    ⊎ (((172 * 2 ^ 24 + 16 * 2 ^ 16 ≤ n) × (n < 172 * 2 ^ 24 + 32 * 2 ^ 16))
        ⊎ ((192 * 2 ^ 24 + 168 * 2 ^ 16 ≤ n) × (n < 192 * 2 ^ 24 + 169 * 2 ^ 16)))

-- Of four octets, the preferred addresses are those whose number lies in a block that RFC 1918
-- sets aside for private networks.
pub is_preferred_lan_ip-IsPrivate :
    (a b c d : ℕ)
    → a < 256
    → b < 256
    → c < 256
    → d < 256
    → (is_preferred_lan_ip (IpAddr.v4 a b c d) ≡ true) ↔ IsPrivate (address a b c d)
unfolding is_preferred_lan_ip
is_preferred_lan_ip-IsPrivate a b c d ha hb hc hd = (λ h. ground arith, λ p. ground arith)
