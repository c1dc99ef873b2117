-- ===== src/Http/Address.antt =====
-- `SocketAddrV4` of the standard library, the type of the target of src/rune_host.rs, and how it and
-- its address are printed. Octets are below 256 and a port is below 65536.
pub mod Printed
use Prim.Native.Nat.{◌/◌, ◌%◌}
use programmable_redfish_pro.Prelude.{
  ℕ, zero, suc, ◌+◌, ◌<◌, Bool, true, false, List, [], ◌∷◌, ◌++◌, Text, ltb,
}

-- The decimal digits of a number below 10 ^ fuel.
unfoldable pub digits : (fuel : ℕ) → ℕ → Text
digits zero n = []
digits (suc fuel) n = elim (ltb n 10) [
  | true ↦ (b'0' + n) ∷ []
  | false ↦ digits fuel (n / 10) ++ (b'0' + n % 10) ∷ []
]

-- Five digits are enough for an octet and for a port.
unfoldable pub decimal : ℕ → Text
unfolding digits
decimal n = digits 5 n

pub record Ipv4Addr : Type 0 where
  pub first : ℕ
  pub second : ℕ
  pub third : ℕ
  pub fourth : ℕ

pub record SocketAddrV4 : Type 0 where
  pub ip : Ipv4Addr
  pub port : ℕ

-- `to_string` of an address.
unfoldable pub ip_text : Ipv4Addr → Text
unfolding decimal
ip_text ip =
    decimal ip.first
    ++ b'.' ∷ (decimal ip.second ++ b'.' ∷ (decimal ip.third ++ b'.' ∷ decimal ip.fourth))

-- `to_string` of an address with a port.
unfoldable pub socket_text : SocketAddrV4 → Text
unfolding ip_text decimal
socket_text target = ip_text target.ip ++ b':' ∷ decimal target.port
