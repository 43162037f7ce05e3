-- ===== src/IpEndPoint.antt =====
-- src/nev/ip_address.cc and src/nev/ip_endpoint.cc: the classes `IPAddress` and `IPEndPoint`. Numbers are
-- printed by `print`, which stands for the `%d` of `base::StringPrintf`.
pub mod Order
pub mod SockAddr
mod Tests
use nev.Base.{
  ℕ, Bool, true, false, not, ◌&&◌, ◌||◌, if◌then◌else◌, ltb, ◌==◌, same_bytes, bytes_less, List, [],
  ◌∷◌, ◌++◌, length, Option, some, none,
}

abbrev pub ipv4_address_size : ℕ
ipv4_address_size = 4

-- The bytes in network order.
pub record IpAddress : Type 0 where
  pub ip_address : List ℕ

unfoldable pub is_ipv4 : IpAddress → Bool
is_ipv4 a = length a.ip_address == ipv4_address_size

abbrev pub ipv4_localhost : IpAddress
ipv4_localhost = record { ip_address = 127 ∷ 0 ∷ 0 ∷ 1 ∷ [] }

unfoldable pub same_address : IpAddress → IpAddress → Bool
unfolding same_bytes
same_address a b = same_bytes a.ip_address b.ip_address

unfoldable pub differs : IpAddress → IpAddress → Bool
unfolding same_bytes
differs a b = not (same_bytes a.ip_address b.ip_address)

unfoldable pub address_less : IpAddress → IpAddress → Bool
unfolding bytes_less
address_less a b =
    if not (length a.ip_address == length b.ip_address)
    then ltb (length a.ip_address) (length b.ip_address)
    else bytes_less a.ip_address b.ip_address

pub record IpEndPoint : Type 0 where
  pub address : IpAddress
  pub port : ℕ

abbrev pub new_end_point : IpEndPoint
new_end_point = record { address = record { ip_address = [] }; port = 0 }

unfoldable pub same_end_point : IpEndPoint → IpEndPoint → Bool
unfolding same_address
same_end_point a b = same_address a.address b.address && (a.port == b.port)

-- `std::tie` compares the addresses first, by `operator <` both ways.
unfoldable pub end_point_less : IpEndPoint → IpEndPoint → Bool
unfolding address_less
end_point_less a b =
    if not (length a.address.ip_address == length b.address.ip_address)
    then ltb (length a.address.ip_address) (length b.address.ip_address)
    else address_less a.address b.address
      || (not (address_less b.address a.address) && ltb a.port b.port)

unfoldable pub dotted : (ℕ → List ℕ) → List ℕ → List ℕ
dotted print (a ∷ b ∷ c ∷ d ∷ []) =
    print a ++ (b'.' ∷ print b) ++ (b'.' ∷ print c) ++ (b'.' ∷ print d)
dotted print _ = []

unfoldable pub address_to_string : (ℕ → List ℕ) → IpAddress → List ℕ
unfolding is_ipv4 dotted
address_to_string print a = if is_ipv4 a then dotted print a.ip_address else []

unfoldable pub with_port : (ℕ → List ℕ) → List ℕ → ℕ → List ℕ
with_port print [] port = []
with_port print (c ∷ cs) port = (c ∷ cs) ++ (b':' ∷ print port)

-- `IPAddressToStringWithPort`.
unfoldable pub end_point_to_string : (ℕ → List ℕ) → IpEndPoint → List ℕ
unfolding address_to_string with_port
end_point_to_string print e = with_port print (address_to_string print e.address) e.port
