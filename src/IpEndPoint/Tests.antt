-- ===== src/IpEndPoint/Tests.antt =====
-- End points at work. A number is printed as one character, and a port is stored with its bytes swapped.
use nev.Base.{
  bytes_less, ℕ, ◌+◌, ◌*◌, ◌/◌, ◌%◌, ◌^◌, ◌<◌, ◌≡◌, refl, true, false, [], ◌∷◌, some, arith, ◌⊎◌,
}
use nev.IpEndPoint.{
  IpEndPoint, ipv4_localhost, is_ipv4, end_point_less, address_less, same_end_point,
  end_point_to_string, address_to_string, with_port, dotted,
}
use nev.IpEndPoint.Order.{end_point_less_trans, end_point_less-trichotomy}
use nev.IpEndPoint.SockAddr.{
  SockAddr, PortOrder, to_sock_addr, from_sock_addr, from_sock_addr-to_sock_addr, sockaddr_in_size,
}

abbrev local : ℕ → IpEndPoint
local p = record { address = ipv4_localhost; port = p }

abbrev remote : IpEndPoint
remote = record { address = record { ip_address = 192 ∷ 168 ∷ 0 ∷ 1 ∷ [] }; port = 80 }

printed :
    end_point_to_string (λ n. n ∷ []) (local 80)
    ≡ 127 ∷ b'.' ∷ 0 ∷ b'.' ∷ 0 ∷ b'.' ∷ 1 ∷ b':' ∷ 80 ∷ []
unfolding end_point_to_string address_to_string with_port is_ipv4 dotted
printed = refl

less_ports : end_point_less (local 80) (local 443) ≡ true
unfolding end_point_less address_less bytes_less
less_ports = refl

less_addresses : end_point_less (local 443) remote ≡ true
unfolding end_point_less address_less bytes_less
less_addresses = refl

end_point_less_trans_run : end_point_less (local 80) remote ≡ true
end_point_less_trans_run =
    end_point_less_trans (local 80) (local 443) remote less_ports less_addresses

end_point_less-trichotomy_run :
    ((end_point_less remote (local 80) ≡ true)
      × (end_point_less (local 80) remote ≡ false)
      × (same_end_point remote (local 80) ≡ false))
    ⊎ (((remote ≡ local 80)
          × (end_point_less remote (local 80) ≡ false)
          × (end_point_less (local 80) remote ≡ false)
          × (same_end_point remote (local 80) ≡ true))
        ⊎ ((end_point_less remote (local 80) ≡ false)
            × (end_point_less (local 80) remote ≡ true)
            × (same_end_point remote (local 80) ≡ false)))
end_point_less-trichotomy_run = end_point_less-trichotomy remote (local 80)

swap16 : ℕ → ℕ
swap16 p = 256 * (p % 256) + p / 256

swap16-swap16 : (p : ℕ) → p < 2 ^ 16 → swap16 (swap16 p) ≡ p
unfolding swap16
swap16-swap16 p h = omega (arith, h)

abbrev swapped : PortOrder
swapped = record {
  host_to_net16 = swap16;
  net_to_host16 = swap16;
  net_to_host16_inverse = swap16-swap16;
}

remote_is_ipv4 : is_ipv4 remote.address ≡ true
unfolding is_ipv4
remote_is_ipv4 = refl

from_sock_addr-to_sock_addr_run :
    (a : SockAddr) × (to_sock_addr swapped remote 128 ≡ some (a, sockaddr_in_size))
    × (from_sock_addr swapped a sockaddr_in_size ≡ some remote)
from_sock_addr-to_sock_addr_run =
    from_sock_addr-to_sock_addr swapped remote 128 remote_is_ipv4 (omega arith) (omega arith)
