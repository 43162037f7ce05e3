-- ===== src/IpEndPoint/SockAddr.antt =====
-- `IPEndPoint::toSockAddr` and `IPEndPoint::fromSockAddr`.
use nev.Base.{
  ℕ, ◌≤◌, ◌<◌, ◌^◌, ◌≡◌, refl, ap, true, if◌then◌else◌, ltb, ge→ltb, ◌==◌, List, length, Option,
  some, none,
}
use nev.IpEndPoint.{IpEndPoint, ipv4_address_size, is_ipv4}

-- A `sockaddr_in`: the family, the port as it is stored, and the bytes of the address.
pub record SockAddr : Type 0 where
  pub sa_family : ℕ
  pub sin_port : ℕ
  pub sin_addr : List ℕ

abbrev pub af_inet : ℕ
af_inet = 2

abbrev pub sockaddr_in_size : ℕ
sockaddr_in_size = 16

-- `base::HostToNet16` and `base::NetToHost16`.
pub record PortOrder : Type 0 where
  pub host_to_net16 : ℕ → ℕ
  pub net_to_host16 : ℕ → ℕ
  pub net_to_host16_inverse : (p : ℕ) → p < 2 ^ 16 → net_to_host16 (host_to_net16 p) ≡ p

module _ (o : PortOrder) where
  -- `none` is the result `false`; otherwise the structure and its length.
  unfoldable pub to_sock_addr : IpEndPoint → ℕ → Option (SockAddr × ℕ)
  to_sock_addr e capacity =
      if length e.address.ip_address == ipv4_address_size
      then (if ltb capacity sockaddr_in_size
          then none
          else some (
            record {
              sa_family = af_inet;
              sin_port = o.host_to_net16 e.port;
              sin_addr = e.address.ip_address;
            },
            sockaddr_in_size,
          ))
      else none

  -- `GetIPAddressFromSockAddr`: the bytes of the address, and the port.
  unfoldable pub address_from_sock_addr : SockAddr → ℕ → Option (List ℕ × ℕ)
  address_from_sock_addr a len =
      if a.sa_family == af_inet
      then (if ltb len sockaddr_in_size
          then none
          else some (a.sin_addr, o.net_to_host16 a.sin_port))
      else none

  unfoldable pub end_point_of : Option (List ℕ × ℕ) → Option IpEndPoint
  end_point_of none = none
  end_point_of (some (bytes, port)) =
      some (record { address = record { ip_address = bytes }; port = port })

  unfoldable pub from_sock_addr : SockAddr → ℕ → Option IpEndPoint
  unfolding address_from_sock_addr end_point_of
  from_sock_addr a len = end_point_of (address_from_sock_addr a len)

  -- An end point with an IPv4 address and a port of 16 bits goes into any storage of at least the
  -- size of a sockaddr_in, and comes out of it again.
  pub from_sock_addr-to_sock_addr :
      (e : IpEndPoint) (capacity : ℕ)
      → is_ipv4 e.address ≡ true
      → e.port < 2 ^ 16
      → sockaddr_in_size ≤ capacity
      → (a : SockAddr) × (to_sock_addr e capacity ≡ some (a, sockaddr_in_size))
        × (from_sock_addr a sockaddr_in_size ≡ some e)
  unfolding to_sock_addr from_sock_addr is_ipv4
  from_sock_addr-to_sock_addr e capacity v p c =
      let a : SockAddr = record {
        sa_family = af_inet;
        sin_port = o.host_to_net16 e.port;
        sin_addr = e.address.ip_address;
      } in
      rw (v, ge→ltb capacity sockaddr_in_size c)
        (
          a,
          refl,
          ap (λ q. some (record { address = e.address; port = q }))
              (o.net_to_host16_inverse e.port p),
        )
