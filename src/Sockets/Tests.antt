-- ===== src/Sockets/Tests.antt =====
-- A client connects, and a server accepts. Ports are stored as they are.
use nev.Base.{
  ℕ, ◌-◌, pos, negsuc, int_of_size, ◌<◌, ◌^◌, ◌≡◌, refl, ◌↔◌, inr, true, false, List, [], ◌∷◌, some,
  none, arith,
}
use nev.IpEndPoint.{IpEndPoint, ipv4_localhost, new_end_point, is_ipv4}
use nev.IpEndPoint.SockAddr.{SockAddr, PortOrder, from_sock_addr}
use nev.Sockets.{
  SysCall, connect_call, send_call, returns, Storage, connect, accept, write, get_socket_error,
}
use nev.Sockets.Descriptors.{is_some, or_else, Accepts, accept-Accepts, accept-connect, write-count}

abbrev plain_order : PortOrder
plain_order = record {
  host_to_net16 = λ p. p;
  net_to_host16 = λ p. p;
  net_to_host16_inverse = λ p h. refl;
}

abbrev client : IpEndPoint
client = record { address = ipv4_localhost; port = 4000 }

-- An IPv6 socket address, which `fromSockAddr` refuses.
abbrev foreign : Storage
foreign = record { addr = record { sa_family = 23; sin_port = 0; sin_addr = [] }; addr_len = 28 }

accept-Accepts_example :
    let peer = from_sock_addr plain_order foreign.addr foreign.addr_len in
    (after : List SysCall) × (accept plain_order true 3 (inr (7, foreign)) new_end_point []
      ≡ returns (some 7, or_else peer new_end_point) after)
    × Accepts 3 7 true (is_some peer) [] after
accept-Accepts_example = accept-Accepts plain_order true 3 7 foreign new_end_point []

-- That address is refused, so the descriptor that `Accept` returns is closed.
foreign_refused : is_some (from_sock_addr plain_order foreign.addr foreign.addr_len) ≡ false
unfolding from_sock_addr
foreign_refused = refl

accept-connect_example :
    (stored : SockAddr × ℕ) × (connect plain_order (pos 0) 5 client []
      ≡ returns (pos 0) (connect_call 5 stored.0 stored.1 ∷ []))
    × (after : List SysCall) × (accept plain_order true 3
          (inr (7, record { addr = stored.0; addr_len = stored.1 }))
          new_end_point
          []
        ≡ returns (some 7, client) after)
    × Accepts 3 7 true true [] after
unfolding is_ipv4
accept-connect_example =
    accept-connect plain_order client new_end_point 7 5 3 [] [] (pos 0) refl (omega arith)

write-count_example :
    (write (pos 3) 5 3 [] ≡ returns (pos 3) (send_call 5 (pos 3) ∷ [])) ↔ (3 < 2 ^ 31)
write-count_example = write-count (pos 3) 5 3 []

-- Two gigabytes are told as a negative number, and four as none.
too_long : (int_of_size (2 ^ 31) ≡ negsuc (2 ^ 31 - 1)) × (int_of_size (2 ^ 32) ≡ pos 0)
unfolding int_of_size
too_long = (refl, refl)

errors :
    (get_socket_error none 4 ≡ 4)
    × (get_socket_error (some 0) 4 ≡ 4)
    × (get_socket_error (some 9) 4 ≡ 9)
unfolding get_socket_error
errors = (refl, refl, refl)
