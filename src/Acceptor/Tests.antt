-- ===== src/Acceptor/Tests.antt =====
-- An acceptor at work.
use nev.Base.{◌≡◌, refl, inr, true, false, ◌&&◌, if◌then◌else◌, List, [], ◌∷◌, some, arith}
use nev.Channel.Laws.{Wants}
use nev.IpEndPoint.{IpEndPoint, ipv4_localhost, new_end_point, is_ipv4}
use nev.IpEndPoint.SockAddr.{PortOrder, from_sock_addr}
use nev.Sockets.{SysCall, returns, Storage}
use nev.Sockets.Socket.{new_socket}
use nev.Sockets.Descriptors.{is_open, is_nonblocking, is_some, or_else}
use nev.Acceptor.{new_acceptor, listen, destroy_acceptor, handle_accept, hands_over, closes}
use nev.Acceptor.Owner.{
  Leaves, make_listening, drop_acceptor, handle_read, make-listen-drop, handle_read-Leaves,
}

unwanted : handle_accept (new_acceptor false) (some 9) ≡ closes 9
unfolding handle_accept new_acceptor
unwanted = refl

abbrev plain_order : PortOrder
plain_order = record {
  host_to_net16 = λ p. p;
  net_to_host16 = λ p. p;
  net_to_host16_inverse = λ p h. refl;
}

abbrev here_addr : IpEndPoint
here_addr = record { address = ipv4_localhost; port = 80 }

-- What a client's address is stored as.
abbrev client : Storage
client = record {
  addr = record { sa_family = 2; sin_port = 4000; sin_addr = 127 ∷ 0 ∷ 0 ∷ 1 ∷ [] };
  addr_len = 16;
}

make-listen-drop_example :
    let s = new_socket 3 in
    let a = listen (new_acceptor true) in
    (up : List SysCall) × (make_listening plain_order (some 3) true true here_addr false true []
      ≡ returns (s, a) up)
    × (is_open 3 up ≡ true)
    × (is_nonblocking 3 up ≡ true)
    × Wants a.accept_channel true false
    × (down : List SysCall) × (drop_acceptor s a up ≡ returns (destroy_acceptor a) down)
    × Leaves 3 false [] down
    × Wants (destroy_acceptor a) false false
unfolding is_ipv4
make-listen-drop_example = make-listen-drop plain_order 3 here_addr false true [] refl (omega arith)

handle_read-Leaves_example :
    let a = new_acceptor true in
    let peer = from_sock_addr plain_order client.addr client.addr_len in
    (after : List SysCall) × (handle_read plain_order (inr (7, client)) (new_socket 3) a []
      ≡ returns
          (if a.has_new_connection_cb then hands_over 7 else closes 7, or_else peer new_end_point)
          after)
    × Leaves 7 (a.has_new_connection_cb && is_some peer) [] after
handle_read-Leaves_example =
    handle_read-Leaves plain_order (new_socket 3) (new_acceptor true) 7 client []
