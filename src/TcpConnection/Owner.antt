-- ===== src/TcpConnection/Owner.antt =====
-- src/nev/tcp_connection.cc: the socket of a `TcpConnection`.
use nev.Base.{ℕ, Bool, true}
use nev.Sockets.{Sys, pure, ◌>>◌}
use nev.Sockets.Socket.{Socket, new_socket, destroy_socket, set_keep_alive, set_tcp_no_delay}
use nev.TcpConnection.{Conn, new_conn}

-- The constructor, given the descriptor; the flags are those of `new_conn`.
unfoldable pub make_conn : Bool → Bool → ℕ → Sys (Socket × Conn)
unfolding set_keep_alive new_conn
make_conn write_complete high_water sockfd = do
  set_keep_alive true (new_socket sockfd)
  pure (new_socket sockfd, new_conn write_complete high_water)

-- `setTcpNoDelay`.
unfoldable pub set_no_delay : Bool → Socket → Sys (Unit {0})
unfolding set_tcp_no_delay
set_no_delay on socket = set_tcp_no_delay on socket

-- What the destructor does with the socket.
unfoldable pub drop_conn : Socket → Sys (Unit {0})
unfolding destroy_socket
drop_conn socket = destroy_socket socket
