-- ===== src/Sockets/Socket.antt =====
-- src/nev/socket.cc and src/nev/socket.h: the class `Socket`, which owns a descriptor. On Windows there is no
-- `SO_REUSEPORT`: `setReusePort` only logs.
use nev.Base.{ℕ, ◌⊎◌, Bool, Option}
use nev.IpEndPoint.{IpEndPoint}
use nev.IpEndPoint.SockAddr.{PortOrder}
use nev.Sockets.{
  tcp_no_delay, reuse_addr, keep_alive, option_call, Sys, pure, does, Storage, bind_or_die,
  listen_or_die, accept, shutdown_write, close,
}

pub record Socket : Type 0 where
  pub sockfd : ℕ

abbrev pub new_socket : ℕ → Socket
new_socket fd = record { sockfd = fd }

-- The destructor.
unfoldable pub destroy_socket : Socket → Sys (Unit {0})
unfolding close
destroy_socket s = close s.sockfd

unfoldable pub bind_address : PortOrder → Bool → Socket → IpEndPoint → Sys (Unit {0})
unfolding bind_or_die
bind_address o result s addr = bind_or_die o result s.sockfd addr

unfoldable pub listen_socket : Bool → Socket → Sys (Unit {0})
unfolding listen_or_die
listen_socket result s = listen_or_die result s.sockfd

unfoldable pub accept_socket :
    PortOrder → ℕ ⊎ (ℕ × Storage) → Bool → Socket → IpEndPoint → Sys (Option ℕ × IpEndPoint)
unfolding accept
accept_socket o result nonblocking s peeraddr = accept o nonblocking s.sockfd result peeraddr

unfoldable pub shutdown_write_socket : Socket → Sys (Unit {0})
unfolding shutdown_write
shutdown_write_socket s = shutdown_write s.sockfd

unfoldable pub set_tcp_no_delay : Bool → Socket → Sys (Unit {0})
set_tcp_no_delay on s = does (option_call s.sockfd tcp_no_delay on)

unfoldable pub set_reuse_addr : Bool → Socket → Sys (Unit {0})
set_reuse_addr on s = does (option_call s.sockfd reuse_addr on)

unfoldable pub set_reuse_port : Bool → Socket → Sys (Unit {0})
set_reuse_port on s = pure tt

unfoldable pub set_keep_alive : Bool → Socket → Sys (Unit {0})
set_keep_alive on s = does (option_call s.sockfd keep_alive on)
