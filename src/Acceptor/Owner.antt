-- ===== src/Acceptor/Owner.antt =====
-- src/nev/acceptor.cc: the class `Acceptor` with its socket, as commands over the log of system calls.
use nev.Base.{
  ℕ, ◌⊎◌, inr, ◌≡◌, refl, ◌<◌, ◌^◌, Bool, true, false, ◌&&◌, if◌then◌else◌, ◌==◌, List, ◌∷◌, Option,
  some, arith,
}
use nev.IpEndPoint.{IpEndPoint, new_end_point, is_ipv4}
use nev.IpEndPoint.SockAddr.{
  PortOrder, sockaddr_in_size, from_sock_addr, from_sock_addr-to_sock_addr,
}
use nev.Sockets.{
  SysCall, socket_call, listen_call, bind_call, close_call, option_call, nonblocking_call,
  reuse_addr, bind_or_die, listen_or_die, set_non_block_and_close_on_exec, returns, Sys, pure,
  ◌>>=◌, ◌>>◌, Storage, storage_size, store_address, create_nonblocking_or_die, close,
}
use nev.Sockets.Socket.{
  Socket, new_socket, destroy_socket, bind_address, listen_socket, accept_socket, set_reuse_addr,
  set_reuse_port,
}
use nev.Sockets.Descriptors.{is_open, is_nonblocking, is_some, or_else, Accepts, accept-Accepts}
use nev.Channel.{Channel}
use nev.Channel.Laws.{Wants}
use nev.Acceptor.{
  acceptor_life, Acceptor, new_acceptor, listen, AcceptOutcome, hands_over, closes, handle_accept,
  destroy_acceptor,
}

-- The constructor: the members and then its body. `made` and `bound` are what `::socket` and `::bind`
-- return.
unfoldable pub make_acceptor :
    PortOrder → Option ℕ → Bool → IpEndPoint → Bool → Bool → Sys (Socket × Acceptor)
unfolding create_nonblocking_or_die set_reuse_addr set_reuse_port bind_address new_acceptor
make_acceptor o made bound listen_addr reuse_port has_cb = do
  sockfd ← create_nonblocking_or_die made
  set_reuse_addr true (new_socket sockfd)
  set_reuse_port reuse_port (new_socket sockfd)
  bind_address o bound (new_socket sockfd) listen_addr
  pure (new_socket sockfd, new_acceptor has_cb)

unfoldable pub listen_acceptor : Bool → Socket → Acceptor → Sys Acceptor
unfolding listen_socket listen
listen_acceptor result s a = do listen_socket result s; pure (listen a)

-- What becomes of an accepted descriptor.
unfoldable pub settle : AcceptOutcome → Sys AcceptOutcome
unfolding close
settle (closes connfd) = do close connfd; pure (closes connfd)
settle outcome = pure outcome

unfoldable pub handle_read :
    PortOrder → ℕ ⊎ (ℕ × Storage) → Socket → Acceptor → Sys (AcceptOutcome × IpEndPoint)
unfolding accept_socket handle_accept settle
handle_read o result s a = do
  taken ← accept_socket o result true s new_end_point
  outcome ← settle (handle_accept a taken.0)
  pure (outcome, taken.1)

-- The destructor, and then that of the socket.
unfoldable pub drop_acceptor : Socket → Acceptor → Sys Channel
unfolding destroy_acceptor destroy_socket
drop_acceptor s a = do destroy_socket s; pure (destroy_acceptor a)

-- What a log leaves open, against an earlier one, if only one descriptor was touched.
pub record Leaves (fd : ℕ) (is_left : Bool) (before after : List SysCall) : Type 0 where
  pub left : is_open fd after ≡ is_left
  pub others : (other : ℕ) → (fd == other) ≡ false → is_open other after ≡ is_open other before

settled :
    (has_cb : Bool) (a : Acceptor) (sockfd fd : ℕ) (readable : Bool) (before log : List SysCall)
    → a.has_new_connection_cb ≡ has_cb
    → Accepts sockfd fd true readable before log
    → (after : List SysCall) × (settle (handle_accept a (some fd)) log
        ≡ returns (if has_cb then hands_over fd else closes fd) after)
      × Leaves fd (has_cb && readable) before after
unfolding settle handle_accept close
settled true a sockfd fd readable before log e v =
    rw e (log, refl, record { left = v.opened; others = v.others })
settled false a sockfd fd readable before log e v =
    rw e (
      _,
      refl,
      record { left = ground arith; others = λ other n. ground (arith, v.others other n) },
    )

-- An accepted socket is handed to the callback, if there is one, and closed otherwise; it is left
-- open exactly if there is one and its address can be read, and no other descriptor is opened or
-- closed.
pub handle_read-Leaves :
    (o : PortOrder) (s : Socket) (a : Acceptor) (fd : ℕ) (storage : Storage) (log : List SysCall)
    → let peer = from_sock_addr o storage.addr storage.addr_len in
      (after : List SysCall) × (handle_read o (inr (fd, storage)) s a log
        ≡ returns
            (
              if a.has_new_connection_cb then hands_over fd else closes fd,
              or_else peer new_end_point,
            )
            after)
      × Leaves fd (a.has_new_connection_cb && is_some peer) log after
unfolding handle_read accept_socket
handle_read-Leaves o s a fd storage log =
    let peer = from_sock_addr o storage.addr storage.addr_len in
    let (mid, taken, v) = accept-Accepts o true s.sockfd fd storage new_end_point log in
    let (after, told, w) =
      settled a.has_new_connection_cb a s.sockfd fd (is_some peer) log mid refl v in
    (after, rw (taken, told) refl, w)

-- An acceptor that is made and listens.
unfoldable pub make_listening :
    PortOrder → Option ℕ → Bool → Bool → IpEndPoint → Bool → Bool → Sys (Socket × Acceptor)
unfolding make_acceptor listen_acceptor
make_listening o made bound listens listen_addr reuse_port has_cb = do
  m ← make_acceptor o made bound listen_addr reuse_port has_cb
  a ← listen_acceptor listens m.0 m.1
  pure (m.0, a)

-- If the system calls succeed, an acceptor for an IPv4 end point with a port of 16 bits listens
-- with an open non-blocking socket and hears connections; behind its destructor the socket is
-- closed, the watcher is stopped and all other descriptors are as before.
pub make-listen-drop :
    (o : PortOrder) (fd : ℕ) (e : IpEndPoint) (reuse_port has_cb : Bool) (log : List SysCall)
    → is_ipv4 e.address ≡ true
    → e.port < 2 ^ 16
    → let s = new_socket fd in
      let a = listen (new_acceptor has_cb) in
      (up : List SysCall) × (make_listening o (some fd) true true e reuse_port has_cb log
        ≡ returns (s, a) up)
      × (is_open fd up ≡ true)
      × (is_nonblocking fd up ≡ true)
      × Wants a.accept_channel true false
      × (down : List SysCall) × (drop_acceptor s a up ≡ returns (destroy_acceptor a) down)
      × Leaves fd false log down
      × Wants (destroy_acceptor a) false false
unfolding make_listening make_acceptor listen_acceptor drop_acceptor create_nonblocking_or_die
    set_non_block_and_close_on_exec set_reuse_addr set_reuse_port bind_address bind_or_die
    store_address listen_socket listen_or_die destroy_socket close
make-listen-drop o fd e reuse_port has_cb log v p =
    let (a, stored, read) = from_sock_addr-to_sock_addr o e storage_size v p (omega arith) in
    let (quiet, hears, silent, deaf, gone) = acceptor_life has_cb in
    let up =
      listen_call fd
      ∷ bind_call fd a sockaddr_in_size
      ∷ option_call fd reuse_addr true
      ∷ nonblocking_call fd
      ∷ socket_call fd
      ∷ log in
    (
      up,
      rw stored refl,
      ground arith,
      ground arith,
      hears,
      close_call fd ∷ up,
      refl,
      record { left = ground arith; others = λ other n. ground arith },
      deaf,
    )
