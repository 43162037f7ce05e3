-- ===== src/Sockets.antt =====
-- src/nev/sockets_ops.cc, src/nev/sockaddr_storage.h and src/nev/sockaddr_storage.cc: the functions of the namespace
-- `sockets`. They are commands over the log of system calls, newest first; what a system call returns is
-- an argument. The code is that of Windows, whose names it calls.
pub mod Descriptors
pub mod Socket
mod Tests
use nev.Base.{
  ◌⊎◌, inl, inr, ℕ, ℤ, int_of_size, Bool, true, false, ◌||◌, if◌then◌else◌, ltb, ◌==◌, List, [],
  ◌∷◌, Option, none, some,
}
use nev.IpEndPoint.{IpEndPoint}
use nev.IpEndPoint.SockAddr.{SockAddr, PortOrder, to_sock_addr, from_sock_addr}

pub data SocketOption : Type 0 where
  tcp_no_delay reuse_addr keep_alive : SocketOption

-- `socket_call` carries the descriptor that it returned, `accept_call` the listening one and the new one.
pub data SysCall : Type 0 where
  socket_call nonblocking_call listen_call shutdown_call close_call : ℕ → SysCall
  accept_call : ℕ → ℕ → SysCall
  connect_call bind_call : ℕ → SockAddr → ℕ → SysCall
  recv_call send_call : ℕ → ℤ → SysCall
  option_call : ℕ → SocketOption → Bool → SysCall

-- `LOG(FATAL)` ends the process.
pub data Outcome (A : Type 0) : Type 0 where
  returns : A → List SysCall → Outcome A
  dies : List SysCall → Outcome A

abbrev pub Sys : Type 0 → Type 0
Sys A = List SysCall → Outcome A

abbrev pub pure : {A : Type 0} → A → Sys A
pure = returns

abbrev pub fatal : {A : Type 0} → Sys A
fatal = dies

abbrev pub does : SysCall → Sys (Unit {0})
does c log = returns tt (c ∷ log)

module _ {A B : Type 0} where
  abbrev pub and_then : Outcome A → (A → Sys B) → Outcome B
  and_then (returns a log) k = k a log
  and_then (dies log) k = dies log

  infixl 5 ◌>>=◌ ◌>>◌
  abbrev pub ◌>>=◌ : Sys A → (A → Sys B) → Sys B
  m >>= k = λ log. and_then (m log) k

  abbrev pub ◌>>◌ : Sys A → Sys B → Sys B
  m >> n = m >>= λ _. n

-- `setNonBlockAndCloseOnExec`.
unfoldable pub set_non_block_and_close_on_exec : ℕ → Sys (Unit {0})
set_non_block_and_close_on_exec sockfd = does (nonblocking_call sockfd)

-- `made` is what `::socket` returns, `none` for `kInvalidSocket`.
unfoldable pub create_or_die : Option ℕ → Sys ℕ
create_or_die none = fatal
create_or_die (some sockfd) = do does (socket_call sockfd); pure sockfd

unfoldable pub create_nonblocking_or_die : Option ℕ → Sys ℕ
unfolding set_non_block_and_close_on_exec
create_nonblocking_or_die none = fatal
create_nonblocking_or_die (some sockfd) = do
  does (socket_call sockfd)
  set_non_block_and_close_on_exec sockfd
  pure sockfd

-- The bytes of a `sockaddr_storage`, and its length.
pub record Storage : Type 0 where
  pub addr : SockAddr
  pub addr_len : ℕ

-- `sizeof(sockaddr_storage)`.
abbrev pub storage_size : ℕ
storage_size = 128

-- A `SockaddrStorage` at an address, with the pointer `addr`; `garbage` are the bytes that it finds.
pub record StorageObject : Type 0 where
  pub place : ℕ
  pub addr_storage : Storage
  pub addr_ptr : ℕ

unfoldable pub new_storage : ℕ → SockAddr → StorageObject
new_storage place garbage = record {
  place = place;
  addr_storage = record { addr = garbage; addr_len = storage_size };
  addr_ptr = place;
}

-- The copy constructor; it copies what `other.addr` points to, which is its own storage.
unfoldable pub copy_storage : ℕ → StorageObject → StorageObject
copy_storage place other = record {
  place = place;
  addr_storage = other.addr_storage;
  addr_ptr = place;
}

unfoldable pub assign_storage : StorageObject → StorageObject → StorageObject
assign_storage s other = record s { addr_storage = other.addr_storage }

abbrev pub would_block : ℕ
would_block = 10035

-- `result` is false if the call returned an error.
abbrev pub checked : Bool → Sys (Unit {0})
checked true = pure tt
checked false = fatal

-- `fromSockAddr` in `Accept`: `*address` behind it, and a socket that is closed if it fails.
unfoldable pub take_address : ℕ → IpEndPoint → Option IpEndPoint → Sys IpEndPoint
take_address new_socket address none = do does (close_call new_socket); pure address
take_address new_socket address (some peer) = pure peer

unfoldable pub set_blocking_mode : Bool → ℕ → Sys (Unit {0})
unfolding set_non_block_and_close_on_exec
set_blocking_mode true new_socket = set_non_block_and_close_on_exec new_socket
set_blocking_mode false new_socket = pure tt

-- `Accept` on `sockfd` behind a successful `::accept`; `peer` is what `fromSockAddr` reads.
unfoldable pub accepted :
    Bool → ℕ → ℕ → IpEndPoint → Option IpEndPoint → Sys (Option ℕ × IpEndPoint)
unfolding take_address set_blocking_mode
accepted nonblocking sockfd new_socket address peer = do
  does (accept_call sockfd new_socket)
  taken ← take_address new_socket address peer
  set_blocking_mode nonblocking new_socket
  pure (some new_socket, taken)

abbrev pub or_fatal : {A : Type 0} → Option A → Sys A
or_fatal none = fatal
or_fatal (some a) = pure a

module _ (o : PortOrder) where
  -- The start of `Connect` and `BindOrDie`.
  unfoldable pub store_address : IpEndPoint → Sys (SockAddr × ℕ)
  unfolding to_sock_addr
  store_address address = or_fatal (to_sock_addr o address storage_size)

  -- `result` is what `::connect` returns.
  unfoldable pub connect : ℤ → ℕ → IpEndPoint → Sys ℤ
  unfolding store_address
  connect result sockfd address = do
    stored ← store_address address
    does (connect_call sockfd stored.0 stored.1)
    pure result

  unfoldable pub bind_or_die : Bool → ℕ → IpEndPoint → Sys (Unit {0})
  unfolding store_address
  bind_or_die result sockfd address = do
    stored ← store_address address
    does (bind_call sockfd stored.0 stored.1)
    checked result

  -- `::accept` returns a socket and fills the storage, or fails with an error. The result is the
  -- descriptor, `none` for `kInvalidSocket`, and `*address`.
  unfoldable pub accept : Bool → ℕ → ℕ ⊎ (ℕ × Storage) → IpEndPoint → Sys (Option ℕ × IpEndPoint)
  unfolding accepted from_sock_addr
  accept nonblocking sockfd (inl saved_errno) address =
      if saved_errno == would_block then pure (none, address) else fatal
  accept nonblocking sockfd (inr (new_socket, storage)) address =
      accepted nonblocking sockfd new_socket address
        (from_sock_addr o storage.addr storage.addr_len)

unfoldable pub listen_or_die : Bool → ℕ → Sys (Unit {0})
listen_or_die result sockfd = do does (listen_call sockfd); checked result

-- `Read` and `Write`; `result` is what `::recv` and `::send` return.
unfoldable pub read : ℤ → ℕ → ℕ → Sys ℤ
unfolding int_of_size
read result sockfd count = do does (recv_call sockfd (int_of_size count)); pure result

unfoldable pub write : ℤ → ℕ → ℕ → Sys ℤ
unfolding int_of_size
write result sockfd count = do does (send_call sockfd (int_of_size count)); pure result

unfoldable pub shutdown_write : ℕ → Sys (Unit {0})
shutdown_write sockfd = does (shutdown_call sockfd)

unfoldable pub close : ℕ → Sys (Unit {0})
close sockfd = does (close_call sockfd)

-- `option` is the value that `::getsockopt` gives, or `none` if it fails.
unfoldable pub get_socket_error : Option ℕ → ℕ → ℕ
get_socket_error none saved_errno = saved_errno
get_socket_error (some optval) saved_errno = if optval == 0 then saved_errno else optval
