-- ===== src/Sockets/Descriptors.antt =====
-- Which descriptors are open behind a log of system calls, and what `sockets::Accept`, `sockets::Read` and
-- `sockets::Write` make of them.
use nev.Base.{
  ℕ, ℤ, pos, int_of_size, int_of_size-exact, ◌<◌, ◌^◌, ◌≡◌, refl, ap, ◌↔◌, inr, Bool, true, false,
  ◌&&◌, ◌||◌, if◌then◌else◌, ◌==◌, List, [], ◌∷◌, Option, none, some, arith,
}
use nev.IpEndPoint.{IpEndPoint, is_ipv4}
use nev.IpEndPoint.SockAddr.{
  SockAddr, PortOrder, sockaddr_in_size, from_sock_addr, from_sock_addr-to_sock_addr,
}
use nev.Sockets.{
  SysCall, socket_call, accept_call, close_call, nonblocking_call, send_call, Outcome, returns,
  Storage, storage_size, take_address, set_blocking_mode, accepted, accept, connect, connect_call,
  store_address, read, write, set_non_block_and_close_on_exec,
}

abbrev pub is_open : ℕ → List SysCall → Bool
is_open fd [] = false
is_open fd (socket_call n ∷ log) = if n == fd then true else is_open fd log
is_open fd (accept_call sockfd n ∷ log) = if n == fd then true else is_open fd log
is_open fd (close_call n ∷ log) = if n == fd then false else is_open fd log
is_open fd (_ ∷ log) = is_open fd log

-- On Windows an accepted socket has the mode of the listening one, and the mode of a closed descriptor cannot
-- be set.
abbrev pub is_nonblocking : ℕ → List SysCall → Bool
is_nonblocking fd [] = false
is_nonblocking fd (socket_call n ∷ log) = if n == fd then false else is_nonblocking fd log
is_nonblocking fd (accept_call sockfd n ∷ log) =
    let inherited = is_nonblocking sockfd log in
    let kept = is_nonblocking fd log in if n == fd then inherited else kept
is_nonblocking fd (close_call n ∷ log) = if n == fd then false else is_nonblocking fd log
is_nonblocking fd (nonblocking_call n ∷ log) =
    if n == fd then is_open fd log else is_nonblocking fd log
is_nonblocking fd (_ ∷ log) = is_nonblocking fd log

abbrev pub is_some : {A : Type 0} → Option A → Bool
is_some none = false
is_some (some _) = true

abbrev pub or_else : {A : Type 0} → Option A → A → A
or_else none b = b
or_else (some a) b = a

same_fd : (fd : ℕ) → (fd == fd) ≡ true
same_fd fd = ground arith

-- The log behind an `accept` that returns a descriptor: which descriptors are open.
pub record Accepts (sockfd fd : ℕ) (nonblocking readable : Bool) (before after : List SysCall)
    : Type 0 where
  pub opened : is_open fd after ≡ readable
  pub mode : is_nonblocking fd after ≡ (readable && (nonblocking || is_nonblocking sockfd before))
  pub others : (other : ℕ) → (fd == other) ≡ false → is_open other after ≡ is_open other before

accepted-Accepts :
    (nonblocking : Bool) (sockfd fd : ℕ) (address : IpEndPoint) (peer : Option IpEndPoint)
    (log : List SysCall)
    → (after : List SysCall) × (accepted nonblocking sockfd fd address peer log
        ≡ returns (some fd, or_else peer address) after)
      × Accepts sockfd fd nonblocking (is_some peer) log after
unfolding accepted take_address set_blocking_mode set_non_block_and_close_on_exec
accepted-Accepts true sockfd fd address none log = (_, refl, ground arith)
accepted-Accepts true sockfd fd address (some e) log = (_, refl, ground arith)
accepted-Accepts false sockfd fd address none log = (_, refl, ground arith)
accepted-Accepts false sockfd fd address (some e) log = (_, refl, ground arith)

module _ (o : PortOrder) where
  -- A socket that the kernel accepts is returned, whether or not its address can be read; it is
  -- open exactly if it can, and only then is the address set. An open one is non-blocking exactly
  -- if this was asked for or the listening socket, whose mode it has on Windows, is non-blocking.
  -- No other descriptor is opened or closed.
  pub accept-Accepts :
      (nonblocking : Bool) (sockfd fd : ℕ) (storage : Storage) (address : IpEndPoint)
      (log : List SysCall)
      → let peer = from_sock_addr o storage.addr storage.addr_len in
        (after : List SysCall) × (accept o nonblocking sockfd (inr (fd, storage)) address log
          ≡ returns (some fd, or_else peer address) after)
        × Accepts sockfd fd nonblocking (is_some peer) log after
  unfolding accept
  accept-Accepts nonblocking sockfd fd storage address log =
      accepted-Accepts nonblocking sockfd fd address
        (from_sock_addr o storage.addr storage.addr_len) log

  -- An end point with an IPv4 address and a port of 16 bits that Connect passes to the kernel
  -- comes out of Accept again, if the kernel hands over the same bytes, with the new socket open
  -- and non-blocking.
  pub accept-connect :
      (e address : IpEndPoint) (fd client sockfd : ℕ) (log sent : List SysCall) (result : ℤ)
      → is_ipv4 e.address ≡ true
      → e.port < 2 ^ 16
      → (stored : SockAddr × ℕ) × (connect o result client e sent
          ≡ returns result (connect_call client stored.0 stored.1 ∷ sent))
        × (after : List SysCall) × (accept o true sockfd
              (inr (fd, record { addr = stored.0; addr_len = stored.1 }))
              address
              log
            ≡ returns (some fd, e) after)
        × Accepts sockfd fd true true log after
  unfolding accept connect store_address
  accept-connect e address fd client sockfd log sent result v p =
      let (a, stored, read) = from_sock_addr-to_sock_addr o e storage_size v p (omega arith) in
      let (after, returned, accepts) = accepted-Accepts true sockfd fd address (some e) log in
      ((a, sockaddr_in_size), rw stored refl, after, rw read returned, accepts)

fits : (n : ℕ) → int_of_size n ≡ pos n → n < 2 ^ 31
unfolding int_of_size
fits n h = ground arith

abbrev sent_count : Outcome ℤ → ℤ
sent_count (returns r (send_call fd n ∷ log)) = n
sent_count _ = pos 0

-- The kernel is told the caller's number of bytes exactly if this is less than 2 ^ 31.
pub write-count :
    (result : ℤ) (sockfd count : ℕ) (log : List SysCall)
    → (write result sockfd count log ≡ returns result (send_call sockfd (pos count) ∷ log))
      ↔ (count < 2 ^ 31)
unfolding write int_of_size
write-count result sockfd count log = (
  λ e. fits count (ap sent_count e),
  λ h. ap (λ n. returns result (send_call sockfd n ∷ log)) (int_of_size-exact count h),
)
