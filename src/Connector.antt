-- ===== src/Connector.antt =====
-- src/nev/connector.cc and src/nev/connector.h: the class `Connector`. What the system calls return is
-- an argument: the descriptor that is created, the error of `connect`, and `SO_ERROR`.
pub mod Laws
pub mod Sockets
mod Tests
use nev.Base.{
  ℕ, Bool, true, false, not, ◌||◌, if◌then◌else◌, ◌==◌, List, [], ◌∷◌, ◌++◌, Option, some, none,
}
use nev.Channel.{
  set_write_callback, Channel, new_channel, enable_writing, disable_all, remove_channel,
}

pub data State : Type 0 where
  disconnected connecting connected : State

-- `startInLoop` and `resetChannel`.
pub data Functor : Type 0 where
  start_in_loop_functor reset_channel_functor : Functor

-- The channel carries its descriptor. `opened`, `closed` and `handed` log the descriptors that were
-- created, closed, and handed to the callback of a new connection.
pub record Connector : Type 0 where
  pub connect_flag : Bool
  pub state : State
  pub channel : Option (ℕ × Channel)
  pub pending : List Functor
  pub opened : List ℕ
  pub closed : List ℕ
  pub handed : List ℕ
  pub has_new_connection_cb : Bool

-- The constructor leaves `connect_` as it finds it.
unfoldable pub new_connector : Bool → Connector
new_connector garbage = record {
  connect_flag = garbage;
  state = disconnected;
  channel = none;
  pending = [];
  opened = [];
  closed = [];
  handed = [];
  has_new_connection_cb = false;
}

-- `setNewConnectionCallback`; `handleWrite` calls what was set, and requires that it was.
unfoldable pub set_new_connection_callback : Bool → Connector → Connector
set_new_connection_callback has_cb s = record s { has_new_connection_cb = has_cb }

abbrev pub would_block : ℕ
would_block = 10035

abbrev pub already : ℕ
already = 10037

abbrev pub is_connected_error : ℕ
is_connected_error = 10056

unfoldable pub start_connecting : ℕ → Connector → Connector
unfolding new_channel enable_writing
start_connecting sockfd s = record s {
  state = connecting;
  channel = some (sockfd, enable_writing (set_write_callback new_channel));
}

-- `saved_errno` is 0 if `sockets::Connect` succeeds.
unfoldable pub connect : ℕ → ℕ → Connector → Connector
unfolding start_connecting
connect sockfd saved_errno s =
    let made = record s { opened = sockfd ∷ s.opened } in
    if saved_errno == 0
      || saved_errno == would_block
      || saved_errno == already
      || saved_errno == is_connected_error
    then start_connecting sockfd made
    else record made { closed = sockfd ∷ s.closed }

unfoldable pub start_in_loop : ℕ → ℕ → Connector → Connector
unfolding connect
start_in_loop sockfd saved_errno s = if s.connect_flag then connect sockfd saved_errno s else s

-- In the loop's thread `runInLoop` calls `startInLoop` at once.
unfoldable pub start : Bool → ℕ → ℕ → Connector → Connector
unfolding start_in_loop
start in_loop sockfd saved_errno s =
    let on = record s { connect_flag = true } in
    if in_loop
    then start_in_loop sockfd saved_errno on
    else record on { pending = s.pending ++ start_in_loop_functor ∷ [] }

unfoldable pub stop : Connector → Connector
stop s = record s { connect_flag = false }

unfoldable pub remove_and_reset_channel : ℕ → Channel → Connector → Connector
unfolding disable_all remove_channel
remove_and_reset_channel sockfd c s = record s {
  channel = some (sockfd, remove_channel (disable_all c));
  pending = s.pending ++ reset_channel_functor ∷ [];
}

unfoldable pub reset_channel : Connector → Connector
reset_channel s = record s { channel = none }

-- The rest of `handleWrite` behind `removeAndResetChannel`; the second component is the descriptor that the
-- callback is called with.
unfoldable pub attempt_done : ℕ → ℕ → Connector → Connector × Option ℕ
attempt_done sockfd err s =
    if not (err == 0)
    then (record s { closed = sockfd ∷ s.closed }, none)
    else if s.connect_flag
    then (record s { state = connected; handed = sockfd ∷ s.handed }, some sockfd)
    else (record s { state = connected; closed = sockfd ∷ s.closed }, none)

abbrev pub is_connecting : State → Bool
is_connecting connecting = true
is_connecting _ = false

abbrev pub is_disconnected : State → Bool
is_disconnected disconnected = true
is_disconnected _ = false

-- `handleWrite`, called by the channel.
unfoldable pub handle_write : ℕ → ℕ → Channel → Connector → Connector × Option ℕ
unfolding attempt_done remove_and_reset_channel
handle_write err sockfd c s =
    if is_connecting s.state
    then attempt_done sockfd err (remove_and_reset_channel sockfd c s)
    else (s, none)

-- A functor of the loop's queue runs.
unfoldable pub run_functor : ℕ → ℕ → Functor → Connector → Connector
unfolding start_in_loop reset_channel
run_functor sockfd saved_errno start_in_loop_functor s = start_in_loop sockfd saved_errno s
run_functor sockfd saved_errno reset_channel_functor s = reset_channel s
