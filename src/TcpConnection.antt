-- ===== src/TcpConnection.antt =====
-- include/nev/tcp_connection.h and src/nev/tcp_connection.cc: the class `TcpConnection`.
-- Each method takes the state of the connection and of its surroundings, and returns the new one.
-- What a system call returns is an argument; `in_loop` is `loop_->isInLoopThread()`.
pub mod Events
pub mod Invariant
pub mod Step
pub mod Stream
pub mod SendBuffer
pub mod Delivery
pub mod Drain
pub mod Context
pub mod Owner
pub mod Frame
pub mod Shutdown
pub mod Lifecycle
pub mod Unheard
mod Tests
use nev.Base.{
  ℕ, ◌+◌, ◌≤◌, Bool, true, false, not, ◌&&◌, ◌||◌, if◌then◌else◌, ltb, leb, ◌==◌, List, [], ◌∷◌,
  ◌++◌, length, take, drop, add_size, ◌*◌,
}
use nev.Buffer.{
  Buffer, initial_size, new, readable_bytes, retrieve_all, retrieve_all_as_string, append,
  to_string_piece,
}
use nev.Channel.{
  Channel, new_channel, set_read_callback, set_write_callback, is_writing, remove_channel, tie,
  enable_reading, enable_writing, disable_writing, disable_all,
}

pub data State : Type 0 where
  connecting connected disconnecting disconnected : State

-- The result of `sockets::Write`: how many bytes the kernel took, or an error.
pub data WriteResult : Type 0 where
  wrote : ℕ → WriteResult
  write_failed : ℕ → WriteResult

-- What the connection puts into the queue of its event loop.
pub data Functor : Type 0 where
  send_in_loop_functor : List ℕ → Functor
  shutdown_in_loop_functor force_close_in_loop_functor write_complete_functor : Functor
  high_water_mark_functor : ℕ → Functor

-- The callbacks that are called.
pub data Call : Type 0 where
  connection_cb message_cb close_cb write_complete_cb : Call
  high_water_mark_cb : ℕ → Call

-- `wire` holds the bytes that the kernel took, `write_shut` tells whether `ShutdownWrite` was called,
-- `timers` counts the armed timers of `forceCloseWithDelay`, `calls` logs the callbacks, and `destroyed` tells
-- whether `connectDestroyed` was called.
pub record Conn : Type 0 where
  pub state : State
  pub channel : Channel
  pub input_buffer : Buffer
  pub output_buffer : Buffer
  pub high_water_mark : ℕ
  pub has_write_complete_cb : Bool
  pub has_high_water_mark_cb : Bool
  pub pending : List Functor
  pub timers : ℕ
  pub wire : List ℕ
  pub write_shut : Bool
  pub calls : List Call
  pub destroyed : Bool

-- The constructor; the flags tell which optional callbacks are set.
unfoldable pub new_conn : Bool → Bool → Conn
unfolding new_channel new
new_conn write_complete high_water = record {
  state = connecting;
  channel = set_write_callback (set_read_callback new_channel);
  input_buffer = new initial_size;
  output_buffer = new initial_size;
  high_water_mark = 64 * 1024 * 1024;
  has_write_complete_cb = write_complete;
  has_high_water_mark_cb = high_water;
  pending = [];
  timers = 0;
  wire = [];
  write_shut = false;
  calls = [];
  destroyed = false;
}

abbrev pub is_connecting : State → Bool
is_connecting connecting = true
is_connecting _ = false

abbrev pub is_connected : State → Bool
is_connected connected = true
is_connected _ = false

abbrev pub is_disconnected : State → Bool
is_disconnected disconnected = true
is_disconnected _ = false

abbrev pub is_disconnecting : State → Bool
is_disconnecting disconnecting = true
is_disconnecting _ = false

abbrev pub queue_in_loop : Conn → Functor → Conn
queue_in_loop s f = record s { pending = s.pending ++ f ∷ [] }

abbrev pub call : Conn → Call → Conn
call s c = record s { calls = s.calls ++ c ∷ [] }

-- `setWriteCompleteCallback`; the flag tells whether the callback that is set can be called.
unfoldable pub set_write_complete_callback : Bool → Conn → Conn
set_write_complete_callback has_cb s = record s { has_write_complete_cb = has_cb }

unfoldable pub set_high_water_mark_callback : Bool → ℕ → Conn → Conn
set_high_water_mark_callback has_cb mark s = record s {
  has_high_water_mark_cb = has_cb;
  high_water_mark = mark;
}

-- The end of `sendInLoop`, for the bytes that were not written.
unfoldable pub buffer_remaining : Conn → List ℕ → Conn
unfolding readable_bytes append is_writing enable_writing
buffer_remaining s [] = s
buffer_remaining s (c ∷ cs) =
    let remaining = length (c ∷ cs) in
    let old_len = readable_bytes s.output_buffer in
    let marked =
      if leb s.high_water_mark (add_size old_len remaining)
        && ltb old_len s.high_water_mark
        && s.has_high_water_mark_cb
      then queue_in_loop s (high_water_mark_functor (add_size old_len remaining))
      else s in
    let stored = record marked { output_buffer = append s.output_buffer (c ∷ cs) } in
    if not (is_writing stored.channel)
    then record stored { channel = enable_writing stored.channel }
    else stored

-- The direct write of `sendInLoop`, when nothing waits in the output buffer.
unfoldable pub write_directly : Conn → WriteResult → List ℕ → Conn
unfolding buffer_remaining
write_directly s (write_failed e) bytes = buffer_remaining s bytes
write_directly s (wrote n) bytes =
    let sent = record s { wire = s.wire ++ take n bytes } in
    let told =
      if not (ltb n (length bytes)) && s.has_write_complete_cb
      then queue_in_loop sent write_complete_functor
      else sent in
    buffer_remaining told (drop n bytes)

unfoldable pub send_in_loop : Conn → WriteResult → List ℕ → Conn
unfolding write_directly readable_bytes is_writing
send_in_loop s result bytes =
    if is_disconnected s.state
    then s
    else if not (is_writing s.channel) && readable_bytes s.output_buffer == 0
    then write_directly s result bytes
    else buffer_remaining s bytes

-- `send(const StringPiece&)`, which `send(const void*, size_t)` calls.
unfoldable pub send : Bool → Conn → WriteResult → List ℕ → Conn
unfolding send_in_loop
send in_loop s result bytes =
    if is_connected s.state
    then (if in_loop
        then send_in_loop s result bytes
        else queue_in_loop s (send_in_loop_functor bytes))
    else s

-- `send(Buffer*)`: the caller's buffer is emptied.
unfoldable pub send_buffer : Bool → Conn → WriteResult → Buffer → Conn × Buffer
unfolding send_in_loop to_string_piece retrieve_all retrieve_all_as_string
send_buffer in_loop s result buf =
    if is_connected s.state
    then (if in_loop
        then (send_in_loop s result (to_string_piece buf), retrieve_all buf)
        else (let (bytes, rest) = retrieve_all_as_string buf in
            (queue_in_loop s (send_in_loop_functor bytes), rest)))
    else (s, buf)

unfoldable pub shutdown_in_loop : Conn → Conn
unfolding is_writing
shutdown_in_loop s = if not (is_writing s.channel) then record s { write_shut = true } else s

unfoldable pub shutdown : Bool → Conn → Conn
unfolding shutdown_in_loop
shutdown in_loop s =
    if is_connected s.state
    then (let closing = record s { state = disconnecting } in
        if in_loop
        then shutdown_in_loop closing
        else queue_in_loop closing shutdown_in_loop_functor)
    else s

unfoldable pub force_close : Conn → Conn
force_close s =
    if is_connected s.state || is_disconnecting s.state
    then queue_in_loop (record s { state = disconnecting }) force_close_in_loop_functor
    else s

unfoldable pub force_close_with_delay : Conn → Conn
force_close_with_delay s =
    if is_connected s.state || is_disconnecting s.state
    then record s { state = disconnecting; timers = s.timers + 1 }
    else s

unfoldable pub handle_close : Conn → Conn
unfolding disable_all
handle_close s =
    call (call (record s { state = disconnected; channel = disable_all s.channel }) connection_cb)
      close_cb

unfoldable pub force_close_in_loop : Conn → Conn
unfolding handle_close
force_close_in_loop s =
    if is_connected s.state || is_disconnecting s.state then handle_close s else s

unfoldable pub connect_established : Conn → Conn
unfolding tie enable_reading
connect_established s =
    call (record s { state = connected; channel = enable_reading (tie s.channel) }) connection_cb

unfoldable pub connect_destroyed : Conn → Conn
unfolding disable_all remove_channel
connect_destroyed s =
    let down =
      if is_connected s.state
      then call (record s { state = disconnected; channel = disable_all s.channel }) connection_cb
      else s in
    record down { channel = remove_channel down.channel; destroyed = true }
