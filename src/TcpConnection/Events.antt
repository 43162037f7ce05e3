-- ===== src/TcpConnection/Events.antt =====
-- src/nev/tcp_connection.cc: the handlers that the channel, the timer and the loop call.
use nev.Base.{ℕ, zero, suc, ◌-◌, Bool, if◌then◌else◌, ◌==◌, [], ◌∷◌, ◌++◌, take}
use nev.Buffer.{readable_bytes, retrieve, to_string_piece}
use nev.Buffer.ReadFd.{ReadResult, received, failed, read_fd_win}
use nev.Channel.{is_writing, disable_writing}
use nev.TcpConnection.{
  Conn, WriteResult, wrote, write_failed, Functor, send_in_loop_functor, shutdown_in_loop_functor,
  force_close_in_loop_functor, write_complete_functor, high_water_mark_functor, message_cb,
  write_complete_cb, high_water_mark_cb, queue_in_loop, call, is_disconnecting, send_in_loop,
  shutdown_in_loop, force_close, handle_close, force_close_in_loop,
}

-- `WSAECONNRESET`.
abbrev pub connection_reset : ℕ
connection_reset = 10054

pub is_fault_error : ℕ → Bool
is_fault_error e = e == connection_reset

-- `handleRead`, over the Windows version of `Buffer::readFd`; `handleError` only logs.
unfoldable pub handle_read : Conn → ReadResult → Conn
unfolding read_fd_win handle_close is_fault_error
handle_read s (failed e) = if is_fault_error e then handle_close s else s
handle_read s (received []) = handle_close s
handle_read s (received (c ∷ cs)) =
    call (record s { input_buffer = read_fd_win s.input_buffer (received (c ∷ cs)) }) message_cb

-- What `handleWrite` does once the output buffer is empty.
unfoldable pub drained : Conn → Conn
unfolding disable_writing shutdown_in_loop
drained s =
    let idle = record s { channel = disable_writing s.channel } in
    let told =
      if idle.has_write_complete_cb then queue_in_loop idle write_complete_functor else idle in
    if is_disconnecting told.state then shutdown_in_loop told else told

-- `handleWrite` after a write of `n` bytes, `n > 0`.
unfoldable pub after_write : Conn → ℕ → Conn
unfolding drained readable_bytes retrieve to_string_piece
after_write s n =
    let sent = record s {
      wire = s.wire ++ take n (to_string_piece s.output_buffer);
      output_buffer = retrieve s.output_buffer n;
    } in
    if readable_bytes sent.output_buffer == 0 then drained sent else sent

unfoldable pub handle_write : Conn → WriteResult → Conn
unfolding is_writing after_write
handle_write s (write_failed e) = s
handle_write s (wrote zero) = s
handle_write s (wrote (suc n)) = if is_writing s.channel then after_write s (suc n) else s

-- `handleForceCloseWithDelay`; `alive` tells whether `wp_conn.lock()` finds the connection.
unfoldable pub handle_force_close_with_delay : Bool → Conn → Conn
unfolding force_close
handle_force_close_with_delay alive s =
    let fired = record s { timers = s.timers - 1 } in if alive then force_close fired else fired

-- A functor of the loop's queue runs; the write result is for a `sendInLoop`.
unfoldable pub run_functor : Conn → WriteResult → Functor → Conn
unfolding send_in_loop shutdown_in_loop force_close_in_loop
run_functor s result (send_in_loop_functor bytes) = send_in_loop s result bytes
run_functor s result shutdown_in_loop_functor = shutdown_in_loop s
run_functor s result force_close_in_loop_functor = force_close_in_loop s
run_functor s result write_complete_functor = call s write_complete_cb
run_functor s result (high_water_mark_functor n) = call s (high_water_mark_cb n)
