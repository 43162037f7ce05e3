-- ===== src/TcpConnection/Tests.antt =====
-- One connection from its start to its end, and the theorems applied to it.
use nev.Base.{
  ℕ, ap, ◌≤◌, ◌≡◌, refl, true, false, List, [], ◌∷◌, ◌++◌, arith, add_size, sub_size, copy_to,
  resize,
}
use nev.Buffer.{new, Buffer, append, readable_bytes}
use nev.Buffer.Valid.{IsValid, content}
use nev.Buffer.ReadFd.{received}
use nev.Channel.{is_reading, is_writing, is_none_event}
use nev.TcpConnection.{
  is_disconnected, is_disconnecting, send_buffer, Conn, wrote, connected, disconnecting,
  send_in_loop_functor, new_conn, send, shutdown, connect_established, connect_destroyed,
}
use nev.TcpConnection.SendBuffer.{send_buffer-send}
use nev.TcpConnection.Drain.{write_events, write_events-drain, write_events-shut}
use nev.Buffer.Queue.{Holds, new-Holds, append-Holds}
use nev.TcpConnection.Events.{handle_read, handle_write}
use nev.TcpConnection.Invariant.{Inv, new_conn-Inv}
use nev.TcpConnection.Step.{
  Reach, here, next, establishes, sends, shuts, reads, writes, Reach-new_conn-Inv,
}
use nev.TcpConnection.Delivery.{Reach-delivers, all_accepted}
use nev.TcpConnection.Shutdown.{Step-ShutsSafely, NothingWaits, shutdown_overtakes_send}
use nev.TcpConnection.Lifecycle.{
  ClosedOnce, Reach-rank, rank, Reach-new_conn-ClosedOnce, connect_destroyed_disconnecting,
}

abbrev hello : List ℕ
hello = 104 ∷ 101 ∷ 108 ∷ 108 ∷ 111 ∷ []

-- Established; `hello` is sent, of which the kernel takes three bytes; a `shutdown` waits for the rest;
-- the rest is written; the peer closes.
abbrev start : Conn
start = new_conn true true

abbrev up : Conn
up = connect_established start

abbrev sent : Conn
sent = send true up (wrote 3) hello

abbrev closing : Conn
closing = shutdown true sent

abbrev flushed : Conn
flushed = handle_write closing (wrote 2)

abbrev ended : Conn
ended = handle_read flushed (received [])

to_up : Reach start up
unfolding new_conn
to_up = next here (establishes start refl)

to_sent : Reach start sent
unfolding new_conn connect_established
to_sent = next to_up (sends up true (wrote 3) hello (omega arith) (omega arith))

to_closing : Reach start closing
to_closing = next to_sent (shuts sent true)

closing_waits : readable_bytes closing.output_buffer ≡ 2
unfolding new_conn connect_established send shutdown add_size sub_size copy_to resize
closing_waits = refl

to_flushed : Reach start flushed
to_flushed = next to_closing (writes closing (wrote 2) (omega (arith, closing_waits)))

flushed_listens : is_reading flushed.channel ≡ true
unfolding new_conn connect_established send shutdown handle_write is_reading add_size sub_size
    copy_to resize
flushed_listens = refl

flushed_input : flushed.input_buffer.writer_index ≡ 8
unfolding new_conn connect_established send shutdown handle_write sub_size add_size
flushed_input = refl

to_ended : Reach start ended
to_ended =
    next to_flushed (reads flushed (received []) flushed_listens (omega (arith, flushed_input)))

wire_is_hello : (flushed.wire ≡ hello) × (flushed.write_shut ≡ true) × (closing.write_shut ≡ false)
unfolding new_conn connect_established send shutdown handle_write add_size sub_size copy_to resize
wire_is_hello = (refl, refl, refl)

Reach-new_conn-Inv_example : Inv ended
Reach-new_conn-Inv_example = Reach-new_conn-Inv true true to_ended

accepts_hello : all_accepted to_ended ≡ hello
unfolding new_conn connect_established to_up to_sent to_closing to_flushed to_ended
accepts_hello = refl

Reach-delivers_example : ended.wire ++ content ended.output_buffer ≡ all_accepted to_ended
Reach-delivers_example = Reach-delivers true true to_ended

Step-ShutsSafely_example : NothingWaits flushed
Step-ShutsSafely_example =
    Step-ShutsSafely (writes closing (wrote 2) (omega (arith, closing_waits)))
      (Reach-new_conn-Inv true true to_closing) wire_is_hello.2 wire_is_hello.1

Reach-new_conn-ClosedOnce_example : ClosedOnce ended
Reach-new_conn-ClosedOnce_example = Reach-new_conn-ClosedOnce true true to_ended

Reach-rank_run : rank start.state ≤ rank ended.state
Reach-rank_run = Reach-rank to_ended (new_conn-Inv true true)

up_idle : is_writing up.channel ≡ false
unfolding new_conn connect_established is_writing
up_idle = refl

up_connected : up.state ≡ connected
unfolding connect_established
up_connected = refl

shutdown_overtakes_send_example :
    let t = shutdown true (send false up (wrote 0) hello) in
    (t.write_shut ≡ true)
    × (t.pending ≡ up.pending ++ send_in_loop_functor hello ∷ [])
    × (t.wire ≡ up.wire)
    × (t.state ≡ disconnecting)
shutdown_overtakes_send_example = shutdown_overtakes_send up (wrote 0) hello up_connected up_idle

closing_disconnecting : closing.state ≡ disconnecting
unfolding new_conn connect_established send shutdown add_size sub_size copy_to resize
closing_disconnecting = refl

connect_destroyed_disconnecting_run :
    let t = connect_destroyed closing in
    (t.state ≡ disconnecting) × (is_none_event t.channel ≡ false) × (t.calls ≡ closing.calls)
connect_destroyed_disconnecting_run =
    connect_destroyed_disconnecting closing (Reach-new_conn-Inv true true to_closing)
      closing_disconnecting

abbrev letter : Buffer
letter = append (new 8) hello

letter-IsValid : IsValid letter
letter-IsValid =
    (append-Holds hello (new-Holds 8 (omega arith)).valid (unfold new in omega arith)).valid

send_buffer-send_example :
    ((send_buffer false up (wrote 0) letter).0 ≡ send false up (wrote 0) (content letter))
    × Holds (send_buffer false up (wrote 0) letter).1 []
send_buffer-send_example = send_buffer-send false up (wrote 0) letter-IsValid up_connected

write_events-drain_run :
    let t = write_events (0 ∷ 0 ∷ []) closing in
    (content t.output_buffer ≡ [])
    × (t.wire ≡ closing.wire ++ content closing.output_buffer)
    × (is_writing t.channel ≡ false)
    × (t.state ≡ closing.state)
write_events-drain_run =
    write_events-drain (0 ∷ 0 ∷ []) closing (Reach-new_conn-Inv true true to_closing)
      (ap is_disconnected closing_disconnecting) (omega (arith, closing_waits))

closing_writes : is_writing closing.channel ≡ true
unfolding new_conn connect_established send shutdown is_writing add_size sub_size copy_to resize
closing_writes = refl

write_events-shut_example :
    let t = write_events (0 ∷ 0 ∷ []) closing in
    (t.write_shut ≡ true) × (t.wire ≡ closing.wire ++ content closing.output_buffer)
write_events-shut_example =
    write_events-shut (0 ∷ 0 ∷ []) closing (Reach-new_conn-Inv true true to_closing)
      (ap is_disconnecting closing_disconnecting) closing_writes (omega (arith, closing_waits))
