-- ===== src/TcpConnection/SendBuffer.antt =====
-- `TcpConnection::send(Buffer*)` against `TcpConnection::send` of the bytes.
use nev.Base.{◌≡◌, ap, Bool, true, false, []}
use nev.Buffer.{Buffer}
use nev.Buffer.Valid.{IsValid, content}
use nev.Buffer.Queue.{retrieve_all_as_string_lem, Holds, to_string_piece_lem, retrieve_all-Holds}
use nev.TcpConnection.{
  Conn, WriteResult, connected, is_connected, send, send_buffer, send_in_loop, queue_in_loop,
  send_in_loop_functor,
}

-- On a connected connection, sending a valid buffer, from the loop's thread or another, is
-- sending its content as a string, and empties the buffer.
pub send_buffer-send :
    (in_loop : Bool) (s : Conn) (r : WriteResult) {b : Buffer}
    → IsValid b
    → s.state ≡ connected
    → ((send_buffer in_loop s r b).0 ≡ send in_loop s r (content b))
      × Holds (send_buffer in_loop s r b).1 []
unfolding send_buffer send
send_buffer-send true s r v up =
    rw (ap is_connected up) (ap (send_in_loop s r) (to_string_piece_lem v), retrieve_all-Holds v)
send_buffer-send false s r v up = rw (ap is_connected up) (
  ap (λ bytes. queue_in_loop s (send_in_loop_functor bytes)) (retrieve_all_as_string_lem v).0,
  (retrieve_all_as_string_lem v).1,
)
