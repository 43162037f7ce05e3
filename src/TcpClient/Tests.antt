-- ===== src/TcpClient/Tests.antt =====
-- A client that connects and loses its connection.
use nev.Base.{◌≡◌, refl, true, false, [], ◌∷◌, some}
use nev.Channel.{set_write_callback, new_channel, enable_writing}
use nev.Connector.{
  start, start_in_loop, connect, start_connecting, handle_write, attempt_done,
  remove_and_reset_channel, new_connector, set_new_connection_callback,
}
use nev.TcpClient.{
  Client, ClientConn, connect_established_call, connect_destroyed_queued, new_client,
  connect_client, handle_writable, take_over, new_connection, remove_connection,
}
use nev.TcpClient.Laws.{
  NeverRestarts, Reach, here, next, connects, writes, removes, AtMostOne,
  Reach-new_client-AtMostOne,
}

abbrev trying : Client
trying = connect_client true 6 10035 (new_client false)

abbrev up : Client
up = handle_writable 0 6 (enable_writing (set_write_callback new_channel)) trying

abbrev conn : ClientConn
conn = record { conn_id = 1; sockfd = 6; write_complete = false }

up_conn : up.connection ≡ some conn
unfolding new_client new_connector set_new_connection_callback connect_client start start_in_loop
    connect start_connecting handle_writable handle_write attempt_done remove_and_reset_channel
    take_over new_connection
up_conn = refl

abbrev down : Client
down = remove_connection conn up

to_down : (r : Reach (new_client false) down) × NeverRestarts r
unfolding new_client new_connector set_new_connection_callback
to_down = (
  next
      (next (next here (connects (new_client false) true 6 10035))
        (writes trying 0 6 (enable_writing (set_write_callback new_channel))))
      (removes up conn up_conn),
  ((((tt, refl), refl), refl)),
)

-- A second `connect` makes a second connection, and the first is lost.
abbrev again : Client
again =
    handle_writable 0 9 (enable_writing (set_write_callback new_channel))
      (connect_client true 9 10035 up)

second_conn :
    (again.calls
      ≡ connect_established_call conn
        ∷ connect_established_call (record { conn_id = 2; sockfd = 9; write_complete = false })
        ∷ [])
unfolding new_client new_connector set_new_connection_callback connect_client start start_in_loop
    connect start_connecting handle_writable handle_write attempt_done remove_and_reset_channel
    take_over new_connection
second_conn = refl

down_calls : down.calls ≡ connect_established_call conn ∷ connect_destroyed_queued conn ∷ []
unfolding new_client new_connector set_new_connection_callback connect_client start start_in_loop
    connect start_connecting handle_writable handle_write attempt_done remove_and_reset_channel
    take_over new_connection remove_connection
down_calls = refl

Reach-new_client-AtMostOne_example : AtMostOne down
Reach-new_client-AtMostOne_example = Reach-new_client-AtMostOne false to_down.0 to_down.1
