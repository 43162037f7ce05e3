-- ===== src/TcpClient/System/Tests.antt =====
-- A client whose connection the other end closes.
use nev.Base.{◌≡◌, refl, true, false, some, [], arith}
use nev.Buffer.ReadFd.{received}
use nev.Channel.{
  Channel, set_write_callback, new_channel, enable_writing, is_reading, tie, enable_reading,
}
use nev.Connector.{
  start, start_in_loop, connect, start_connecting, handle_write, attempt_done,
  remove_and_reset_channel, new_connector, set_new_connection_callback,
}
use nev.TcpConnection.{new_conn, connect_established, handle_close}
use nev.TcpConnection.Events.{handle_read}
use nev.TcpConnection.Step.{reads}
use nev.TcpClient.{ClientConn, new_client, connect_client, new_connection}
use nev.TcpClient.Laws.{connects}
use nev.TcpClient.System.{
  Link, ClientSystem, link_of, hand_over, hear_writable, remove_link, client_acts, writes_connector,
  link_acts, removes_link, Moves, still, further,
}
use nev.TcpClient.System.Due.{ClientDue, new_system, Moves-ClientDue}

abbrev fresh : ClientSystem
fresh = new_system false

abbrev trying : ClientSystem
trying = record fresh { client = connect_client true 6 10035 fresh.client }

abbrev wanting : Channel
wanting = enable_writing (set_write_callback new_channel)

abbrev up : ClientSystem
up = hear_writable 0 6 wanting trying

abbrev key : ClientConn
key = record { conn_id = 1; sockfd = 6; write_complete = false }

abbrev linked : Link
linked = record {
  key = key;
  conn = connect_established (new_conn false false);
  destroy_queued = false;
  removed = 0;
}

up_link : up.link ≡ some linked
unfolding new_client new_connector set_new_connection_callback connect_client start start_in_loop
    connect start_connecting hear_writable handle_write attempt_done remove_and_reset_channel
    hand_over new_connection link_of
up_link = refl

abbrev broken : Link
broken = record linked { conn = handle_read linked.conn (received []) }

abbrev down : ClientSystem
down = record up { link = some broken }

abbrev removed : Link
removed = record broken { destroy_queued = true; removed = 1 }

abbrev left : ClientSystem
left = remove_link broken down.client

to_up : Moves fresh up
unfolding new_client new_connector set_new_connection_callback
to_up =
    further (further still (client_acts fresh (connects fresh.client true 6 10035) refl))
      (writes_connector trying 0 6 wanting)

to_down : Moves fresh down
unfolding new_conn new_channel connect_established tie enable_reading is_reading
to_down =
    further to_up
      (link_acts up linked (reads linked.conn (received []) refl (omega arith)) up_link refl)

to_left : Moves fresh left
unfolding new_conn handle_read handle_close connect_established
to_left = further to_down (removes_link down broken refl (omega arith))

Moves-ClientDue_example : ClientDue left.client left.link
Moves-ClientDue_example = Moves-ClientDue false to_left
