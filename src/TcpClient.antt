-- ===== src/TcpClient.antt =====
-- src/nev/tcp_client.cc and include/nev/tcp_client.h: the class `TcpClient`, over its connector. The lock
-- around `connection_` makes each access atomic.
pub mod Laws
pub mod System
mod Tests
use nev.Base.{ℕ, ◌+◌, Bool, true, false, List, [], ◌∷◌, ◌++◌, Option, some, none}
use nev.Channel.{Channel}
use nev.Connector.{Connector, new_connector, set_new_connection_callback, start, stop, handle_write}

-- A connection by the number in its name and its descriptor.
pub record ClientConn : Type 0 where
  pub conn_id : ℕ
  pub sockfd : ℕ
  pub write_complete : Bool

-- What a client calls on a connection, or queues for it.
pub data ClientCall : Type 0 where
  connect_established_call shutdown_call set_close_cb_call connect_destroyed_queued :
      ClientConn → ClientCall

pub record Client : Type 0 where
  pub connector : Connector
  pub connect_flag : Bool
  pub next_conn_id : ℕ
  pub has_write_complete_cb : Bool
  pub connection : Option ClientConn
  pub calls : List ClientCall

unfoldable pub new_client : Bool → Client
unfolding new_connector set_new_connection_callback
new_client garbage = record {
  connector = set_new_connection_callback true (new_connector garbage);
  connect_flag = true;
  next_conn_id = 1;
  has_write_complete_cb = false;
  connection = none;
  calls = [];
}

-- `setWriteCompleteCallback`, for the connection to come.
unfoldable pub set_client_write_complete : Bool → Client → Client
set_client_write_complete has_cb s = record s { has_write_complete_cb = has_cb }

unfoldable pub connect_client : Bool → ℕ → ℕ → Client → Client
unfolding start
connect_client in_loop sockfd saved_errno s = record s {
  connect_flag = true;
  connector = start in_loop sockfd saved_errno s.connector;
}

-- The calls that a client makes on its connection, if there is one.
unfoldable pub call_on : (ClientConn → ClientCall) → Option ClientConn → List ClientCall
call_on f none = []
call_on f (some c) = f c ∷ []

unfoldable pub disconnect : Client → Client
unfolding call_on
disconnect s = record s {
  connect_flag = false;
  calls = s.calls ++ call_on shutdown_call s.connection;
}

unfoldable pub stop_client : Client → Client
unfolding stop
stop_client s = record s { connect_flag = false; connector = stop s.connector }

unfoldable pub new_connection : ℕ → Client → Client
new_connection sockfd s =
    let c : ClientConn = record {
      conn_id = s.next_conn_id;
      sockfd = sockfd;
      write_complete = s.has_write_complete_cb;
    } in
    record s {
      next_conn_id = s.next_conn_id + 1;
      connection = some c;
      calls = s.calls ++ connect_established_call c ∷ [];
    }

-- The close callback of the connection.
unfoldable pub remove_connection : ClientConn → Client → Client
remove_connection c s = record s {
  connection = none;
  calls = s.calls ++ connect_destroyed_queued c ∷ [];
}

unfoldable pub stop_unless : Option ClientConn → Connector → Connector
unfolding stop
stop_unless none k = stop k
stop_unless (some c) k = k

-- The destructor: a connection that is left gets a close callback that does without the client, and
-- without one the connector is stopped.
unfoldable pub destroy_client : Client → Client
unfolding stop_unless call_on
destroy_client s = record s {
  connector = stop_unless s.connection s.connector;
  calls = s.calls ++ call_on set_close_cb_call s.connection;
}

unfoldable pub take_over : Option ℕ → Client → Client
unfolding new_connection
take_over none s = s
take_over (some fd) s = new_connection fd s

-- The connector's channel becomes writable; its callback of a new connection is `newConnection`.
unfoldable pub handle_writable : ℕ → ℕ → Channel → Client → Client
unfolding handle_write take_over
handle_writable err sockfd c s =
    let (k, fd) = handle_write err sockfd c s.connector in take_over fd (record s { connector = k })
