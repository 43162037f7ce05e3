-- ===== src/TcpClient/System.antt =====
-- src/nev/tcp_client.cc with src/nev/tcp_connection.cc: a client and its connection, in the thread of the
-- loop. The close callback calls `removeConnection`, which queues `connectDestroyed`; between events any
-- step of the client, its connector or the connection can come. The client is not destroyed.
pub mod Held
pub mod Due
mod Tests
use nev.Base.{not, ℕ, ◌+◌, ◌<◌, ◌≡◌, Bool, true, false, Option, some, none}
use nev.Channel.{Channel}
use nev.Connector.{Connector, handle_write}
use nev.TcpConnection.{Conn, new_conn, connect_established, connect_destroyed, shutdown}
use nev.TcpConnection.Step.{Step}
use nev.TcpConnection.Unheard.{is_posted}
use nev.TcpConnection.Lifecycle.{closes_in}
use nev.TcpClient.{Client, ClientConn, new_client, disconnect, new_connection, remove_connection}
use nev.TcpClient.Laws.{
  restarts, connects, disconnects, stops, sets_write_complete, writes, starts_queued, resets,
  removes,
}
use nev.TcpClient.Laws

-- `destroy_queued` tells whether `connectDestroyed` waits; `removed` counts the calls of
-- `removeConnection`.
pub record Link : Type 0 where
  pub key : ClientConn
  pub conn : Conn
  pub destroy_queued : Bool
  pub removed : ℕ

pub record ClientSystem : Type 0 where
  pub client : Client
  pub link : Option Link

-- The connection that `newConnection` makes and establishes.
unfoldable pub link_of : Option ClientConn → Option Link
unfolding new_conn connect_established
link_of none = none
link_of (some c) = some (record {
  key = c;
  conn = connect_established (new_conn c.write_complete false);
  destroy_queued = false;
  removed = 0;
})

unfoldable pub hand_over : Option ℕ → ClientSystem → ClientSystem
unfolding new_connection link_of
hand_over none x = x
hand_over (some fd) x =
    let s = new_connection fd x.client in record { client = s; link = link_of s.connection }

-- The connector's channel becomes writable.
unfoldable pub hear_writable : ℕ → ℕ → Channel → ClientSystem → ClientSystem
unfolding handle_write hand_over
hear_writable err sockfd c x =
    let (k, fd) = handle_write err sockfd c x.client.connector in
    hand_over fd (record x { client = record x.client { connector = k } })

unfoldable pub shut_held : Bool → Option ClientConn → Option Link → Option Link
unfolding shutdown
shut_held in_loop (some c) (some p) = some (record p { conn = shutdown in_loop p.conn })
shut_held in_loop none l = l
shut_held in_loop (some c) none = none

-- `disconnect`, with the `shutdown` of the connection that is held.
unfoldable pub disconnect_held : Bool → ClientSystem → ClientSystem
unfolding disconnect shut_held
disconnect_held in_loop x = record {
  client = disconnect x.client;
  link = shut_held in_loop x.client.connection x.link;
}

unfoldable pub remove_link : Link → Client → ClientSystem
unfolding remove_connection
remove_link p s = record {
  client = remove_connection p.key s;
  link = some (record p { destroy_queued = true; removed = p.removed + 1 });
}

unfoldable pub run_destroyed : Link → Link
unfolding connect_destroyed
run_destroyed p = record p { conn = connect_destroyed p.conn; destroy_queued = false }

-- The steps of the client that do not reach its connection, and start no attempt while the connector is not
-- disconnected.
abbrev pub is_own : {s t : Client} → Laws.Step s t → Bool
is_own (disconnects s) = false
is_own (writes s err sockfd c) = false
is_own (removes s c e) = false
is_own st = not (restarts st)

pub data Move : ClientSystem → ClientSystem → Type 0 where
  client_acts :
      (x : ClientSystem) {t : Client} (st : Laws.Step x.client t)
      → is_own st ≡ true
      → Move x (record x { client = t })
  disconnects_held : (x : ClientSystem) (in_loop : Bool) → Move x (disconnect_held in_loop x)
  writes_connector :
      (x : ClientSystem) (err sockfd : ℕ) (c : Channel) → Move x (hear_writable err sockfd c x)
  link_acts :
      (x : ClientSystem) (p : Link) {c : Conn} (st : Step p.conn c)
      → x.link ≡ some p
      → is_posted st ≡ false
      → Move x (record x { link = some (record p { conn = c }) })
  removes_link :
      (x : ClientSystem) (p : Link)
      → x.link ≡ some p
      → p.removed < closes_in p.conn.calls
      → Move x (remove_link p x.client)
  runs_destroyed :
      (x : ClientSystem) (p : Link)
      → x.link ≡ some p
      → p.destroy_queued ≡ true
      → Move x (record x { link = some (run_destroyed p) })

pub data Moves (x : ClientSystem) : ClientSystem → Type 0 where
  still : Moves x x
  further : {y z : ClientSystem} → Moves x y → Move y z → Moves x z
