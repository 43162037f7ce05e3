-- ===== src/TcpServer/System.antt =====
-- src/nev/tcp_server.cc with src/nev/tcp_connection.cc: a server and the connections that it made. The
-- loop of a connection runs what the server posts to it, in order; between that any step of the connection
-- can come. The server's loop removes a connection once for each call of its close callback.
-- The server is not destroyed.
pub mod Stage
pub mod Life
pub mod Turns
pub mod Due
pub mod Ends
mod Tests
use nev.Base.{ℕ, suc, ◌+◌, ◌<◌, ◌≡◌, Bool, false, List, [], ◌∷◌, ◌++◌, Option, some, none}
use nev.EventLoopThreadPool.{Pool, get_next_loop}
use nev.TcpConnection.{Conn, new_conn, connect_established, connect_destroyed}
use nev.TcpConnection.Step.{Step}
use nev.TcpConnection.Unheard.{is_posted}
use nev.TcpConnection.Lifecycle.{closes_in}
use nev.TcpServer.{
  Server, ServerConn, Task, connect_established_task, connect_destroyed_task, start,
  set_write_complete_cb, remove_connection_in_loop, server_conn, add_connection,
}
use nev.TcpServer.Laws.{id_bound}

-- `tasks` waits in the queue of the connection's loop, which ran the tasks `ran` before; `removed` counts the calls of
-- `removeConnectionInLoop`.
pub record Peer (L : Type 0) : Type 0 where
  pub key : ServerConn L
  pub id : ℕ
  pub conn : Conn
  pub tasks : List Task
  pub ran : List Task
  pub removed : ℕ

pub record System (L : Type 0) : Type 0 where
  pub server : Server L
  pub peers : List (Peer L)

unfoldable pub run_task : Task → Conn → Conn
unfolding connect_established connect_destroyed
run_task connect_established_task s = connect_established s
run_task connect_destroyed_task s = connect_destroyed s

-- The connection that `newConnection` makes.
unfoldable pub new_peer : {L : Type 0} → ServerConn L → ℕ → Peer L
unfolding new_conn
new_peer c id = record {
  key = c;
  id = id;
  conn = new_conn c.write_complete false;
  tasks = connect_established_task ∷ [];
  ran = [];
  removed = 0;
}

-- The loop runs a task, with `rest` left.
abbrev pub ran_peer : {L : Type 0} → Peer L → Task → List Task → Peer L
ran_peer p f rest = record p { conn = run_task f p.conn; tasks = rest; ran = p.ran ++ f ∷ [] }

unfoldable pub removed_peer : {L : Type 0} → Peer L → Peer L
removed_peer p = record p {
  tasks = p.tasks ++ connect_destroyed_task ∷ [];
  removed = p.removed + 1;
}

module _ {L : Type 0} (print_id : ℕ → List ℕ) where
  unfoldable pub accept_on : ℕ → System L → Option L × Pool L → System L
  unfolding add_connection new_peer
  accept_on sockfd x (none, pool) = x
  accept_on sockfd x (some loop, pool) = record {
    server = add_connection print_id sockfd x.server (some loop, pool);
    peers = new_peer (server_conn print_id sockfd x.server loop) x.server.next_conn_id ∷ x.peers;
  }

  -- `newConnection` of the server.
  unfoldable pub accept_peer : ℕ → System L → System L
  unfolding accept_on get_next_loop
  accept_peer sockfd x = accept_on sockfd x (get_next_loop x.server.thread_pool)

  -- One event of one of the connections, with what it does to the server.
  pub data Turn : Server L → List (Peer L) → Server L → List (Peer L) → Type 0 where
    acts :
        (s : Server L) (p : Peer L) (ps : List (Peer L)) {c : Conn} (st : Step p.conn c)
        → is_posted st ≡ false
        → Turn s (p ∷ ps) s (record p { conn = c } ∷ ps)
    runs_task :
        (s : Server L) (p : Peer L) (ps : List (Peer L)) (f : Task) (rest : List Task)
        → p.tasks ≡ f ∷ rest
        → Turn s (p ∷ ps) s (ran_peer p f rest ∷ ps)
    removes_peer :
        (s : Server L) (p : Peer L) (ps : List (Peer L))
        → p.removed < closes_in p.conn.calls
        → Turn s (p ∷ ps) (remove_connection_in_loop p.key s) (removed_peer p ∷ ps)
    later :
        {s t : Server L} (p : Peer L) {ps qs : List (Peer L)}
        → Turn s ps t qs
        → Turn s (p ∷ ps) t (p ∷ qs)

  pub data Move : System L → System L → Type 0 where
    starts_server :
        (x : System L) (loop_of : ℕ → L) (has_cb : Bool)
        → Move x (record x { server = start loop_of has_cb x.server })
    sets_server_callback :
        (x : System L) (has_cb : Bool)
        → Move x (record x { server = set_write_complete_cb has_cb x.server })
    accepts_peer :
        (x : System L) (sockfd : ℕ)
        → x.server.next_conn_id + 1 < id_bound
        → Move x (accept_peer sockfd x)
    turns : (x y : System L) → Turn x.server x.peers y.server y.peers → Move x y

  pub data Moves (x : System L) : System L → Type 0 where
    still : Moves x x
    further : {y z : System L} → Moves x y → Move y z → Moves x z
