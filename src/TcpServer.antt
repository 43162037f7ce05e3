-- ===== src/TcpServer.antt =====
-- src/nev/tcp_server.cc and include/nev/tcp_server.h: the class `TcpServer`. A connection is known by its
-- name, its loop and its descriptor; what it is told to do on its loop is posted there, in order.
pub mod Names
pub mod Posted
pub mod Laws
pub mod Accept
pub mod System
mod Tests
use nev.Base.{
  ℕ, zero, suc, ◌+◌, Bool, true, false, not, ◌&&◌, if◌then◌else◌, ◌==◌, same_bytes, List, [], ◌∷◌,
  ◌++◌, Option, some, none,
}
use nev.Acceptor.{Acceptor, new_acceptor, listen}
use nev.EventLoopThreadPool.{Pool, new_pool, set_thread_num, get_next_loop}
use nev.EventLoopThreadPool

pub record ServerConn (L : Type 0) : Type 0 where
  pub conn_name : List ℕ
  pub conn_loop : L
  pub sockfd : ℕ
  pub write_complete : Bool

-- `TcpConnection::connectEstablished` and `TcpConnection::connectDestroyed`.
pub data Task : Type 0 where
  connect_established_task connect_destroyed_task : Task

-- `connections` is the map, as a list of keys and values; `posted` logs the tasks of the connections.
pub record Server (L : Type 0) : Type 0 where
  pub name : List ℕ
  pub acceptor : Acceptor
  pub thread_pool : Pool L
  pub has_write_complete_cb : Bool
  pub started : ℕ
  pub next_conn_id : ℕ
  pub connections : List (List ℕ × ServerConn L)
  pub posted : List (Task × ServerConn L)

unfoldable pub erase_connection :
    {L : Type 0} → List ℕ → List (List ℕ × ServerConn L) → List (List ℕ × ServerConn L)
unfolding same_bytes
erase_connection key [] = []
erase_connection key (e ∷ es) =
    if same_bytes e.0 key then erase_connection key es else (e ∷ erase_connection key es)

-- What the map has under a key.
unfoldable pub lookup_connection :
    {L : Type 0} → List ℕ → List (List ℕ × ServerConn L) → Option (ServerConn L)
unfolding same_bytes
lookup_connection key [] = none
lookup_connection key (e ∷ es) = if same_bytes e.0 key then some e.1 else lookup_connection key es

-- What `erase` returns.
unfoldable pub count_connection : {L : Type 0} → List ℕ → List (List ℕ × ServerConn L) → ℕ
unfolding same_bytes
count_connection key [] = 0
count_connection key (e ∷ es) =
    if same_bytes e.0 key then suc (count_connection key es) else count_connection key es

unfoldable pub new_server : {L : Type 0} → L → List ℕ → Server L
unfolding new_acceptor new_pool
new_server loop name = record {
  name = name;
  acceptor = new_acceptor true;
  thread_pool = new_pool loop;
  has_write_complete_cb = false;
  started = 0;
  next_conn_id = 1;
  connections = [];
  posted = [];
}

unfoldable pub set_threads : {L : Type 0} → ℕ → Server L → Server L
unfolding set_thread_num
set_threads n s = record s { thread_pool = set_thread_num n s.thread_pool }

-- `setWriteCompleteCallback`, for the connections to come.
unfoldable pub set_write_complete_cb : {L : Type 0} → Bool → Server L → Server L
set_write_complete_cb has_cb s = record s { has_write_complete_cb = has_cb }

-- In the thread of the server's loop, where `runInLoop` calls `listen` at once.
unfoldable pub start : {L : Type 0} → (ℕ → L) → Bool → Server L → Server L
unfolding EventLoopThreadPool.start listen
start loop_of has_cb s =
    if s.started == 0
    then (let pooled = record s {
      started = 1;
      thread_pool = (EventLoopThreadPool.start loop_of has_cb s.thread_pool).0;
    } in
        if not pooled.acceptor.listening
        then record pooled { acceptor = listen pooled.acceptor }
        else pooled)
    else s

unfoldable pub remove_connection_in_loop : {L : Type 0} → ServerConn L → Server L → Server L
unfolding erase_connection
remove_connection_in_loop c s = record s {
  connections = erase_connection c.conn_name s.connections;
  posted = s.posted ++ (connect_destroyed_task, c) ∷ [];
}

-- The destructor: every connection is told.
unfoldable pub destroy_all :
    {L : Type 0} → List (List ℕ × ServerConn L) → List (Task × ServerConn L)
destroy_all [] = []
destroy_all (e ∷ es) = (connect_destroyed_task, e.1) ∷ destroy_all es

unfoldable pub destroy_server : {L : Type 0} → Server L → List (Task × ServerConn L)
unfolding destroy_all
destroy_server s = s.posted ++ destroy_all s.connections

-- `print_id` is `base::StringPrintf("#%d", id)`.
module _ {L : Type 0} (print_id : ℕ → List ℕ) where
  -- The name of the next connection.
  unfoldable pub next_name : Server L → List ℕ
  next_name s = s.name ++ print_id s.next_conn_id

  -- The next connection, on a loop of the pool.
  abbrev pub server_conn : ℕ → Server L → L → ServerConn L
  server_conn sockfd s loop = record {
    conn_name = next_name s;
    conn_loop = loop;
    sockfd = sockfd;
    write_complete = s.has_write_complete_cb;
  }

  -- `none` is an access out of range in `getNextLoop`.
  unfoldable pub add_connection : ℕ → Server L → Option L × Pool L → Server L
  unfolding next_name erase_connection
  add_connection sockfd s (none, pool) = s
  add_connection sockfd s (some loop, pool) =
      let c = server_conn sockfd s loop in
      record s {
        next_conn_id = s.next_conn_id + 1;
        thread_pool = pool;
        connections = (c.conn_name, c) ∷ erase_connection c.conn_name s.connections;
        posted = s.posted ++ (connect_established_task, c) ∷ [];
      }

  unfoldable pub new_connection : ℕ → Server L → Server L
  unfolding add_connection get_next_loop
  new_connection sockfd s = add_connection sockfd s (get_next_loop s.thread_pool)
