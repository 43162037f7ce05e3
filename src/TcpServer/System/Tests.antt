-- ===== src/TcpServer/System/Tests.antt =====
-- A server with one connection, from its acceptance to its end. The identifiers are printed as one character.
use nev.Base.{ℕ, ◌<◌, ◌≡◌, refl, List, [], ◌∷◌, false, arith}
use nev.Buffer.ReadFd.{received}
use nev.Channel.{is_reading, new_channel, tie, enable_reading}
use nev.EventLoopThreadPool.{new_pool, set_thread_num, get_next_loop}
use nev.Acceptor.{new_acceptor}
use nev.TcpConnection.{new_conn, connect_established, connect_destroyed, handle_close}
use nev.TcpConnection.Events.{handle_read}
use nev.TcpConnection.Step.{reads}
use nev.TcpServer.{
  connect_established_task, Server, ServerConn, connect_destroyed_task, new_server, set_threads,
  next_name, add_connection, remove_connection_in_loop,
}
use nev.TcpServer.Laws.{id_bound}
use nev.TcpServer.System.{
  Peer, System, run_task, new_peer, removed_peer, accept_on, accept_peer, acts, runs_task,
  removes_peer, Moves, still, further, accepts_peer, turns,
}
use nev.TcpServer.System.Ends.{Ends, Moves-Ends}
use nev.TcpServer.System.Due.{EachDue, new_system, Moves-Due}

abbrev print_id : ℕ → List ℕ
print_id k = b'#' ∷ k ∷ []

print_id_injective : (i j : ℕ) → i < id_bound → j < id_bound → print_id i ≡ print_id j → i ≡ j
print_id_injective i j h k e = ground arith

abbrev name : List ℕ
name = b's' ∷ []

abbrev fresh : System ℕ
fresh = new_system print_id print_id_injective 7 name 0

abbrev accepted : System ℕ
accepted = accept_peer print_id 30 fresh

abbrev key : ServerConn ℕ
key = record {
  conn_name = b's' ∷ b'#' ∷ 1 ∷ [];
  conn_loop = 7;
  sockfd = 30;
  write_complete = false;
}

abbrev peer : Peer ℕ
peer = new_peer key 1

abbrev up : Peer ℕ
up = record peer {
  conn = connect_established peer.conn;
  tasks = [];
  ran = connect_established_task ∷ [];
}

-- The other end closes.
abbrev down : Peer ℕ
down = record up { conn = handle_read up.conn (received []) }

abbrev removed : Peer ℕ
removed = removed_peer down

abbrev ended : Peer ℕ
ended = record removed {
  conn = connect_destroyed removed.conn;
  tasks = [];
  ran = connect_established_task ∷ connect_destroyed_task ∷ [];
}

abbrev with_peer : Server ℕ → Peer ℕ → System ℕ
with_peer s p = record { server = s; peers = p ∷ [] }

accepted_peers : accepted.peers ≡ peer ∷ []
unfolding accept_peer accept_on get_next_loop set_threads new_server new_pool set_thread_num
    new_acceptor add_connection next_name
accepted_peers = refl

to_accepted : Moves print_id fresh accepted
unfolding set_threads new_server
to_accepted = further still (accepts_peer fresh 30 (omega arith))

to_up : Moves print_id fresh (with_peer accepted.server up)
unfolding accept_peer accept_on get_next_loop set_threads new_server new_pool set_thread_num
    new_acceptor add_connection next_name new_peer run_task
to_up =
    further to_accepted
      (turns accepted (with_peer accepted.server up) (runs_task accepted.server peer [] _ [] refl))

to_down : Moves print_id fresh (with_peer accepted.server down)
unfolding new_peer new_conn new_channel connect_established tie enable_reading is_reading
to_down = further to_up (
    turns (with_peer accepted.server up) (with_peer accepted.server down)
      (acts accepted.server up [] (reads up.conn (received []) refl (omega arith)) refl))

abbrev left : Server ℕ
left = remove_connection_in_loop key accepted.server

to_removed : Moves print_id fresh (with_peer left removed)
unfolding new_peer new_conn removed_peer handle_read handle_close connect_established
to_removed = further to_down (
    turns (with_peer accepted.server down) (with_peer left removed)
      (removes_peer accepted.server down [] (omega arith)))

to_ended : Moves print_id fresh (with_peer left ended)
unfolding new_peer run_task removed_peer
to_ended = further to_removed (
    turns (with_peer left removed) (with_peer left ended)
      (runs_task left removed [] connect_destroyed_task [] refl))

Moves-Due_example : EachDue print_id print_id_injective left (ended ∷ [])
Moves-Due_example = Moves-Due print_id print_id_injective 7 name 0 to_ended

Moves-Due_run : EachDue print_id print_id_injective accepted.server (down ∷ [])
Moves-Due_run = Moves-Due print_id print_id_injective 7 name 0 to_down

Moves-Ends_example : Ends print_id (with_peer accepted.server down) [] down []
unfolding new_peer new_conn handle_read handle_close connect_established
Moves-Ends_example = Moves-Ends print_id print_id_injective 7 name 0 to_down [] [] down refl refl
