-- ===== src/TcpServer/Tests.antt =====
-- A server with two threads at work. The identifiers are printed as one character each.
use nev.Base.{some, same_bytes, ℕ, ◌+◌, ◌<◌, ◌≡◌, refl, false, List, [], ◌∷◌, arith}
use nev.Acceptor.{new_acceptor, listen}
use nev.EventLoopThreadPool.{Pool, new_pool, set_thread_num, get_next_loop, start_loops}
use nev.EventLoopThreadPool
use mathlib.Core.List.{Perm}
use nev.TcpServer.{
  destroy_server, lookup_connection, Server, ServerConn, new_server, set_threads, start,
  new_connection, add_connection, next_name, remove_connection_in_loop, erase_connection,
  count_connection,
}
use nev.TcpServer.Laws.{id_bound, ServerInv, Reach, here, next, starts, accepts, removes}
use nev.TcpServer.Posted.{established, destroyed}
use nev.TcpServer.Accept.{AddsOne, Reach-new_server-ServerInv, new_connection-AddsOne}

abbrev print_id : ℕ → List ℕ
print_id k = b'#' ∷ k ∷ []

print_id_injective : (i j : ℕ) → i < id_bound → j < id_bound → print_id i ≡ print_id j → i ≡ j
print_id_injective i j h k e = ground arith

abbrev name : List ℕ
name = b's' ∷ []

abbrev fresh : Server ℕ
fresh = set_threads 2 (new_server 7 name)

abbrev up : Server ℕ
up = start (λ i. 100 + i) false fresh

abbrev one : Server ℕ
one = new_connection print_id 30 up

abbrev two : Server ℕ
two = new_connection print_id 31 one

abbrev first_conn : ServerConn ℕ
first_conn = record {
  conn_name = b's' ∷ b'#' ∷ 1 ∷ [];
  conn_loop = 100;
  sockfd = 30;
  write_complete = false;
}

abbrev second_conn : ServerConn ℕ
second_conn = record {
  conn_name = b's' ∷ b'#' ∷ 2 ∷ [];
  conn_loop = 101;
  sockfd = 31;
  write_complete = false;
}

abbrev left : Server ℕ
left = remove_connection_in_loop first_conn two

to_one : Reach print_id fresh one
unfolding new_server set_threads start
to_one = next (next here (starts fresh (λ i. 100 + i) false)) (accepts up 30 (omega arith))

one_id : one.next_conn_id ≡ 2
unfolding new_server set_threads start new_connection add_connection get_next_loop next_name
    EventLoopThreadPool.start set_thread_num new_pool start_loops new_acceptor listen
one_id = refl

first_once : lookup_connection first_conn.conn_name two.connections ≡ some first_conn
unfolding new_server set_threads start new_connection add_connection get_next_loop next_name
    EventLoopThreadPool.start set_thread_num new_pool start_loops new_acceptor listen
    lookup_connection erase_connection same_bytes
first_once = refl

to_left : Reach print_id fresh left
to_left =
    next (next to_one (accepts one 31 (omega (arith, one_id)))) (removes two first_conn first_once)

second_left : left.connections ≡ (second_conn.conn_name, second_conn) ∷ []
unfolding new_server set_threads start new_connection add_connection get_next_loop next_name
    EventLoopThreadPool.start set_thread_num new_pool start_loops new_acceptor listen
    count_connection erase_connection same_bytes remove_connection_in_loop
second_left = refl

Reach-new_server-ServerInv_example :
    ServerInv print_id left × Perm (established left.posted) (destroyed (destroy_server left))
Reach-new_server-ServerInv_example =
    Reach-new_server-ServerInv print_id print_id_injective 7 name 2 to_left

new_connection-AddsOne_run : AddsOne print_id print_id_injective one two
new_connection-AddsOne_run =
    new_connection-AddsOne print_id print_id_injective one 31 (omega (arith, one_id))
      (Reach-new_server-ServerInv print_id print_id_injective 7 name 2 to_one).0
