-- ===== src/TcpServer/System/Due.antt =====
-- The connections of a server over any run: what is due at each event.
use nev.Base.{
  ◌∙◌, ℕ, ◌+◌, ◌<◌, ◌≡◌, refl, sym, ap, true, false, List, [], ◌∷◌, ◌++◌, arith, subst, some,
}
use nev.EventLoopThreadPool.{Pool, get_next_loop}
use nev.TcpConnection.{connecting, is_disconnected, new_conn}
use nev.TcpConnection.Invariant.{new_conn-Inv}
use nev.TcpConnection.Step.{here}
use nev.Base.{same_bytes_refl}
use nev.Channel.{is_reading, new_channel}
use nev.TcpConnection.Lifecycle.{Reach-new_conn-ClosedOnce, closes_in}
use nev.TcpServer.{
  lookup_connection, Server, Task, connect_established_task, connect_destroyed_task,
  count_connection, new_server, set_threads, start, set_write_complete_cb, next_name, server_conn,
  add_connection,
}
use nev.TcpServer.Names.{count-erase, count-erase-other, lookup-erase-other}
use nev.TcpServer.Laws.{
  id_bound, ServerInv, new_server-ServerInv, start-ServerInv, set_write_complete_cb-ServerInv,
  PoolInv, pool_has_loop,
}
use nev.TcpServer.Posted.{tasks_of, tasks_of-other, tasks_of-own}
use nev.TcpServer.Accept.{names_differ, add-ServerInv}
use nev.TcpServer.System.{
  Peer, System, new_peer, accept_on, accept_peer, Move, starts_server, sets_server_callback,
  accepts_peer, turns, Moves, still, further,
}
use nev.TcpServer.System.Stage.{unheard, Stage-connecting, Stage-down, Stage-erased, Stage-in_map}
use nev.TcpServer.System.Life.{PeerOk, Below, Kept, times, Kept-Below, SystemInv}
use nev.TcpServer.System.Turns.{Turn-TurnOk}

module _ {L : Type 0} (print_id : ℕ → List ℕ)
    (injective : (i j : ℕ) → i < id_bound → j < id_bound → print_id i ≡ print_id j → i ≡ j) where
  accepts-Kept :
      (s : Server L) (sockfd : ℕ) (l : L) (p : Pool L)
      → s.next_conn_id < id_bound
      → Kept print_id 0 s.next_conn_id s (add_connection print_id sockfd s (some l, p))
  unfolding add_connection next_name count_connection
  accepts-Kept s sockfd l p h = record {
    same_name = refl;
    same_count = λ k a c.
        let d =
          names_differ print_id injective s.name s.next_conn_id k h (omega (arith, c, h))
            (ground arith) in
        rw d (
          count-erase-other (s.name ++ print_id k) (s.name ++ print_id s.next_conn_id) s.connections
            d);
    same_tasks = λ k a c.
        tasks_of-other (s.name ++ print_id k) connect_established_task
          (server_conn print_id sockfd s l) s.posted
          (names_differ print_id injective s.name s.next_conn_id k h (omega (arith, c, h))
            (ground arith));
    same_lookup = λ k a c.
        let d =
          names_differ print_id injective s.name s.next_conn_id k h (omega (arith, c, h))
            (ground arith) in
        unfold lookup_connection in
        rw d (
          lookup-erase-other (s.name ++ print_id k) (s.name ++ print_id s.next_conn_id)
            s.connections d);
  }

  new_peer-PeerOk :
      (s : Server L) (sockfd : ℕ) (l : L) (p : Pool L)
      → s.next_conn_id < id_bound
      → ServerInv print_id s
      → PeerOk print_id
          (add_connection print_id sockfd s (some l, p))
          (new_peer (server_conn print_id sockfd s l) s.next_conn_id)
  unfolding add_connection next_name new_peer
  new_peer-PeerOk s sockfd l p h v = record {
    named = refl;
    conn_inv = new_conn-Inv s.has_write_complete_cb false;
    closed_once = Reach-new_conn-ClosedOnce s.has_write_complete_cb false here;
    stage = unheard refl (unfold new_conn new_channel is_reading in (refl, refl)) refl (
        unfold count_connection in
        rw (same_bytes_refl (s.name ++ print_id s.next_conn_id))
          (omega (arith, count-erase (s.name ++ print_id s.next_conn_id) s.connections)));
    follows =
        tasks_of-own (s.name ++ print_id s.next_conn_id) connect_established_task
          (server_conn print_id sockfd s l) s.posted refl
        ∙ ap (λ ts. ts ++ connect_established_task ∷ [])
            (v.unposted s.next_conn_id (omega arith) h);
    mapped = λ e.
        unfold lookup_connection in rw (same_bytes_refl (s.name ++ print_id s.next_conn_id)) refl;
  }

  accept_on-SystemInv :
      (x : System L) (sockfd : ℕ) (l : L) (p : Pool L)
      → x.server.next_conn_id + 1 < id_bound
      → PoolInv p
      → SystemInv print_id x
      → SystemInv print_id (accept_on print_id sockfd x (some l, p))
  unfolding accept_on
  accept_on-SystemInv x sockfd l p h r v = record {
    server_inv = add-ServerInv print_id injective x.server sockfd l p h v.server_inv r;
    in_bound = unfold add_connection in omega (arith, h);
    below = (
      unfold new_peer add_connection in omega arith,
      new_peer-PeerOk x.server sockfd l p (omega (arith, h)) v.server_inv,
      unfold new_peer in
          Kept-Below print_id x.server.next_conn_id x.server.next_conn_id x.server
            (add_connection print_id sockfd x.server (some l, p)) x.peers
            (accepts-Kept x.server sockfd l p (omega (arith, h))) (omega arith) v.below,
    );
  }

  accept_peer-SystemInv :
      (x : System L) (sockfd : ℕ)
      → x.server.next_conn_id + 1 < id_bound
      → SystemInv print_id x
      → SystemInv print_id (accept_peer print_id sockfd x)
  unfolding accept_peer
  accept_peer-SystemInv x sockfd h v =
      let (l, e, r) = pool_has_loop print_id x.server.thread_pool v.server_inv.pool_in_range in
      subst
        (λ o.
          SystemInv print_id
            (accept_on print_id sockfd x (o, (get_next_loop x.server.thread_pool).1)))
        (sym e) (accept_on-SystemInv x sockfd l (get_next_loop x.server.thread_pool).1 h r v)

  -- A change of the server that leaves its connections alone.
  same_map :
      (x : System L) (t : Server L)
      → t.name ≡ x.server.name
      → t.next_conn_id ≡ x.server.next_conn_id
      → t.connections ≡ x.server.connections
      → t.posted ≡ x.server.posted
      → ServerInv print_id t
      → SystemInv print_id x
      → SystemInv print_id (record x { server = t })
  same_map x t n i c q w v = record {
    server_inv = w;
    in_bound = omega (arith, i, v.in_bound);
    below =
        subst (λ b. Below print_id t b x.peers) (sym i)
          (Kept-Below print_id x.server.next_conn_id x.server.next_conn_id x.server t x.peers
            (record {
              same_name = n;
              same_count = λ k a b. ap (count_connection (x.server.name ++ print_id k)) c;
              same_tasks = λ k a b. ap (tasks_of (x.server.name ++ print_id k)) q;
              same_lookup = λ k a b. ap (lookup_connection (x.server.name ++ print_id k)) c;
            })
            (omega arith) v.below);
  }

  Move-SystemInv :
      {x y : System L} → Move print_id x y → SystemInv print_id x → SystemInv print_id y
  Move-SystemInv (starts_server x loop_of has_cb) v =
      unfold start in
      same_map x (start loop_of has_cb x.server) (ground arith) (ground arith) (ground arith)
        (ground arith) (start-ServerInv print_id x.server loop_of has_cb v.server_inv) v
  Move-SystemInv (sets_server_callback x has_cb) v =
      unfold set_write_complete_cb in
      same_map x (set_write_complete_cb has_cb x.server) refl refl refl refl
        (set_write_complete_cb-ServerInv print_id x.server has_cb v.server_inv) v
  Move-SystemInv (accepts_peer x sockfd h) v = accept_peer-SystemInv x sockfd h v
  Move-SystemInv (turns x y tu) v =
      let k =
        Turn-TurnOk print_id injective x.server.next_conn_id tu (omega (arith, v.in_bound))
          v.server_inv v.below in
      record {
        server_inv = k.inv;
        in_bound = omega (arith, k.same_next, v.in_bound);
        below = subst (λ b. Below print_id y.server b y.peers) (sym k.same_next) k.below;
      }

  Moves-SystemInv :
      {x y : System L} → Moves print_id x y → SystemInv print_id x → SystemInv print_id y
  Moves-SystemInv still v = v
  Moves-SystemInv (further r m) v = Move-SystemInv m (Moves-SystemInv r v)

  abbrev pub new_system : L → List ℕ → ℕ → System L
  new_system loop name threads = record {
    server = set_threads threads (new_server loop name);
    peers = [];
  }

  -- The `DCHECK`s on a connection's state and on what `erase` returns.
  pub record Due (s : Server L) (p : Peer L) : Type 0 where
    pub established_connecting :
        (rest : List Task) → p.tasks ≡ connect_established_task ∷ rest → p.conn.state ≡ connecting
    pub destroyed_down :
        (rest : List Task)
        → p.tasks ≡ connect_destroyed_task ∷ rest
        → is_disconnected p.conn.state ≡ true
    pub erased_once :
        p.removed < closes_in p.conn.calls
        → (times print_id s p ≡ 1)
          × (lookup_connection p.key.conn_name s.connections ≡ some p.key)
          × (is_disconnected p.conn.state ≡ true)
    pub follows : tasks_of p.key.conn_name s.posted ≡ p.ran ++ p.tasks
    pub in_map : times print_id s p + p.removed ≡ 1

  abbrev pub EachDue : Server L → List (Peer L) → Type 0
  EachDue s [] = Unit
  EachDue s (p ∷ ps) = Due s p × EachDue s ps

  PeerOk-Due : (s : Server L) (p : Peer L) → PeerOk print_id s p → Due s p
  PeerOk-Due s p o = record {
    established_connecting = λ rest e. Stage-connecting p (times print_id s p) rest e o.stage;
    destroyed_down = λ rest e. Stage-down p (times print_id s p) rest e o.stage;
    erased_once = λ h.
        let k = Stage-erased p (times print_id s p) h o.closed_once o.stage in
        (k.0, o.mapped k.0, k.1);
    follows = o.follows;
    in_map = Stage-in_map p (times print_id s p) o.stage;
  }

  Below-EachDue : (s : Server L) (b : ℕ) (ps : List (Peer L)) → Below print_id s b ps → EachDue s ps
  Below-EachDue s b [] o = tt
  Below-EachDue s b (p ∷ ps) (l, o, os) = (PeerOk-Due s p o, Below-EachDue s p.id ps os)

  pub Moves-Below :
      (loop : L) (name : List ℕ) (threads : ℕ) {x : System L}
      → Moves print_id (new_system loop name threads) x
      → Below print_id x.server x.server.next_conn_id x.peers
  Moves-Below loop name threads r =
      (Moves-SystemInv r (record {
        server_inv = new_server-ServerInv print_id loop name threads;
        in_bound = unfold set_threads new_server in omega arith;
        below = tt;
      })).below

  -- If the printed identifiers differ, then over any run of a new server and its connections,
  -- until the server is destroyed: connectEstablished is due only on a connecting connection,
  -- connectDestroyed only on a disconnected one, a removal that is due finds its connection
  -- disconnected and, by its name, this connection once in the map, and each connection either
  -- stands in the map once or was removed once, and its loop has run and has left, in order, what
  -- the server posted for its name.
  pub Moves-Due :
      (loop : L) (name : List ℕ) (threads : ℕ) {x : System L}
      → Moves print_id (new_system loop name threads) x
      → EachDue x.server x.peers
  Moves-Due loop name threads {x} r =
      Below-EachDue x.server x.server.next_conn_id x.peers (Moves-Below loop name threads r)
