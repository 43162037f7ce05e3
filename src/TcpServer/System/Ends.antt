-- ===== src/TcpServer/System/Ends.antt =====
-- The end of a connection of a server, whose close callback was called.
use nev.Base.{ℕ, ◌<◌, ◌≡◌, refl, sym, true, List, [], ◌∷◌, ◌++◌, arith, subst}
use nev.TcpConnection.{is_disconnected}
use nev.TcpConnection.Lifecycle.{closes_in}
use nev.TcpServer.{Server, connect_destroyed_task, remove_connection_in_loop}
use nev.TcpServer.Laws.{id_bound}
use nev.TcpServer.System.{
  ran_peer, Peer, System, removed_peer, Turn, runs_task, removes_peer, later, turns, Moves, still,
  further,
}
use nev.TcpServer.System.Stage.{
  Stage, unheard, served, removed_once, destroyed_once, runs-Stage, removes-Stage,
}
use nev.TcpServer.System.Life.{PeerOk, Below, times}
use nev.TcpServer.System.Turns.{removed-PeerOk}
use nev.TcpServer.System.Due.{new_system, Moves-Below}

module _ {L : Type 0} (print_id : ℕ → List ℕ) where
  Below-PeerOk :
      (s : Server L) (b : ℕ) (front back : List (Peer L)) (p : Peer L)
      → Below print_id s b (front ++ p ∷ back)
      → PeerOk print_id s p
  Below-PeerOk s b [] back p (l, o, os) = o
  Below-PeerOk s b (q ∷ front) back p (l, o, os) = Below-PeerOk s q.id front back p os

  behind :
      {s t : Server L} (front : List (Peer L)) {ps qs : List (Peer L)}
      → Turn print_id s ps t qs
      → Turn print_id s (front ++ ps) t (front ++ qs)
  behind [] tu = tu
  behind (p ∷ front) tu = later p (behind front tu)

  -- The connection is out of the map, down, and nothing waits for it.
  pub record IsOver (s : Server L) (q : Peer L) : Type 0 where
    pub no_task : q.tasks ≡ []
    pub not_in_map : times print_id s q ≡ 0
    pub down : is_disconnected q.conn.state ≡ true

  -- The run can be continued to the end of the connection, with the others as they are.
  abbrev pub Ends : System L → List (Peer L) → Peer L → List (Peer L) → Type 0
  Ends x front p back =
      (y : System L) × Moves print_id x y
      × (q : Peer L) × (y.peers ≡ front ++ q ∷ back)
      × (q.key ≡ p.key)
      × IsOver y.server q

  -- A connection that is removed is told on its loop.
  told :
      (x : System L) (s : Server L) (front back : List (Peer L)) (k p : Peer L)
      → Moves print_id x (record { server = s; peers = front ++ p ∷ back })
      → p.key ≡ k.key
      → PeerOk print_id s p
      → p.tasks ≡ connect_destroyed_task ∷ []
      → p.removed ≡ 1
      → Ends x front k back
  told x s front back k p r e o t d =
      let q : Peer L = ran_peer p connect_destroyed_task [] in
      let y : System L = record { server = s; peers = front ++ q ∷ back } in
      let (st, g) =
        runs-Stage p (times print_id s p) connect_destroyed_task [] t o.conn_inv o.stage in
      (
        y,
        further r (
            turns (record { server = s; peers = front ++ p ∷ back }) y
              (behind front (runs_task s p back connect_destroyed_task [] t))),
        q,
        refl,
        e,
        over s q refl d g,
      )
    where
      over :
          (s : Server L) (q : Peer L)
          → q.tasks ≡ []
          → q.removed ≡ 1
          → Stage q (times print_id s q)
          → IsOver s q
      over s q t d (unheard a u r e) = absurd (ground arith)
      over s q t d (served a r e) = absurd (omega (arith, d, r))
      over s q t d (removed_once a r e i) = absurd (ground arith)
      over s q t d (destroyed_once a r e i) = record { no_task = a; not_in_map = e; down = i }

module _ {L : Type 0} (print_id : ℕ → List ℕ)
    (injective : (i j : ℕ) → i < id_bound → j < id_bound → print_id i ≡ print_id j → i ≡ j) where
  removes_and_tells :
      (x : System L) (front back : List (Peer L)) (p : Peer L)
      → x.peers ≡ front ++ p ∷ back
      → p.tasks ≡ []
      → p.removed ≡ 0
      → closes_in p.conn.calls ≡ 1
      → PeerOk print_id x.server p
      → Ends print_id x front p back
  unfolding removed_peer
  removes_and_tells x front back p e t r c o =
      let h : p.removed < closes_in p.conn.calls = omega (arith, r, c) in
      let s = remove_connection_in_loop p.key x.server in
      let (n, g) = removes-Stage p (times print_id x.server p) h o.closed_once o.stage in
      told print_id x s front back p (removed_peer p)
        (further still (
          turns x (record { server = s; peers = front ++ removed_peer p ∷ back })
            (subst (λ ps. Turn print_id x.server ps s (front ++ removed_peer p ∷ back)) (sym e)
              (behind print_id front (removes_peer x.server p back h)))))
        refl (removed-PeerOk print_id injective x.server p g o) (ground arith) (omega (arith, r))

  ends :
      (x : System L) (front back : List (Peer L)) (p : Peer L)
      → x.peers ≡ front ++ p ∷ back
      → closes_in p.conn.calls ≡ 1
      → PeerOk print_id x.server p
      → Stage p (times print_id x.server p)
      → Ends print_id x front p back
  ends x front back p e c o (unheard t u r n) = absurd (ground (arith, o.closed_once.not_before))
  ends x front back p e c o (served t r n) = removes_and_tells x front back p e t r c o
  ends x front back p e c o (removed_once t r n d) =
      told print_id x x.server front back p p
        (subst (λ ps. Moves print_id x (record { server = x.server; peers = ps })) e still) refl o t
        r
  ends x front back p e c o (destroyed_once t r n d) =
      (x, still, p, e, refl, record { no_task = t; not_in_map = n; down = d })

  -- If the printed identifiers differ, then from every state that a new server and its
  -- connections reach, until the server is destroyed, the run can be continued, for a connection
  -- whose close callback was called, to a state in which it is disconnected, out of the map and
  -- has no task left, and all other connections are as before.
  pub Moves-Ends :
      (loop : L) (name : List ℕ) (threads : ℕ) {x : System L}
      → Moves print_id (new_system print_id injective loop name threads) x
      → (front back : List (Peer L)) (p : Peer L) → x.peers ≡ front ++ p ∷ back
      → closes_in p.conn.calls ≡ 1
      → Ends print_id x front p back
  Moves-Ends loop name threads {x} r front back p e c =
      let o = Below-PeerOk print_id x.server x.server.next_conn_id front back p (
        subst (Below print_id x.server x.server.next_conn_id) e
          (Moves-Below print_id injective loop name threads r)) in
      ends x front back p e c o o.stage
