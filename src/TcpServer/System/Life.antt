-- ===== src/TcpServer/System/Life.antt =====
-- What holds of the connections of a server between two events.
use nev.Base.{some, ℕ, ◌≤◌, ◌<◌, ◌≡◌, refl, sym, ap, ◌∙◌, List, [], ◌∷◌, ◌++◌, arith, subst}
use nev.TcpConnection.Invariant.{Inv}
use nev.TcpConnection.Step.{Step, Step-Inv}
use nev.TcpConnection.Lifecycle.{ClosedOnce, Step-Ahead}
use nev.TcpServer.{lookup_connection, Server, count_connection}
use nev.TcpServer.Laws.{id_bound, ServerInv}
use nev.TcpServer.Posted.{tasks_of}
use nev.TcpServer.System.{Peer, System}
use nev.TcpServer.System.Stage.{Stage}

module _ {L : Type 0} (print_id : ℕ → List ℕ) where
  -- How often a connection stands in the map.
  abbrev pub times : Server L → Peer L → ℕ
  times s p = count_connection p.key.conn_name s.connections

  -- A connection between two events.
  pub record PeerOk (s : Server L) (p : Peer L) : Type 0 where
    pub named : p.key.conn_name ≡ s.name ++ print_id p.id
    pub conn_inv : Inv p.conn
    pub closed_once : ClosedOnce p.conn
    pub stage : Stage p (times s p)
    pub follows : tasks_of p.key.conn_name s.posted ≡ p.ran ++ p.tasks
    pub mapped : times s p ≡ 1 → lookup_connection p.key.conn_name s.connections ≡ some p.key

  -- The identifiers fall, from below `b`.
  abbrev pub Below : Server L → ℕ → List (Peer L) → Type 0
  Below s b [] = Unit
  Below s b (p ∷ ps) = (p.id < b) × PeerOk s p × Below s p.id ps

  -- The names from `lo` up to `hi` stand in the map as before.
  pub record Kept (lo hi : ℕ) (s t : Server L) : Type 0 where
    pub same_name : t.name ≡ s.name
    pub same_count :
        (k : ℕ)
        → lo ≤ k
        → k < hi
        → count_connection (s.name ++ print_id k) t.connections
          ≡ count_connection (s.name ++ print_id k) s.connections
    pub same_tasks :
        (k : ℕ)
        → lo ≤ k
        → k < hi
        → tasks_of (s.name ++ print_id k) t.posted ≡ tasks_of (s.name ++ print_id k) s.posted
    pub same_lookup :
        (k : ℕ)
        → lo ≤ k
        → k < hi
        → lookup_connection (s.name ++ print_id k) t.connections
          ≡ lookup_connection (s.name ++ print_id k) s.connections

  Kept-times :
      (lo hi : ℕ) (s t : Server L) (p : Peer L)
      → Kept lo hi s t
      → lo ≤ p.id
      → p.id < hi
      → p.key.conn_name ≡ s.name ++ print_id p.id
      → times t p ≡ times s p
  Kept-times lo hi s t p k a b n =
      ap (λ o. count_connection o t.connections) n
      ∙ k.same_count p.id a b
      ∙ sym (ap (λ o. count_connection o s.connections) n)

  pub Kept-PeerOk :
      (lo hi : ℕ) (s t : Server L) (p : Peer L)
      → Kept lo hi s t
      → lo ≤ p.id
      → p.id < hi
      → PeerOk s p
      → PeerOk t p
  Kept-PeerOk lo hi s t p k a b o = record {
    named = o.named ∙ sym (ap (λ m. m ++ print_id p.id) k.same_name);
    conn_inv = o.conn_inv;
    closed_once = o.closed_once;
    stage = subst (Stage p) (sym (Kept-times lo hi s t p k a b o.named)) o.stage;
    follows =
        ap (λ m. tasks_of m t.posted) o.named
        ∙ k.same_tasks p.id a b
        ∙ sym (ap (λ m. tasks_of m s.posted) o.named)
        ∙ o.follows;
    mapped = λ e.
        ap (λ m. lookup_connection m t.connections) o.named
        ∙ k.same_lookup p.id a b
        ∙ sym (ap (λ m. lookup_connection m s.connections) o.named)
        ∙ o.mapped (sym (Kept-times lo hi s t p k a b o.named) ∙ e);
  }

  pub Kept-Below :
      (b hi : ℕ) (s t : Server L) (ps : List (Peer L))
      → Kept 0 hi s t
      → b ≤ hi
      → Below s b ps
      → Below t b ps
  Kept-Below b hi s t [] k h o = tt
  Kept-Below b hi s t (p ∷ ps) k h (l, o, os) = (
    l,
    Kept-PeerOk 0 hi s t p k (omega arith) (omega (arith, l, h)) o,
    Kept-Below p.id hi s t ps k (omega (arith, l, h)) os,
  )

  -- The identifiers that a run has used are below the next one.
  pub record SystemInv (x : System L) : Type 0 where
    pub server_inv : ServerInv print_id x.server
    pub in_bound : x.server.next_conn_id < id_bound
    pub below : Below x.server x.server.next_conn_id x.peers

  -- What a turn of the connections below `b` leaves behind.
  pub record TurnOk (b : ℕ) (s t : Server L) (qs : List (Peer L)) : Type 0 where
    pub inv : ServerInv print_id t
    pub below : Below t b qs
    pub kept : Kept b id_bound s t
    pub same_next : t.next_conn_id ≡ s.next_conn_id

  pub Kept-refl : (lo hi : ℕ) (s : Server L) → Kept lo hi s s
  Kept-refl lo hi s = record {
    same_name = refl;
    same_count = λ k a b. refl;
    same_tasks = λ k a b. refl;
    same_lookup = λ k a b. refl;
  }

  pub stepped-PeerOk :
      (s : Server L) (p q : Peer L)
      → Step p.conn q.conn
      → q.key ≡ p.key
      → q.id ≡ p.id
      → q.ran ++ q.tasks ≡ p.ran ++ p.tasks
      → Stage q (times s p)
      → PeerOk s p
      → PeerOk s q
  stepped-PeerOk s p q st e i f g o = record {
    named = ap (λ k. k.conn_name) e ∙ o.named ∙ sym (ap (λ j. s.name ++ print_id j) i);
    conn_inv = Step-Inv st o.conn_inv;
    closed_once = (Step-Ahead st o.conn_inv).1 o.closed_once;
    stage = subst (λ k. Stage q (count_connection k.conn_name s.connections)) (sym e) g;
    follows = ap (λ k. tasks_of k.conn_name s.posted) e ∙ o.follows ∙ sym f;
    mapped =
        subst
          (λ k.
            count_connection k.conn_name s.connections ≡ 1
            → lookup_connection k.conn_name s.connections ≡ some k)
          (sym e) o.mapped;
  }
