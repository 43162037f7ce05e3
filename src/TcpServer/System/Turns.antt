-- ===== src/TcpServer/System/Turns.antt =====
-- One event of one of the connections of a server.
use nev.Base.{
  append_assoc, ap, ◌∙◌, [], ◌∷◌, ◌++◌, same_bytes, ℕ, ◌≤◌, ◌<◌, ◌≡◌, ◌==◌, refl, sym, false, List,
  ◌++◌, arith, subst,
}
use nev.TcpServer.{connect_destroyed_task, Server, remove_connection_in_loop}
use nev.TcpServer.Names.{count-erase, count-erase-other, lookup-erase-other}
use nev.TcpServer.Laws.{id_bound, ServerInv, removes-ServerInv}
use nev.TcpServer.Posted.{tasks_of-other, tasks_of-own}
use nev.TcpServer.Accept.{names_differ}
use nev.TcpServer.System.{ran_peer, Peer, removed_peer, Turn, acts, runs_task, removes_peer, later}
use nev.TcpServer.System.Stage.{Stage, acts-Stage, runs-Stage, removes-Stage}
use nev.TcpServer.System.Life.{
  PeerOk, Below, Kept, times, Kept-PeerOk, Kept-Below, Kept-refl, stepped-PeerOk, TurnOk,
}

module _ {L : Type 0} (print_id : ℕ → List ℕ)
    (injective : (i j : ℕ) → i < id_bound → j < id_bound → print_id i ≡ print_id j → i ≡ j) where
  -- The removal of one connection keeps the names of the others.
  removes-Kept :
      (lo hi : ℕ) (s : Server L) (p : Peer L)
      → p.key.conn_name ≡ s.name ++ print_id p.id
      → p.id < id_bound
      → hi ≤ id_bound
      → ((k : ℕ) → lo ≤ k → k < hi → (p.id == k) ≡ false)
      → Kept print_id lo hi s (remove_connection_in_loop p.key s)
  unfolding remove_connection_in_loop
  removes-Kept lo hi s p n b h d = record {
    same_name = refl;
    same_count = λ k a c. count-erase-other (s.name ++ print_id k) p.key.conn_name s.connections (
        subst (λ o. same_bytes o (s.name ++ print_id k) ≡ false) (sym n)
          (names_differ print_id injective s.name p.id k b (omega (arith, c, h)) (d k a c)));
    same_tasks = λ k a c.
        tasks_of-other (s.name ++ print_id k) connect_destroyed_task p.key s.posted (
          subst (λ o. same_bytes o (s.name ++ print_id k) ≡ false) (sym n)
            (names_differ print_id injective s.name p.id k b (omega (arith, c, h)) (d k a c)));
    same_lookup = λ k a c. lookup-erase-other (s.name ++ print_id k) p.key.conn_name s.connections (
        subst (λ o. same_bytes o (s.name ++ print_id k) ≡ false) (sym n)
          (names_differ print_id injective s.name p.id k b (omega (arith, c, h)) (d k a c)));
  }

  pub removed-PeerOk :
      (s : Server L) (p : Peer L)
      → Stage (removed_peer p) 0
      → PeerOk print_id s p
      → PeerOk print_id (remove_connection_in_loop p.key s) (removed_peer p)
  unfolding remove_connection_in_loop removed_peer
  removed-PeerOk s p g o = record {
    named = o.named;
    conn_inv = o.conn_inv;
    closed_once = o.closed_once;
    stage = subst (Stage (removed_peer p)) (sym (count-erase p.key.conn_name s.connections)) g;
    follows =
        tasks_of-own p.key.conn_name connect_destroyed_task p.key s.posted refl
        ∙ ap (λ ts. ts ++ connect_destroyed_task ∷ []) o.follows
        ∙ append_assoc p.ran p.tasks (connect_destroyed_task ∷ []);
    mapped = λ e. absurd (omega (arith, e, count-erase p.key.conn_name s.connections));
  }

  pub Turn-TurnOk :
      (b : ℕ) {s t : Server L} {ps qs : List (Peer L)}
      → Turn print_id s ps t qs
      → b ≤ id_bound
      → ServerInv print_id s
      → Below print_id s b ps
      → TurnOk print_id b s t qs
  Turn-TurnOk b (acts s p ps st q) h v (l, o, os) = record {
    inv = v;
    below = (
      l,
      stepped-PeerOk print_id s p (record p { conn = _ }) st refl refl refl
          (acts-Stage p (times print_id s p) st q o.conn_inv o.stage) o,
      os,
    );
    kept = Kept-refl print_id b id_bound s;
    same_next = refl;
  }
  Turn-TurnOk b (runs_task s p ps f rest e) h v (l, o, os) =
      let (st, g) = runs-Stage p (times print_id s p) f rest e o.conn_inv o.stage in
      record {
        inv = v;
        below = (
          l,
          stepped-PeerOk print_id s p (ran_peer p f rest) st refl refl
              (append_assoc p.ran (f ∷ []) rest ∙ ap (λ ts. p.ran ++ ts) (sym e)) g o,
          os,
        );
        kept = Kept-refl print_id b id_bound s;
        same_next = refl;
      }
  Turn-TurnOk b (removes_peer s p ps r) h v (l, o, os) =
      let (e, g) = removes-Stage p (times print_id s p) r o.closed_once o.stage in
      record {
        inv = removes-ServerInv print_id s p.key (o.mapped e) v;
        below = (
          unfold removed_peer in l,
          removed-PeerOk s p g o,
          unfold removed_peer in
              Kept-Below print_id p.id p.id s (remove_connection_in_loop p.key s) ps
                (removes-Kept 0 p.id s p o.named (omega (arith, l, h)) (omega (arith, l, h))
                  (λ k a c. ground arith))
                (omega arith) os,
        );
        kept =
            removes-Kept b id_bound s p o.named (omega (arith, l, h)) (omega arith)
              (λ k a c. ground arith);
        same_next = unfold remove_connection_in_loop in refl;
      }
  Turn-TurnOk b (later {s} {t} p tu) h v (l, o, os) =
      let k = Turn-TurnOk p.id tu (omega (arith, l, h)) v os in
      record {
        inv = k.inv;
        below = (
          l,
          Kept-PeerOk print_id p.id id_bound s t p k.kept (omega arith) (omega (arith, l, h)) o,
          k.below,
        );
        kept = record {
          same_name = k.kept.same_name;
          same_count = λ j a c. k.kept.same_count j (omega (arith, a, l)) c;
          same_tasks = λ j a c. k.kept.same_tasks j (omega (arith, a, l)) c;
          same_lookup = λ j a c. k.kept.same_lookup j (omega (arith, a, l)) c;
        };
        same_next = k.same_next;
      }
