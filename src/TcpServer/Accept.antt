-- ===== src/TcpServer/Accept.antt =====
-- Accepted connections get names of their own, so that each is removed by itself.
use nev.Base.{
  ap, ◌∙◌, append-nil, length-append, same_bytes, same_bytes_refl, same_bytes-eq, ℕ, suc, ◌+◌, ◌≤◌,
  ◌<◌, ◌≡◌, ◌==◌, refl, sym, false, List, [], ◌∷◌, ◌++◌, length, arith, Bool-cases, inl, inr, subst,
  some,
}
use nev.EventLoopThreadPool.{Pool, get_next_loop}
use nev.TcpServer.{
  destroy_all, destroy_server, Server, ServerConn, connect_established_task, erase_connection,
  count_connection, new_server, set_threads, remove_connection_in_loop, next_name, add_connection,
  new_connection,
}
use nev.TcpServer.Names.{append_injective, count-erase, count-erase-bound, erase_absent, values}
use mathlib.Core.List.{Perm}
use nev.TcpServer.Laws.{
  PoolInv, id_bound, ServerInv, Step, sets_write_complete, set_write_complete_cb-ServerInv, starts,
  accepts, removes, Reach, here, next, new_server-ServerInv, start-ServerInv, removes-ServerInv,
  pool_has_loop,
}
use nev.TcpServer.Posted.{
  tasks_of-other, one_more, established, destroyed, established-append, destroyed-append,
}

length_cons : {A : Type 0} (x : A) (xs : List A) → length (x ∷ xs) ≡ suc (length xs)
length_cons x xs = refl

module _ (print_id : ℕ → List ℕ)
    (injective : (i j : ℕ) → i < id_bound → j < id_bound → print_id i ≡ print_id j → i ≡ j) where
  pub names_differ :
      (base : List ℕ) (i j : ℕ)
      → i < id_bound
      → j < id_bound
      → (i == j) ≡ false
      → same_bytes (base ++ print_id i) (base ++ print_id j) ≡ false
  names_differ base i j a b d =
      elim (Bool-cases (same_bytes (base ++ print_id i) (base ++ print_id j))) [
        | inl t ↦
            let e = injective i j a b (
              append_injective base (print_id i) (print_id j)
                (same_bytes-eq (base ++ print_id i) (base ++ print_id j) t)) in
            absurd (ground arith)
        | inr t ↦ t
      ]

module _ {L : Type 0} (print_id : ℕ → List ℕ)
    (injective : (i j : ℕ) → i < id_bound → j < id_bound → print_id i ≡ print_id j → i ≡ j) where
  -- A new name differs from those to come.
  other_name :
      (s : Server L) (k : ℕ)
      → s.next_conn_id + 1 ≤ k
      → k < id_bound
      → same_bytes (next_name print_id s) (s.name ++ print_id k) ≡ false
  unfolding next_name
  other_name s k h b =
      names_differ print_id injective s.name s.next_conn_id k (omega (arith, h, b)) b (ground arith)

  counted :
      (key other : List ℕ) (c : ServerConn L) (es : List (List ℕ × ServerConn L))
      → count_connection other es ≤ 1
      → count_connection other ((key, c) ∷ erase_connection key es) ≤ 1
  unfolding count_connection
  counted key other c es h = elim (Bool-cases (same_bytes key other)) [
    | inl t ↦
        let z =
          subst (λ o. count_connection o (erase_connection key es) ≡ 0) (same_bytes-eq key other t)
            (count-erase key es) in
        rw (t, z) (omega arith)
    | inr t ↦ rw t (omega (arith, h, count-erase-bound other key es))
  ]

  pub add-ServerInv :
      (s : Server L) (sockfd : ℕ) (l : L) (p : Pool L)
      → s.next_conn_id + 1 < id_bound
      → ServerInv print_id s
      → PoolInv p
      → ServerInv print_id (add_connection print_id sockfd s (some l, p))
  unfolding add_connection
  add-ServerInv s sockfd l p b v r =
      let key = next_name print_id s in
      let c : ServerConn L = record {
        conn_name = key;
        conn_loop = l;
        sockfd = sockfd;
        write_complete = s.has_write_complete_cb;
      } in
      let fresh : count_connection key s.connections ≡ 0 =
        unfold next_name in v.unused s.next_conn_id (omega arith) (omega (arith, b)) in
      record {
        unique = λ other. counted key other c s.connections (v.unique other);
        unused = λ k a h.
            unfold count_connection in
            rw (other_name s k a h) (
              omega (
                arith,
                v.unused k (omega (arith, a)) h,
                count-erase-bound (s.name ++ print_id k) key s.connections,
              ));
        unposted = λ k a h.
            tasks_of-other (s.name ++ print_id k) connect_established_task c s.posted
              (other_name s k a h)
            ∙ v.unposted k (omega (arith, a)) h;
        balanced =
            unfold established destroyed in
            subst
              (λ cs. Perm cs (
                destroyed (s.posted ++ (connect_established_task, c) ∷ [])
                ++ c ∷ values (erase_connection key s.connections)))
              (sym (established-append s.posted ((connect_established_task, c) ∷ [])))
              (subst
                (λ cs.
                  Perm (established s.posted ++ c ∷ [])
                    (cs ++ c ∷ values (erase_connection key s.connections)))
                (sym (
                  destroyed-append s.posted ((connect_established_task, c) ∷ [])
                  ∙ append-nil (destroyed s.posted)))
                (subst
                  (λ es.
                    Perm (established s.posted ++ c ∷ []) (destroyed s.posted ++ c ∷ values es))
                  (sym (erase_absent key s.connections fresh))
                  (one_more c (established s.posted) (destroyed s.posted) (values s.connections)
                    v.balanced)));
        numbered =
            unfold established in
            omega (
              arith,
              v.numbered,
              ap length (established-append s.posted ((connect_established_task, c) ∷ [])),
              length-append (established s.posted) (c ∷ []),
            );
        pool_in_range = r;
      }

  accepts-ServerInv :
      (s : Server L) (sockfd : ℕ)
      → s.next_conn_id + 1 < id_bound
      → ServerInv print_id s
      → ServerInv print_id (new_connection print_id sockfd s)
  unfolding new_connection
  accepts-ServerInv s sockfd b v =
      let (l, e, r) = pool_has_loop print_id s.thread_pool v.pool_in_range in
      subst
        (λ o.
          ServerInv print_id
            (add_connection print_id sockfd s (o, (get_next_loop s.thread_pool).1)))
        (sym e) (add-ServerInv s sockfd l (get_next_loop s.thread_pool).1 b v r)

  Step-ServerInv :
      {s t : Server L} → Step print_id s t → ServerInv print_id s → ServerInv print_id t
  Step-ServerInv (starts s loop_of has_cb) v = start-ServerInv print_id s loop_of has_cb v
  Step-ServerInv (sets_write_complete s has_cb) v =
      set_write_complete_cb-ServerInv print_id s has_cb v
  Step-ServerInv (accepts s sockfd b) v = accepts-ServerInv s sockfd b v
  Step-ServerInv (removes s c h) v = removes-ServerInv print_id s c h v

  Reach-ServerInv :
      {s t : Server L} → Reach print_id s t → ServerInv print_id s → ServerInv print_id t
  Reach-ServerInv here v = v
  Reach-ServerInv (next r st) v = Step-ServerInv st (Reach-ServerInv r v)

  destroyed-destroy_all :
      (es : List (List ℕ × ServerConn L)) → destroyed (destroy_all es) ≡ values es
  unfolding destroyed destroy_all
  destroyed-destroy_all [] = refl
  destroyed-destroy_all (e ∷ es) = ap (λ cs. e.1 ∷ cs) (destroyed-destroy_all es)

  destroy_server-Perm :
      (s : Server L)
      → ServerInv print_id s
      → Perm (established s.posted) (destroyed (destroy_server s))
  unfolding destroy_server
  destroy_server-Perm s v =
      subst (Perm (established s.posted))
        (sym (
          destroyed-append s.posted (destroy_all s.connections)
          ∙ ap (λ cs. destroyed s.posted ++ cs) (destroyed-destroy_all s.connections)))
        v.balanced

  -- If the printed identifiers differ, then over any run of a new server whose removals are those
  -- of connections that the map has under their names, the connections whose connectEstablished
  -- was posted are exactly, each as often, those whose connectDestroyed was posted and those in
  -- the map; the identifiers count them, and no name stands in the map twice or is that of a
  -- connection to come. Behind the destructor connectDestroyed was posted for exactly those
  -- connections.
  pub Reach-new_server-ServerInv :
      (loop : L) (name : List ℕ) (threads : ℕ) {t : Server L}
      → Reach print_id (set_threads threads (new_server loop name)) t
      → ServerInv print_id t × Perm (established t.posted) (destroyed (destroy_server t))
  Reach-new_server-ServerInv loop name threads {t} r =
      let v = Reach-ServerInv r (new_server-ServerInv print_id loop name threads) in
      (v, destroy_server-Perm t v)

  count_new :
      (key : List ℕ) (c : ServerConn L) (es : List (List ℕ × ServerConn L))
      → count_connection key es ≡ 0
      → (count_connection key ((key, c) ∷ es) ≡ 1) × (erase_connection key ((key, c) ∷ es) ≡ es)
  unfolding count_connection erase_connection
  count_new key c es h = rw (same_bytes_refl key) (omega (arith, h), erase_absent key es h)

  -- One connection more stands in the map and one task more was posted; to remove the connection erases
  -- one entry and leaves the map as before.
  abbrev pub AddsOne : Server L → Server L → Type 0
  AddsOne s t =
      (c : ServerConn L) × (t.connections ≡ (c.conn_name, c) ∷ s.connections)
      × (t.posted ≡ s.posted ++ (connect_established_task, c) ∷ [])
      × (count_connection c.conn_name t.connections ≡ 1)
      × ((remove_connection_in_loop c t).connections ≡ s.connections)

  add-AddsOne :
      (s : Server L) (sockfd : ℕ) (l : L) (p : Pool L)
      → s.next_conn_id + 1 < id_bound
      → ServerInv print_id s
      → AddsOne s (add_connection print_id sockfd s (some l, p))
  unfolding add_connection remove_connection_in_loop
  add-AddsOne s sockfd l p b v =
      let key = next_name print_id s in
      let c : ServerConn L = record {
        conn_name = key;
        conn_loop = l;
        sockfd = sockfd;
        write_complete = s.has_write_complete_cb;
      } in
      let fresh : count_connection key s.connections ≡ 0 =
        unfold next_name in v.unused s.next_conn_id (omega arith) (omega (arith, b)) in
      rw (erase_absent key s.connections fresh) (
        c,
        refl,
        refl,
        (count_new key c s.connections fresh).0,
        (count_new key c s.connections fresh).1,
      )

  -- If the printed identifiers differ, newConnection in a state of the invariant, with an
  -- identifier below the bound, puts one connection into the map, overwrites none, and posts its
  -- establishing; to remove it then erases exactly one, and the map is as before.
  pub new_connection-AddsOne :
      (s : Server L) (sockfd : ℕ)
      → s.next_conn_id + 1 < id_bound
      → ServerInv print_id s
      → AddsOne s (new_connection print_id sockfd s)
  unfolding new_connection
  new_connection-AddsOne s sockfd b v =
      let (l, e, r) = pool_has_loop print_id s.thread_pool v.pool_in_range in
      subst (λ o. AddsOne s (add_connection print_id sockfd s (o, (get_next_loop s.thread_pool).1)))
        (sym e) (add-AddsOne s sockfd l (get_next_loop s.thread_pool).1 b v)
