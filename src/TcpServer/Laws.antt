-- ===== src/TcpServer/Laws.antt =====
-- The connections of a server over any run of accepted and removed connections.
use nev.Base.{
  sym, subst, append-nil, ℕ, zero, suc, ◌+◌, ◌-◌, ◌^◌, ◌≤◌, ◌<◌, ◌≡◌, refl, ap, ap₂, ◌∙◌, Bool,
  ◌==◌, List, [], ◌∷◌, ◌++◌, length, length-append, get_elem?, arith, Bool-cases, inl, inr, some,
}
use nev.EventLoopThreadPool.{Pool, new_pool, start_loops, get_next_loop, set_thread_num}
use nev.EventLoopThreadPool
use nev.TcpServer.{
  Server, ServerConn, connect_destroyed_task, count_connection, lookup_connection, erase_connection,
  new_server, set_threads, set_write_complete_cb, start, remove_connection_in_loop, new_connection,
}
use nev.TcpServer.Posted.{
  destroyed, destroyed-append, established, established-append, one_gone, tasks_of, tasks_of-other,
  other_key,
}
use nev.TcpServer.Names.{count-erase-bound, values, values-erase}
use mathlib.Core.List.{Perm}
use mathlib.Core.List.Perm

module _ {L : Type 0} where
  get_elem?-found : (xs : List L) (i : ℕ) → i < length xs → (x : L) × (get_elem? xs i ≡ some x)
  get_elem?-found [] i h = ground arith
  get_elem?-found (x ∷ xs) zero h = (x, refl)
  get_elem?-found (x ∷ xs) (suc i) h = get_elem?-found xs i (omega (arith, h))

-- The index of the pool is in range.
abbrev pub PoolInv : {L : Type 0} → Pool L → Type 0
PoolInv p = p.next ≤ length p.loops - 1

-- The identifiers stay below the bound of an `int`.
abbrev pub id_bound : ℕ
id_bound = 2 ^ 31

module _ {L : Type 0} (print_id : ℕ → List ℕ) where
  -- A name stands in the map at most once, and never that of a connection to come; the connections whose
  -- `connectEstablished` was posted are those whose `connectDestroyed` was posted and those in the map, and
  -- were counted.
  pub record ServerInv (s : Server L) : Type 0 where
    pub unique : (key : List ℕ) → count_connection key s.connections ≤ 1
    pub unused :
        (k : ℕ)
        → s.next_conn_id ≤ k
        → k < id_bound
        → count_connection (s.name ++ print_id k) s.connections ≡ 0
    pub unposted :
        (k : ℕ) → s.next_conn_id ≤ k → k < id_bound → tasks_of (s.name ++ print_id k) s.posted ≡ []
    pub balanced : Perm (established s.posted) (destroyed s.posted ++ values s.connections)
    pub numbered : s.next_conn_id ≡ 1 + length (established s.posted)
    pub pool_in_range : s.thread_pool.next ≤ length s.thread_pool.loops - 1

  -- The close callback of a connection runs once, so that it stands in the map when it is removed. The
  -- server is not destroyed.
  pub data Step : Server L → Server L → Type 0 where
    starts : (s : Server L) (loop_of : ℕ → L) (has_cb : Bool) → Step s (start loop_of has_cb s)
    sets_write_complete : (s : Server L) (has_cb : Bool) → Step s (set_write_complete_cb has_cb s)
    accepts :
        (s : Server L) (sockfd : ℕ)
        → s.next_conn_id + 1 < id_bound
        → Step s (new_connection print_id sockfd s)
    removes :
        (s : Server L) (c : ServerConn L)
        → lookup_connection c.conn_name s.connections ≡ some c
        → Step s (remove_connection_in_loop c s)

  pub data Reach (s : Server L) : Server L → Type 0 where
    here : Reach s s
    next : {t u : Server L} → Reach s t → Step t u → Reach s u

  pub new_server-ServerInv :
      (loop : L) (name : List ℕ) (n : ℕ) → ServerInv (set_threads n (new_server loop name))
  unfolding set_threads new_server set_thread_num new_pool count_connection established destroyed
  new_server-ServerInv loop name n = record {
    unique = λ key. omega arith;
    unused = λ k h b. refl;
    unposted = λ k h b. refl;
    balanced = Perm.nil;
    numbered = omega arith;
    pool_in_range = omega arith;
  }

  -- A change that leaves the connections as they are.
  repooled :
      (s t : Server L)
      → t.name ≡ s.name
      → t.next_conn_id ≡ s.next_conn_id
      → t.connections ≡ s.connections
      → t.posted ≡ s.posted
      → PoolInv t.thread_pool
      → ServerInv s
      → ServerInv t
  repooled s t n i c p r v = record {
    unique = λ key. omega (arith, ap (count_connection key) c, v.unique key);
    unused = λ k a b.
        ap₂ (λ m es. count_connection (m ++ print_id k) es) n c
        ∙ v.unused k (omega (arith, i, a)) b;
    unposted = λ k a b.
        ap₂ (λ m ts. tasks_of (m ++ print_id k) ts) n p ∙ v.unposted k (omega (arith, i, a)) b;
    balanced =
        subst (λ ts. Perm (established ts) (destroyed ts ++ values t.connections)) (sym p)
          (subst (λ es. Perm (established s.posted) (destroyed s.posted ++ values es)) (sym c)
            v.balanced);
    numbered = omega (arith, ap (λ ts. length (established ts)) p, i, v.numbered);
    pool_in_range = r;
  }

  start-PoolInv :
      (s : Server L) (loop_of : ℕ → L) (has_cb : Bool)
      → PoolInv s.thread_pool
      → PoolInv (start loop_of has_cb s).thread_pool
  unfolding start EventLoopThreadPool.start
  start-PoolInv s loop_of has_cb h =
      ground
        (arith, length-append s.thread_pool.loops (start_loops loop_of 0 s.thread_pool.num_threads))

  pub start-ServerInv :
      (s : Server L) (loop_of : ℕ → L) (has_cb : Bool)
      → ServerInv s
      → ServerInv (start loop_of has_cb s)
  start-ServerInv s loop_of has_cb v =
      unfold start in
      repooled s (start loop_of has_cb s) (ground arith) (ground arith) (ground arith)
        (ground arith) (start-PoolInv s loop_of has_cb v.pool_in_range) v

  pub set_write_complete_cb-ServerInv :
      (s : Server L) (has_cb : Bool) → ServerInv s → ServerInv (set_write_complete_cb has_cb s)
  set_write_complete_cb-ServerInv s has_cb v =
      unfold set_write_complete_cb in
      repooled s (set_write_complete_cb has_cb s) refl refl refl refl v.pool_in_range v

  pub removes-ServerInv :
      (s : Server L) (c : ServerConn L)
      → lookup_connection c.conn_name s.connections ≡ some c
      → ServerInv s
      → ServerInv (remove_connection_in_loop c s)
  unfolding remove_connection_in_loop established destroyed
  removes-ServerInv s c h v = record {
    unique = λ key. omega (arith, v.unique key, count-erase-bound key c.conn_name s.connections);
    unused = λ k a b.
        omega (
          arith,
          v.unused k a b,
          count-erase-bound (s.name ++ print_id k) c.conn_name s.connections,
        );
    unposted = λ k a b.
        tasks_of-other (s.name ++ print_id k) connect_destroyed_task c s.posted
          (other_key (s.name ++ print_id k) c s.connections h (v.unused k a b))
        ∙ v.unposted k a b;
    balanced =
        subst
          (λ cs. Perm cs (
            destroyed (s.posted ++ (connect_destroyed_task, c) ∷ [])
            ++ values (erase_connection c.conn_name s.connections)))
          (sym (
            established-append s.posted ((connect_destroyed_task, c) ∷ [])
            ∙ append-nil (established s.posted)))
          (subst
            (λ cs.
              Perm (established s.posted)
                (cs ++ values (erase_connection c.conn_name s.connections)))
            (sym (destroyed-append s.posted ((connect_destroyed_task, c) ∷ [])))
            (one_gone c (established s.posted) (destroyed s.posted) (values s.connections)
              (values (erase_connection c.conn_name s.connections)) v.balanced
              (values-erase c.conn_name c s.connections h (v.unique c.conn_name))));
    numbered = omega (
      arith,
      v.numbered,
      ap length (
          established-append s.posted ((connect_destroyed_task, c) ∷ [])
          ∙ append-nil (established s.posted)),
    );
    pool_in_range = v.pool_in_range;
  }

  -- The pool always has a loop, and its index stays in range.
  pub pool_has_loop :
      (p : Pool L)
      → PoolInv p
      → (l : L) × ((get_next_loop p).0 ≡ some l) × PoolInv (get_next_loop p).1
  unfolding get_next_loop
  pool_has_loop p h = elim (Bool-cases (length p.loops == 0)) [
    | inl t ↦ rw t (p.base_loop, refl, h)
    | inr t ↦
        let (l, e) = get_elem?-found p.loops p.next (ground arith) in rw t (l, e, ground arith)
  ]
