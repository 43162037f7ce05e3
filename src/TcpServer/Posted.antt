-- ===== src/TcpServer/Posted.antt =====
-- What a server has posted to the loops of its connections.
use nev.Base.{
  same_bytes, same_bytes-eq, same_bytes_refl, if◌then◌else◌, false, sym, subst, append-nil,
  append_assoc, ℕ, ◌≡◌, refl, ap, ◌∙◌, List, [], ◌∷◌, ◌++◌, arith, Bool-cases, inl, inr, some,
}
use nev.TcpServer.{
  ServerConn, Task, connect_established_task, connect_destroyed_task, count_connection,
  lookup_connection,
}
use nev.TcpServer.Names.{count_of_lookup}
use mathlib.Core.List.{Perm}
use mathlib.Core.List.Perm

-- The connections of the tasks that were posted.
unfoldable pub established : {L : Type 0} → List (Task × ServerConn L) → List (ServerConn L)
established [] = []
established ((connect_established_task, c) ∷ ts) = c ∷ established ts
established ((connect_destroyed_task, c) ∷ ts) = established ts

unfoldable pub destroyed : {L : Type 0} → List (Task × ServerConn L) → List (ServerConn L)
destroyed [] = []
destroyed ((connect_established_task, c) ∷ ts) = destroyed ts
destroyed ((connect_destroyed_task, c) ∷ ts) = c ∷ destroyed ts

module _ {L : Type 0} where
  pub established-append :
      (ts us : List (Task × ServerConn L))
      → established (ts ++ us) ≡ established ts ++ established us
  unfolding established
  established-append [] us = refl
  established-append ((connect_established_task, c) ∷ ts) us =
      ap (λ cs. c ∷ cs) (established-append ts us)
  established-append ((connect_destroyed_task, c) ∷ ts) us = established-append ts us

  pub destroyed-append :
      (ts us : List (Task × ServerConn L)) → destroyed (ts ++ us) ≡ destroyed ts ++ destroyed us
  unfolding destroyed
  destroyed-append [] us = refl
  destroyed-append ((connect_established_task, c) ∷ ts) us = destroyed-append ts us
  destroyed-append ((connect_destroyed_task, c) ∷ ts) us =
      ap (λ cs. c ∷ cs) (destroyed-append ts us)

  -- The tasks that were posted for a name, in order.
  abbrev pub tasks_of : List ℕ → List (Task × ServerConn L) → List Task
  tasks_of key [] = []
  tasks_of key (e ∷ es) =
      let rest = tasks_of key es in if same_bytes e.1.conn_name key then (e.0 ∷ rest) else rest

  pub tasks_of-append :
      (key : List ℕ) (ts us : List (Task × ServerConn L))
      → tasks_of key (ts ++ us) ≡ tasks_of key ts ++ tasks_of key us
  tasks_of-append key [] us = refl
  tasks_of-append key (e ∷ es) us = elim (Bool-cases (same_bytes e.1.conn_name key)) [
    | inl t ↦ rw t (ap (λ r. e.0 ∷ r) (tasks_of-append key es us))
    | inr t ↦ rw t (tasks_of-append key es us)
  ]

  pub tasks_of-other :
      (key : List ℕ) (t : Task) (c : ServerConn L) (ts : List (Task × ServerConn L))
      → same_bytes c.conn_name key ≡ false
      → tasks_of key (ts ++ (t, c) ∷ []) ≡ tasks_of key ts
  tasks_of-other key t c ts h =
      tasks_of-append key ts ((t, c) ∷ []) ∙ (rw h (append-nil (tasks_of key ts)))

  pub tasks_of-own :
      (key : List ℕ) (t : Task) (c : ServerConn L) (ts : List (Task × ServerConn L))
      → c.conn_name ≡ key
      → tasks_of key (ts ++ (t, c) ∷ []) ≡ tasks_of key ts ++ t ∷ []
  tasks_of-own key t c ts e =
      tasks_of-append key ts ((t, c) ∷ [])
      ∙ subst
          (λ k.
            tasks_of key ts ++ (if same_bytes c.conn_name k then (t ∷ []) else [])
            ≡ tasks_of key ts ++ t ∷ [])
          e (rw (same_bytes_refl c.conn_name) refl)

  -- The name of a connection of the map is not one that does not stand in it.
  pub other_key :
      (key : List ℕ) (c : ServerConn L) (es : List (List ℕ × ServerConn L))
      → lookup_connection c.conn_name es ≡ some c
      → count_connection key es ≡ 0
      → same_bytes c.conn_name key ≡ false
  other_key key c es h z = elim (Bool-cases (same_bytes c.conn_name key)) [
    | inl t ↦
        let n = count_of_lookup c.conn_name c es h in
        absurd
          (omega (arith, n, z, ap (λ k. count_connection k es) (same_bytes-eq c.conn_name key t)))
    | inr t ↦ t
  ]

  middle : (c : ServerConn L) (xs ys : List (ServerConn L)) → Perm (xs ++ c ∷ ys) (c ∷ (xs ++ ys))
  middle c [] ys = Perm.refl (c ∷ ys)
  middle c (x ∷ xs) ys = Perm.trans (Perm.cons x (middle c xs ys)) (Perm.swap c x (xs ++ ys))

  -- One connection more was established and stands in the map.
  pub one_more :
      (c : ServerConn L) (made gone kept : List (ServerConn L))
      → Perm made (gone ++ kept)
      → Perm (made ++ c ∷ []) (gone ++ c ∷ kept)
  one_more c made gone kept p =
      Perm.trans (subst (λ cs. Perm (made ++ c ∷ []) (c ∷ cs)) (append-nil made) (middle c made []))
        (Perm.trans (Perm.cons c p) (Perm.symm (middle c gone kept)))

  -- One connection goes from the map.
  pub one_gone :
      (c : ServerConn L) (made gone kept left : List (ServerConn L))
      → Perm made (gone ++ kept)
      → Perm kept (c ∷ left)
      → Perm made ((gone ++ c ∷ []) ++ left)
  one_gone c made gone kept left p q =
      subst (Perm made) (sym (append_assoc gone (c ∷ []) left))
        (Perm.trans p (Perm.append_left gone q))
