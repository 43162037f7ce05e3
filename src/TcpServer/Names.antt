-- ===== src/TcpServer/Names.antt =====
-- The keys of the map of connections.
use nev.Base.{
  some, same_bytes, same_bytes-eq, Bool-cases, inl, inr, subst, sym, false, ℕ, ◌+◌, ◌≤◌, ◌≡◌, refl,
  List, [], ◌∷◌, ◌++◌, length, arith,
}
use mathlib.Core.List.{Perm}
use mathlib.Core.List.Perm
use nev.TcpServer.{ServerConn, erase_connection, count_connection, lookup_connection}

-- Behind the same prefix the names differ where the suffixes do.
pub append_injective : (xs ys zs : List ℕ) → xs ++ ys ≡ xs ++ zs → ys ≡ zs
append_injective [] ys zs h = h
append_injective (x ∷ xs) ys zs h = append_injective xs ys zs (ground arith)

module _ {L : Type 0} where
  pub count-erase :
      (key : List ℕ) (es : List (List ℕ × ServerConn L))
      → count_connection key (erase_connection key es) ≡ 0
  unfolding count_connection erase_connection
  count-erase key [] = refl
  count-erase key (e ∷ es) = ground (arith, count-erase key es)

  pub count-erase-bound :
      (key other : List ℕ) (es : List (List ℕ × ServerConn L))
      → count_connection key (erase_connection other es) ≤ count_connection key es
  unfolding count_connection erase_connection
  count-erase-bound key other [] = omega arith
  count-erase-bound key other (e ∷ es) = ground (arith, count-erase-bound key other es)

  pub length-erase :
      (key : List ℕ) (es : List (List ℕ × ServerConn L))
      → length (erase_connection key es) + count_connection key es ≡ length es
  unfolding count_connection erase_connection
  length-erase key [] = refl
  length-erase key (e ∷ es) = ground (arith, length-erase key es)

  pub erase_absent :
      (key : List ℕ) (es : List (List ℕ × ServerConn L))
      → count_connection key es ≡ 0
      → erase_connection key es ≡ es
  unfolding count_connection erase_connection
  erase_absent key [] h = refl
  erase_absent key (e ∷ es) h = ground (arith, erase_absent key es)

  pub count-erase-other :
      (key other : List ℕ) (es : List (List ℕ × ServerConn L))
      → same_bytes other key ≡ false
      → count_connection key (erase_connection other es) ≡ count_connection key es
  unfolding count_connection erase_connection
  count-erase-other key other [] h = refl
  count-erase-other key other (e ∷ es) h = elim (Bool-cases (same_bytes e.0 other)) [
    | inl t ↦
        let z = subst (λ o. same_bytes o key ≡ false) (sym (same_bytes-eq e.0 other t)) h in
        rw (t, z) (count-erase-other key other es h)
    | inr t ↦ ground (arith, count-erase-other key other es h)
  ]

  pub lookup-erase-other :
      (key other : List ℕ) (es : List (List ℕ × ServerConn L))
      → same_bytes other key ≡ false
      → lookup_connection key (erase_connection other es) ≡ lookup_connection key es
  unfolding lookup_connection erase_connection
  lookup-erase-other key other [] h = refl
  lookup-erase-other key other (e ∷ es) h = elim (Bool-cases (same_bytes e.0 other)) [
    | inl t ↦
        let z = subst (λ o. same_bytes o key ≡ false) (sym (same_bytes-eq e.0 other t)) h in
        rw (t, z) (lookup-erase-other key other es h)
    | inr t ↦ ground (arith, lookup-erase-other key other es h)
  ]

  -- The connections of a map.
  abbrev pub values : List (List ℕ × ServerConn L) → List (ServerConn L)
  values [] = []
  values (e ∷ es) = e.1 ∷ values es

  pub values-erase :
      (key : List ℕ) (c : ServerConn L) (es : List (List ℕ × ServerConn L))
      → lookup_connection key es ≡ some c
      → count_connection key es ≤ 1
      → Perm (values es) (c ∷ values (erase_connection key es))
  unfolding lookup_connection count_connection erase_connection
  values-erase key c [] h u = absurd (ground arith)
  values-erase key c (e ∷ es) h u = elim (Bool-cases (same_bytes e.0 key)) [
    | inl t ↦
        let z = erase_absent key es (ground arith) in
        let same : e.1 ≡ c = ground arith in rw (t, z) (Perm.cons' same (Perm.refl (values es)))
    | inr t ↦ rw t (
        Perm.trans (Perm.cons e.1 (values-erase key c es (ground arith) (ground arith)))
          (Perm.swap c e.1 (values (erase_connection key es))))
  ]

  pub count_of_lookup :
      (key : List ℕ) (c : ServerConn L) (es : List (List ℕ × ServerConn L))
      → lookup_connection key es ≡ some c
      → 1 ≤ count_connection key es
  unfolding lookup_connection count_connection
  count_of_lookup key c [] h = absurd (ground arith)
  count_of_lookup key c (e ∷ es) h = ground (arith, count_of_lookup key c es)
