-- ===== src/EventLoopThreadPool/RoundRobin.antt =====
-- The loops are handed out in turn.
use native.Mathlib.Nat.{suc-mod, mod-lt, mod-eq_of_lt, mod_self}
use nev.Base.{
  ℕ, zero, suc, ◌+◌, ◌%◌, ◌<◌, ◌≡◌, refl, sym, ap, ◌∙◌, Bool, false, leb, ◌==◌, length, get_elem?,
  some, arith, Bool-cases, inl, inr, if◌then◌else◌,
}
use nev.EventLoopThreadPool.{
  Pool, new_pool, set_thread_num, start_loops, start, get_next_loop, get_loop_for_hash,
}

-- The pool behind `k` calls of `getNextLoop`.
unfoldable pub calls : {L : Type 0} → ℕ → Pool L → Pool L
unfolding get_next_loop
calls zero p = p
calls (suc k) p = (get_next_loop (calls k p)).1

next_index : (n k m : ℕ) → 0 < n → m ≡ k % n → (if leb n (m + 1) then 0 else m + 1) ≡ suc k % n
next_index n k m h e = elim (Bool-cases (leb n (m + 1))) [
  | inl t ↦ rw t (
      sym (
        suc-mod k n
        ∙ ap (λ i. suc i % n) (sym e)
        ∙ ap (λ i. i % n) (ground (arith, mod-lt k h))
        ∙ mod_self n))
  | inr t ↦
      rw t (
        sym (suc-mod k n ∙ ap (λ i. suc i % n) (sym e) ∙ mod-eq_of_lt (ground arith) ∙ omega arith))
]

module _ {L : Type 0} where
  length-start_loops : (loop_of : ℕ → L) (i n : ℕ) → length (start_loops loop_of i n) ≡ n
  unfolding start_loops
  length-start_loops loop_of i zero = refl
  length-start_loops loop_of i (suc n) = omega (arith, length-start_loops loop_of (suc i) n)

  get_elem?-start_loops :
      (loop_of : ℕ → L) (i n k : ℕ)
      → k < n
      → get_elem? (start_loops loop_of i n) k ≡ some (loop_of (i + k))
  unfolding start_loops
  get_elem?-start_loops loop_of i zero k h = ground arith
  get_elem?-start_loops loop_of i (suc n) zero h = ap (λ m. some (loop_of m)) (omega arith)
  get_elem?-start_loops loop_of i (suc n) (suc k) h =
      get_elem?-start_loops loop_of (suc i) n k (omega (arith, h))
      ∙ ap (λ m. some (loop_of m)) (omega arith)

-- A pool that was started with `n` threads.
abbrev pub started_pool : {L : Type 0} → (ℕ → L) → Bool → L → ℕ → Pool L
started_pool loop_of has_cb base n = (start loop_of has_cb (set_thread_num n (new_pool base))).0

module _ {L : Type 0} (loop_of : ℕ → L) (has_cb : Bool) (base : L) (n : ℕ) (h : 0 < n) where
  -- Behind `k` calls.
  record At (k : ℕ) (p : Pool L) : Type 0 where
    loops : p.loops ≡ start_loops loop_of 0 n
    next : p.next ≡ k % n

  size : (k : ℕ) (p : Pool L) → At k p → length p.loops ≡ n
  size k p v = ap length v.loops ∙ length-start_loops loop_of 0 n

  nonempty : (k : ℕ) (p : Pool L) → At k p → (length p.loops == 0) ≡ false
  nonempty k p v = ground (arith, size k p v)

  advanced : (k : ℕ) (p : Pool L) → At k p → At (suc k) (get_next_loop p).1
  unfolding get_next_loop
  advanced k p v =
      rw (nonempty k p v)
        (record { loops = v.loops; next = rw (size k p v) (next_index n k p.next h v.next) })

  calls-At : (k : ℕ) → At k (calls k (started_pool loop_of has_cb base n))
  unfolding calls
  calls-At zero =
      unfold start set_thread_num new_pool in record { loops = refl; next = omega (arith, h) }
  calls-At (suc k) = advanced k (calls k (started_pool loop_of has_cb base n)) (calls-At k)

  -- In a pool started with n > 0 threads, the call number k of getNextLoop, from 0, returns the
  -- loop of thread k mod n.
  pub get_next_loop_turns :
      (k : ℕ)
      → (get_next_loop (calls k (started_pool loop_of has_cb base n))).0 ≡ some (loop_of (k % n))
  get_next_loop_turns k =
      let p = calls k (started_pool loop_of has_cb base n) in
      let v = calls-At k in
      unfold get_next_loop in
      rw (nonempty k p v) (
        ap (λ xs. get_elem? xs p.next) v.loops
        ∙ ap (get_elem? (start_loops loop_of 0 n)) v.next
        ∙ get_elem?-start_loops loop_of 0 n (k % n) (mod-lt k h)
        ∙ ap (λ i. some (loop_of i)) (omega arith))

  -- In a pool started with n > 0 threads, getLoopForHash returns the loop of thread hash mod n,
  -- however often getNextLoop was called.
  pub get_loop_for_hash_lem :
      (k hash : ℕ)
      → get_loop_for_hash hash (calls k (started_pool loop_of has_cb base n))
        ≡ some (loop_of (hash % n))
  get_loop_for_hash_lem k hash =
      let p = calls k (started_pool loop_of has_cb base n) in
      let v = calls-At k in
      unfold get_loop_for_hash in
      rw (nonempty k p v) (
        ap (λ xs. get_elem? xs (hash % length p.loops)) v.loops
        ∙ ap (λ i. get_elem? (start_loops loop_of 0 n) (hash % i)) (size k p v)
        ∙ get_elem?-start_loops loop_of 0 n (hash % n) (mod-lt hash h)
        ∙ ap (λ i. some (loop_of i)) (omega arith))
