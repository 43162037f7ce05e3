-- ===== src/Buffer/Refine.antt =====
-- Any run of buffer operations against a plain list of bytes.
use nev.Base.{
  ℕ, ◌+◌, ◌-◌, ◌≤◌, List, [], ◌∷◌, ◌++◌, length, arith, max_size, add_size_exact, take, drop, subst,
  ap, ◌∙◌,
}
use nev.Buffer.{
  Buffer, cheap_prepend, initial_size, new, readable_bytes, retrieve_all, retrieve,
  ensure_writable_bytes, unwrite, append, prepend, shrink,
}
use nev.Buffer.Valid.{IsValid, content, HasRoom, readable_bytes_lem}
use nev.Buffer.Space.{length-content, ensure_writable_bytes-Spacious}
use nev.Buffer.Queue.{
  Holds, new-Holds, to_string_piece_lem, retrieve_all-Holds, append-Holds, retrieve-Holds,
  prepend-Holds, unwrite-Holds, ensure_writable_bytes-Holds,
}

-- `shrink` keeps the content, whatever reserve is asked for.
pub shrink-Holds :
    {b : Buffer} (reserve : ℕ)
    → IsValid b
    → cheap_prepend + (readable_bytes b + reserve) ≤ max_size
    → Holds (shrink b reserve) (content b)
unfolding shrink
shrink-Holds {b} reserve v h =
    let fresh = new-Holds initial_size (omega arith) in
    let s =
      ensure_writable_bytes-Spacious (readable_bytes b + reserve) fresh.valid
        (unfold new in omega (arith, h)) in
    let fits : HasRoom (ensure_writable_bytes (new initial_size) (readable_bytes b + reserve))
        (length (content b)) =
      omega (arith, s.space, s.valid.allocated, length-content v, readable_bytes_lem v) in
    rw (to_string_piece_lem v, add_size_exact (readable_bytes b) reserve (omega (arith, h)))
      (subst (Holds _) (ap (λ xs. xs ++ content b) (s.same ∙ fresh.holds))
        (append-Holds (content b) s.valid fits))

pub data Op : Type 0 where
  append_bytes prepend_bytes : List ℕ → Op
  retrieve_bytes unwrite_bytes ensure_bytes shrink_bytes : ℕ → Op
  clear : Op

unfoldable pub apply : Buffer → Op → Buffer
apply b (append_bytes bytes) = append b bytes
apply b (prepend_bytes bytes) = prepend b bytes
apply b (retrieve_bytes n) = retrieve b n
apply b (unwrite_bytes n) = unwrite b n
apply b (ensure_bytes n) = ensure_writable_bytes b n
apply b (shrink_bytes n) = shrink b n
apply b clear = retrieve_all b

-- The same on the bytes alone.
abbrev pub spec : List ℕ → Op → List ℕ
spec xs (append_bytes bytes) = xs ++ bytes
spec xs (prepend_bytes bytes) = bytes ++ xs
spec xs (retrieve_bytes n) = drop n xs
spec xs (unwrite_bytes n) = take (length xs - n) xs
spec xs (ensure_bytes n) = xs
spec xs (shrink_bytes n) = xs
spec xs clear = []

-- What the source requires of the caller, and that the memory asked for can be had.
abbrev pub Allowed : Buffer → Op → Type 0
Allowed b (append_bytes bytes) = HasRoom b (length bytes)
Allowed b (prepend_bytes bytes) = length bytes ≤ b.reader_index
Allowed b (retrieve_bytes n) = Unit
Allowed b (unwrite_bytes n) = n ≤ readable_bytes b
Allowed b (ensure_bytes n) = HasRoom b n
Allowed b (shrink_bytes n) = cheap_prepend + (readable_bytes b + n) ≤ max_size
Allowed b clear = Unit

pub run : Buffer → List Op → Buffer
run b [] = b
run b (op ∷ ops) = run (apply b op) ops

abbrev pub run_spec : List ℕ → List Op → List ℕ
run_spec xs [] = xs
run_spec xs (op ∷ ops) = run_spec (spec xs op) ops

abbrev pub AllAllowed : Buffer → List Op → Type 0
AllAllowed b [] = Unit
AllAllowed b (op ∷ ops) = Allowed b op × AllAllowed (apply b op) ops

apply-Holds :
    (b : Buffer) (op : Op) → IsValid b → Allowed b op → Holds (apply b op) (spec (content b) op)
unfolding apply
apply-Holds b (append_bytes bytes) v h = append-Holds bytes v h
apply-Holds b (prepend_bytes bytes) v h = prepend-Holds bytes v h
apply-Holds b (retrieve_bytes n) v h = retrieve-Holds n v
apply-Holds b (unwrite_bytes n) v h = unwrite-Holds n v h
apply-Holds b (ensure_bytes n) v h = ensure_writable_bytes-Holds n v h
apply-Holds b (shrink_bytes n) v h = shrink-Holds n v h
apply-Holds b clear v h = retrieve_all-Holds v

-- A buffer that holds a list of bytes behaves, under any sequence of operations that the source
-- allows and the memory permits, as that list does: every append, prepend, retrieve, unwrite,
-- shrink and reservation leaves a valid buffer that holds what the same operation makes of the
-- list.
pub run-Holds :
    (b : Buffer) (xs : List ℕ) (ops : List Op)
    → Holds b xs
    → AllAllowed b ops
    → Holds (run b ops) (run_spec xs ops)
unfolding run
run-Holds b xs [] v h = v
run-Holds b xs (op ∷ ops) v h =
    run-Holds (apply b op) (spec xs op) ops
      (subst (λ t. Holds (apply b op) (spec t op)) v.holds (apply-Holds b op v.valid h.0)) h.1
