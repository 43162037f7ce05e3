-- ===== src/Buffer/Queue.antt =====
-- The buffer as a queue of bytes: what each operation does to the content.
use nev.Base.{
  ℕ, ◌+◌, ◌-◌, ◌≤◌, ◌≡◌, refl, sym, ◌∙◌, List, [], ◌++◌, length, window, copy_to, arith, ltb,
  max_size, add_size, sub_size_exact, ltb→lt, ltb→ge, Bool-cases, inl, inr, length-copy_to, take,
  drop, drop_all, take_all, subst, drop-take, drop-drop, take-take, window-copy_to_front,
  window-copy_to_end, add_size_exact, length-append, ap, length-drop,
}
use nev.Buffer.{
  Buffer, cheap_prepend, new, readable_bytes, retrieve_all, retrieve_all_as_string, retrieve,
  retrieve_as_string, ensure_writable_bytes, has_written, unwrite, append, prepend, to_string_piece,
}
use nev.Buffer.Valid.{
  IsValid, content, HasRoom, readable_bytes_lem, new-IsValid, retrieve_all-IsValid,
}
use nev.Buffer.Space.{length-content, ensure_writable_bytes-Spacious}

-- The buffer is in order and stands for these bytes.
pub record Holds (b : Buffer) (bytes : List ℕ) : Type 0 where
  pub valid : IsValid b
  pub holds : content b ≡ bytes

pub new-Holds : (size : ℕ) → cheap_prepend + size ≤ max_size → Holds (new size) []
unfolding new
new-Holds size h = record { valid = new-IsValid size h; holds = refl }

pub to_string_piece_lem : {b : Buffer} → IsValid b → to_string_piece b ≡ content b
unfolding to_string_piece
to_string_piece_lem v = rw (readable_bytes_lem v)

pub retrieve_all-Holds : {b : Buffer} → IsValid b → Holds (retrieve_all b) []
unfolding retrieve_all
retrieve_all-Holds v = record { valid = retrieve_all-IsValid v; holds = refl }

-- Bytes that are stored behind the content, with the writer index moved past them.
pub stored-Holds :
    {r : Buffer} (bytes : List ℕ) (end : ℕ)
    → IsValid r
    → end ≡ r.writer_index + length bytes
    → end ≤ length r.buffer
    → Holds
        (record r { buffer = copy_to r.buffer r.writer_index bytes; writer_index = end })
        (content r ++ bytes)
stored-Holds {r} bytes end v e space =
    let long = length-copy_to r.buffer r.writer_index bytes in
    record {
      valid = omega (arith, long, v.roomy, v.ordered, v.allocated);
      holds =
          window-copy_to_end r.reader_index (r.writer_index - r.reader_index) r.writer_index
            (end - r.reader_index) r.buffer bytes (omega (arith, v.ordered))
            (omega (arith, v.ordered)) (omega (arith, v.ordered));
    }

-- `append` puts the bytes behind the content, whether the array is grown, moved or large enough.
pub append-Holds :
    {b : Buffer} (bytes : List ℕ)
    → IsValid b
    → HasRoom b (length bytes)
    → Holds (append b bytes) (content b ++ bytes)
unfolding append has_written
append-Holds {b} bytes v h =
    let s = ensure_writable_bytes-Spacious (length bytes) v h in
    let r = ensure_writable_bytes b (length bytes) in
    let end =
      add_size_exact r.writer_index (length bytes) (omega (arith, s.space, s.valid.allocated)) in
    rw (← s.same) (
      stored-Holds bytes (add_size r.writer_index (length bytes)) s.valid end
        (omega (arith, end, s.space)))

-- `retrieve(len)` drops `len` bytes, or all if there are not more.
pub retrieve-Holds :
    {b : Buffer} (len : ℕ) → IsValid b → Holds (retrieve b len) (drop len (content b))
unfolding retrieve
retrieve-Holds {b} len v = elim (Bool-cases (ltb len (readable_bytes b))) [
  | inl t ↦
      let less = ltb→lt len (readable_bytes b) t in
      let size = readable_bytes_lem v in
      let start =
        add_size_exact b.reader_index len (omega (arith, v.ordered, v.within, v.allocated)) in
      rw (t, start)
        (record {
          valid = omega (arith, v.roomy, v.ordered, v.within, v.allocated);
          holds = sym (
              drop-take len (b.writer_index - b.reader_index)
                (b.writer_index - (b.reader_index + len)) (drop b.reader_index b.buffer)
                (omega arith)
              ∙ ap (take (b.writer_index - (b.reader_index + len)))
                  (drop-drop b.reader_index len (b.reader_index + len) b.buffer refl));
        })
  | inr t ↦
      rw
        (
          t,
          drop_all len (content b) (
              omega
                (arith, length-content v, readable_bytes_lem v, ltb→ge len (readable_bytes b) t)),
        )
        (retrieve_all-Holds v)
]

-- `retrieveAsString(len)` returns the first `len` bytes and drops them.
pub retrieve_as_string_lem :
    {b : Buffer} (len : ℕ)
    → IsValid b
    → len ≤ readable_bytes b
    → ((retrieve_as_string b len).0 ≡ take len (content b))
      × Holds (retrieve_as_string b len).1 (drop len (content b))
unfolding retrieve_as_string
retrieve_as_string_lem {b} len v h = (
  sym (
      take-take len (b.writer_index - b.reader_index) (drop b.reader_index b.buffer)
        (omega (arith, readable_bytes_lem v))),
  retrieve-Holds len v,
)

-- `prepend` puts the bytes in front, where the `DCHECK` on the free space there holds.
pub prepend-Holds :
    {b : Buffer} (bytes : List ℕ)
    → IsValid b
    → length bytes ≤ b.reader_index
    → Holds (prepend b bytes) (bytes ++ content b)
unfolding prepend
prepend-Holds {b} bytes v h =
    let start =
      sub_size_exact b.reader_index (length bytes) h
        (omega (arith, v.ordered, v.within, v.allocated)) in
    let long = length-copy_to b.buffer (b.reader_index - length bytes) bytes in
    rw start (record {
      valid = omega (arith, long, v.roomy, v.ordered, v.within, v.allocated);
      holds =
          window-copy_to_front (b.reader_index - length bytes) b.reader_index
            (b.writer_index - (b.reader_index - length bytes)) (b.writer_index - b.reader_index)
            b.buffer bytes (omega arith) (omega (arith, v.ordered))
            (omega (arith, v.ordered, v.within));
    })

-- `unwrite(len)` takes the last `len` bytes back.
pub unwrite-Holds :
    {b : Buffer} (len : ℕ)
    → IsValid b
    → len ≤ readable_bytes b
    → Holds (unwrite b len) (take (length (content b) - len) (content b))
unfolding unwrite
unwrite-Holds {b} len v h =
    let end =
      sub_size_exact b.writer_index len (omega (arith, readable_bytes_lem v))
        (omega (arith, v.within, v.allocated)) in
    let shorter : len ≤ b.writer_index - b.reader_index = omega (arith, readable_bytes_lem v) in
    rw (end, length-content v)
      (record {
        valid = omega (arith, v.roomy, v.ordered, v.within, v.allocated);
        holds =
            ap (λ n. window b.buffer b.reader_index n) (omega arith)
            ∙ sym (
                take-take (b.writer_index - b.reader_index - len) (b.writer_index - b.reader_index)
                  (drop b.reader_index b.buffer) (omega arith));
      })

pub ensure_writable_bytes-Holds :
    {b : Buffer} (len : ℕ)
    → IsValid b
    → HasRoom b len
    → Holds (ensure_writable_bytes b len) (content b)
ensure_writable_bytes-Holds len v h =
    let s = ensure_writable_bytes-Spacious len v h in record { valid = s.valid; holds = s.same }

-- The contents as the sizes show them.
pub readable-content : {b : Buffer} → IsValid b → readable_bytes b ≡ length (content b)
readable-content v = omega (arith, readable_bytes_lem v, length-content v)

pub readable-append :
    {b : Buffer} (bytes : List ℕ)
    → IsValid b
    → HasRoom b (length bytes)
    → readable_bytes (append b bytes) ≡ readable_bytes b + length bytes
readable-append {b} bytes v h =
    let s = append-Holds bytes v h in
    omega (
      arith,
      readable-content v,
      readable-content s.valid,
      ap length s.holds,
      length-append (content b) bytes,
    )

pub readable-retrieve :
    {b : Buffer} (len : ℕ) → IsValid b → readable_bytes (retrieve b len) ≡ readable_bytes b - len
readable-retrieve {b} len v =
    let s = retrieve-Holds len v in
    omega (
      arith,
      readable-content v,
      readable-content s.valid,
      ap length s.holds,
      length-drop len (content b),
    )

-- `retrieveAllAsString` returns the content and leaves none.
pub retrieve_all_as_string_lem :
    {b : Buffer}
    → IsValid b
    → ((retrieve_all_as_string b).0 ≡ content b) × Holds (retrieve_all_as_string b).1 []
unfolding retrieve_all_as_string
retrieve_all_as_string_lem {b} v =
    let x = retrieve_as_string_lem (readable_bytes b) v (omega arith) in
    let size = readable-content v in
    (
      x.0 ∙ take_all (readable_bytes b) (content b) (omega (arith, size)),
      subst (Holds _) (drop_all (readable_bytes b) (content b) (omega (arith, size))) x.1,
    )
