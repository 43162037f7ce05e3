-- ===== src/Buffer/Tests.antt =====
-- The buffer on small inputs, and the theorems applied to them.
mod LittleEndian
mod Lines
use Prim.Native.Char.{code}
use Prim.Native.String.{String}
use nev.Base.{
  ℕ, ◌+◌, ◌≡◌, refl, List, [], ◌∷◌, ◌++◌, length, arith, none, some, add_size, sub_size, copy_to,
  resize, max_size, drop, ◌≤◌, ◌<◌,
}
use nev.Buffer.{
  Buffer, cheap_prepend, new, readable_bytes, append, prepend, retrieve, make_space, writable_bytes,
  retrieve_as_string, to_string_piece, unwrite, shrink, ensure_writable_bytes,
}
use nev.Buffer.Valid.{IsValid, content, new-IsValid}
use nev.Buffer.Space.{make_space_moves_down, ensure_writable_bytes-Spacious, Spacious}
use nev.Buffer.Queue.{Holds, new-Holds, append-Holds, retrieve_as_string_lem}
use nev.Buffer.Refine.{
  Op, append_bytes, prepend_bytes, retrieve_bytes, unwrite_bytes, ensure_bytes, shrink_bytes, clear,
  run, apply, run-Holds, shrink-Holds,
}

-- A buffer of eight bytes with five of them used and two of these retrieved.
abbrev used : Buffer
used = record {
  buffer = 0 ∷ 0 ∷ 0 ∷ 0 ∷ 0 ∷ 0 ∷ 0 ∷ 0 ∷ 1 ∷ 2 ∷ 3 ∷ 4 ∷ 5 ∷ 0 ∷ 0 ∷ 0 ∷ [];
  reader_index = 10;
  writer_index = 13;
}

pub used-IsValid : IsValid used
used-IsValid = omega arith

append_runs : content (append used (6 ∷ 7 ∷ 8 ∷ 9 ∷ [])) ≡ 3 ∷ 4 ∷ 5 ∷ 6 ∷ 7 ∷ 8 ∷ 9 ∷ []
unfolding append ensure_writable_bytes add_size sub_size copy_to resize
append_runs = refl

abbrev session : List Op
session =
    append_bytes (1 ∷ 2 ∷ 3 ∷ [])
    ∷ retrieve_bytes 1
    ∷ prepend_bytes (9 ∷ [])
    ∷ unwrite_bytes 1
    ∷ shrink_bytes 2
    ∷ ensure_bytes 5
    ∷ []

new-valid : Holds (new 4) []
new-valid = new-Holds 4 (omega arith)

run-Holds_example : Holds (run (new 4) session) (9 ∷ 2 ∷ [])
unfolding new apply append ensure_writable_bytes retrieve prepend unwrite shrink add_size sub_size
    copy_to resize
run-Holds_example = run-Holds (new 4) [] session new-valid (omega arith)

append-Holds_run : Holds (append used (6 ∷ 7 ∷ 8 ∷ 9 ∷ [])) (3 ∷ 4 ∷ 5 ∷ 6 ∷ 7 ∷ 8 ∷ 9 ∷ [])
append-Holds_run = append-Holds (6 ∷ 7 ∷ 8 ∷ 9 ∷ []) used-IsValid (omega arith)

retrieve_as_string_lem_run :
    ((retrieve_as_string used 2).0 ≡ 3 ∷ 4 ∷ []) × Holds (retrieve_as_string used 2).1 (5 ∷ [])
unfolding readable_bytes sub_size
retrieve_as_string_lem_run = retrieve_as_string_lem 2 used-IsValid (omega arith)

make_space_moves_down_run :
    (cheap_prepend < 10)
    × (length (make_space used 4).buffer ≡ 16)
    × ((make_space used 4).reader_index ≡ cheap_prepend)
unfolding writable_bytes sub_size
make_space_moves_down_run =
    make_space_moves_down 4 used-IsValid (omega arith) (omega arith) (omega arith)

ensure_writable_bytes-Spacious_run : Spacious used 40 (ensure_writable_bytes used 40)
ensure_writable_bytes-Spacious_run = ensure_writable_bytes-Spacious 40 used-IsValid (omega arith)
