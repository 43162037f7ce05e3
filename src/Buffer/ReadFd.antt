-- ===== src/Buffer/ReadFd.antt =====
-- src/nev/buffer.cc: `Buffer::readFd`, both versions. What the system call reports is an argument.
use nev.Base.{
  ℕ, ◌+◌, ◌-◌, ◌≤◌, ◌<◌, if◌then◌else◌, ltb, leb, List, [], ◌∷◌, ◌++◌, length, take, drop, copy_to,
  arith, Bool-cases, inl, inr, add_size, ap, ◌∙◌, sym, subst, append_assoc, append-nil, ◌*◌,
  take_all, length-take, length-drop, take-append-drop, add_size_exact, le→leb, lt→leb,
}
use nev.Buffer.{Buffer, writable_bytes, append}
use nev.Buffer.Valid.{IsValid, content, HasRoom, writable_bytes_lem}
use nev.Buffer.Queue.{Holds, append-Holds, stored-Holds}

-- What `readv` or `recv` does: it stores these bytes and returns their number, or it returns -1 and
-- sets this error. No bytes is the end of the stream.
pub data ReadResult : Type 0 where
  received : List ℕ → ReadResult
  failed : ℕ → ReadResult

abbrev pub extra_size : ℕ
extra_size = 65536

-- The bytes that the system call may store, by its arguments (`iovcnt` is 2 or 1).
unfoldable pub read_limit : Buffer → ℕ
unfolding writable_bytes
read_limit b =
    if ltb (writable_bytes b) extra_size then writable_bytes b + extra_size else writable_bytes b

-- The POSIX version: `readv` fills the free part of the array and then `extrabuf`.
unfoldable pub read_fd_posix : Buffer → ReadResult → Buffer
unfolding writable_bytes append
read_fd_posix b (failed e) = b
read_fd_posix b (received bytes) =
    let writable = writable_bytes b in
    let filled = copy_to b.buffer b.writer_index (take writable bytes) in
    if leb (length bytes) writable
    then record b { buffer = filled; writer_index = add_size b.writer_index (length bytes) }
    else append (record b { buffer = filled; writer_index = length b.buffer }) (drop writable bytes)

-- The Windows version: `recv` into `extra_buf`.
unfoldable pub read_fd_win : Buffer → ReadResult → Buffer
unfolding append
read_fd_win b (failed e) = b
read_fd_win b (received []) = b
read_fd_win b (received (c ∷ cs)) = append b (c ∷ cs)

-- At least `sizeof extrabuf` bytes can be read at a time, and less than twice that with `extrabuf`.
pub read_limit_bounds :
    (b : Buffer)
    → (extra_size ≤ read_limit b)
      × (writable_bytes b < extra_size → read_limit b ≤ 2 * extra_size - 1)
unfolding read_limit
read_limit_bounds b = ground arith

module _ {b : Buffer} (bytes : List ℕ) (v : IsValid b) (h : HasRoom b (length bytes)) where
  fits_array :
      length bytes ≤ writable_bytes b
      → Holds (read_fd_posix b (received bytes)) (content b ++ bytes)
  unfolding read_fd_posix
  fits_array k =
      let size = writable_bytes_lem v in
      let end = add_size_exact b.writer_index (length bytes) (omega (arith, h)) in
      rw (le→leb (length bytes) (writable_bytes b) k, take_all (writable_bytes b) bytes k)
        (stored-Holds bytes (add_size b.writer_index (length bytes)) v end
          (omega (arith, end, size, k, v.within)))

  overflows :
      writable_bytes b < length bytes
      → Holds (read_fd_posix b (received bytes)) (content b ++ bytes)
  unfolding read_fd_posix
  overflows k =
      let size = writable_bytes_lem v in
      let head = take (writable_bytes b) bytes in
      let full =
        stored-Holds head (length b.buffer) v
          (omega (arith, size, length-take (writable_bytes b) bytes, v.within)) (omega arith) in
      let rest = length-drop (writable_bytes b) bytes in
      rw (lt→leb (length bytes) (writable_bytes b) k) (
        subst (Holds _)
          (ap (λ xs. xs ++ drop (writable_bytes b) bytes) full.holds
            ∙ append_assoc (content b) head (drop (writable_bytes b) bytes)
            ∙ ap (◌++◌ (content b)) (take-append-drop (writable_bytes b) bytes))
          (append-Holds (drop (writable_bytes b) bytes) full.valid
            (omega (arith, rest, size, h, v.within))))

  -- All bytes that readv received stand behind the content of the buffer, whether or not they
  -- went through the stack buffer, if the buffer is valid and the memory can be had.
  pub read_fd_posix-Holds : Holds (read_fd_posix b (received bytes)) (content b ++ bytes)
  read_fd_posix-Holds = elim (Bool-cases (leb (length bytes) (writable_bytes b))) [
    | inl t ↦ fits_array (ground arith)
    | inr t ↦ overflows (ground arith)
  ]

-- The Windows version does the same.
pub read_fd_win-Holds :
    {b : Buffer} (bytes : List ℕ)
    → IsValid b
    → HasRoom b (length bytes)
    → Holds (read_fd_win b (received bytes)) (content b ++ bytes)
unfolding read_fd_win
read_fd_win-Holds {b} [] v h = record { valid = v; holds = sym (append-nil (content b)) }
read_fd_win-Holds (c ∷ cs) v h = append-Holds (c ∷ cs) v h
