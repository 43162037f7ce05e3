-- ===== src/Buffer/Tests/Lines.antt =====
-- Lines searched in a buffer and bytes read from a socket.
use nev.Base.{
  ℕ, ◌≡◌, refl, List, [], ◌∷◌, ◌++◌, some, arith, drop, copy_to, add_size, sub_size, resize,
}
use nev.Buffer.{Buffer, new, append, to_string_piece, ensure_writable_bytes}
use nev.Buffer.Valid.{IsValid, content}
use nev.Buffer.Queue.{Holds, new-Holds}
use nev.Buffer.Find.{
  FindsCrlf, FindsEol, find_crlf, find_eol, find_crlf-FindsCrlf, find_eol-FindsEol, memchr,
  search_crlf,
}
use nev.Buffer.ReadFd.{received, read_fd_posix, read_fd_posix-Holds}

abbrev request : List ℕ
request = b'G' ∷ b'E' ∷ b'T' ∷ b'\r' ∷ b'\n' ∷ b'\r' ∷ b'\n' ∷ []

abbrev asked : Buffer
asked = append (new 4) request

first_line : find_crlf asked 0 ≡ some 3
unfolding find_crlf append new to_string_piece ensure_writable_bytes search_crlf add_size sub_size
    copy_to resize
first_line = refl

second_line : find_eol asked 5 ≡ some 6
unfolding find_eol append new to_string_piece ensure_writable_bytes memchr add_size sub_size copy_to
    resize
second_line = refl

find_crlf-FindsCrlf_example : FindsCrlf 5 (drop 5 (to_string_piece asked)) (find_crlf asked 5)
find_crlf-FindsCrlf_example = find_crlf-FindsCrlf asked 5

find_eol-FindsEol_run : FindsEol 5 (drop 5 (to_string_piece asked)) (find_eol asked 5)
find_eol-FindsEol_run = find_eol-FindsEol asked 5

small : IsValid (new 4)
small = (new-Holds 4 (omega arith)).valid

-- Four bytes fit into the array, and three come through `extrabuf`.
read_fd_posix-Holds_example :
    Holds (read_fd_posix (new 4) (received request)) (content (new 4) ++ request)
unfolding new
read_fd_posix-Holds_example = read_fd_posix-Holds request small (omega arith)
