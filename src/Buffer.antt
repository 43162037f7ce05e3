-- ===== src/Buffer.antt =====
-- include/nev/buffer.h: the class `Buffer`. A pointer into the buffer is an index of `buffer`.
-- `size_t` arithmetic wraps, as in the source. A `DCHECK` is not executed; what it checks is proved.
pub mod Valid
pub mod Space
pub mod Queue
pub mod Growth
pub mod Refine
pub mod ReadFd
mod Tests
pub mod Find
pub mod Integers
use nev.Base.{
  ℕ, ◌+◌, ◌≤◌, Bool, if◌then◌else◌, ltb, List, [], ◌∷◌, length, replicate, copy_to, window, resize,
  add_size, sub_size,
}

abbrev pub cheap_prepend : ℕ
cheap_prepend = 8

abbrev pub initial_size : ℕ
initial_size = 1024

-- A `char` is a number below 256; the buffer only moves bytes.
pub record Buffer : Type 0 where
  pub buffer : List ℕ
  pub reader_index : ℕ
  pub writer_index : ℕ

-- The constructor.
unfoldable pub new : ℕ → Buffer
new size = record {
  buffer = replicate (cheap_prepend + size) 0;
  reader_index = cheap_prepend;
  writer_index = cheap_prepend;
}

unfoldable pub readable_bytes : Buffer → ℕ
readable_bytes b = sub_size b.writer_index b.reader_index

unfoldable pub writable_bytes : Buffer → ℕ
writable_bytes b = sub_size (length b.buffer) b.writer_index

unfoldable pub prependable_bytes : Buffer → ℕ
prependable_bytes b = b.reader_index

-- The bytes from `peek()` on, `readableBytes()` of them.
unfoldable pub to_string_piece : Buffer → List ℕ
unfolding readable_bytes
to_string_piece b = window b.buffer b.reader_index (readable_bytes b)

abbrev pub swap_buffers : Buffer → Buffer → Buffer × Buffer
swap_buffers b rhs = (rhs, b)

unfoldable pub retrieve_all : Buffer → Buffer
retrieve_all b = record b { reader_index = cheap_prepend; writer_index = cheap_prepend }

unfoldable pub retrieve : Buffer → ℕ → Buffer
unfolding readable_bytes retrieve_all
retrieve b len =
    if ltb len (readable_bytes b)
    then record b { reader_index = add_size b.reader_index len }
    else retrieve_all b

-- `end` is an index.
unfoldable pub retrieve_until : Buffer → ℕ → Buffer
unfolding retrieve
retrieve_until b end = retrieve b (sub_size end b.reader_index)

unfoldable pub retrieve_as_string : Buffer → ℕ → List ℕ × Buffer
unfolding retrieve
retrieve_as_string b len = (window b.buffer b.reader_index len, retrieve b len)

unfoldable pub retrieve_all_as_string : Buffer → List ℕ × Buffer
unfolding retrieve_as_string readable_bytes
retrieve_all_as_string b = retrieve_as_string b (readable_bytes b)

unfoldable pub make_space : Buffer → ℕ → Buffer
unfolding writable_bytes prependable_bytes readable_bytes
make_space b len =
    if ltb (add_size (writable_bytes b) (prependable_bytes b)) (add_size len cheap_prepend)
    then record b { buffer = resize 0 b.buffer (add_size b.writer_index len) }
    else let readable = readable_bytes b in
      record {
        buffer = copy_to b.buffer cheap_prepend (window b.buffer b.reader_index readable);
        reader_index = cheap_prepend;
        writer_index = add_size cheap_prepend readable;
      }

unfoldable pub ensure_writable_bytes : Buffer → ℕ → Buffer
unfolding make_space writable_bytes
ensure_writable_bytes b len = if ltb (writable_bytes b) len then make_space b len else b

unfoldable pub has_written : Buffer → ℕ → Buffer
has_written b len = record b { writer_index = add_size b.writer_index len }

unfoldable pub unwrite : Buffer → ℕ → Buffer
unwrite b len = record b { writer_index = sub_size b.writer_index len }

unfoldable pub append : Buffer → List ℕ → Buffer
unfolding ensure_writable_bytes has_written
append b bytes =
    let room = ensure_writable_bytes b (length bytes) in
    has_written (record room { buffer = copy_to room.buffer room.writer_index bytes })
      (length bytes)

unfoldable pub prepend : Buffer → List ℕ → Buffer
prepend b bytes =
    let start = sub_size b.reader_index (length bytes) in
    record b { buffer = copy_to b.buffer start bytes; reader_index = start }

-- The new buffer is swapped in, and the old one destroyed.
unfoldable pub shrink : Buffer → ℕ → Buffer
unfolding new ensure_writable_bytes append to_string_piece readable_bytes
shrink b reserve =
    append (ensure_writable_bytes (new initial_size) (add_size (readable_bytes b) reserve))
      (to_string_piece b)
