-- ===== src/Buffer/Valid.antt =====
-- The invariant of `Buffer`, and what its sizes are where it holds.
use nev.Base.{
  ℕ, ◌+◌, ◌-◌, ◌≤◌, ◌≡◌, List, length, window, max_size, arith, add_size, add_size_exact,
  sub_size_exact, length-replicate, ltb, copy_to, resize, if◌then◌else◌,
}
use nev.Buffer.{
  Buffer, cheap_prepend, new, readable_bytes, writable_bytes, retrieve_all, retrieve, make_space,
  prependable_bytes,
}

pub record IsValid (b : Buffer) : Type 0 where
  pub roomy : cheap_prepend ≤ length b.buffer
  pub ordered : b.reader_index ≤ b.writer_index
  pub within : b.writer_index ≤ length b.buffer
  pub allocated : length b.buffer ≤ max_size

-- What a buffer stands for: the bytes that were appended and not yet retrieved.
abbrev pub content : Buffer → List ℕ
content b = window b.buffer b.reader_index (b.writer_index - b.reader_index)

-- The allocation that an append of `n` bytes may have to make can be asked for.
abbrev pub HasRoom : Buffer → ℕ → Type 0
HasRoom b n = b.writer_index + n ≤ max_size

pub readable_bytes_lem :
    {b : Buffer} → IsValid b → readable_bytes b ≡ b.writer_index - b.reader_index
unfolding readable_bytes
readable_bytes_lem {b} v =
    sub_size_exact b.writer_index b.reader_index v.ordered (omega (arith, v.within, v.allocated))

pub writable_bytes_lem :
    {b : Buffer} → IsValid b → writable_bytes b ≡ length b.buffer - b.writer_index
unfolding writable_bytes
writable_bytes_lem {b} v =
    sub_size_exact (length b.buffer) b.writer_index v.within (omega (arith, v.allocated))

length-new : (size : ℕ) → length (new size).buffer ≡ cheap_prepend + size
unfolding new
length-new size = length-replicate (cheap_prepend + size) _

pub new-IsValid : (size : ℕ) → cheap_prepend + size ≤ max_size → IsValid (new size)
unfolding new
new-IsValid size h = omega (arith, length-new size)

pub retrieve_all-IsValid : {b : Buffer} → IsValid b → IsValid (retrieve_all b)
unfolding retrieve_all
retrieve_all-IsValid v = omega arith

pub retrieve-IsValid : {b : Buffer} (len : ℕ) → IsValid b → IsValid (retrieve b len)
unfolding retrieve add_size
retrieve-IsValid {b} len v = ground (arith, readable_bytes_lem v)

-- The sum that decides between growing and moving does not wrap.
space_sum :
    {b : Buffer}
    → IsValid b
    → add_size (writable_bytes b) (prependable_bytes b)
      ≡ length b.buffer - b.writer_index + b.reader_index
unfolding prependable_bytes
space_sum {b} v =
    rw (writable_bytes_lem v) (add_size_exact _ _ (omega (arith, v.within, v.ordered, v.allocated)))

-- `makeSpace` grows the array exactly when what is free does not suffice, and else moves the content.
pub make_space_lem :
    {b : Buffer} (len : ℕ)
    → IsValid b
    → HasRoom b len
    → make_space b len ≡ (
        if ltb (length b.buffer - b.writer_index + b.reader_index) (len + cheap_prepend)
        then record b { buffer = resize 0 b.buffer (b.writer_index + len) }
        else record {
          buffer = copy_to b.buffer cheap_prepend (content b);
          reader_index = cheap_prepend;
          writer_index = cheap_prepend + (b.writer_index - b.reader_index);
        })
unfolding make_space
make_space_lem {b} len v h = rw (
  space_sum v,
  readable_bytes_lem v,
  add_size_exact len cheap_prepend (omega (arith, h)),
  add_size_exact b.writer_index len (omega (arith, h)),
  add_size_exact cheap_prepend (b.writer_index - b.reader_index)
      (omega (arith, v.within, v.allocated)),
)
