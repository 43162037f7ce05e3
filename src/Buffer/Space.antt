-- ===== src/Buffer/Space.antt =====
-- `ensureWritableBytes` and `makeSpace`: room is made, and the content stays.
use nev.Base.{
  ℕ, ◌+◌, ◌-◌, ◌≤◌, ◌<◌, ◌≡◌, refl, length, copy_to, resize, arith, ltb, ltb→lt, ltb→ge, ge→ltb,
  Bool-cases, inl, inr, length-resize, length-copy_to, window-resize, window-copy_to, length-window,
}
use nev.Buffer.{Buffer, cheap_prepend, writable_bytes, make_space, ensure_writable_bytes}
use nev.Buffer.Valid.{IsValid, content, HasRoom, writable_bytes_lem, make_space_lem}

pub length-content : {b : Buffer} → IsValid b → length (content b) ≡ b.writer_index - b.reader_index
length-content {b} v =
    length-window b.buffer b.reader_index (b.writer_index - b.reader_index)
      (omega (arith, v.ordered, v.within))

-- What `ensureWritableBytes(len)` leaves.
pub record Spacious (b : Buffer) (len : ℕ) (r : Buffer) : Type 0 where
  pub valid : IsValid r
  pub same : content r ≡ content b
  pub space : r.writer_index + len ≤ length r.buffer

module _ {b : Buffer} (len : ℕ) (v : IsValid b) (h : HasRoom b len) where
  grown :
      length b.buffer ≤ b.writer_index + len
      → Spacious b len (record b { buffer = resize 0 b.buffer (b.writer_index + len) })
  grown k =
      let long = length-resize 0 b.buffer (b.writer_index + len) k in
      record {
        valid = omega (arith, long, v.roomy, v.ordered, v.within, v.allocated, h);
        same =
            window-resize 0 b.reader_index (b.writer_index - b.reader_index) (b.writer_index + len)
              b.buffer (omega (arith, v.ordered, v.within)) k;
        space = omega (arith, long);
      }

  moved :
      b.writer_index - b.reader_index + cheap_prepend + len ≤ length b.buffer
      → Spacious b len (record {
        buffer = copy_to b.buffer cheap_prepend (content b);
        reader_index = cheap_prepend;
        writer_index = cheap_prepend + (b.writer_index - b.reader_index);
      })
  moved k =
      let long = length-copy_to b.buffer cheap_prepend (content b) in
      record {
        valid = omega (arith, long, v.roomy, v.ordered, v.within, v.allocated);
        same =
            window-copy_to cheap_prepend
              (cheap_prepend + (b.writer_index - b.reader_index) - cheap_prepend) b.buffer
              (content b) (omega (arith, length-content v)) (omega (arith, k));
        space = omega (arith, long, k);
      }

  make_space-Spacious : length b.buffer < b.writer_index + len → Spacious b len (make_space b len)
  make_space-Spacious short =
      let free = length b.buffer - b.writer_index + b.reader_index in
      rw (make_space_lem len v h) (elim (Bool-cases (ltb free (len + cheap_prepend))) [
        | inl t ↦ rw t (grown (omega arith))
        | inr t ↦
            rw t (moved (omega (arith, ltb→ge free (len + cheap_prepend) t, v.ordered, v.within)))
      ])

  -- If the memory can be had, a valid buffer is valid after ensureWritableBytes(len), with the
  -- same content and with len bytes of space behind it.
  pub ensure_writable_bytes-Spacious : Spacious b len (ensure_writable_bytes b len)
  unfolding ensure_writable_bytes
  ensure_writable_bytes-Spacious = elim (Bool-cases (ltb (writable_bytes b) len)) [
    | inl t ↦ rw t (
        make_space-Spacious
          (omega (arith, ltb→lt (writable_bytes b) len t, writable_bytes_lem v, v.within)))
    | inr t ↦ rw t (record {
      valid = v;
      same = refl;
      space = omega (arith, ltb→ge (writable_bytes b) len t, writable_bytes_lem v, v.within);
    })
  ]

  -- When makeSpace is called on a valid buffer and the free space suffices, the read index is
  -- above kCheapPrepend, the array keeps its size, and the content moves to kCheapPrepend.
  pub make_space_moves_down :
      writable_bytes b < len
      → (len + cheap_prepend ≤ length b.buffer - b.writer_index + b.reader_index)
      → (cheap_prepend < b.reader_index)
        × (length (make_space b len).buffer ≡ length b.buffer)
        × ((make_space b len).reader_index ≡ cheap_prepend)
  make_space_moves_down short fits =
      let free = length b.buffer - b.writer_index + b.reader_index in
      (
        omega (arith, writable_bytes_lem v),
        rw (make_space_lem len v h, ge→ltb free (len + cheap_prepend) fits)
            (length-copy_to b.buffer cheap_prepend (content b)),
        rw (make_space_lem len v h, ge→ltb free (len + cheap_prepend) fits),
      )
