-- ===== src/Buffer/Growth.antt =====
-- A sequence of appends: how far the write index moves, and what the buffer holds.
use nev.Base.{
  ℕ, ◌+◌, ◌≤◌, ◌≡◌, refl, sym, ap, ◌∙◌, subst, List, [], ◌∷◌, ◌++◌, append-nil, append_assoc,
  length, length-append, arith, ltb, ltb→lt, ltb→ge, size_mod, ◌-◌, ◌<◌, Bool-cases, inl, inr,
  add_size,
}
use native.Mathlib.Nat.{mod-le}
use nev.Buffer.{
  Buffer, cheap_prepend, writable_bytes, make_space, ensure_writable_bytes, append, has_written,
}
use nev.Buffer.Valid.{IsValid, content, HasRoom, writable_bytes_lem, make_space_lem}
use nev.Buffer.Queue.{Holds, append-Holds}

moved-writer :
    {b : Buffer} (len : ℕ)
    → IsValid b
    → HasRoom b len
    → writable_bytes b < len
    → (make_space b len).writer_index ≤ b.writer_index
moved-writer {b} len v h short =
    let free = length b.buffer - b.writer_index + b.reader_index in
    rw (make_space_lem len v h) (elim (Bool-cases (ltb free (len + cheap_prepend))) [
      | inl t ↦ rw t (omega arith)
      | inr t ↦ rw t (
          omega
            (arith, ltb→ge free (len + cheap_prepend) t, short, writable_bytes_lem v, v.ordered))
    ])

ensure-writer :
    {b : Buffer} (len : ℕ)
    → IsValid b
    → HasRoom b len
    → (ensure_writable_bytes b len).writer_index ≤ b.writer_index
unfolding ensure_writable_bytes
ensure-writer {b} len v h = elim (Bool-cases (ltb (writable_bytes b) len)) [
  | inl t ↦ rw t (moved-writer len v h (ltb→lt (writable_bytes b) len t))
  | inr t ↦ rw t (omega arith)
]

-- An append moves the write index by no more than what it appends.
pub append-writer :
    {b : Buffer} (bytes : List ℕ)
    → IsValid b
    → HasRoom b (length bytes)
    → (append b bytes).writer_index ≤ b.writer_index + length bytes
unfolding append has_written add_size
append-writer {b} bytes v h = omega (
  arith,
  mod-le ((ensure_writable_bytes b (length bytes)).writer_index + length bytes) size_mod,
  ensure-writer (length bytes) v h,
)

unfoldable pub append_all : Buffer → List (List ℕ) → Buffer
unfolding append
append_all b [] = b
append_all b (bytes ∷ rest) = append_all (append b bytes) rest

abbrev pub joined : List (List ℕ) → List ℕ
joined [] = []
joined (bytes ∷ rest) = bytes ++ joined rest

pub append_all-append :
    (b : Buffer) (xs ys : List (List ℕ)) → append_all (append_all b xs) ys ≡ append_all b (xs ++ ys)
unfolding append_all
append_all-append b [] ys = refl
append_all-append b (x ∷ xs) ys = append_all-append (append b x) xs ys

pub joined-append : (xs ys : List (List ℕ)) → joined (xs ++ ys) ≡ joined xs ++ joined ys
joined-append [] ys = refl
joined-append (x ∷ xs) ys =
    ap (◌++◌ x) (joined-append xs ys) ∙ sym (append_assoc x (joined xs) (joined ys))

-- Behind a sequence of appends the buffer holds all that was appended, if there is memory for it.
pub append_all-Holds :
    (xs : List (List ℕ)) {b : Buffer}
    → IsValid b
    → HasRoom b (length (joined xs))
    → Holds (append_all b xs) (content b ++ joined xs)
unfolding append_all
append_all-Holds [] {b} v h = record { valid = v; holds = sym (append-nil (content b)) }
append_all-Holds (x ∷ xs) {b} v h =
    let size = length-append x (joined xs) in
    let one = append-Holds x v (omega (arith, h, size)) in
    let w = append-writer x v (omega (arith, h, size)) in
    subst (Holds (append_all (append b x) xs))
      (ap (λ c. c ++ joined xs) one.holds ∙ append_assoc (content b) x (joined xs))
      (append_all-Holds xs one.valid (omega (arith, h, size, w)))
