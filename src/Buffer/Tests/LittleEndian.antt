-- ===== src/Buffer/Tests/LittleEndian.antt =====
-- The byte swap of a little-endian machine as the parameter of the integer operations, at work.
use mathlib.Core.List.{reverse, reverse-cons, reverse-reverse}
use native.Mathlib.Nat.{pow-succ'}
use nev.Base.{
  ℕ, zero, suc, ◌/◌, ◌^◌, ◌<◌, ◌≡◌, refl, ap, ap₂, ◌∙◌, subst, List, [], ◌∷◌, ◌++◌, length,
  length-append, arith, add_size, sub_size, copy_to, resize,
}
use nev.Buffer.{append, ensure_writable_bytes, new}
use nev.Buffer.Valid.{content}
use nev.Buffer.Queue.{Holds, new-Holds}
use nev.Buffer.Integers.{
  memory_of, of_memory, network_bytes, ByteOrder, length-memory_of, of_memory-memory_of, append_int,
  prepend_int, read_int, append_int-Holds, read_int-prepend_int,
}

abbrev Bytes : List ℕ → Type 0
Bytes [] = Unit
Bytes (c ∷ cs) = (c < 256) × Bytes cs

Bytes-append : (xs ys : List ℕ) → Bytes xs → Bytes ys → Bytes (xs ++ ys)
Bytes-append [] ys h k = k
Bytes-append (x ∷ xs) ys h k = (h.0, Bytes-append xs ys h.1 k)

Bytes-reverse : (xs : List ℕ) → Bytes xs → Bytes (reverse xs)
Bytes-reverse [] h = tt
Bytes-reverse (x ∷ xs) h =
    rw (reverse-cons x xs) (Bytes-append (reverse xs) (x ∷ []) (Bytes-reverse xs h.1) (h.0, tt))

length-reverse : (xs : List ℕ) → length (reverse xs) ≡ length xs
length-reverse [] = refl
length-reverse (x ∷ xs) =
    omega
      (arith, ap length (reverse-cons x xs), length-append (reverse xs) (x ∷ []), length-reverse xs)

memory_of-Bytes : (w x : ℕ) → Bytes (memory_of w x)
unfolding memory_of
memory_of-Bytes zero x = tt
memory_of-Bytes (suc w) x = (omega arith, memory_of-Bytes w (x / 256))

memory_of-of_memory : (xs : List ℕ) → Bytes xs → memory_of (length xs) (of_memory xs) ≡ xs
unfolding memory_of of_memory
memory_of-of_memory [] h = refl
memory_of-of_memory (c ∷ cs) h =
    ap₂ ◌∷◌ (omega (arith, h.0))
      (ap (memory_of (length cs)) (omega (arith, h.0)) ∙ memory_of-of_memory cs h.1)

of_memory-lt : (xs : List ℕ) → Bytes xs → of_memory xs < 256 ^ length xs
unfolding of_memory
of_memory-lt [] h = omega arith
of_memory-lt (c ∷ cs) h = omega (arith, pow-succ' 256 (length cs), of_memory-lt cs h.1)

byte_swap : ℕ → ℕ → ℕ
byte_swap w x = of_memory (network_bytes w x)

length-network_bytes : (w x : ℕ) → length (network_bytes w x) ≡ w
length-network_bytes w x = length-reverse (memory_of w x) ∙ length-memory_of w x

network_bytes-Bytes : (w x : ℕ) → Bytes (network_bytes w x)
network_bytes-Bytes w x = Bytes-reverse (memory_of w x) (memory_of-Bytes w x)

byte_swap_bytes : (w x : ℕ) → memory_of w (byte_swap w x) ≡ network_bytes w x
unfolding byte_swap
byte_swap_bytes w x =
    subst (λ n. memory_of n (of_memory (network_bytes w x)) ≡ network_bytes w x)
      (length-network_bytes w x) (memory_of-of_memory (network_bytes w x) (network_bytes-Bytes w x))

byte_swap-lt : (w x : ℕ) → byte_swap w x < 256 ^ w
unfolding byte_swap
byte_swap-lt w x =
    subst (λ n. of_memory (network_bytes w x) < 256 ^ n) (length-network_bytes w x)
      (of_memory-lt (network_bytes w x) (network_bytes-Bytes w x))

byte_swap_twice : (w x : ℕ) → x < 256 ^ w → byte_swap w (byte_swap w x) ≡ x
byte_swap_twice w x h =
    unfold byte_swap in
    (ap (λ m. of_memory (reverse m)) (byte_swap_bytes w x)
      ∙ ap of_memory (reverse-reverse (memory_of w x))
      ∙ of_memory-memory_of w x h)

abbrev little_endian : ByteOrder
little_endian = record {
  host_to_net = byte_swap;
  net_to_host = byte_swap;
  host_to_net_bytes = byte_swap_bytes;
  host_to_net_range = byte_swap-lt;
  net_to_host_inverse = byte_swap_twice;
}

wire_layout : content (append_int little_endian 4 (new 8) 0x01020304) ≡ 1 ∷ 2 ∷ 3 ∷ 4 ∷ []
unfolding append_int append new ensure_writable_bytes byte_swap memory_of of_memory add_size
    sub_size copy_to resize
wire_layout = refl

empty : Holds (new 8) []
empty = new-Holds 8 (omega arith)

append_int-Holds_run :
    Holds
      (append_int little_endian 4 (new 8) 0x01020304)
      (content (new 8) ++ network_bytes 4 0x01020304)
unfolding new
append_int-Holds_run = append_int-Holds little_endian 4 0x01020304 empty.valid (omega arith)

read_int-prepend_int_example :
    ((read_int little_endian 8 (prepend_int little_endian 8 (new 8) 77)).0 ≡ 77)
    × Holds (read_int little_endian 8 (prepend_int little_endian 8 (new 8) 77)).1 (content (new 8))
unfolding new
read_int-prepend_int_example =
    read_int-prepend_int little_endian 8 77 empty.valid (omega arith) (omega arith)
