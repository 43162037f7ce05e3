-- ===== src/Buffer/Integers.antt =====
-- The integer operations of include/nev/buffer.h: `appendInt64` to `prependInt8`.
-- An integer of `w` bytes is its bit pattern, a number below `256 ^ w`. `base::HostToNet64` and its
-- kin come from outside the repository: they are the parameter `ByteOrder`.
use mathlib.Core.List.{reverse}
use native.Mathlib.Nat.{pow-succ'}
use nev.Base.{
  ℕ, zero, suc, ◌+◌, ◌-◌, ◌*◌, ◌/◌, ◌%◌, ◌^◌, ◌≤◌, ◌<◌, ◌≡◌, refl, sym, ap, ◌∙◌, List, [], ◌∷◌,
  ◌++◌, length, window, take, drop, arith, take-take, length-append, take-append, drop-append,
  subst,
}
use nev.Buffer.{Buffer, retrieve, append, prepend}
use nev.Buffer.Valid.{IsValid, content, HasRoom}
use nev.Buffer.Space.{length-content}
use nev.Buffer.Queue.{Holds, append-Holds, retrieve-Holds, prepend-Holds}

-- The object representation of an integer of `w` bytes on a little-endian machine.
unfoldable pub memory_of : ℕ → ℕ → List ℕ
memory_of zero x = []
memory_of (suc w) x = x % 256 ∷ memory_of w (x / 256)

unfoldable pub of_memory : List ℕ → ℕ
of_memory [] = 0
of_memory (c ∷ cs) = c + 256 * of_memory cs

-- The bytes of an integer in network order, the most significant first.
abbrev pub network_bytes : ℕ → ℕ → List ℕ
network_bytes w x = reverse (memory_of w x)

-- `base/sys_byteorder.h`: the conversions by width in bytes, and what they are documented to do.
pub record ByteOrder : Type 0 where
  pub host_to_net : ℕ → ℕ → ℕ
  pub net_to_host : ℕ → ℕ → ℕ
  pub host_to_net_bytes : (w x : ℕ) → memory_of w (host_to_net w x) ≡ network_bytes w x
  pub host_to_net_range : (w x : ℕ) → host_to_net w x < 256 ^ w
  pub net_to_host_inverse : (w x : ℕ) → x < 256 ^ w → net_to_host w (host_to_net w x) ≡ x

pub length-memory_of : (w x : ℕ) → length (memory_of w x) ≡ w
unfolding memory_of
length-memory_of zero x = refl
length-memory_of (suc w) x = ap suc (length-memory_of w (x / 256))

pub of_memory-memory_of : (w x : ℕ) → x < 256 ^ w → of_memory (memory_of w x) ≡ x
unfolding memory_of of_memory
of_memory-memory_of zero x h = omega arith
of_memory-memory_of (suc w) x h =
    omega (arith, pow-succ' 256 w, of_memory-memory_of w (x / 256) (omega (arith, pow-succ' 256 w)))

module _ (o : ByteOrder) where
  -- `appendInt64` is `append_int 8`, and so on down to `appendInt8`; so for the others.
  unfoldable pub append_int : ℕ → Buffer → ℕ → Buffer
  append_int w b x = append b (memory_of w (o.host_to_net w x))

  unfoldable pub prepend_int : ℕ → Buffer → ℕ → Buffer
  prepend_int w b x = prepend b (memory_of w (o.host_to_net w x))

  unfoldable pub peek_int : ℕ → Buffer → ℕ
  peek_int w b = o.net_to_host w (of_memory (window b.buffer b.reader_index w))

  unfoldable pub read_int : ℕ → Buffer → ℕ × Buffer
  unfolding peek_int
  read_int w b = (peek_int w b, retrieve b w)

  -- Appended integers stand in the buffer in network order.
  pub append_int-Holds :
      {b : Buffer} (w x : ℕ)
      → IsValid b
      → HasRoom b w
      → Holds (append_int w b x) (content b ++ network_bytes w x)
  unfolding append_int
  append_int-Holds {b} w x v h = rw (← o.host_to_net_bytes w x) (
      append-Holds (memory_of w (o.host_to_net w x)) v
        (omega (arith, length-memory_of w (o.host_to_net w x))))

  pub prepend_int-Holds :
      {b : Buffer} (w x : ℕ)
      → IsValid b
      → w ≤ b.reader_index
      → Holds (prepend_int w b x) (network_bytes w x ++ content b)
  unfolding prepend_int
  prepend_int-Holds {b} w x v h = rw (← o.host_to_net_bytes w x) (
      prepend-Holds (memory_of w (o.host_to_net w x)) v
        (omega (arith, length-memory_of w (o.host_to_net w x))))

  length-network_bytes : (w x : ℕ) → length (network_bytes w x) ≡ w
  length-network_bytes w x =
      ap length (sym (o.host_to_net_bytes w x)) ∙ length-memory_of w (o.host_to_net w x)

  -- The content starts with the memory of `host_to_net w x`, which is what is copied out.
  front :
      {b : Buffer} (w x : ℕ) (rest : List ℕ)
      → IsValid b
      → content b ≡ network_bytes w x ++ rest
      → window b.buffer b.reader_index w ≡ memory_of w (o.host_to_net w x)
  front {b} w x rest v e =
      let size = ap length e ∙ length-append (network_bytes w x) rest in
      sym (
        take-take w (b.writer_index - b.reader_index) (drop b.reader_index b.buffer)
          (omega (arith, size, length-content v, length-network_bytes w x)))
      ∙ ap (take w) e
      ∙ subst (λ n. take n (network_bytes w x ++ rest) ≡ network_bytes w x)
          (length-network_bytes w x) (take-append (network_bytes w x) rest)
      ∙ sym (o.host_to_net_bytes w x)

  -- An integer at the front of the content is read back, and only its bytes are consumed.
  pub read_int_lem :
      {b : Buffer} (w x : ℕ) (rest : List ℕ)
      → Holds b (network_bytes w x ++ rest)
      → x < 256 ^ w
      → ((read_int w b).0 ≡ x) × Holds (read_int w b).1 rest
  unfolding read_int
  read_int_lem {b} w x rest v h = (
    ap (λ m. o.net_to_host w (of_memory m)) (front w x rest v.valid v.holds)
        ∙ ap (o.net_to_host w) (of_memory-memory_of w (o.host_to_net w x) (o.host_to_net_range w x))
        ∙ o.net_to_host_inverse w x h,
    subst (Holds (retrieve b w))
        (ap (drop w) v.holds
          ∙ subst (λ n. drop n (network_bytes w x ++ rest) ≡ rest) (length-network_bytes w x)
              (drop-append (network_bytes w x) rest))
        (retrieve-Holds w v.valid),
  )

  -- An integer of w bytes put in front of any content of a valid buffer with w bytes of
  -- prependable space is read back, and the content is left.
  pub read_int-prepend_int :
      {b : Buffer} (w x : ℕ)
      → IsValid b
      → w ≤ b.reader_index
      → x < 256 ^ w
      → ((read_int w (prepend_int w b x)).0 ≡ x)
        × Holds (read_int w (prepend_int w b x)).1 (content b)
  read_int-prepend_int {b} w x v h k = read_int_lem w x (content b) (prepend_int-Holds w x v h) k
