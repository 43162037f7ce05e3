-- ===== src/Buffer/Find.antt =====
-- `findCRLF` and `findEOL` of include/nev/buffer.h. A pointer is an offset from `peek()`; NULL is `none`.
use nev.Base.{
  ℕ, suc, ◌+◌, ◌≡◌, refl, false, ◌&&◌, if◌then◌else◌, ◌==◌, List, [], ◌∷◌, ◌++◌, length, Option,
  none, some, arith, drop, ◌≢◌, Bool-cases, inl, inr, ap,
}
use mathlib.Core.Option
use nev.Buffer.{Buffer, to_string_piece}

-- `memchr(start, '\n', n)`.
unfoldable pub memchr : ℕ → List ℕ → Option ℕ
memchr c [] = none
memchr c (x ∷ xs) = if x == c then some 0 else Option.map suc (memchr c xs)

-- `std::search(start, end, kCRLF, kCRLF + 2)`, with `end` read as NULL.
unfoldable pub search_crlf : List ℕ → Option ℕ
search_crlf [] = none
search_crlf (x ∷ []) = none
search_crlf (x ∷ y ∷ xs) =
    if x == b'\r' && y == b'\n' then some 0 else Option.map suc (search_crlf (y ∷ xs))

-- From `peek() + start` to `beginWrite()`. With no `start` the source begins at `peek()`.
unfoldable pub find_crlf : Buffer → ℕ → Option ℕ
find_crlf b start = Option.map (λ i. start + i) (search_crlf (drop start (to_string_piece b)))

unfoldable pub find_eol : Buffer → ℕ → Option ℕ
find_eol b start = Option.map (λ i. start + i) (memchr b'\n' (drop start (to_string_piece b)))

-- No byte of the list is `c`.
abbrev pub Free : ℕ → List ℕ → Type 0
Free c [] = Unit
Free c (x ∷ xs) = (x ≢ c) × Free c xs

-- No CR of the list has an LF behind it.
abbrev pub FreeOfCrlf : List ℕ → Type 0
FreeOfCrlf [] = Unit
FreeOfCrlf (x ∷ []) = Unit
FreeOfCrlf (x ∷ y ∷ xs) = (¬ ((x ≡ b'\r') × (y ≡ b'\n'))) × FreeOfCrlf (y ∷ xs)

-- An answer for the bytes `xs` behind the first `start` of the content: `none` if no line ends there,
-- and else where the first line ends.
abbrev pub FindsCrlf : ℕ → List ℕ → Option ℕ → Type 0
FindsCrlf start xs none = FreeOfCrlf xs
FindsCrlf start xs (some i) =
    (line : List ℕ) × (rest : List ℕ) × (xs ≡ line ++ (b'\r' ∷ b'\n' ∷ rest))
    × (i ≡ start + length line)
    × FreeOfCrlf (line ++ b'\r' ∷ [])

abbrev pub FindsEol : ℕ → List ℕ → Option ℕ → Type 0
FindsEol start xs none = Free b'\n' xs
FindsEol start xs (some i) =
    (line : List ℕ) × (rest : List ℕ) × (xs ≡ line ++ b'\n' ∷ rest)
    × (i ≡ start + length line)
    × Free b'\n' line

crlf_later :
    (x y : ℕ) (xs : List ℕ) (r : Option ℕ)
    → (x == b'\r' && y == b'\n') ≡ false
    → FindsCrlf 0 (y ∷ xs) r
    → FindsCrlf 0 (x ∷ y ∷ xs) (Option.map suc r)
crlf_later x y xs none t h = ((λ e. ground arith), h)
crlf_later x y xs (some i) t ([], rest, e, l, f) =
    (x ∷ [], rest, ground arith, ground arith, ground arith)
crlf_later x y xs (some i) t (z ∷ line, rest, e, l, f) =
    (x ∷ z ∷ line, rest, ground arith, ground arith, ground arith)

search_crlf-FindsCrlf : (xs : List ℕ) → FindsCrlf 0 xs (search_crlf xs)
unfolding search_crlf
search_crlf-FindsCrlf [] = tt
search_crlf-FindsCrlf (x ∷ []) = tt
search_crlf-FindsCrlf (x ∷ y ∷ xs) = elim (Bool-cases (x == b'\r' && y == b'\n')) [
  | inl t ↦ rw t ([], xs, ground arith, refl, tt)
  | inr t ↦ rw t (crlf_later x y xs (search_crlf (y ∷ xs)) t (search_crlf-FindsCrlf (y ∷ xs)))
]

FindsCrlf-shift :
    (start : ℕ) (xs : List ℕ) (r : Option ℕ)
    → FindsCrlf 0 xs r
    → FindsCrlf start xs (Option.map (λ i. start + i) r)
FindsCrlf-shift start xs none h = h
FindsCrlf-shift start xs (some i) (line, rest, e, l, f) = (line, rest, e, omega arith, f)

-- findCRLF returns the position of the first CRLF of the content at or behind start, or nothing
-- if none stands there.
pub find_crlf-FindsCrlf :
    (b : Buffer) (start : ℕ) → FindsCrlf start (drop start (to_string_piece b)) (find_crlf b start)
unfolding find_crlf
find_crlf-FindsCrlf b start =
    FindsCrlf-shift start _ (search_crlf (drop start (to_string_piece b))) (search_crlf-FindsCrlf _)

eol_later :
    (x : ℕ) (xs : List ℕ) (r : Option ℕ)
    → (x == b'\n') ≡ false
    → FindsEol 0 xs r
    → FindsEol 0 (x ∷ xs) (Option.map suc r)
eol_later x xs none t h = (ground arith, h)
eol_later x xs (some i) t (line, rest, e, l, f) =
    (x ∷ line, rest, ap (◌∷◌ x) e, omega arith, (ground arith, f))

memchr-FindsEol : (xs : List ℕ) → FindsEol 0 xs (memchr b'\n' xs)
unfolding memchr
memchr-FindsEol [] = tt
memchr-FindsEol (x ∷ xs) = elim (Bool-cases (x == b'\n')) [
  | inl t ↦ rw t ([], xs, ground arith, refl, tt)
  | inr t ↦ rw t (eol_later x xs (memchr b'\n' xs) t (memchr-FindsEol xs))
]

FindsEol-shift :
    (start : ℕ) (xs : List ℕ) (r : Option ℕ)
    → FindsEol 0 xs r
    → FindsEol start xs (Option.map (λ i. start + i) r)
FindsEol-shift start xs none h = h
FindsEol-shift start xs (some i) (line, rest, e, l, f) = (line, rest, e, omega arith, f)

-- findEOL returns the position of the first LF of the content at or behind start, or nothing if
-- none stands there.
pub find_eol-FindsEol :
    (b : Buffer) (start : ℕ) → FindsEol start (drop start (to_string_piece b)) (find_eol b start)
unfolding find_eol
find_eol-FindsEol b start =
    FindsEol-shift start _ (memchr b'\n' (drop start (to_string_piece b))) (memchr-FindsEol _)
