-- ===== src/Base/Window.antt =====
-- A window of an array, and how writes to the array show in it.
use Prim.Native.Nat.{ℕ, zero, suc, ◌+◌, ◌-◌, ◌≤◌}
use mathlib.Core.Path.{◌≡◌, refl, ap}
use mathlib.Core.List.{List, [], ◌∷◌, ◌++◌}
use native.Mathlib.Omega.{arith}
use nev.Base.Lists.{
  length, take, drop, replicate, copy_to, take_all, take_zero, length-append, length-take,
  length-drop, length-replicate,
}

module _ {ℓ} {A : Type ℓ} where
  -- The `n` elements from index `i` on.
  abbrev pub window : List A → ℕ → ℕ → List A
  window xs i n = take n (drop i xs)

  -- `std::vector::resize` with a fill element.
  unfoldable pub resize : A → List A → ℕ → List A
  resize z xs n = take n xs ++ replicate (n - length xs) z

  take-append-le : (n : ℕ) (xs ys : List A) → n ≤ length xs → take n (xs ++ ys) ≡ take n xs
  take-append-le zero xs ys h = refl
  take-append-le (suc n) [] ys h = absurd (omega arith)
  take-append-le (suc n) (x ∷ xs) ys h = ap (◌∷◌ x) (take-append-le n xs ys (omega arith))

  pub window-append :
      (i n : ℕ) (xs ys : List A) → i + n ≤ length xs → window (xs ++ ys) i n ≡ window xs i n
  window-append zero n xs ys h = take-append-le n xs ys (omega arith)
  window-append (suc i) zero [] ys h = absurd (omega arith)
  window-append (suc i) (suc n) [] ys h = absurd (omega arith)
  window-append (suc i) n (x ∷ xs) ys h = window-append i n xs ys (omega arith)

  -- Enlarging an array leaves every window of the old one.
  pub window-resize :
      (z : A) (i n m : ℕ) (xs : List A)
      → i + n ≤ length xs
      → length xs ≤ m
      → window (resize z xs m) i n ≡ window xs i n
  unfolding resize
  window-resize z i n m xs h k = rw (take_all m xs k) (window-append i n xs _ h)

  copy_to-zero :
      (xs ds : List A) (n : ℕ) → n ≡ length ds → n ≤ length xs → take n (copy_to xs 0 ds) ≡ ds
  unfolding copy_to
  copy_to-zero xs [] n e h = take_zero n _ e
  copy_to-zero [] (d ∷ ds) n e h = absurd (omega arith)
  copy_to-zero (x ∷ xs) (d ∷ ds) zero e h = absurd (omega arith)
  copy_to-zero (x ∷ xs) (d ∷ ds) (suc n) e h =
      ap (◌∷◌ d) (copy_to-zero xs ds n (omega arith) (omega arith))

  -- What was written can be read back.
  pub window-copy_to :
      (i n : ℕ) (xs ds : List A)
      → n ≡ length ds
      → i + n ≤ length xs
      → window (copy_to xs i ds) i n ≡ ds
  unfolding copy_to
  window-copy_to zero n xs ds e h = copy_to-zero xs ds n e (omega arith)
  window-copy_to (suc i) n [] ds e h = absurd (omega arith)
  window-copy_to (suc i) n (x ∷ xs) ds e h = window-copy_to i n xs ds e (omega arith)

  -- A write at the end of a window extends it.
  pub window-copy_to_end :
      (i k j n : ℕ) (xs ds : List A)
      → j ≡ i + k
      → n ≡ k + length ds
      → i + n ≤ length xs
      → window (copy_to xs j ds) i n ≡ window xs i k ++ ds
  unfolding copy_to
  window-copy_to_end zero zero j n xs ds e f h =
      let e' : j ≡ 0 = omega arith in rw e' (copy_to-zero xs ds n (omega arith) (omega arith))
  window-copy_to_end zero (suc k) j n [] ds e f h = absurd (omega arith)
  window-copy_to_end zero (suc k) zero n (x ∷ xs) ds e f h = absurd (omega arith)
  window-copy_to_end zero (suc k) (suc j) zero (x ∷ xs) ds e f h = absurd (omega arith)
  window-copy_to_end zero (suc k) (suc j) (suc n) (x ∷ xs) ds e f h =
      ap (◌∷◌ x) (window-copy_to_end zero k j n xs ds (omega arith) (omega arith) (omega arith))
  window-copy_to_end (suc i) k j n [] ds e f h = absurd (omega arith)
  window-copy_to_end (suc i) k zero n (x ∷ xs) ds e f h = absurd (omega arith)
  window-copy_to_end (suc i) k (suc j) n (x ∷ xs) ds e f h =
      window-copy_to_end i k j n xs ds (omega arith) f (omega arith)

  copy_to-cons_zero :
      (xs ds : List A) (m n k : ℕ)
      → m ≡ length ds
      → n ≡ k + m
      → m ≤ length xs
      → take n (copy_to xs 0 ds) ≡ ds ++ window xs m k
  unfolding copy_to
  copy_to-cons_zero [] [] zero n k e f h = ap (λ t. take t []) (omega arith)
  copy_to-cons_zero (x ∷ xs) [] zero n k e f h = ap (λ t. take t (x ∷ xs)) (omega arith)
  copy_to-cons_zero xs [] (suc m) n k e f h = absurd (omega arith)
  copy_to-cons_zero [] (d ∷ ds) m n k e f h = absurd (omega arith)
  copy_to-cons_zero (x ∷ xs) (d ∷ ds) zero n k e f h = absurd (omega arith)
  copy_to-cons_zero (x ∷ xs) (d ∷ ds) (suc m) zero k e f h = absurd (omega arith)
  copy_to-cons_zero (x ∷ xs) (d ∷ ds) (suc m) (suc n) k e f h =
      ap (◌∷◌ d) (copy_to-cons_zero xs ds m n k (omega arith) (omega arith) (omega arith))

  -- A write that ends where a window starts extends it to the left.
  pub window-copy_to_front :
      (i j n k : ℕ) (xs ds : List A)
      → j ≡ i + length ds
      → n ≡ k + length ds
      → j ≤ length xs
      → window (copy_to xs i ds) i n ≡ ds ++ window xs j k
  unfolding copy_to
  window-copy_to_front zero j n k xs ds e f h =
      copy_to-cons_zero xs ds j n k (omega arith) (omega arith) h
  window-copy_to_front (suc i) zero n k xs ds e f h = absurd (omega arith)
  window-copy_to_front (suc i) (suc j) n k [] ds e f h = absurd (omega arith)
  window-copy_to_front (suc i) (suc j) n k (x ∷ xs) ds e f h =
      window-copy_to_front i j n k xs ds (omega arith) f (omega arith)

  pub length-resize : (z : A) (xs : List A) (n : ℕ) → length xs ≤ n → length (resize z xs n) ≡ n
  unfolding resize
  length-resize z xs n h = omega (
    arith,
    length-append (take n xs) (replicate (n - length xs) z),
    length-take n xs,
    length-replicate (n - length xs) z,
  )

  pub length-window : (xs : List A) (i n : ℕ) → i + n ≤ length xs → length (window xs i n) ≡ n
  length-window xs i n h = omega (arith, length-take n (drop i xs), length-drop i xs)
