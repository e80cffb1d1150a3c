-- ===== src/Prelude/Slices.antt =====
-- Slices of a list, `xs[a..b]`, and a write of one list into another at an offset.
use Prim.Native.Nat.{ℕ, zero, suc, ◌+◌, ◌-◌, ◌≤◌, ◌<◌}
use mathlib.Core.Path.{◌≡◌, refl, ap, ◌∙◌}
use mathlib.Core.Bool.{◌&&◌}
use mathlib.Core.List.{List, [], ◌∷◌}
use mathlib.Core.Option.{Option, none, some}
use native.Mathlib.Omega.{arith}
use db.Prelude.Tests.{leb, le→leb, if◌then◌else◌}
use db.Prelude.Lists.{
  length, get_or, take, drop, length-take, length-drop, get_or-take, get_or-drop,
}

module _ {ℓ} {A : Type ℓ} where
  -- the `n` elements from index `a` on
  abbrev pub window : List A → ℕ → ℕ → List A
  window xs a n = take n (drop a xs)

  -- `xs.get(a..b)`: `none` if the range is not inside the list.
  abbrev pub slice : List A → ℕ → ℕ → Option (List A)
  slice xs a b = if leb a b && leb b (length xs) then some (window xs a (b - a)) else none

  unfoldable pub overwrite : List A → List A → List A
  overwrite xs [] = xs
  overwrite [] (y ∷ ys) = []
  overwrite (x ∷ xs) (y ∷ ys) = y ∷ overwrite xs ys

  -- `xs` with `ys` written from index `a` on; what does not fit is dropped.
  unfoldable pub splice : List A → ℕ → List A → List A
  unfolding overwrite
  splice xs zero ys = overwrite xs ys
  splice [] (suc a) ys = []
  splice (x ∷ xs) (suc a) ys = x ∷ splice xs a ys

module _ {ℓ} {A : Type ℓ} where
  length-overwrite : (xs ys : List A) → length (overwrite xs ys) ≡ length xs
  unfolding overwrite
  length-overwrite xs [] = refl
  length-overwrite [] (y ∷ ys) = refl
  length-overwrite (x ∷ xs) (y ∷ ys) = ap suc (length-overwrite xs ys)

  pub length-splice : (xs : List A) (a : ℕ) (ys : List A) → length (splice xs a ys) ≡ length xs
  unfolding splice
  length-splice xs zero ys = length-overwrite xs ys
  length-splice [] (suc a) ys = refl
  length-splice (x ∷ xs) (suc a) ys = ap suc (length-splice xs a ys)

  get_or-overwrite_in :
      (xs ys : List A) (i : ℕ) (d : A)
      → i < length ys
      → length ys ≤ length xs
      → get_or (overwrite xs ys) i d ≡ get_or ys i d
  unfolding overwrite
  get_or-overwrite_in xs [] i d h k = absurd (omega arith)
  get_or-overwrite_in [] (y ∷ ys) i d h k = absurd (omega arith)
  get_or-overwrite_in (x ∷ xs) (y ∷ ys) zero d h k = refl
  get_or-overwrite_in (x ∷ xs) (y ∷ ys) (suc i) d h k =
      get_or-overwrite_in xs ys i d (omega arith) (omega arith)

  get_or-overwrite_out :
      (xs ys : List A) (i : ℕ) (d : A)
      → length ys ≤ i
      → get_or (overwrite xs ys) i d ≡ get_or xs i d
  unfolding overwrite
  get_or-overwrite_out xs [] i d h = refl
  get_or-overwrite_out [] (y ∷ ys) i d h = refl
  get_or-overwrite_out (x ∷ xs) (y ∷ ys) zero d h = absurd (omega arith)
  get_or-overwrite_out (x ∷ xs) (y ∷ ys) (suc i) d h = get_or-overwrite_out xs ys i d (omega arith)

  -- A read inside the part written shows what was written.
  pub get_or-splice_in :
      (xs : List A) (a : ℕ) (ys : List A) (i : ℕ) (d : A)
      → i < length ys
      → a + length ys ≤ length xs
      → get_or (splice xs a ys) (a + i) d ≡ get_or ys i d
  unfolding splice
  get_or-splice_in xs zero ys i d h k =
      ap (λ j. get_or (overwrite xs ys) j d) (omega arith)
      ∙ get_or-overwrite_in xs ys i d h (omega arith)
  get_or-splice_in [] (suc a) ys i d h k = absurd (omega arith)
  get_or-splice_in (x ∷ xs) (suc a) ys i d h k =
      ap (λ j. get_or (x ∷ splice xs a ys) j d) {x = suc a + i} {y = suc (a + i)} (omega arith)
      ∙ get_or-splice_in xs a ys i d h (omega arith)

  -- the same, at an index that is given by an equation
  pub get_or-splice_at :
      (xs : List A) (a : ℕ) (ys : List A) (i j : ℕ) (d : A)
      → a + i ≡ j
      → i < length ys
      → a + length ys ≤ length xs
      → get_or (splice xs a ys) j d ≡ get_or ys i d
  get_or-splice_at xs a ys i j d e h k =
      ap (λ m. get_or (splice xs a ys) m d) {x = j} {y = a + i} (omega arith)
      ∙ get_or-splice_in xs a ys i d h k

  pub get_or-splice_before :
      (xs : List A) (a : ℕ) (ys : List A) (i : ℕ) (d : A)
      → i < a
      → get_or (splice xs a ys) i d ≡ get_or xs i d
  unfolding splice
  get_or-splice_before xs zero ys i d h = absurd (omega arith)
  get_or-splice_before [] (suc a) ys i d h = refl
  get_or-splice_before (x ∷ xs) (suc a) ys zero d h = refl
  get_or-splice_before (x ∷ xs) (suc a) ys (suc i) d h =
      get_or-splice_before xs a ys i d (omega arith)

  pub get_or-splice_after :
      (xs : List A) (a : ℕ) (ys : List A) (i : ℕ) (d : A)
      → a + length ys ≤ i
      → get_or (splice xs a ys) i d ≡ get_or xs i d
  unfolding splice
  get_or-splice_after xs zero ys i d h = get_or-overwrite_out xs ys i d (omega arith)
  get_or-splice_after [] (suc a) ys i d h = refl
  get_or-splice_after (x ∷ xs) (suc a) ys zero d h = absurd (omega arith)
  get_or-splice_after (x ∷ xs) (suc a) ys (suc i) d h =
      get_or-splice_after xs a ys i d (omega arith)

  pub length-window : (xs : List A) (a n : ℕ) → a + n ≤ length xs → length (window xs a n) ≡ n
  length-window xs a n h = omega (arith, length-take n (drop a xs), length-drop a xs)

  pub get_or-window :
      (xs : List A) (a n i : ℕ) (d : A) → i < n → get_or (window xs a n) i d ≡ get_or xs (a + i) d
  get_or-window xs a n i d h = get_or-take n (drop a xs) i d h ∙ get_or-drop a xs i d

  -- A slice inside the list is there.
  pub slice-eq-some :
      (xs : List A) (a b : ℕ) → a ≤ b → b ≤ length xs → slice xs a b ≡ some (window xs a (b - a))
  slice-eq-some xs a b h k = rw (le→leb a b h, le→leb b (length xs) k)

  drop-overwrite : (xs ys : List A) (n : ℕ) → length ys ≤ n → drop n (overwrite xs ys) ≡ drop n xs
  unfolding overwrite
  drop-overwrite xs [] n h = refl
  drop-overwrite [] (y ∷ ys) n h = refl
  drop-overwrite (x ∷ xs) (y ∷ ys) zero h = absurd (omega arith)
  drop-overwrite (x ∷ xs) (y ∷ ys) (suc n) h = drop-overwrite xs ys n (omega arith)

  -- What lies behind a write stays.
  pub drop-splice :
      (xs : List A) (a : ℕ) (ys : List A) (n : ℕ)
      → a + length ys ≤ n
      → drop n (splice xs a ys) ≡ drop n xs
  unfolding splice
  drop-splice xs zero ys n h = drop-overwrite xs ys n (omega arith)
  drop-splice [] (suc a) ys n h = refl
  drop-splice (x ∷ xs) (suc a) ys zero h = absurd (omega arith)
  drop-splice (x ∷ xs) (suc a) ys (suc n) h = drop-splice xs a ys n (omega arith)

  pub splice-nil : (xs : List A) (a : ℕ) → splice xs a [] ≡ xs
  unfolding splice
  splice-nil xs zero = refl
  splice-nil [] (suc a) = refl
  splice-nil (x ∷ xs) (suc a) = ap (λ l. x ∷ l) (splice-nil xs a)
