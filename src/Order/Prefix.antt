-- ===== src/Order/Prefix.antt =====
-- Comparing byte strings part by part.
use native.Mathlib.Nat.{suc-min-suc, min-zero, zero-min}
use db.Prelude.{
  ℕ, ◌≤◌, ◌<◌, ◌≡◌, refl, List, [], ◌∷◌, ◌++◌, length, take, drop, min, compare, Ordering, arith,
}
use db.Order.{cmp}

-- the comparison of two strings over their common length
unfoldable pub cmp_common : List ℕ → List ℕ → Ordering
cmp_common [] o = Ordering.eq
cmp_common (x ∷ a) [] = Ordering.eq
cmp_common (x ∷ a) (y ∷ o) = elim (compare x y) [
  | Ordering.lt ↦ Ordering.lt
  | Ordering.eq ↦ cmp_common a o
  | Ordering.gt ↦ Ordering.gt
]

pub cmp-take-min :
    (a o : List ℕ)
    → cmp (take (min (length a) (length o)) a) (take (min (length a) (length o)) o) ≡ cmp_common a o
unfolding cmp cmp_common
cmp-take-min [] o = rw zero-min
cmp-take-min (x ∷ a) [] = rw min-zero
cmp-take-min (x ∷ a) (y ∷ o) = rw suc-min-suc (ground (arith, cmp-take-min a o))

-- A difference inside the common length decides.
pub cmp-append_lt : (a o r : List ℕ) → cmp_common a o ≡ Ordering.lt → cmp a (o ++ r) ≡ Ordering.lt
unfolding cmp cmp_common
cmp-append_lt [] o r h = cc
cmp-append_lt (x ∷ a) [] r h = cc
cmp-append_lt (x ∷ a) (y ∷ o) r h = ground (arith, cmp-append_lt a o r)

pub cmp-append_gt : (a o r : List ℕ) → cmp_common a o ≡ Ordering.gt → cmp a (o ++ r) ≡ Ordering.gt
unfolding cmp cmp_common
cmp-append_gt [] o r h = cc
cmp-append_gt (x ∷ a) [] r h = cc
cmp-append_gt (x ∷ a) (y ∷ o) r h = ground (arith, cmp-append_gt a o r)

-- Equal there, the shorter string is the smaller one, or the comparison goes on behind `o`.
pub cmp-append_short :
    (a o r : List ℕ)
    → cmp_common a o ≡ Ordering.eq
    → length a < length o
    → cmp a (o ++ r) ≡ Ordering.lt
unfolding cmp cmp_common
cmp-append_short [] [] r h k = absurd (omega arith)
cmp-append_short [] (y ∷ o) r h k = refl
cmp-append_short (x ∷ a) [] r h k = absurd (omega arith)
cmp-append_short (x ∷ a) (y ∷ o) r h k = ground (arith, cmp-append_short a o r)

pub cmp-append_on :
    (a o r : List ℕ)
    → cmp_common a o ≡ Ordering.eq
    → length o ≤ length a
    → cmp a (o ++ r) ≡ cmp (drop (length o) a) r
unfolding cmp cmp_common
cmp-append_on a [] r h k = refl
cmp-append_on [] (y ∷ o) r h k = absurd (omega arith)
cmp-append_on (x ∷ a) (y ∷ o) r h k = ground (arith, cmp-append_on a o r)
