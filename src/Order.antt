-- ===== src/Order.antt =====
-- The order of byte strings, `<[u8] as Ord>::cmp`: byte by byte, then the shorter one first.
pub mod Laws
pub mod Prefix
use db.Prelude.{ℕ, List, [], ◌∷◌, compare, Ordering, ◌≡◌}

unfoldable pub cmp : List ℕ → List ℕ → Ordering
cmp [] [] = Ordering.eq
cmp [] (y ∷ ys) = Ordering.lt
cmp (x ∷ xs) [] = Ordering.gt
cmp (x ∷ xs) (y ∷ ys) = elim (compare x y) [
  | Ordering.lt ↦ Ordering.lt
  | Ordering.eq ↦ cmp xs ys
  | Ordering.gt ↦ Ordering.gt
]

infix 50 ◌≺◌
abbrev pub ◌≺◌ : List ℕ → List ℕ → Type 0
a ≺ b = cmp a b ≡ Ordering.lt
