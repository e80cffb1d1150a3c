-- ===== src/Order/Laws.antt =====
-- `cmp` is a total order.
use db.Prelude.{ℕ, List, [], ◌∷◌, Ordering, ◌≡◌, refl, arith}
use db.Order.{cmp, ◌≺◌}

abbrev pub flip : Ordering → Ordering
flip Ordering.lt = Ordering.gt
flip Ordering.eq = Ordering.eq
flip Ordering.gt = Ordering.lt

pub cmp_refl : (a : List ℕ) → cmp a a ≡ Ordering.eq
unfolding cmp
cmp_refl [] = refl
cmp_refl (x ∷ xs) = ground (arith, cmp_refl xs)

pub eq_of_cmp : (a b : List ℕ) → cmp a b ≡ Ordering.eq → a ≡ b
unfolding cmp
eq_of_cmp [] [] h = refl
eq_of_cmp [] (y ∷ ys) h = cc
eq_of_cmp (x ∷ xs) [] h = cc
eq_of_cmp (x ∷ xs) (y ∷ ys) h = ground (arith, eq_of_cmp xs ys)

pub cmp-flip : (a b : List ℕ) → cmp b a ≡ flip (cmp a b)
unfolding cmp
cmp-flip [] [] = refl
cmp-flip [] (y ∷ ys) = refl
cmp-flip (x ∷ xs) [] = refl
cmp-flip (x ∷ xs) (y ∷ ys) = ground (arith, cmp-flip xs ys)

pub ≺_trans : (a b c : List ℕ) → a ≺ b → b ≺ c → a ≺ c
unfolding cmp
≺_trans [] [] c h k = cc
≺_trans [] (y ∷ ys) [] h k = cc
≺_trans [] (y ∷ ys) (z ∷ zs) h k = refl
≺_trans (x ∷ xs) [] c h k = cc
≺_trans (x ∷ xs) (y ∷ ys) [] h k = cc
≺_trans (x ∷ xs) (y ∷ ys) (z ∷ zs) h k = ground (arith, ≺_trans xs ys zs)

-- The empty string is below every string that has one below it.
pub nil_below : (a b : List ℕ) → a ≺ b → [] ≺ b
unfolding cmp
nil_below [] [] h = h
nil_below (x ∷ xs) [] h = cc
nil_below a (y ∷ ys) h = refl
