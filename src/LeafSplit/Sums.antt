-- ===== src/LeafSplit/Sums.antt =====
-- The costs of a plan's slots as sums over the entries that are copied.
use db.Prelude.{ℕ, zero, suc, ◌+◌, ◌-◌, ◌*◌, ◌≤◌, ◌<◌, ◌≡◌, refl, ap, ◌∙◌, arith}
use db.Writer.Plan.Balance.{sum_below, slot_cost}
use db.LeafSplit.Copies.{sum_from}

pub sum_from-add :
    (f : ℕ → ℕ) (j a b : ℕ) → sum_from f j (a + b) ≡ sum_from f j a + sum_from f (j + a) b
unfolding sum_from
sum_from-add f j zero b =
    let same : 0 + b ≡ b = omega arith in
    let here : j + 0 ≡ j = omega arith in rw (same, here) (omega arith)
sum_from-add f j (suc a) b =
    let same : suc a + b ≡ suc (a + b) = omega arith in
    let here : j + suc a ≡ j + 1 + a = omega arith in
    rw (same, here) (omega (arith, sum_from-add f (j + 1) a b))

sum_from-one : (f : ℕ → ℕ) (j : ℕ) → sum_from f j 1 ≡ f j
unfolding sum_from
sum_from-one f j = omega arith

pub sum_from-suc : (f : ℕ → ℕ) (n : ℕ) → sum_from f 0 (suc n) ≡ sum_from f 0 n + f n
sum_from-suc f n =
    let more : suc n ≡ n + 1 = omega arith in
    let here : 0 + n ≡ n = omega arith in
    ap (sum_from f 0) more
    ∙ sum_from-add f 0 n 1
    ∙ ap (λ x. sum_from f 0 n + x) (sum_from-one f (0 + n) ∙ ap f here)

module _ (skip ilen : ℕ) (size : ℕ → ℕ) where
  abbrev cost : ℕ → ℕ
  cost = slot_cost skip ilen size

  -- the slots up to the new entry
  pub sum_below-low : (l : ℕ) → l ≤ skip → sum_below cost l ≡ sum_from size 0 l + l * 2
  unfolding sum_below sum_from
  sum_below-low zero le = refl
  sum_below-low (suc l) le =
      let here : cost l ≡ size l + 2 = ground arith in
      let more : sum_from size 0 (suc l) ≡ sum_from size 0 l + size l = sum_from-suc size l in
      omega (arith, sum_below-low l (omega arith), here, more)

  cost_behind : (i o : ℕ) → skip < o → o ≡ suc i → cost o ≡ size i + 2
  cost_behind i o lt e = let back : o - 1 ≡ i = omega arith in ground (arith, ap size back)

  -- the slots behind it
  pub sum_below-high :
      (k : ℕ)
      → sum_below cost (skip + 1 + k) ≡ sum_from size 0 (skip + k) + (skip + 1 + k) * 2 + ilen
  unfolding sum_below
  sum_below-high zero =
      let here : cost skip ≡ ilen + 2 = ground arith in
      let next : skip + 1 + 0 ≡ suc skip = omega arith in
      let same : skip + 0 ≡ skip = omega arith in
      rw (next, same) (omega (arith, here, sum_below-low skip (omega arith)))
  sum_below-high (suc k) =
      let next : skip + 1 + suc k ≡ suc (skip + 1 + k) = omega arith in
      let same : skip + suc k ≡ suc (skip + k) = omega arith in
      let here : cost (skip + 1 + k) ≡ size (skip + k) + 2 =
        cost_behind (skip + k) (skip + 1 + k) (omega arith) (omega arith) in
      rw (next, same) (omega (arith, here, sum_below-high k, sum_from-suc size (skip + k)))
