-- ===== src/Bisect/Ends.antt =====
-- The binary search ends for every comparison that settles, ordered or not.
use db.Prelude.{ℕ, zero, suc, ◌<◌, ◌≡◌, true, arith, Ordering}
use db.Outcomes.{Outcome}
use db.Outcomes.Settles.{settles}
use db.Bisect.{bisect, bisect_all}

module _ (probe : ℕ → Outcome Ordering) (reads : (i : ℕ) → settles (probe i) ≡ true) where
  bisect-settles : (fuel base lim : ℕ) → lim < fuel → settles (bisect probe fuel base lim) ≡ true
  unfolding bisect
  bisect-settles zero base lim h = absurd (omega arith)
  bisect-settles (suc fuel) base lim h = grind (arith, reads, bisect-settles fuel)

  pub bisect_all-settles : (n : ℕ) → settles (bisect_all probe n) ≡ true
  unfolding bisect_all
  bisect_all-settles n = bisect-settles (suc n) 0 n (omega arith)
