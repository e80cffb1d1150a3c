-- ===== src/Bisect.antt =====
-- The binary search that src/db.rs (`search_leaf`, `descend_internal`) and src/writer/mod.rs
-- (`leaf_search`, `descend_internal_pick`) each write out over `base` and `lim`. The parameter is
-- the comparison of the searched key with the key at an index.
pub mod Correct
pub mod Ends
use db.Prelude.{ℕ, zero, suc, ◌+◌, ◌/◌, ◌==◌, Ordering, if◌then◌else◌}
use db.Outcomes.{Outcome, ok, out_of_fuel, sub_usize, ◌>>=◌}

-- `exact idx`: the loop met an equal key. `missing base`: it ended with this `base`.
pub data Found : Type 0 where
  exact : ℕ → Found
  missing : ℕ → Found

-- `idx = base + (lim >> 1)`; on `Greater`, `base = idx + 1; lim -= 1`; then `lim >>= 1`.
unfoldable pub bisect : (ℕ → Outcome Ordering) → ℕ → ℕ → ℕ → Outcome Found
bisect probe zero base lim = out_of_fuel
bisect probe (suc fuel) base lim =
    let round = do
      ord ← probe (base + lim / 2)
      elim ord [
        | Ordering.eq ↦ ok (exact (base + lim / 2))
        | Ordering.gt ↦ do
          fewer ← sub_usize lim 1
          bisect probe fuel (base + lim / 2 + 1) (fewer / 2)
        | Ordering.lt ↦ bisect probe fuel base (lim / 2)
      ]
    in if lim == 0 then ok (missing base) else round

-- Each round at least halves `lim`, so one round more than entries is enough.
unfoldable pub bisect_all : (ℕ → Outcome Ordering) → ℕ → Outcome Found
bisect_all probe n = bisect probe (suc n) 0 n
