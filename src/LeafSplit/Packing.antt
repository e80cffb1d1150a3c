-- ===== src/LeafSplit/Packing.antt =====
-- Entries that share no byte take no more than the space between `upper` and the end of their page.
use db.Prelude.{ℕ, zero, suc, ◌+◌, ◌-◌, ◌≤◌, ◌<◌, ◌≢◌, ◌⊎◌, if◌then◌else◌, leb, arith}
use db.Writer.Plan.Balance.{sum_below}

-- Ranges without a common byte, inside `lo` to `hi`.
pub record Apart (lo hi n : ℕ) (off size : ℕ → ℕ) : Type 0 where
  pub low : (i : ℕ) → i < n → lo ≤ off i
  pub high : (i : ℕ) → i < n → off i + size i ≤ hi
  pub apart :
      (i j : ℕ) → i < n → j < n → i ≢ j → (off i + size i ≤ off j) ⊎ (off j + size j ≤ off i)

-- The other ranges, with the bytes of the last one closed.
abbrev closed : ℕ → ℕ → (ℕ → ℕ) → ℕ → ℕ
closed at len off i = if leb (at + len) (off i) then off i - len else off i

close_last :
    (lo hi n : ℕ) (off size : ℕ → ℕ)
    → Apart lo hi (suc n) off size
    → Apart lo (hi - size n) n (closed (off n) (size n) off) size
close_last lo hi n off size v = record {
  low = λ i lt. ground (arith, v.low i (omega arith), v.low n (omega arith));
  high = λ i lt. ground (
    arith,
    v.high i (omega arith),
    v.high n (omega arith),
    v.apart i n (omega arith) (omega arith) (omega arith),
  );
  apart = λ i j li lj ne. ground (
    arith,
    v.apart i j (omega arith) (omega arith) ne,
    v.apart i n (omega arith) (omega arith) (omega arith),
    v.apart j n (omega arith) (omega arith) (omega arith),
  );
}

pub sum-Apart :
    (n lo hi : ℕ) (off size : ℕ → ℕ) → lo ≤ hi → Apart lo hi n off size → lo + sum_below size n ≤ hi
unfolding sum_below
sum-Apart zero lo hi off size le v = omega arith
sum-Apart (suc n) lo hi off size le v =
    let first = v.low n (omega arith) in
    let last = v.high n (omega arith) in
    omega (
      arith,
      sum-Apart n lo (hi - size n) (closed (off n) (size n) off) size (omega arith)
          (close_last lo hi n off size v),
    )
