-- ===== src/Bisect/Correct.antt =====
-- The binary search ends, reads only inside the range, and on ordered keys finds what is there.
use db.Prelude.{ℕ, zero, suc, ◌+◌, ◌-◌, ◌/◌, ◌≤◌, ◌<◌, ◌≡◌, refl, ◌⊎◌, inl, inr, Ordering, arith}
use db.Outcomes.{Outcome, ok, sub_usize-eq-ok}
use db.Bisect.{Found, exact, missing, bisect, bisect_all}

-- `ord i` is the comparison of the searched key with key `i`: greater, then equal, then less.
pub record IsOrdered (ord : ℕ → Ordering) (n : ℕ) : Type 0 where
  pub greater : (i j : ℕ) → i ≤ j → j < n → ord j ≡ Ordering.gt → ord i ≡ Ordering.gt
  pub less : (i j : ℕ) → i ≤ j → j < n → ord i ≡ Ordering.lt → ord j ≡ Ordering.lt

-- What the search reports: an index of an equal key, or the place between the smaller and the
-- larger ones.
abbrev pub Locates : (ℕ → Ordering) → ℕ → Found → Type 0
Locates ord n (exact i) = (i < n) × (ord i ≡ Ordering.eq)
Locates ord n (missing b) =
    (b ≤ n)
    × ((i : ℕ) → i < b → ord i ≡ Ordering.gt)
    × ((i : ℕ) → b ≤ i → i < n → ord i ≡ Ordering.lt)

Ordering-cases : (o : Ordering) → (o ≡ Ordering.lt) ⊎ ((o ≡ Ordering.eq) ⊎ (o ≡ Ordering.gt))
Ordering-cases Ordering.lt = inl refl
Ordering-cases Ordering.eq = inr (inl refl)
Ordering-cases Ordering.gt = inr (inr refl)

module _ (probe : ℕ → Outcome Ordering) (ord : ℕ → Ordering) (n : ℕ)
    (reads : (i : ℕ) → i < n → probe i ≡ ok (ord i)) where
  bisect_done : (fuel base : ℕ) → bisect probe (suc fuel) base 0 ≡ ok (missing base)
  unfolding bisect
  bisect_done fuel base = refl

  bisect_step :
      (fuel base lim : ℕ)
      → 0 < lim
      → base + lim ≤ n
      → bisect probe (suc fuel) base lim ≡ elim (ord (base + lim / 2)) [
        | Ordering.eq ↦ ok (exact (base + lim / 2))
        | Ordering.gt ↦ bisect probe fuel (base + lim / 2 + 1) ((lim - 1) / 2)
        | Ordering.lt ↦ bisect probe fuel base (lim / 2)
      ]
  unfolding bisect
  bisect_step fuel base lim h k = ground (arith, reads (base + lim / 2), sub_usize-eq-ok lim 1)

  module _ (ordered : IsOrdered ord n) where
    bisect-Locates :
        (fuel base lim : ℕ)
        → lim < fuel
        → base + lim ≤ n
        → ((i : ℕ) → i < base → ord i ≡ Ordering.gt)
        → ((i : ℕ) → base + lim ≤ i → i < n → ord i ≡ Ordering.lt)
        → (f : Found) × (bisect probe fuel base lim ≡ ok f) × Locates ord n f
    bisect-Locates zero base lim h k below above = absurd (omega arith)
    bisect-Locates (suc fuel) base zero h k below above = (
      missing base,
      bisect_done fuel base,
      (omega arith, below, λ i p q. above i (omega arith) q),
    )
    bisect-Locates (suc fuel) base (suc lim) h k below above = elim (Ordering-cases (ord mid)) [
      | inl e ↦
          let (f, r, found) =
            bisect-Locates fuel base (suc lim / 2) (omega arith) (omega arith) below
              (λ i p q. ordered.less mid i (omega arith) q e) in
          (f, rw (step, e) r, found)
      | inr (inl e) ↦ (exact mid, rw (step, e), (omega arith, e))
      | inr (inr e) ↦
          let (f, r, found) =
            bisect-Locates fuel (mid + 1) ((suc lim - 1) / 2) (omega arith) (omega arith)
              (λ i p. ordered.greater i mid (omega arith) (omega arith) e)
              (λ i p q. above i (omega arith) q) in
          (f, rw (step, e) r, found)
    ]
      where
        mid : ℕ
        mid = base + suc lim / 2

        step : bisect probe (suc fuel) base (suc lim) ≡ elim (ord mid) [
          | Ordering.eq ↦ ok (exact mid)
          | Ordering.gt ↦ bisect probe fuel (mid + 1) ((suc lim - 1) / 2)
          | Ordering.lt ↦ bisect probe fuel base (suc lim / 2)
        ]
        step = bisect_step fuel base (suc lim) (omega arith) k

    -- Where each comparison of the key with one of the `n` entries succeeds, and the entries are
    -- ordered, the search ends and locates the key: the index of an equal entry, or the place
    -- between the smaller and the larger ones.
    pub bisect_all-Locates : (f : Found) × (bisect_all probe n ≡ ok f) × Locates ord n f
    unfolding bisect_all
    bisect_all-Locates =
        bisect-Locates (suc n) 0 n (omega arith) (omega arith) (λ i p. absurd (omega arith))
          (λ i p q. absurd (omega arith))
