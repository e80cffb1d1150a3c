-- ===== src/Writer/Plan/Balance.antt =====
-- A split fits: if no entry takes more than half a page, both pages of the plan have room for what
-- it gives them, and neither is empty.
use db.Prelude.{
  ℕ, zero, suc, ◌+◌, ◌-◌, ◌/◌, ◌≤◌, ◌<◌, ◌≡◌, refl, ◌∙◌, ◌==◌, ltb, leb, if◌then◌else◌, arith,
  Bool-cases, inl, inr, leb→le,
}
use native.Mathlib.Decide.{dec_lt}
use db.Outcomes.{Outcome, ok, sub_usize-eq-ok}
use db.Format.{page_header_size}
use db.Writer.Plan.{SplitPlan, plan_loop, psplit_loop}

-- the sum of the costs of the slots below `n`
unfoldable pub sum_below : (ℕ → ℕ) → ℕ → ℕ
sum_below c zero = 0
sum_below c (suc n) = sum_below c n + c n

-- the source entry of slot `o`, behind the slot `skip` of the new entry or before it
abbrev pub source_of : ℕ → ℕ → ℕ
source_of skip o = if ltb skip o then o - 1 else o

-- The bytes that slot `o` costs, its `linp` slot included: those of the new entry at `skip`, and
-- of the source entries around it.
abbrev pub slot_cost : ℕ → ℕ → (ℕ → ℕ) → ℕ → ℕ
slot_cost skip ilen size o = if skip == o then ilen + 2 else size (source_of skip o) + 2

-- What a plan must give: slots for both pages, which fit into `full` bytes.
pub record Fits (full top : ℕ) (cost : ℕ → ℕ) (left : ℕ) : Type 0 where
  pub left_some : 1 ≤ left
  pub right_some : left ≤ top
  pub left_room : sum_below cost left ≤ full
  pub right_room : sum_below cost (suc top) ≤ sum_below cost left + full

module _ (skip ilen full top : ℕ) (entry_size : ℕ → Outcome ℕ) (size : ℕ → ℕ)
    (reads : (i : ℕ) → i < top → entry_size i ≡ ok (size i)) (inside : skip ≤ top)
    (small : (o : ℕ) → o ≤ top → slot_cost skip ilen size o ≤ full / 2) where
  abbrev cost : ℕ → ℕ
  cost = slot_cost skip ilen size

  -- One round that does not end the loop for want of source entries.
  plan_round :
      (fuel used off : ℕ)
      → source_of skip off + 1 < top
      → used < full / 2
      → plan_loop skip ilen full top entry_size (suc fuel) used (source_of skip off) off ≡ (
          if leb (full / 2) (used + cost off)
          then ok (suc off)
          else plan_loop skip ilen full top entry_size fuel
              (used + cost off)
              (source_of skip (suc off))
              (suc off))
  unfolding plan_loop
  plan_round fuel used off lt half = ground (arith, reads (source_of skip off), small off)

  plan_last :
      (fuel used off : ℕ)
      → source_of skip off + 1 ≡ top
      → plan_loop skip ilen full top entry_size (suc fuel) used (source_of skip off) off ≡ ok off
  unfolding plan_loop
  plan_last fuel used off e = ground (arith, reads (source_of skip off))

  -- Behind the last slots that the loop can reach, at most two entries are left.
  last_two :
      (off : ℕ)
      → source_of skip off + 1 ≡ top
      → sum_below cost (suc top) ≤ sum_below cost off + full
  unfolding sum_below
  last_two off e = elim (dec_lt skip off) [
    | yes lt ↦ let here : off ≡ top = ground arith in rw here (omega (arith, small top))
    | no ge ↦
        let next : top ≡ suc off = ground arith in
        rw next (omega (arith, rw next at (small off), rw next at (small (suc off))))
  ]

  sum-suc : (off : ℕ) → sum_below cost (suc off) ≡ sum_below cost off + cost off
  unfolding sum_below
  sum-suc off = refl

  module _ (whole : sum_below cost (suc top) ≤ full + full / 2) where
    last-Fits :
        (off : ℕ)
        → source_of skip off + 1 ≡ top
        → (off ≡ 0 → 1 < top)
        → sum_below cost off < full / 2
        → Fits full top cost off
    last-Fits off last first half = record {
      left_some = ground arith;
      right_some = ground arith;
      left_room = omega arith;
      right_room = last_two off last;
    }

    filled-Fits :
        (off : ℕ)
        → source_of skip off + 1 < top
        → sum_below cost off < full / 2
        → full / 2 ≤ sum_below cost off + cost off
        → Fits full top cost (suc off)
    filled-Fits off more half filled = record {
      left_some = omega arith;
      right_some = ground arith;
      left_room = omega (arith, sum-suc off, small off (ground arith));
      right_room = omega (arith, sum-suc off);
    }

    plan_loop-Fits :
        (fuel off : ℕ)
        → top < fuel + off
        → source_of skip off < top
        → (off ≡ 0 → 1 < top)
        → sum_below cost off < full / 2
        → (left : ℕ) × (plan_loop skip ilen full top entry_size fuel
              (sum_below cost off)
              (source_of skip off)
              off
            ≡ ok left)
          × Fits full top cost left
    plan_loop-Fits zero off f lt first half = absurd (ground arith)
    plan_loop-Fits (suc fuel) off f lt first half = elim (dec_lt (source_of skip off + 1) top) [
      | no last ↦ (
        off,
        plan_last fuel (sum_below cost off) off (omega arith),
        last-Fits off (omega arith) first half,
      )
      | yes more ↦ elim (Bool-cases (leb (full / 2) (sum_below cost off + cost off))) [
        | inl filled ↦ (
          suc off,
          plan_round fuel (sum_below cost off) off more half ∙ rw filled refl,
          filled-Fits off more half (leb→le _ _ filled),
        )
        | inr on ↦
            let (left, r, fits) =
              plan_loop-Fits fuel (suc off) (omega arith) (ground arith) (λ z. absurd (omega arith))
                (ground (arith, sum-suc off)) in
            (
              left,
              plan_round fuel (sum_below cost off) off more half ∙ rw (on, ← sum-suc off) r,
              fits,
            )
      ]
    ]

source_of-zero : (skip : ℕ) → source_of skip 0 ≡ 0
source_of-zero skip = ground arith

-- For a page of at least two entries whose sizes can be read, and a new one at slot `skip` of it
-- or behind its end, none of which takes with its pointer more than half of the bytes behind a
-- page's header, and which together take at most one and a half times those bytes: the loop ends,
-- and the plan gives each of the two pages a slot at least and at most those bytes, and puts the
-- new entry on the right exactly if its slot is not among those of the left page.
pub psplit_loop-Fits :
    (skip ilen psize top : ℕ) (entry_size : ℕ → Outcome ℕ) (size : ℕ → ℕ)
    → page_header_size + 4 ≤ psize
    → 2 ≤ top
    → skip ≤ top
    → ((i : ℕ) → i < top → entry_size i ≡ ok (size i))
    → ((o : ℕ) → o ≤ top → slot_cost skip ilen size o ≤ (psize - page_header_size) / 2)
    → sum_below (slot_cost skip ilen size) (suc top)
      ≤ (psize - page_header_size) + (psize - page_header_size) / 2
    → (plan : SplitPlan) × (psplit_loop skip ilen psize top entry_size ≡ ok plan)
      × (plan.right_target ≡ leb plan.left_slots skip)
      × Fits (psize - page_header_size) top (slot_cost skip ilen size) plan.left_slots
unfolding psplit_loop sum_below
psplit_loop-Fits skip ilen psize top entry_size size roomy two inside reads small whole =
    let (left, r, fits) =
      plan_loop-Fits skip ilen (psize - page_header_size) top entry_size size reads inside small
        whole (top + 2) 0 (omega arith) (ground arith) (λ _. omega arith) (omega arith) in
    (
      record { left_slots = left; right_target = leb left skip },
      rw (sub_usize-eq-ok psize page_header_size (omega arith))
          (rw (rw (source_of-zero skip) at r)),
      refl,
      fits,
    )
