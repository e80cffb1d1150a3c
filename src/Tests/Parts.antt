-- ===== src/Tests/Parts.antt =====
-- The theorems about single parts of the program, on small inputs.
use db.Prelude.{
  ℕ, ◌+◌, ◌-◌, ◌*◌, ◌/◌, ◌≤◌, ◌≡◌, refl, List, [], ◌∷◌, ◌++◌, replicate, length, none, some, ◌⊎◌,
  true, false, arith, Ordering, compare, leb,
}
use db.Outcomes.{Outcome, ok}
use db.Words.{little, from_ne_u16, from_ne_u32}
use db.Format.{page_header_size}
use db.Order.{cmp, ◌≺◌}
use db.Bisect.{Found, bisect_all}
use db.Bisect.Correct.{IsOrdered, Locates, bisect_all-Locates}
use db.Db.{Db, page}
use db.Page.{parse, read_u16, read_u32}
use db.Db.Overflow.{fetch_loop, chain_part, chain_page, fetch_overflow, compare_overflow}
use db.Db.Overflow.Whole.{length-fetch_overflow}
use db.Db.Settles.{fetch_overflow-settles}
use db.Outcomes.Settles.{settles}
use db.Db.Overflow.Compare.{compare_overflow-fetch_overflow}
use db.Iter.{Entry, pristine, done, next}
use db.Iter.Fused.{next-fused}
use db.Writer.Plan.{SplitPlan, psplit_loop}
use db.Writer.Plan.Balance.{Fits, slot_cost, sum_below, psplit_loop-Fits}
use db.Writer.Plan.Single.{psplit_loop-one_entry}
use db.Writer.Separator.{leaf, bt_defpfx, encoded_size}
use db.Writer.Separator.Shortest.{
  IsShortest, Separates, bt_defpfx-IsShortest, encoded_size-Separates,
}

-- the comparison of 5 with the keys 0, 2, 4, 6
abbrev key_order : ℕ → Ordering
key_order i = compare 5 (2 * i)

abbrev key_probe : ℕ → Outcome Ordering
key_probe i = ok (key_order i)

key_order-IsOrdered : IsOrdered key_order 4
key_order-IsOrdered = record {
  greater = λ i j le lt e. ground arith;
  less = λ i j le lt e. ground arith;
}

bisect_all-Locates_example : (f : Found) × (bisect_all key_probe 4 ≡ ok f) × Locates key_order 4 f
bisect_all-Locates_example =
    bisect_all-Locates key_probe key_order 4 (λ i lt. refl) key_order-IsOrdered

-- A file of two pages of 24 bytes, the second one an overflow page with the bytes 1, 2, 3, 4.
abbrev chain_db : Db
chain_db = record {
  mmap =
      replicate 24 0
      ++ (1 ∷ 0 ∷ 0 ∷ 0 ∷ 0 ∷ 0 ∷ 0 ∷ 0 ∷ 0 ∷ 0 ∷ 0 ∷ 0 ∷ 4 ∷ 0 ∷ 0 ∷ 0 ∷ 20 ∷ 0 ∷ 24 ∷ 0 ∷ 1 ∷ 2
          ∷ 3 ∷ 4 ∷ []);
  psize = 24;
  swap = false;
}

abbrev chain_bytes : List ℕ
chain_bytes = 1 ∷ 2 ∷ 3 ∷ []

chain_fetched : fetch_overflow little chain_db 1 3 ≡ ok chain_bytes
unfolding fetch_overflow fetch_loop chain_part chain_page page parse read_u32 read_u16 from_ne_u16
    from_ne_u32
chain_fetched = refl

compare_overflow-fetch_overflow_example :
    compare_overflow little chain_db (1 ∷ 3 ∷ []) 1 3 ≡ ok (cmp (1 ∷ 3 ∷ []) chain_bytes)
compare_overflow-fetch_overflow_example =
    compare_overflow-fetch_overflow little chain_db (1 ∷ 3 ∷ []) 1 3 (omega arith) chain_fetched

length-fetch_overflow_example : length chain_bytes ≡ 3
length-fetch_overflow_example = length-fetch_overflow little chain_db 1 3 chain_bytes chain_fetched

fetch_overflow-settles_example : settles (fetch_overflow little chain_db 1 9) ≡ true
fetch_overflow-settles_example = fetch_overflow-settles little chain_db (omega arith) 1 9

next-fused_example :
    ((entry : Entry) × ((next little chain_db 5 pristine).0 ≡ some (ok entry)))
    ⊎ (next little chain_db 5 (next little chain_db 5 pristine).1 ≡ (none, done))
next-fused_example = next-fused little chain_db 5 5 pristine

-- A page of 512 bytes with three entries of 120 bytes each.
abbrev entry_sizes : ℕ → ℕ
entry_sizes i = 120

sizes_fit :
    sum_below (slot_cost 1 140 entry_sizes) 4
    ≤ (512 - page_header_size) + (512 - page_header_size) / 2
unfolding sum_below
sizes_fit = omega arith

psplit_loop-Fits_example :
    (plan : SplitPlan) × (psplit_loop 1 140 512 3 (λ i. ok (entry_sizes i)) ≡ ok plan)
    × (plan.right_target ≡ leb plan.left_slots 1)
    × Fits 492 3 (slot_cost 1 140 entry_sizes) plan.left_slots
psplit_loop-Fits_example =
    psplit_loop-Fits 1 140 512 3 (λ i. ok (entry_sizes i)) entry_sizes (omega arith) (omega arith)
      (omega arith) (λ i lt. refl) (λ o le. ground arith) sizes_fit

psplit_loop-one_entry_example :
    psplit_loop 1 312 512 1 (λ i. ok 312) ≡ ok (record { left_slots = 0; right_target = true })
psplit_loop-one_entry_example = psplit_loop-one_entry 1 312 512 (λ i. ok 312) 312 (omega arith) refl

above_example : (1 ∷ 2 ∷ 9 ∷ []) ≺ (1 ∷ 4 ∷ 0 ∷ 7 ∷ [])
unfolding cmp
above_example = refl

bt_defpfx-IsShortest_example :
    IsShortest
      (1 ∷ 2 ∷ 9 ∷ [])
      (1 ∷ 4 ∷ 0 ∷ 7 ∷ [])
      (bt_defpfx (1 ∷ 2 ∷ 9 ∷ []) (1 ∷ 4 ∷ 0 ∷ 7 ∷ []))
bt_defpfx-IsShortest_example =
    bt_defpfx-IsShortest (1 ∷ 2 ∷ 9 ∷ []) (1 ∷ 4 ∷ 0 ∷ 7 ∷ []) above_example

encoded_size-Separates_example :
    Separates
      (1 ∷ 2 ∷ 9 ∷ [])
      (1 ∷ 4 ∷ 0 ∷ 7 ∷ [])
      (encoded_size (leaf (1 ∷ 4 ∷ 0 ∷ 7 ∷ []) 5 (1 ∷ 2 ∷ 9 ∷ [])) 3 2)
encoded_size-Separates_example =
    encoded_size-Separates (1 ∷ 4 ∷ 0 ∷ 7 ∷ []) (1 ∷ 2 ∷ 9 ∷ []) 5 3 2 above_example
