-- ===== src/Writer/Plan.antt =====
-- src/writer/mod.rs: how a split shares the entries of a page between two, `psplit_loop`.
pub mod Balance
pub mod Single
use db.Prelude.{
  ℕ, zero, suc, ◌+◌, ◌-◌, ◌/◌, Bool, ◌==◌, leb, if◌then◌else◌, ◌||◌, ◌&&◌, Option, none, some, List,
  length,
}
use db.Outcomes.{Outcome, ok, out_of_fuel, ◌>>=◌, sub_usize}
use db.Words.{Endian}
use db.Format.{page_header_size}
use db.Page.{PageView, leaf_entry, internal_entry, inline_bytes}
use db.Writer.Entries.{leaf_nbytes, internal_nbytes}

-- Slots of the left page, the reserved one included, and the side of the new entry.
pub record SplitPlan : Type 0 where
  pub left_slots : ℕ
  pub right_target : Bool

-- No subtraction below goes under zero: the new entry is on the left only if `skip < left_slots`.
abbrev pub h_in_l : SplitPlan → ℕ
h_in_l plan = if plan.right_target then plan.left_slots else plan.left_slots - 1

abbrev pub l_skip : SplitPlan → ℕ → Option ℕ
l_skip plan skip = if plan.right_target then none else some skip

abbrev pub r_skip : SplitPlan → ℕ → Option ℕ
r_skip plan skip = if plan.right_target then some (skip - plan.left_slots) else none

abbrev pub target_slot : SplitPlan → ℕ → ℕ
target_slot plan skip = if plan.right_target then skip - plan.left_slots else skip

-- The loop at `used`, `nxt` and `off`, with the `off` that it ends with. `off` grows in each round
-- and stays at most `top + 1`, so `top + 2` rounds are enough.
unfoldable pub plan_loop : (skip ilen full top : ℕ) → (ℕ → Outcome ℕ) → ℕ → ℕ → ℕ → ℕ → Outcome ℕ
plan_loop skip ilen full top entry_size zero used nxt off = out_of_fuel
plan_loop skip ilen full top entry_size (suc fuel) used nxt off =
    let round = do
      nbytes ← if skip == off then ok ilen else entry_size nxt
      let rest =
          plan_loop skip ilen full top entry_size fuel (used + nbytes + 2)
            (if skip == off then nxt else nxt + 1) (off + 1)
      if (leb skip off && leb full (used + nbytes + 2)) || nxt + 1 == top
          then ok off
          else if leb (full / 2) (used + nbytes + 2)
          then ok (off + 1)
          else rest
    in if leb top nxt then ok off else round

unfoldable pub psplit_loop : (skip ilen psize top : ℕ) → (ℕ → Outcome ℕ) → Outcome SplitPlan
psplit_loop skip ilen psize top entry_size = do
  full ← sub_usize psize page_header_size
  left_slots ← plan_loop skip ilen full top entry_size (top + 2) 0 0 0
  ok (record { left_slots = left_slots; right_target = leb left_slots skip })

module _ (h : Endian) where
  unfoldable pub entry_nbytes : PageView → ℕ → Outcome ℕ
  entry_nbytes view idx = do
    entry ← leaf_entry h view idx
    key ← inline_bytes view entry.key
    val ← inline_bytes view entry.value
    ok (leaf_nbytes (length key) (length val))

  unfoldable pub internal_entry_nbytes : PageView → ℕ → Outcome ℕ
  internal_entry_nbytes view idx = do
    entry ← internal_entry h view idx
    key ← inline_bytes view entry.key
    ok (internal_nbytes (length key))

  unfoldable pub compute_psplit_split_leaf : PageView → ℕ → ℕ → ℕ → Outcome SplitPlan
  unfolding entry_nbytes
  compute_psplit_split_leaf view skip ilen psize =
      psplit_loop skip ilen psize view.nentries (entry_nbytes view)

  unfoldable pub compute_psplit_split_internal : PageView → ℕ → ℕ → ℕ → Outcome SplitPlan
  unfolding internal_entry_nbytes
  compute_psplit_split_internal view skip ilen psize =
      psplit_loop skip ilen psize view.nentries (internal_entry_nbytes view)
