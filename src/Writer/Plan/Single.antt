-- ===== src/Writer/Plan/Single.antt =====
-- `psplit_loop` on a page of one entry.
use db.Prelude.{ℕ, zero, suc, ◌≤◌, ◌≡◌, true, arith}
use db.Outcomes.{Outcome, ok, sub_usize-eq-ok}
use db.Format.{page_header_size}
use db.Writer.Plan.{plan_loop, psplit_loop}

-- For a page of one entry whose size can be read, and a new entry at any slot, of whatever sizes,
-- on a page size that is not below the page header: the plan gives the left page no slot at all,
-- so that both entries go to the right page.
pub psplit_loop-one_entry :
    (skip ilen psize : ℕ) (entry_size : ℕ → Outcome ℕ) (size : ℕ)
    → page_header_size ≤ psize
    → entry_size 0 ≡ ok size
    → psplit_loop skip ilen psize 1 entry_size ≡ ok (record { left_slots = 0; right_target = true })
unfolding psplit_loop plan_loop
psplit_loop-one_entry zero ilen psize entry_size size roomy reads =
    rw (sub_usize-eq-ok psize page_header_size roomy) (ground arith)
psplit_loop-one_entry (suc skip) ilen psize entry_size size roomy reads =
    rw (sub_usize-eq-ok psize page_header_size roomy, reads) (ground arith)
