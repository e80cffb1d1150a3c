-- ===== src/Writer/Pages.antt =====
-- src/writer/mod.rs: the descent from the root to a leaf, and the search on a leaf. The descent
-- takes fuel.
use db.Prelude.{ℕ, zero, suc, List, [], ◌∷◌, Bool, true, false, ◌==◌, if◌then◌else◌, ◌&&◌, Ordering}
use db.Outcomes.{sub_usize, Outcome, ok, out_of_fuel, ◌>>=◌}
use db.Words.{Endian}
use db.Format.{p_invalid, p_root}
use db.Order.{cmp}
use db.Page.{PageView, parse, leaf_entry, internal_entry, inline_bytes}
use db.PageBuf
use db.Bisect.{exact, missing, bisect_all}
use db.Writer.{Writer, page_bytes}

-- The path holds the internal pages passed, with the slot taken on each: the last one first.
pub record Spine : Type 0 where
  pub path : List (ℕ × ℕ)
  pub leaf_pgno : ℕ

module _ (h : Endian) where
  unfoldable pub leaf_search_probe : PageView → List ℕ → ℕ → Outcome Ordering
  leaf_search_probe view key idx = do
    entry ← leaf_entry h view idx
    entry_key ← inline_bytes view entry.key
    ok (cmp key entry_key)

  unfoldable pub leaf_search : ℕ → List ℕ → List ℕ → Outcome (Bool × ℕ)
  leaf_search pgno page key = do
    view ← parse h pgno page false
    found ← bisect_all (leaf_search_probe view key) view.nentries
    elim found [ exact idx ↦ ok (true, idx) | missing base ↦ ok (false, base) ]

  unfoldable pub pick_probe : PageView → List ℕ → Bool → ℕ → Outcome Ordering
  pick_probe view key leftmost idx = do
    entry ← internal_entry h view idx
    let compared = do entry_key ← inline_bytes view entry.key; ok (cmp key entry_key)
    if idx == 0 && leftmost then ok Ordering.gt else compared

  unfoldable pub descend_internal_pick : PageView → List ℕ → Bool → Outcome ℕ
  descend_internal_pick view key leftmost = do
    found ← bisect_all (pick_probe view key leftmost) view.nentries
    elim found [ exact idx ↦ ok idx | missing base ↦ if base == 0 then ok 0 else sub_usize base 1 ]

  -- the `loop` of `descend`, at page `current` with the path so far
  unfoldable pub descend_loop : Writer → List ℕ → ℕ → List (ℕ × ℕ) → ℕ → Outcome Spine
  descend_loop w key zero path current = out_of_fuel
  descend_loop w key (suc fuel) path current = do
    page ← page_bytes w current
    leaf ← PageBuf.is_leaf h page
    let deeper = do
      view ← parse h current page false
      chosen ← descend_internal_pick view key (view.prev_pg == p_invalid)
      entry ← internal_entry h view chosen
      descend_loop w key fuel ((current, chosen) ∷ path) entry.child
    if leaf then ok (record { path = path; leaf_pgno = current }) else deeper

  unfoldable pub descend : ℕ → Writer → List ℕ → Outcome Spine
  descend fuel w key = descend_loop w key fuel [] p_root
