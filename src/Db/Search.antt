-- ===== src/Db/Search.antt =====
-- src/db.rs: the descent from the root to a leaf, the searches on a page, and `get`. The descent
-- takes fuel: nothing in the code bounds it on a file whose pages link back.
use db.Prelude.{ℕ, zero, suc, List, not, ◌==◌, if◌then◌else◌, ◌&&◌, Option, none, some, Ordering}
use db.Outcomes.{Outcome, ok, out_of_fuel, sub_usize, ◌>>=◌, ◌>>◌, fail_if, corrupt_page}
use db.Words.{Endian}
use db.Format.{p_invalid, p_root}
use db.Page.{PageView, parse, is_leaf, is_internal, leaf_entry, internal_entry}
use db.Bisect.{Found, exact, missing, bisect_all}
use db.Db.{Db, page}
use db.Db.Overflow.{compare_item, materialise}

pub record Position : Type 0 where
  pub pgno : ℕ
  pub index : ℕ

-- The slot that the descent chooses: the match, or the one before the insertion point.
abbrev pub chosen_slot : Found → Outcome ℕ
chosen_slot (exact idx) = ok idx
chosen_slot (missing base) = if base == 0 then ok 0 else sub_usize base 1

module _ (h : Endian) (db : Db) where
  -- the comparison of one round of `search_leaf`
  unfoldable pub leaf_probe : PageView → List ℕ → ℕ → Outcome Ordering
  leaf_probe view key idx = do entry ← leaf_entry h view idx; compare_item h db key view entry.key

  unfoldable pub search_leaf : PageView → List ℕ → Outcome (Option Position)
  search_leaf view key = do
    found ← bisect_all (leaf_probe view key) view.nentries
    elim found [
      | exact idx ↦ ok (some (record { pgno = view.pgno; index = idx }))
      | missing base ↦ ok none
    ]

  -- the comparison of one round of `descend_internal`
  unfoldable pub internal_probe : PageView → List ℕ → ℕ → Outcome Ordering
  internal_probe view key idx = do
    entry ← internal_entry h view idx
    if idx == 0 && view.prev_pg == p_invalid
        then ok Ordering.gt
        else compare_item h db key view entry.key

  unfoldable pub descend_internal : PageView → List ℕ → Outcome ℕ
  descend_internal view key = do
    found ← bisect_all (internal_probe view key) view.nentries
    chosen ← chosen_slot found
    entry ← internal_entry h view chosen
    ok entry.child

  -- the `loop` of `search`, at page `pgno`
  unfoldable pub search_loop : ℕ → ℕ → List ℕ → Outcome (Option Position)
  search_loop zero pgno key = out_of_fuel
  search_loop (suc fuel) pgno key = do
    bytes ← page db pgno
    view ← parse h pgno bytes db.swap
    let deeper = do
      fail_if (not (is_internal view)) (corrupt_page pgno "non-internal page during descent")
      child ← descend_internal view key
      search_loop fuel child key
    if is_leaf view then search_leaf view key else deeper

  unfoldable pub search : ℕ → List ℕ → Outcome (Option Position)
  search fuel key = search_loop fuel p_root key

  unfoldable pub get : ℕ → List ℕ → Outcome (Option (List ℕ))
  get fuel key = do
    pos ← search fuel key
    elim pos [
      | none ↦ ok none
      | some p ↦ do
        bytes ← page db p.pgno
        view ← parse h p.pgno bytes db.swap
        entry ← leaf_entry h view p.index
        value ← materialise h db view entry.value
        ok (some value)
    ]
