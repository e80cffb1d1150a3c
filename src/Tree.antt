-- ===== src/Tree.antt =====
-- The way from a page to the leaf of a key, as the separators of the internal pages say it.
pub mod Descent
pub mod Lookup
pub mod Nodes
pub mod Chain
pub mod Scan
use db.Prelude.{ℕ, zero, suc, ◌≤◌, ◌<◌, ◌≡◌, ◌⊎◌, List, Bool, true, false}
use db.Outcomes.{ok}
use db.Words.{Endian}
use db.Page.{
  PageView, InternalEntry, inline, parse, is_leaf, is_internal, internal_entry, inline_bytes,
}
use db.Order.{◌≺◌}
use db.Db.{Db, page}

-- Page `pgno` is an internal page whose separators ascend, none of them on an overflow chain. Its
-- entry `slot` is the last one whose separator is not above the key, or the first one where all
-- others are above it, and leads to page `child`.
pub record IsBranch (h : Endian) (db : Db) (key : List ℕ) (pgno child : ℕ) : Type 0 where
  pub bytes : List ℕ
  pub view : PageView
  pub at : page db pgno ≡ ok bytes
  pub parsed : parse h pgno bytes db.swap ≡ ok view
  pub not_leaf : is_leaf view ≡ false
  pub inner : is_internal view ≡ true
  pub offset : ℕ → ℕ
  pub size : ℕ → ℕ
  pub kid : ℕ → ℕ
  pub sep : ℕ → List ℕ
  pub entries :
      (i : ℕ)
      → i < view.nentries
      → internal_entry h view i ≡ ok (record { key = inline (offset i) (size i); child = kid i })
  pub seps :
      (i : ℕ) → i < view.nentries → inline_bytes view (inline (offset i) (size i)) ≡ ok (sep i)
  pub ascend : (i j : ℕ) → i < j → j < view.nentries → sep i ≺ sep j
  pub slot : ℕ
  pub slot_in : slot < view.nentries
  pub slot_kid : kid slot ≡ child
  pub not_above : 0 < slot → (sep slot ≡ key) ⊎ (sep slot ≺ key)
  pub above : (j : ℕ) → slot < j → j < view.nentries → key ≺ sep j

-- From page `pgno` the separators lead in `depth` steps to page `leaf`.
pub data Leads (h : Endian) (db : Db) (key : List ℕ) : ℕ → ℕ → ℕ → Type 0 where
  here : (pgno : ℕ) → Leads h db key pgno 0 pgno
  down :
      (pgno child depth leaf : ℕ)
      → IsBranch h db key pgno child
      → Leads h db key child depth leaf
      → Leads h db key pgno (suc depth) leaf
