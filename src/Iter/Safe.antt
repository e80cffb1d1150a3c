-- ===== src/Iter/Safe.antt =====
-- A scan of any file does not panic.
use db.Prelude.{ℕ, zero, suc, ◌<◌, ◌≡◌, ◌≢◌, refl, List, true, arith, some}
use db.Outcomes.{ok, panic}
use db.Outcomes.Settles.{is_safe}
use db.Words.{Endian}
use db.Format.{page_header_size, p_root}
use db.Page.Settles.{parse-settles, leaf_entry-settles, internal_entry-settles}
use db.Db.{Db, open_db}
use db.Db.Settles.{page-settles, materialise-settles}
use db.Db.Ends.{open_db-roomy}
use db.Iter.{
  Cursor, State, pristine, active, done, initial_loop, initial_state, advance_leaf, yield_current,
  next_loop, next,
}

module _ (h : Endian) (db : Db) where
  initial_loop-is_safe : (fuel pgno : ℕ) → is_safe (initial_loop h db fuel pgno) ≡ true
  unfolding initial_loop
  initial_loop-is_safe zero pgno = refl
  initial_loop-is_safe (suc fuel) pgno = grind (
    arith,
    page-settles h db pgno,
    parse-settles,
    internal_entry-settles,
    initial_loop-is_safe fuel,
  )

  advance_leaf-is_safe : (fuel next_pg : ℕ) → is_safe (advance_leaf h db fuel next_pg) ≡ true
  unfolding advance_leaf
  advance_leaf-is_safe zero next_pg = refl
  advance_leaf-is_safe (suc fuel) next_pg =
      grind (arith, page-settles h db next_pg, parse-settles, advance_leaf-is_safe fuel)

  module _ (roomy : page_header_size < db.psize) where
    yield_current-is_safe :
        (fuel : ℕ) (cursor : Cursor) → is_safe (yield_current h db fuel cursor) ≡ true
    unfolding yield_current
    yield_current-is_safe fuel cursor =
        grind (arith, leaf_entry-settles, materialise-settles h db roomy, advance_leaf-is_safe fuel)

    next_loop-ne-panic :
        (rounds fuel : ℕ) (state : State) → (next_loop h db rounds fuel state).0 ≢ some panic
    unfolding next_loop initial_state
    next_loop-ne-panic zero fuel state = λ e. cc
    next_loop-ne-panic (suc rounds) fuel done = λ e. cc
    next_loop-ne-panic (suc rounds) fuel pristine =
        grind (arith, initial_loop-is_safe fuel p_root, next_loop-ne-panic rounds fuel)
    next_loop-ne-panic (suc rounds) fuel (active cursor) =
        grind (arith, yield_current-is_safe fuel cursor)

-- On every file that `open` accepts, and in every state: a call of `next` does not panic.
pub next-ne-panic :
    (h : Endian) (file : List ℕ) (db : Db) (fuel : ℕ) (state : State)
    → open_db h file ≡ ok db
    → (next h db fuel state).0 ≢ some panic
unfolding next
next-ne-panic h file db fuel state opened =
    next_loop-ne-panic h db (open_db-roomy h file db opened) 2 fuel state
