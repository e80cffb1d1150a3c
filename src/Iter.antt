-- ===== src/Iter.antt =====
-- src/iter.rs: the forward scan. The two walks over page links take fuel, as the descent of
-- `Db.Search` does.
pub mod Fused
pub mod Safe
use db.Prelude.{ℕ, zero, suc, ◌+◌, List, Bool, not, ◌==◌, ltb, if◌then◌else◌, Option, none, some}
use db.Outcomes.{Outcome, ok, err, panic, out_of_fuel, ◌>>=◌, ◌>>◌, fail_if, corrupt_page}
use db.Words.{Endian}
use db.Format.{p_invalid, p_root}
use db.Page.{PageView, parse, is_leaf, is_internal, leaf_entry, internal_entry}
use db.Db.{Db, page}
use db.Db.Overflow.{materialise}

pub record Entry : Type 0 where
  pub key : List ℕ
  pub value : List ℕ

pub record Cursor : Type 0 where
  pub view : PageView
  pub index : ℕ

pub data State : Type 0 where
  pristine : State
  active : Cursor → State
  done : State

module _ (h : Endian) (db : Db) where
  -- the `loop` of `initial_state`, at page `pgno`
  unfoldable pub initial_loop : ℕ → ℕ → Outcome State
  initial_loop zero pgno = out_of_fuel
  initial_loop (suc fuel) pgno = do
    bytes ← page db pgno
    view ← parse h pgno bytes db.swap
    let deeper = do
      fail_if (not (is_internal view)) (corrupt_page pgno "non-internal page during seq descent")
      entry ← internal_entry h view 0
      initial_loop fuel entry.child
    if view.nentries == 0
        then ok done
        else if is_leaf view
        then ok (active (record { view = view; index = 0 }))
        else deeper

  unfoldable pub initial_state : ℕ → Outcome State
  initial_state fuel = initial_loop fuel p_root

  unfoldable pub advance_leaf : ℕ → ℕ → Outcome State
  advance_leaf zero next_pg = out_of_fuel
  advance_leaf (suc fuel) next_pg = if next_pg == p_invalid then ok done else do
    bytes ← page db next_pg
    view ← parse h next_pg bytes db.swap
    fail_if (not (is_leaf view)) (corrupt_page next_pg "seq sibling is not a leaf")
    let further = advance_leaf fuel view.next_pg
    if ltb 0 view.nentries then ok (active (record { view = view; index = 0 })) else further

  -- `yield_current`: the entry, and the state that a success leaves. `next` has left `done`
  -- behind, which stays where this fails.
  unfoldable pub yield_current : ℕ → Cursor → Outcome (Entry × State)
  yield_current fuel cursor = do
    leaf ← leaf_entry h cursor.view cursor.index
    key ← materialise h db cursor.view leaf.key
    value ← materialise h db cursor.view leaf.value
    state ←
        if ltb (cursor.index + 1) cursor.view.nentries
        then ok (active (record { view = cursor.view; index = cursor.index + 1 }))
        else advance_leaf fuel cursor.view.next_pg
    ok (record { key = key; value = value }, state)

  -- The `loop` of `next`, with what `next` returns, `Option<Result<Entry>>`, and the new state. A
  -- panic and a loop without end are outcomes too. `initial_state` never returns `pristine`, so two rounds are enough.
  unfoldable pub next_loop : ℕ → ℕ → State → Option (Outcome Entry) × State
  next_loop zero fuel state = (some out_of_fuel, done)
  next_loop (suc rounds) fuel done = (none, done)
  next_loop (suc rounds) fuel pristine = elim (initial_state fuel) [
    | ok state ↦ next_loop rounds fuel state
    | err e ↦ (some (err e), done)
    | panic ↦ (some panic, done)
    | out_of_fuel ↦ (some out_of_fuel, done)
  ]
  next_loop (suc rounds) fuel (active cursor) = elim (yield_current fuel cursor) [
    | ok (entry, state) ↦ (some (ok entry), state)
    | err e ↦ (some (err e), done)
    | panic ↦ (some panic, done)
    | out_of_fuel ↦ (some out_of_fuel, done)
  ]

  unfoldable pub next : ℕ → State → Option (Outcome Entry) × State
  next fuel state = next_loop 2 fuel state
