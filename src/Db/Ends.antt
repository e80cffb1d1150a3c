-- ===== src/Db/Ends.antt =====
-- `open` and `get` on every file: they do not panic.
use db.Prelude.{ℕ, zero, suc, ◌<◌, ◌≡◌, ◌≢◌, refl, List, true, arith}
use db.Outcomes.{ok, panic}
use db.Outcomes.Settles.{is_safe, is_safe-ne-panic}
use db.Words.{Endian}
use db.Format.{page_header_size, p_root}
use db.Page.Settles.{parse-settles, leaf_entry-settles}
use db.Db.{Db, open_db}
use db.Db.Search.{search_loop, search, get}
use db.Db.Settles.{page-settles, materialise-settles, search_leaf-settles, descend_internal-settles}

-- What `open` accepts has pages with more room than their header takes.
pub open_db-roomy :
    (h : Endian) (file : List ℕ) (db : Db) → open_db h file ≡ ok db → page_header_size < db.psize
unfolding open_db
open_db-roomy h file db e = ground arith

module _ (h : Endian) (db : Db) (roomy : page_header_size < db.psize) (key : List ℕ) where
  search_loop-is_safe : (fuel pgno : ℕ) → is_safe (search_loop h db fuel pgno key) ≡ true
  unfolding search_loop
  search_loop-is_safe zero pgno = refl
  search_loop-is_safe (suc fuel) pgno = grind (
    arith,
    page-settles h db pgno,
    parse-settles,
    search_leaf-settles h db roomy,
    descend_internal-settles h db roomy,
    search_loop-is_safe fuel,
  )

  get-is_safe : (fuel : ℕ) → is_safe (get h db fuel key) ≡ true
  unfolding get search
  get-is_safe fuel = grind (
    arith,
    search_loop-is_safe fuel p_root,
    page-settles h db,
    parse-settles,
    leaf_entry-settles,
    materialise-settles h db roomy,
  )

-- On every file that `open` accepts, `get` of any key, given any fuel, does not panic.
pub get-ne-panic :
    (h : Endian) (file : List ℕ) (db : Db) (fuel : ℕ) (key : List ℕ)
    → open_db h file ≡ ok db
    → get h db fuel key ≢ panic
get-ne-panic h file db fuel key opened =
    is_safe-ne-panic (get h db fuel key)
      (get-is_safe h db (open_db-roomy h file db opened) key fuel)
