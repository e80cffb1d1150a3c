-- ===== src/Arena/Table/Created.antt =====
-- A new database, and one on which calls of `put` and `del` were made that stay on one page.
use db.Prelude.{ℕ, suc, ◌%◌, ◌≤◌, ◌≡◌, List, Bool}
use db.Outcomes.{Outcome, ok}
use db.Words.{Endian}
use db.Format.{min_psize, max_psize}
use db.Writer.{Writer, create_sized}
use db.Session.{Op, run, Steps, Table, empty_table}
use db.Session.Runs.{fresh-IsTable, run-Steps}
use db.Arena.Table.{Represents}
use db.Arena.Table.Row.{IsTable-Represents}

-- For every even page size that the format allows: creation succeeds, and after every row of calls
-- of `put` and `del` whose entries fit on one page all along, no call at all included, as the table
-- of keys and values tracks, which give the answers of the table, the database is, of height zero, the
-- map of the table.
pub run-Represents :
    (h : Endian) (psize fuel : ℕ) (ops : List Op) (answers : List (Outcome Bool)) (t : Table)
    → min_psize ≤ psize
    → psize ≤ max_psize
    → psize % 2 ≡ 0
    → Steps h psize ops answers (empty_table psize) t
    → (w : Writer) × (create_sized h psize ≡ ok w)
      × (w' : Writer) × (run h (suc fuel) ops w ≡ (answers, w'))
      × Represents h w' 0 t.find
run-Represents h psize fuel ops answers t low high even steps =
    let (w, created, v) = fresh-IsTable h psize low high even in
    let (w', ran, v') = run-Steps h psize fuel w v steps in
    (w, created, w', ran, IsTable-Represents h psize w' t v')
