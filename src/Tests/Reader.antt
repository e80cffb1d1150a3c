-- ===== src/Tests/Reader.antt =====
-- The theorems about files that `open` accepts, on the file of a new database of pages of 512 bytes.
use db.Prelude.{ℕ, ◌≡◌, ◌≢◌, refl, List, [], ◌∷◌, true, some, arith}
use db.Outcomes.{ok, panic}
use db.Words.{little, big}
use db.Db.{Db, open_db}
use db.Db.Search.{get}
use db.Db.Ends.{get-ne-panic}
use db.Iter.{pristine, next}
use db.Iter.Safe.{next-ne-panic}
use db.Writer.{Writer}
use db.Writer.Meta.{open-finish}
use db.RootLeaf.{IsRootLeaf}
use db.RootLeaf.Fresh.{fresh, root_of, fresh-IsRootLeaf}

abbrev w0 : Writer
w0 = fresh little 512 (omega arith) (omega arith)

abbrev p0 : List ℕ
p0 = root_of little 512 (omega arith) (omega arith)

abbrev w0-IsRootLeaf : IsRootLeaf little w0 p0 0
w0-IsRootLeaf = fresh-IsRootLeaf little 512 (omega arith) (omega arith) refl

abbrev file : List ℕ
file = (open-finish little big w0 w0-IsRootLeaf.arena).0

abbrev new_db : Db
new_db = record { mmap = file; psize = 512; swap = true }

opened : open_db big file ≡ ok new_db
opened = (open-finish little big w0 w0-IsRootLeaf.arena).3

key : List ℕ
key = 107 ∷ []

get-ne-panic_example : get big new_db 3 key ≢ panic
get-ne-panic_example = get-ne-panic big file new_db 3 key opened

next-ne-panic_example : (next big new_db 3 pristine).0 ≢ some panic
next-ne-panic_example = next-ne-panic big file new_db 3 pristine opened
