-- ===== src/Arena/Table/Reader.antt =====
-- The reader on the file that `finish` writes for a database.
use db.Prelude.{
  ℕ, ◌<◌, ◌≡◌, ◌≢◌, ◌⊎◌, inl, inr, sym, ap, ◌∙◌, List, Option, Bool, true, false, arith,
}
use db.Outcomes.{ok}
use db.Words.{Endian}
use db.Db.{Db, open_db}
use db.Db.Search.{get}
use db.Writer.{Writer, finish}
use db.LeafPage.{key_at}
use db.LeafPage.Search.{leaf_search-IsPlace, IsPlace}
use db.Session.Held.{IsPlace-absent}
use db.Arena.Files.{file_pages, get-index, get-none}
use db.Arena.Table.{Lookup, Represents}

-- A leaf holds the key at some index, or at none.
pub held_or_not :
    (h : Endian) (w : Writer) (height : ℕ) (key : List ℕ) (answer : Option (List ℕ))
    → (l : Lookup h w height key answer)
    → ((i : ℕ) × (i < l.n) × (key_at h l.p i ≡ key)) ⊎ ((i : ℕ) → i < l.n → key_at h l.p i ≢ key)
held_or_not h w height key answer l =
    let (b, idx, searched, place) =
      leaf_search-IsPlace h l.p l.n l.pgno key l.reached.leaf l.reached.bytes l.reached.sorted in
    by_answer b idx place
  where
    by_answer :
        (b : Bool) (idx : ℕ)
        → IsPlace h l.p l.n key b idx
        → ((i : ℕ) × (i < l.n) × (key_at h l.p i ≡ key))
          ⊎ ((i : ℕ) → i < l.n → key_at h l.p i ≢ key)
    by_answer true idx (lt, e) = inl (idx, lt, e)
    by_answer false idx place = inr (IsPlace-absent h l.p l.n key idx place)

-- For a writer whose database, of any height, is a map from keys to values: `finish` writes a file
-- that `open` accepts on a host of either byte order, and `get` of every key on it, given more fuel
-- than the height, returns what the map says of the key, `None` for a key that it does not have.
pub get-Represents :
    (h h' : Endian) (w : Writer) (height fuel : ℕ) (find : List ℕ → Option (List ℕ))
    → Represents h w height find
    → height < fuel
    → (file : List ℕ) × (finish h w ≡ ok file)
      × (db : Db) × (open_db h' file ≡ ok db)
      × ((key : List ℕ) → get h' db fuel key ≡ ok (find key))
get-Represents h h' w height fuel find v enough =
    let (file, finished, db, opened, order, pages) = file_pages h h' w v.arena in
    (
      file,
      finished,
      db,
      opened,
      λ key.
          let l = v.every key in
          let depth_ok : l.depth < fuel = omega (arith, l.not_deeper) in
          elim (held_or_not h w height key (find key) l) [
            | inl held ↦
                get-index h h' w db order pages key l.depth l.pgno l.n fuel l.p l.reached depth_ok
                  held.0 held.1 held.2
                ∙ ap ok (sym (l.found held.0 held.1 held.2))
            | inr absent ↦
                get-none h h' w db order pages key l.depth l.pgno l.n fuel l.p l.reached depth_ok
                  absent
                ∙ ap ok (sym (l.missed absent))
          ],
    )
