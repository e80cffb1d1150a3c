-- ===== src/Arena/Files.antt =====
-- The file that `finish` writes for a database of any height, and `open` and `get` on it.
use db.Prelude.{ℕ, ◌<◌, ◌≡◌, ◌≢◌, subst, ◌∙◌, List, some, none}
use db.Outcomes.{ok}
use db.Words.{Endian, file_order}
use db.Format.{p_root}
use db.Db.{Db, open_db, page}
use db.Db.Search.{get}
use db.Writer.{Writer, finish}
use db.Writer.Meta.{IsArena, differs, open-finish}
use db.LeafPage.{IsLeaf, key_at, val_at}
use db.LeafPage.Search.{IsSorted}
use db.RootLeaf.Files.{file_order-differs}
use db.Tree.{Leads}
use db.Tree.Lookup.{get-Leads, get-Leads_absent}
use db.Arena.{HasPage, Reaches}
use db.Arena.Pages.{page_bytes-HasPage}
use db.Arena.Descent.{Way-Leads}

module _ (h h' : Endian) (w : Writer) (arena : IsArena w) where
  -- `open` of the file, and the pages that the reader then has
  pub file_pages :
      (file : List ℕ) × (finish h w ≡ ok file)
      × (db : Db) × (open_db h' file ≡ ok db)
      × (file_order h' db.swap ≡ h)
      × ((pgno : ℕ) (p : List ℕ) → HasPage w pgno p → page db pgno ≡ ok p)
  file_pages =
      let (file, finished, len, opened, pages) = open-finish h h' w arena in
      (
        file,
        finished,
        record { mmap = file; psize = w.psize; swap = differs h h' },
        opened,
        file_order-differs h h',
        λ pgno p at. pages pgno at.from_one at.inside ∙ page_bytes-HasPage w pgno p at,
      )

-- The reader on a file with the arena's pages.
module _ (h h' : Endian) (w : Writer) (db : Db) (order : file_order h' db.swap ≡ h)
    (pages : (pgno : ℕ) (p : List ℕ) → HasPage w pgno p → page db pgno ≡ ok p) (key : List ℕ)
    (depth pgno n fuel : ℕ) (p : List ℕ) (v : Reaches h w key depth pgno p n)
    (enough : depth < fuel) where
  leads : Leads h' db key p_root depth pgno
  leads = Way-Leads h w key h' db order pages v.path

  pub get-index :
      (i : ℕ) → i < n → key_at h p i ≡ key → get h' db fuel key ≡ ok (some (val_at h p i))
  get-index i lt same =
      subst
        (λ e.
          IsLeaf e p n
          → IsSorted e p n
          → key_at e p i ≡ key
          → get h' db fuel key ≡ ok (some (val_at e p i)))
        order
        (λ leaf sorted here.
          subst
            (λ k.
              Leads h' db k p_root depth pgno
              → get h' db fuel k ≡ ok (some (val_at (file_order h' db.swap) p i)))
            here
            (λ leads'.
              get-Leads h' db p n fuel depth pgno i leads' (pages pgno p v.at) leaf v.bytes sorted
                lt enough)
            leads)
        v.leaf v.sorted same

  pub get-none : ((i : ℕ) → i < n → key_at h p i ≢ key) → get h' db fuel key ≡ ok none
  get-none absent =
      subst
        (λ e.
          IsLeaf e p n
          → IsSorted e p n
          → ((i : ℕ) → i < n → key_at e p i ≢ key)
          → get h' db fuel key ≡ ok none)
        order
        (λ leaf sorted none_is.
          get-Leads_absent h' db p n fuel depth pgno key leads (pages pgno p v.at) leaf v.bytes
            sorted none_is enough)
        v.leaf v.sorted absent
