-- ===== src/RootLeaf/Files.antt =====
-- What `finish` writes for a database of one leaf, and what `open` and `get` make of it.
use db.Prelude.{ℕ, suc, ◌<◌, ◌≡◌, ◌≢◌, refl, subst, ◌∙◌, List, arith, some, none}
use db.Outcomes.{ok}
use db.Words.{Endian, little, big, file_order}
use db.Format.{p_root}
use db.Db.{Db, open_db, page}
use db.Db.Search.{get}
use db.Writer.{Writer, finish}
use db.Writer.Meta.{differs, open-finish}
use db.LeafPage.{IsLeaf, key_at, val_at}
use db.LeafPage.Search.{IsSorted, get-stored, get-absent}
use db.RootLeaf.{IsRootLeaf, root_bytes}

pub file_order-differs : (h h' : Endian) → file_order h' (differs h h') ≡ h
file_order-differs little little = refl
file_order-differs little big = refl
file_order-differs big little = refl
file_order-differs big big = refl

pub root_page :
    (h h' : Endian) (w : Writer) (p : List ℕ) (n : ℕ)
    → IsRootLeaf h w p n
    → (file : List ℕ) × (finish h w ≡ ok file)
      × (db : Db) × (open_db h' file ≡ ok db)
      × (page db p_root ≡ ok p)
      × (file_order h' db.swap ≡ h)
root_page h h' w p n v =
    let (file, finished, len, opened, pages) = open-finish h h' w v.arena in
    (
      file,
      finished,
      record { mmap = file; psize = w.psize; swap = differs h h' },
      opened,
      pages p_root (omega arith) (omega (arith, v.two_pages)) ∙ root_bytes h w p n v,
      file_order-differs h h',
    )

-- When the root of the writer's database is a leaf of ascending keys, of which no two entries share
-- a byte, `finish` writes a file that `open` accepts on a host of either byte order, and `get` of
-- each key of the leaf on it returns the value stored with the key.
pub get-finish :
    (h h' : Endian) (w : Writer) (p : List ℕ) (n fuel i : ℕ)
    → IsRootLeaf h w p n
    → i < n
    → (file : List ℕ) × (finish h w ≡ ok file)
      × (db : Db) × (open_db h' file ≡ ok db)
      × (get h' db (suc fuel) (key_at h p i) ≡ ok (some (val_at h p i)))
get-finish h h' w p n fuel i v lt =
    let (file, finished, db, opened, root, order) = root_page h h' w p n v in
    (
      file,
      finished,
      db,
      opened,
      subst
          (λ e.
            IsLeaf e p n
            → IsSorted e p n
            → get h' db (suc fuel) (key_at e p i) ≡ ok (some (val_at e p i)))
          order (λ leaf sorted. get-stored h' db p n fuel i leaf v.bytes sorted root lt) v.leaf
          v.sorted,
    )

-- When the root of the writer's database is a leaf of ascending keys, of which no two entries share
-- a byte and none has the given key, `finish` writes a file that `open` accepts on a host of either
-- byte order, and `get` of that key on it ends with `None`.
pub get-finish_absent :
    (h h' : Endian) (w : Writer) (p : List ℕ) (n fuel : ℕ) (key : List ℕ)
    → IsRootLeaf h w p n
    → ((i : ℕ) → i < n → key_at h p i ≢ key)
    → (file : List ℕ) × (finish h w ≡ ok file)
      × (db : Db) × (open_db h' file ≡ ok db)
      × (get h' db (suc fuel) key ≡ ok none)
get-finish_absent h h' w p n fuel key v absent =
    let (file, finished, db, opened, root, order) = root_page h h' w p n v in
    (
      file,
      finished,
      db,
      opened,
      subst
          (λ e.
            IsLeaf e p n
            → IsSorted e p n
            → ((i : ℕ) → i < n → key_at e p i ≢ key)
            → get h' db (suc fuel) key ≡ ok none)
          order
          (λ leaf sorted none_is. get-absent h' db p n fuel key leaf v.bytes sorted root none_is)
          v.leaf v.sorted absent,
    )
