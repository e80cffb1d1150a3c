-- ===== src/Tests/Files.antt =====
-- The theorems about pages and files, on a database of pages of 512 bytes, written on a
-- little-endian host and read on a big-endian one.
use db.Prelude.{
  ℕ, ◌+◌, ◌-◌, ◌*◌, ◌≤◌, ◌<◌, ◌≡◌, ◌≢◌, ◌⊎◌, refl, List, [], ◌∷◌, splice, replicate, length, some,
  Bool, true, false, arith,
}
use db.Outcomes.{ok, err, entry_too_large}
use db.Words.{little, big, to_ne_u16, to_ne_u32, from_ne_u16, from_ne_u32}
use db.Words.Bytes.{AreBytes, nil-AreBytes, cons-AreBytes, are_bytes-AreBytes}
use db.Format.{p_root, page_header_size, align_entry}
use db.Bisect.{bisect, bisect_all}
use db.Page.{PageView, LeafEntry, read_u16, read_u32, parse, leaf_entry, inline_bytes}
use db.PageBuf.{reserve_slot}
use db.PageBuf.Slots.{upper_of, lower_of, Reserved, reserve_slot-Reserved}
use db.Db.{Db, open_db, page}
use db.Db.Search.{get}
use db.Writer.{Writer, create_sized, with_page, finish, page_bytes}
use db.Writer.Entries.{leaf_nbytes, insert_leaf_entry, delete_leaf_entry}
use db.Writer.Meta.{open-finish}
use db.Writer.Pages.{leaf_search}
use db.Writer.Put.{put, del, too_large}
use db.LeafPage.{IsLeaf, key_at, val_at}
use db.LeafPage.Insert.{Inserted, insert_leaf_entry-Inserted}
use db.LeafPage.Read.{leaf_entry-parse}
use db.LeafPage.Search.{IsSorted, IsPlace, leaf_search-IsPlace}
use db.LeafPage.Store.{leaf_search-insert_leaf_entry}
use db.RootLeaf.{IsRootLeaf}
use db.RootLeaf.First.{Fits, put-Fits}
use db.RootLeaf.Puts
use db.RootLeaf.Dels
use db.LeafPage.Delete.{Deleted, delete_leaf_entry-Deleted}
use db.RootLeaf.Fresh.{fresh, root_of, fresh-IsRootLeaf}

-- the writer of a new database
abbrev w0 : Writer
w0 = fresh little 512 (omega arith) (omega arith)

abbrev p0 : List ℕ
p0 = root_of little 512 (omega arith) (omega arith)

abbrev key : List ℕ
key = 107 ∷ 1 ∷ []

abbrev val : List ℕ
val = 9 ∷ []

abbrev long_val : List ℕ
long_val = replicate 500 7

w0-IsRootLeaf : IsRootLeaf little w0 p0 0
w0-IsRootLeaf = fresh-IsRootLeaf little 512 (omega arith) (omega arith) refl

key-AreBytes : AreBytes key
key-AreBytes =
    cons-AreBytes 107 (1 ∷ []) (omega arith) (cons-AreBytes 1 [] (omega arith) nil-AreBytes)

val-AreBytes : AreBytes val
val-AreBytes = cons-AreBytes 9 [] (omega arith) nil-AreBytes

searched : leaf_search little p_root p0 key ≡ ok (false, 0)
unfolding leaf_search parse splice to_ne_u32 to_ne_u16 read_u32 read_u16 from_ne_u16 from_ne_u32
    bisect_all bisect
searched = refl

small : too_large little (512 - page_header_size) (length key) (length val) ≡ false
unfolding too_large align_entry
small = refl

room : leaf_nbytes (length key) (length val) + 2 ≤ upper_of little p0 - lower_of little p0
unfolding align_entry from_ne_u16 splice to_ne_u32 to_ne_u16
room = omega arith

get-put_example :
    (w' : Writer) × (put little 3 key val w0 ≡ (ok true, w'))
    × (file : List ℕ) × (finish little w' ≡ ok file)
    × (db : Db) × (open_db big file ≡ ok db)
    × (get big db 3 key ≡ ok (some val))
get-put_example =
    Puts.get-put little big w0 p0 0 2 2 0 key val w0-IsRootLeaf key-AreBytes val-AreBytes small
      searched room

put-Fits_example :
    (w : Writer) × (create_sized little 512 ≡ ok w)
    × ((Fits 512 2 500
          × ((q : List ℕ) × (put little 3 key long_val w ≡ (ok true, with_page w p_root q))
              × IsRootLeaf little (with_page w p_root q) q 1
              × (key_at little q 0 ≡ key)
              × (val_at little q 0 ≡ long_val)))
        ⊎ (¬ Fits 512 2 500 × (put little 3 key long_val w ≡ (err (entry_too_large 2 500), w))))
put-Fits_example =
    put-Fits little 512 2 key long_val (omega arith) (omega arith) refl key-AreBytes
      (are_bytes-AreBytes long_val refl)

open-finish_example :
    (file : List ℕ) × (finish little w0 ≡ ok file)
    × (length file ≡ length w0.pages)
    × (open_db big file ≡ ok (record { mmap = file; psize = 512; swap = true }))
    × ((pgno : ℕ)
        → 1 ≤ pgno
        → (pgno + 1) * 512 ≤ length w0.pages
        → page (record { mmap = file; psize = 512; swap = true }) pgno ≡ page_bytes w0 pgno)
open-finish_example = open-finish little big w0 w0-IsRootLeaf.arena

leaf_search-insert_leaf_entry_example :
    (q : List ℕ) × (insert_leaf_entry little 0 key val p0 ≡ ok q)
    × (length q ≡ length p0)
    × IsLeaf little q 1
    × AreBytes q
    × IsSorted little q 1
    × (leaf_search little p_root q key ≡ ok (true, 0))
    × (key_at little q 0 ≡ key)
    × (val_at little q 0 ≡ val)
leaf_search-insert_leaf_entry_example =
    leaf_search-insert_leaf_entry little p0 0 p_root 0 key val w0-IsRootLeaf.leaf
      w0-IsRootLeaf.bytes key-AreBytes val-AreBytes w0-IsRootLeaf.sorted searched room

insert_leaf_entry-Inserted_example :
    (q : List ℕ) × (insert_leaf_entry little 0 key val p0 ≡ ok q) × Inserted little p0 q 0 0 key val
insert_leaf_entry-Inserted_example =
    insert_leaf_entry-Inserted little p0 0 0 key val w0-IsRootLeaf.leaf (omega arith) room

slots_room : 16 + 2 ≤ upper_of little p0 - lower_of little p0
unfolding from_ne_u16 splice to_ne_u32 to_ne_u16
slots_room = omega arith

aligned : 16 ≡ align_entry 16
unfolding align_entry
aligned = refl

reserve_slot-Reserved_example :
    (q : List ℕ) × (reserve_slot little p0 0 16 ≡ ok (q, upper_of little p0 - 16))
    × Reserved little p0 q 0 0 (upper_of little p0 - 16)
reserve_slot-Reserved_example =
    reserve_slot-Reserved little p0 0 0 16 w0-IsRootLeaf.leaf.slots (omega arith) (omega arith)
      aligned slots_room

-- the database after the first `put`
one_entry :
    (q : List ℕ) × (put little 3 key val w0 ≡ (ok true, with_page w0 p_root q))
    × IsRootLeaf little (with_page w0 p_root q) q 1
    × (key_at little q 0 ≡ key)
    × (val_at little q 0 ≡ val)
one_entry =
    Puts.put-root_leaf little w0 p0 0 2 0 key val w0-IsRootLeaf key-AreBytes val-AreBytes small
      searched room

abbrev p1 : List ℕ
p1 = one_entry.0

abbrev w1 : Writer
w1 = with_page w0 p_root p1

abbrev w1-IsRootLeaf : IsRootLeaf little w1 p1 1
w1-IsRootLeaf = one_entry.2

still_small :
    too_large little (512 - page_header_size) (length (key_at little p1 0)) (length val) ≡ false
still_small = rw one_entry.3 small

leaf_search-IsPlace_example :
    (found : Bool) × (idx : ℕ) × (leaf_search little p_root p1 key ≡ ok (found, idx))
    × IsPlace little p1 1 key found idx
leaf_search-IsPlace_example =
    leaf_search-IsPlace little p1 1 p_root key w1-IsRootLeaf.leaf w1-IsRootLeaf.bytes
      w1-IsRootLeaf.sorted

leaf_entry-parse_example :
    (view : PageView) × (parse big p_root p1 true ≡ ok view)
    × (view.nentries ≡ 1)
    × ((i : ℕ)
        → i < 1
        → (e : LeafEntry) × (leaf_entry big view i ≡ ok e)
          × (inline_bytes view e.key ≡ ok (key_at little p1 i))
          × (inline_bytes view e.value ≡ ok (val_at little p1 i)))
leaf_entry-parse_example =
    leaf_entry-parse big true p1 1 p_root w1-IsRootLeaf.leaf w1-IsRootLeaf.bytes

delete_leaf_entry-Deleted_example :
    (q : List ℕ) × (delete_leaf_entry little 0 p1 ≡ ok q) × Deleted little p1 q 0 0
delete_leaf_entry-Deleted_example =
    delete_leaf_entry-Deleted little p1 0 0 w1-IsRootLeaf.leaf w1-IsRootLeaf.packed (omega arith)

del-root_leaf_example :
    (q : List ℕ) × (del little 3 (key_at little p1 0) w1 ≡ (ok true, with_page w1 p_root q))
    × IsRootLeaf little (with_page w1 p_root q) q 0
    × Deleted little p1 q 0 0
    × ((i : ℕ) → i < 0 → key_at little q i ≢ key_at little p1 0)
del-root_leaf_example = Dels.del-root_leaf little w1 p1 0 2 0 w1-IsRootLeaf (omega arith)
