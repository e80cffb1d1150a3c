-- ===== src/Tests/Grown.antt =====
-- A database of one leaf, full, in the arena of a writer with pages of 512 bytes.
use db.Prelude.{
  ℕ, zero, suc, ◌+◌, ◌-◌, ◌/◌, ◌≤◌, ◌<◌, ◌≡◌, ◌≢◌, ◌⊎◌, inl, inr, refl, List, [], ◌∷◌, ◌++◌, length,
  replicate, get_or, true, false, arith, some, none, Option, sym, ap, ◌∙◌,
}
use db.Outcomes.{ok}
use db.Words.{little, big, from_ne_u16, from_ne_u32}
use db.Words.Bytes.{are_bytes-AreBytes}
use db.Format.{align_entry, page_header_size}
use db.Order.{cmp}
use db.Page.{
  parse, leaf_entry, inline_bytes, read_u32, read_u16, read_u16_bytes, read_u32_bytes, entry_offset,
  u16_at, u32_at, byte_at, decode_item,
}
use db.Bisect.{bisect_all, bisect}
use db.Db.{Db, open_db}
use db.Iter.{pristine}
use db.Writer.Pages.{leaf_search, leaf_search_probe}
use db.LeafPage.Scan.{collect}
use db.Arena.RootSplit.Scan.{pairs_of, put-grown_scan}
use db.PageBuf.Slots.{upper_of, lower_of, slot_of}
use db.Writer.{Writer, finish}
use db.Writer.Entries.{leaf_nbytes}
use db.Writer.Put.{put, too_large}
use db.LeafPage.{IsLeaf, IsPacked, ksize_at, dsize_at, entry_size, key_at, val_at}
use db.LeafPage.Search.{IsSorted}
use db.LeafSplit.Shared.{size_of, merged}
use db.RootLeaf.{IsRootLeaf}
use db.Session.{update}
use db.Session.Held.{update-other}
use db.Arena.{stop}
use db.Arena.Table.{Represents}
use db.Arena.Table.Grown.{put-Represents_grown}

-- the keys 1 and 5, each with a value of 230 bytes
abbrev full : List ℕ
full =
    (1 ∷ 0 ∷ 0 ∷ 0 ∷ 0 ∷ 0 ∷ 0 ∷ 0 ∷ 0 ∷ 0 ∷ 0 ∷ 0 ∷ 2 ∷ 0 ∷ 0 ∷ 0 ∷ 24 ∷ 0 ∷ 32 ∷ 0 ∷ 16 ∷ 1 ∷ 32
      ∷ 0 ∷ [])
    ++ replicate 8 0
    ++ (1 ∷ 0 ∷ 0 ∷ 0 ∷ 230 ∷ 0 ∷ 0 ∷ 0 ∷ 0 ∷ 5 ∷ [])
    ++ replicate 230 7
    ++ (1 ∷ 0 ∷ 0 ∷ 0 ∷ 230 ∷ 0 ∷ 0 ∷ 0 ∷ 0 ∷ 1 ∷ [])
    ++ replicate 230 9

abbrev before : Writer
before = record { psize = 512; pages = replicate 512 0 ++ full; free = 0; nrecs = 0; flags = 32 }

full-IsLeaf : IsLeaf little full 2
unfolding from_ne_u16 from_ne_u32 align_entry
full-IsLeaf = record {
  slots = record {
    header_in = omega arith;
    small = omega arith;
    lower_at = refl;
    free = omega arith;
    upper_in = omega arith;
  };
  leaf_flags = refl;
  entry_low = low;
  entry_high = high;
  entry_inline = inlined;
}
  where
    low : (i : ℕ) → i < 2 → upper_of little full ≤ slot_of little full i
    low zero lt = omega arith
    low (suc zero) lt = omega arith
    low (suc (suc i)) lt = absurd (omega arith)

    high :
        (i : ℕ)
        → i < 2
        → slot_of little full i
            + leaf_nbytes
                (ksize_at little full (slot_of little full i))
                (dsize_at little full (slot_of little full i))
          ≤ length full
    high zero lt = omega arith
    high (suc zero) lt = omega arith
    high (suc (suc i)) lt = absurd (omega arith)

    inlined : (i : ℕ) → i < 2 → get_or full (slot_of little full i + 8) 0 ≡ 0
    inlined zero lt = refl
    inlined (suc zero) lt = refl
    inlined (suc (suc i)) lt = absurd (omega arith)

full-IsPacked : IsPacked little full 2
unfolding from_ne_u16 from_ne_u32 align_entry
full-IsPacked = record { apart = apart }
  where
    apart :
        (i j : ℕ)
        → i < 2
        → j < 2
        → i ≢ j
        → (slot_of little full i + entry_size little full (slot_of little full i)
            ≤ slot_of little full j)
          ⊎ (slot_of little full j + entry_size little full (slot_of little full j)
              ≤ slot_of little full i)
    apart zero zero li lj ne = absurd (ne refl)
    apart zero (suc zero) li lj ne = inr (omega arith)
    apart (suc zero) zero li lj ne = inl (omega arith)
    apart (suc zero) (suc zero) li lj ne = absurd (ne refl)
    apart (suc (suc i)) j li lj ne = absurd (omega arith)
    apart i (suc (suc j)) li lj ne = absurd (omega arith)

full-IsSorted : IsSorted little full 2
unfolding from_ne_u16 from_ne_u32 cmp
full-IsSorted zero (suc zero) lt le = refl
full-IsSorted i zero lt le = absurd (omega arith)
full-IsSorted (suc i) (suc j) lt le = absurd (omega arith)
full-IsSorted i (suc (suc j)) lt le = absurd (omega arith)

before-IsRootLeaf : IsRootLeaf little before full 2
before-IsRootLeaf = record {
  arena = record {
    psize_low = omega arith;
    psize_high = omega arith;
    psize_even = refl;
    whole = refl;
    some_page = omega arith;
    known_flags = refl;
  };
  two_pages = omega arith;
  root = refl;
  leaf = full-IsLeaf;
  packed = full-IsPacked;
  bytes = are_bytes-AreBytes full refl;
  sorted = full-IsSorted;
}

abbrev one_find : List ℕ → Option (List ℕ)
one_find = update (1 ∷ []) (some (replicate 230 9)) (λ k. none)

-- the map that the leaf is
abbrev find : List ℕ → Option (List ℕ)
find = update (5 ∷ []) (some (replicate 230 7)) one_find

key_0 : key_at little full 0 ≡ 1 ∷ []
unfolding from_ne_u16 from_ne_u32
key_0 = refl

key_1 : key_at little full 1 ≡ 5 ∷ []
unfolding from_ne_u16 from_ne_u32
key_1 = refl

find_0 : find (1 ∷ []) ≡ some (val_at little full 0)
unfolding update cmp from_ne_u16 from_ne_u32
find_0 = refl

find_1 : find (5 ∷ []) ≡ some (val_at little full 1)
unfolding update cmp from_ne_u16 from_ne_u32
find_1 = refl

three_absent : find (3 ∷ []) ≡ none
unfolding update cmp
three_absent = refl

before-Represents : Represents little before 0 find
before-Represents = record {
  arena = before-IsRootLeaf.arena;
  every = λ key. record {
    depth = 0;
    pgno = 1;
    p = full;
    n = 2;
    not_deeper = omega arith;
    reached = record {
      path = stop 1;
      at = record { from_one = omega arith; inside = omega arith; held = refl };
      leaf = full-IsLeaf;
      packed = full-IsPacked;
      bytes = before-IsRootLeaf.bytes;
      sorted = full-IsSorted;
    };
    found = found key;
    missed = λ none_is.
        update-other (5 ∷ []) key (some (replicate 230 7)) one_find
          (λ e. none_is 1 (omega arith) (key_1 ∙ e))
        ∙ update-other (1 ∷ []) key (some (replicate 230 9)) (λ k. none)
            (λ e. none_is 0 (omega arith) (key_0 ∙ e));
  };
}
  where
    found :
        (key : List ℕ) (i : ℕ)
        → i < 2
        → key_at little full i ≡ key
        → find key ≡ some (val_at little full i)
    found key zero lt e = ap find (sym e ∙ key_0) ∙ find_0
    found key (suc zero) lt e = ap find (sym e ∙ key_1) ∙ find_1
    found key (suc (suc i)) lt e = absurd (omega arith)

small_entry : too_large little (512 - page_header_size) 1 1 ≡ false
unfolding too_large align_entry
small_entry = refl

no_room : upper_of little full - lower_of little full < leaf_nbytes 1 1 + 2
unfolding align_entry from_ne_u16
no_room = omega arith

entries_small : (i : ℕ) → i < 2 → size_of little full i + 2 ≤ (512 - page_header_size) / 2
unfolding from_ne_u16 from_ne_u32 align_entry
entries_small zero lt = omega arith
entries_small (suc zero) lt = omega arith
entries_small (suc (suc i)) lt = absurd (omega arith)

new_small : leaf_nbytes 1 1 + 2 ≤ (512 - page_header_size) / 2
unfolding align_entry
new_small = omega arith

put-Represents_grown_example :
    (w' : Writer) × (put little 1 (3 ∷ []) (8 ∷ []) before ≡ (ok true, w'))
    × Represents little w' 1 (update (3 ∷ []) (some (8 ∷ [])) find)
put-Represents_grown_example =
    put-Represents_grown little before full 2 0 0 find (3 ∷ []) (8 ∷ []) before-IsRootLeaf
      before-Represents (are_bytes-AreBytes (3 ∷ []) refl) (are_bytes-AreBytes (8 ∷ []) refl)
      small_entry three_absent no_room (omega arith) entries_small new_small (omega arith)

three_missing : leaf_search little 1 full (3 ∷ []) ≡ ok (false, 1)
unfolding leaf_search leaf_search_probe parse bisect_all bisect leaf_entry inline_bytes cmp read_u32
    read_u16 read_u16_bytes read_u32_bytes from_ne_u16 from_ne_u32 entry_offset u16_at u32_at
    byte_at decode_item
three_missing = refl

put-grown_scan_example :
    (w' : Writer) × (put little 1 (3 ∷ []) (8 ∷ []) before ≡ (ok true, w'))
    × (file : List ℕ) × (finish little w' ≡ ok file)
    × (db : Db) × (open_db big file ≡ ok db)
    × (collect big db 2 4 pristine
        ≡ pairs_of
            (merged 1 (3 ∷ []) (key_at little full))
            (merged 1 (8 ∷ []) (val_at little full))
            0
            3)
put-grown_scan_example =
    put-grown_scan little big before full 2 0 2 1 (3 ∷ []) (8 ∷ []) before-IsRootLeaf
      (are_bytes-AreBytes (3 ∷ []) refl) (are_bytes-AreBytes (8 ∷ []) refl) small_entry
      three_missing no_room (omega arith) entries_small new_small (omega arith) (omega arith)
