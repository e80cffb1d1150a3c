-- ===== src/Tests/Trees.antt =====
-- The theorems about trees of several levels, on a file of four pages of 48 bytes: the root at page
-- 1, and the leaves of the keys 1 and 5 at pages 2 and 3.
use db.Prelude.{
  ℕ, zero, suc, ◌+◌, ◌≤◌, ◌<◌, ◌≡◌, ◌≢◌, refl, List, [], ◌∷◌, ◌++◌, length, replicate, get_or,
  false, arith, none, some, inl,
}
use db.Outcomes.{ok}
use db.Words.{little, from_ne_u16, from_ne_u32}
use db.Words.Bytes.{are_bytes-AreBytes}
use db.Format.{align_entry}
use db.Order.{cmp, ◌≺◌}
use db.Page.{
  PageView, inline, parse, internal_entry, inline_bytes, read_u16, read_u32, u16_at, u32_at,
  byte_at, entry_offset, decode_item, read_u16_bytes, read_u32_bytes,
}
use db.PageBuf.Slots.{upper_of, slot_of}
use db.Writer.Entries.{leaf_nbytes}
use db.Db.{Db, page}
use db.Db.Search.{get}
use db.LeafPage.{IsLeaf, ksize_at, dsize_at, key_at, val_at}
use db.LeafPage.Search.{IsSorted}
use db.Tree.{IsBranch, Leads, here, down}
use db.Tree.Lookup.{get-Leads, get-Leads_absent}

abbrev root : List ℕ
root =
    1 ∷ 0 ∷ 0 ∷ 0 ∷ 0 ∷ 0 ∷ 0 ∷ 0 ∷ 0 ∷ 0 ∷ 0 ∷ 0 ∷ 1 ∷ 0 ∷ 0 ∷ 0 ∷ 24 ∷ 0 ∷ 24 ∷ 0 ∷ 36 ∷ 0 ∷ 24
    ∷ 0 ∷ 1 ∷ 0 ∷ 0 ∷ 0 ∷ 3 ∷ 0 ∷ 0 ∷ 0 ∷ 0 ∷ 5 ∷ 0 ∷ 0 ∷ 0 ∷ 0 ∷ 0 ∷ 0 ∷ 2 ∷ 0 ∷ 0 ∷ 0 ∷ 0 ∷ 0 ∷ 0
    ∷ 0 ∷ []

-- a leaf of one entry
abbrev leaf : ℕ → ℕ → ℕ → List ℕ
leaf pgno k d =
    pgno ∷ 0 ∷ 0 ∷ 0 ∷ 0 ∷ 0 ∷ 0 ∷ 0 ∷ 0 ∷ 0 ∷ 0 ∷ 0 ∷ 2 ∷ 0 ∷ 0 ∷ 0 ∷ 22 ∷ 0 ∷ 36 ∷ 0 ∷ 36 ∷ 0 ∷ 0
    ∷ 0 ∷ 0 ∷ 0 ∷ 0 ∷ 0 ∷ 0 ∷ 0 ∷ 0 ∷ 0 ∷ 0 ∷ 0 ∷ 0 ∷ 0 ∷ 1 ∷ 0 ∷ 0 ∷ 0 ∷ 1 ∷ 0 ∷ 0 ∷ 0 ∷ 0 ∷ k ∷ d
    ∷ 0 ∷ []

abbrev tree_db : Db
tree_db = record {
  mmap = replicate 48 0 ++ root ++ leaf 2 1 9 ++ leaf 3 5 7;
  psize = 48;
  swap = false;
}

leaf-IsLeaf : (pgno k d : ℕ) → IsLeaf little (leaf pgno k d) 1
unfolding from_ne_u16 from_ne_u32 align_entry
leaf-IsLeaf pgno k d = record {
  slots = record {
    header_in = omega arith;
    small = omega arith;
    lower_at = refl;
    free = omega arith;
    upper_in = omega arith;
  };
  leaf_flags = refl;
  entry_low = low;
  entry_high = high;
  entry_inline = inlined;
}
  where
    low : (i : ℕ) → i < 1 → upper_of little (leaf pgno k d) ≤ slot_of little (leaf pgno k d) i
    low zero lt = omega arith
    low (suc i) lt = absurd (omega arith)

    high :
        (i : ℕ)
        → i < 1
        → slot_of little (leaf pgno k d) i
            + leaf_nbytes
                (ksize_at little (leaf pgno k d) (slot_of little (leaf pgno k d) i))
                (dsize_at little (leaf pgno k d) (slot_of little (leaf pgno k d) i))
          ≤ length (leaf pgno k d)
    high zero lt = omega arith
    high (suc i) lt = absurd (omega arith)

    inlined : (i : ℕ) → i < 1 → get_or (leaf pgno k d) (slot_of little (leaf pgno k d) i + 8) 0 ≡ 0
    inlined zero lt = refl
    inlined (suc i) lt = absurd (omega arith)

one-IsSorted : (p : List ℕ) → IsSorted little p 1
one-IsSorted p i j lt le = absurd (omega arith)

abbrev root_view : PageView
root_view = record {
  pgno = 1;
  prev_pg = 0;
  next_pg = 0;
  bytes = root;
  swap = false;
  flags = 1;
  nentries = 2;
}

root_at : page tree_db 1 ≡ ok root
unfolding page
root_at = refl

root_parsed : parse little 1 root false ≡ ok root_view
unfolding parse read_u32 read_u16 read_u16_bytes read_u32_bytes from_ne_u16 from_ne_u32
root_parsed = refl

abbrev sep : ℕ → List ℕ
sep zero = []
sep (suc i) = 5 ∷ []

abbrev kid : ℕ → ℕ
kid zero = 2
kid (suc i) = 3

abbrev offset : ℕ → ℕ
offset zero = 45
offset (suc i) = 33

abbrev size : ℕ → ℕ
size zero = 0
size (suc i) = 1

entries :
    (i : ℕ)
    → i < 2
    → internal_entry little root_view i
      ≡ ok (record { key = inline (offset i) (size i); child = kid i })
unfolding internal_entry entry_offset u16_at u32_at byte_at decode_item read_u16_bytes
    read_u32_bytes from_ne_u16 from_ne_u32
entries zero lt = refl
entries (suc zero) lt = refl
entries (suc (suc i)) lt = absurd (omega arith)

seps : (i : ℕ) → i < 2 → inline_bytes root_view (inline (offset i) (size i)) ≡ ok (sep i)
unfolding inline_bytes
seps zero lt = refl
seps (suc zero) lt = refl
seps (suc (suc i)) lt = absurd (omega arith)

ascend : (i j : ℕ) → i < j → j < 2 → sep i ≺ sep j
unfolding cmp
ascend zero (suc zero) lt le = refl
ascend i zero lt le = absurd (omega arith)
ascend (suc i) (suc j) lt le = absurd (omega arith)
ascend i (suc (suc j)) lt le = absurd (omega arith)

-- the root for the key 5
high-IsBranch : IsBranch little tree_db (5 ∷ []) 1 3
high-IsBranch = record {
  bytes = root;
  view = root_view;
  at = root_at;
  parsed = root_parsed;
  not_leaf = refl;
  inner = refl;
  offset = offset;
  size = size;
  kid = kid;
  sep = sep;
  entries = entries;
  seps = seps;
  ascend = ascend;
  slot = 1;
  slot_in = omega arith;
  slot_kid = refl;
  not_above = λ some_slot. inl refl;
  above = λ j lt le. absurd (omega arith);
}

low_above : (j : ℕ) → 0 < j → j < 2 → (3 ∷ []) ≺ sep j
unfolding cmp
low_above zero lt le = absurd (omega arith)
low_above (suc zero) lt le = refl
low_above (suc (suc j)) lt le = absurd (omega arith)

-- the root for the key 3
low-IsBranch : IsBranch little tree_db (3 ∷ []) 1 2
low-IsBranch = record {
  bytes = root;
  view = root_view;
  at = root_at;
  parsed = root_parsed;
  not_leaf = refl;
  inner = refl;
  offset = offset;
  size = size;
  kid = kid;
  sep = sep;
  entries = entries;
  seps = seps;
  ascend = ascend;
  slot = 0;
  slot_in = omega arith;
  slot_kid = refl;
  not_above = λ some_slot. absurd (omega arith);
  above = low_above;
}

high_at : page tree_db 3 ≡ ok (leaf 3 5 7)
unfolding page
high_at = refl

low_at : page tree_db 2 ≡ ok (leaf 2 1 9)
unfolding page
low_at = refl

high_key : key_at little (leaf 3 5 7) 0 ≡ 5 ∷ []
unfolding from_ne_u16 from_ne_u32
high_key = refl

other_key : (i : ℕ) → i < 1 → key_at little (leaf 2 1 9) i ≢ 3 ∷ []
unfolding from_ne_u16 from_ne_u32
other_key zero lt e = cc
other_key (suc i) lt e = absurd (omega arith)

high-Leads : Leads little tree_db (key_at little (leaf 3 5 7) 0) 1 1 3
high-Leads = rw high_key (down 1 3 0 3 high-IsBranch (here 3))

get-Leads_example :
    get little tree_db 2 (key_at little (leaf 3 5 7) 0) ≡ ok (some (val_at little (leaf 3 5 7) 0))
get-Leads_example =
    get-Leads little tree_db (leaf 3 5 7) 1 2 1 3 0 high-Leads high_at (leaf-IsLeaf 3 5 7)
      (are_bytes-AreBytes (leaf 3 5 7) refl) (one-IsSorted (leaf 3 5 7)) (omega arith) (omega arith)

get-Leads_absent_example : get little tree_db 2 (3 ∷ []) ≡ ok none
get-Leads_absent_example =
    get-Leads_absent little tree_db (leaf 2 1 9) 1 2 1 2 (3 ∷ [])
      (down 1 2 0 2 low-IsBranch (here 2)) low_at (leaf-IsLeaf 2 1 9)
      (are_bytes-AreBytes (leaf 2 1 9) refl) (one-IsSorted (leaf 2 1 9)) other_key (omega arith)
