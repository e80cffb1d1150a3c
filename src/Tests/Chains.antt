-- ===== src/Tests/Chains.antt =====
-- Files of two levels with pages of 48 bytes: the root at page 1, and two leaves at pages 2 and 3,
-- the first of which has an entry or none.
use db.Prelude.{
  ℕ, zero, suc, ◌+◌, ◌≤◌, ◌<◌, ◌≡◌, refl, List, [], ◌∷◌, ◌++◌, length, replicate, get_or, false,
  arith, none, some, inl,
}
use db.Outcomes.{ok}
use db.Words.{little, from_ne_u16, from_ne_u32}
use db.Words.Bytes.{are_bytes-AreBytes}
use db.Format.{align_entry}
use db.Order.{cmp, ◌≺◌}
use db.PageBuf.Slots.{upper_of, slot_of}
use db.Writer.Entries.{leaf_nbytes, internal_nbytes}
use db.Db.{Db, page}
use db.Db.Search.{get}
use db.Iter.{pristine, done, next}
use db.LeafPage.{IsLeaf, ksize_at, dsize_at, key_at, val_at}
use db.LeafPage.Scan.{collect}
use db.InternalPage.{IsInternal, IsNode, sep_size_at, sep_at}
use db.Tree.{Leads, here, down}
use db.Tree.Nodes.{node-IsBranch}
use db.Tree.Chain.{Leftmost, bottom, deeper, Chain, ends, links, entries_along, count_along}
use db.Tree.Scan.{collect-entries_along, next-ends_early}

abbrev root : List ℕ
root =
    1 ∷ 0 ∷ 0 ∷ 0 ∷ 0 ∷ 0 ∷ 0 ∷ 0 ∷ 0 ∷ 0 ∷ 0 ∷ 0 ∷ 1 ∷ 0 ∷ 0 ∷ 0 ∷ 24 ∷ 0 ∷ 24 ∷ 0 ∷ 36 ∷ 0 ∷ 24
    ∷ 0 ∷ 1 ∷ 0 ∷ 0 ∷ 0 ∷ 3 ∷ 0 ∷ 0 ∷ 0 ∷ 0 ∷ 5 ∷ 0 ∷ 0 ∷ 0 ∷ 0 ∷ 0 ∷ 0 ∷ 2 ∷ 0 ∷ 0 ∷ 0 ∷ 0 ∷ 0 ∷ 0
    ∷ 0 ∷ []

-- a leaf of one entry, in front of page `link`
abbrev leaf : ℕ → ℕ → ℕ → ℕ → List ℕ
leaf pgno link k d =
    pgno ∷ 0 ∷ 0 ∷ 0 ∷ 0 ∷ 0 ∷ 0 ∷ 0 ∷ link ∷ 0 ∷ 0 ∷ 0 ∷ 2 ∷ 0 ∷ 0 ∷ 0 ∷ 22 ∷ 0 ∷ 36 ∷ 0 ∷ 36 ∷ 0
    ∷ 0 ∷ 0 ∷ 0 ∷ 0 ∷ 0 ∷ 0 ∷ 0 ∷ 0 ∷ 0 ∷ 0 ∷ 0 ∷ 0 ∷ 0 ∷ 0 ∷ 1 ∷ 0 ∷ 0 ∷ 0 ∷ 1 ∷ 0 ∷ 0 ∷ 0 ∷ 0 ∷ k
    ∷ d ∷ 0 ∷ []

-- page 2 without entries
abbrev bare : List ℕ
bare =
    2 ∷ 0 ∷ 0 ∷ 0 ∷ 0 ∷ 0 ∷ 0 ∷ 0 ∷ 3 ∷ 0 ∷ 0 ∷ 0 ∷ 2 ∷ 0 ∷ 0 ∷ 0 ∷ 20 ∷ 0 ∷ 48 ∷ 0 ∷ replicate 28 0

abbrev file_db : List ℕ → Db
file_db first = record {
  mmap = replicate 48 0 ++ root ++ first ++ leaf 3 0 5 7;
  psize = 48;
  swap = false;
}

leaf-IsLeaf : (pgno link k d : ℕ) → IsLeaf little (leaf pgno link k d) 1
unfolding from_ne_u16 from_ne_u32 align_entry
leaf-IsLeaf pgno link k d = record {
  slots = record {
    header_in = omega arith;
    small = omega arith;
    lower_at = refl;
    free = omega arith;
    upper_in = omega arith;
  };
  leaf_flags = refl;
  entry_low = low;
  entry_high = high;
  entry_inline = inlined;
}
  where
    low :
        (i : ℕ)
        → i < 1
        → upper_of little (leaf pgno link k d) ≤ slot_of little (leaf pgno link k d) i
    low zero lt = omega arith
    low (suc i) lt = absurd (omega arith)

    high :
        (i : ℕ)
        → i < 1
        → slot_of little (leaf pgno link k d) i
            + leaf_nbytes
                (ksize_at little (leaf pgno link k d) (slot_of little (leaf pgno link k d) i))
                (dsize_at little (leaf pgno link k d) (slot_of little (leaf pgno link k d) i))
          ≤ length (leaf pgno link k d)
    high zero lt = omega arith
    high (suc i) lt = absurd (omega arith)

    inlined :
        (i : ℕ)
        → i < 1
        → get_or (leaf pgno link k d) (slot_of little (leaf pgno link k d) i + 8) 0 ≡ 0
    inlined zero lt = refl
    inlined (suc i) lt = absurd (omega arith)

bare-IsLeaf : IsLeaf little bare 0
unfolding from_ne_u16 from_ne_u32
bare-IsLeaf = record {
  slots = record {
    header_in = omega arith;
    small = omega arith;
    lower_at = refl;
    free = omega arith;
    upper_in = omega arith;
  };
  leaf_flags = refl;
  entry_low = λ i lt. absurd (omega arith);
  entry_high = λ i lt. absurd (omega arith);
  entry_inline = λ i lt. absurd (omega arith);
}

root-IsInternal : IsInternal little root 2
unfolding from_ne_u16 from_ne_u32 align_entry
root-IsInternal = record {
  slots = record {
    header_in = omega arith;
    small = omega arith;
    lower_at = refl;
    free = omega arith;
    upper_in = omega arith;
  };
  internal_flags = refl;
  entry_low = low;
  entry_high = high;
  entry_inline = inlined;
}
  where
    low : (i : ℕ) → i < 2 → upper_of little root ≤ slot_of little root i
    low zero lt = omega arith
    low (suc zero) lt = omega arith
    low (suc (suc i)) lt = absurd (omega arith)

    high :
        (i : ℕ)
        → i < 2
        → slot_of little root i + internal_nbytes (sep_size_at little root i) ≤ length root
    high zero lt = omega arith
    high (suc zero) lt = omega arith
    high (suc (suc i)) lt = absurd (omega arith)

    inlined : (i : ℕ) → i < 2 → get_or root (slot_of little root i + 8) 0 ≡ 0
    inlined zero lt = refl
    inlined (suc zero) lt = refl
    inlined (suc (suc i)) lt = absurd (omega arith)

seps_ascend : (i j : ℕ) → i < j → j < 2 → sep_at little root i ≺ sep_at little root j
unfolding from_ne_u16 from_ne_u32 cmp
seps_ascend zero (suc zero) lt le = refl
seps_ascend i zero lt le = absurd (omega arith)
seps_ascend (suc i) (suc j) lt le = absurd (omega arith)
seps_ascend i (suc (suc j)) lt le = absurd (omega arith)

-- the root for the key 5
high-IsNode : IsNode little root (key_at little (leaf 3 0 5 7) 0) 3
unfolding from_ne_u16 from_ne_u32
high-IsNode = record {
  count = 2;
  internal = root-IsInternal;
  bytes = are_bytes-AreBytes root refl;
  ascend = seps_ascend;
  slot = 1;
  slot_in = omega arith;
  slot_child = refl;
  not_above = λ some_slot. inl refl;
  above = λ j lt le. absurd (omega arith);
}

low_at : page (file_db (leaf 2 3 1 9)) 2 ≡ ok (leaf 2 3 1 9)
unfolding page
low_at = refl

high_at : page (file_db (leaf 2 3 1 9)) 3 ≡ ok (leaf 3 0 5 7)
unfolding page
high_at = refl

root_at : page (file_db (leaf 2 3 1 9)) 1 ≡ ok root
unfolding page
root_at = refl

first_down : Leftmost little (file_db (leaf 2 3 1 9)) 1 1 2
unfolding from_ne_u16 from_ne_u32
first_down =
    deeper 1 0 2 2 root root_at root-IsInternal (are_bytes-AreBytes root refl) (omega arith)
      (bottom 2)

both : Chain little (file_db (leaf 2 3 1 9)) 2 ((leaf 2 3 1 9, 1) ∷ (leaf 3 0 5 7, 1) ∷ [])
unfolding from_ne_u16 from_ne_u32
both =
    links 2 1 (leaf 2 3 1 9) ((leaf 3 0 5 7, 1) ∷ []) (λ e. omega (arith, e)) low_at
      (leaf-IsLeaf 2 3 1 9) (are_bytes-AreBytes (leaf 2 3 1 9) refl)
      (links 3 1 (leaf 3 0 5 7) [] (λ e. omega (arith, e)) high_at (leaf-IsLeaf 3 0 5 7)
        (are_bytes-AreBytes (leaf 3 0 5 7) refl) ends)

collect-entries_along_example :
    collect little (file_db (leaf 2 3 1 9)) 3 3 pristine
    ≡ entries_along little ((leaf 2 3 1 9, 1) ∷ (leaf 3 0 5 7, 1) ∷ [])
unfolding count_along
collect-entries_along_example =
    collect-entries_along little (file_db (leaf 2 3 1 9)) 1 2 3 1 (leaf 2 3 1 9)
      ((leaf 3 0 5 7, 1) ∷ []) first_down both (omega arith) (omega arith) (omega arith)

bare_at : page (file_db bare) 2 ≡ ok bare
unfolding page
bare_at = refl

high_at' : page (file_db bare) 3 ≡ ok (leaf 3 0 5 7)
unfolding page
high_at' = refl

root_at' : page (file_db bare) 1 ≡ ok root
unfolding page
root_at' = refl

bare_down : Leftmost little (file_db bare) 1 1 2
unfolding from_ne_u16 from_ne_u32
bare_down =
    deeper 1 0 2 2 root root_at' root-IsInternal (are_bytes-AreBytes root refl) (omega arith)
      (bottom 2)

five_Leads : Leads little (file_db bare) (key_at little (leaf 3 0 5 7) 0) 1 1 3
five_Leads =
    down 1 3 0 3
      (node-IsBranch little (file_db bare) (key_at little (leaf 3 0 5 7) 0) 1 3 root root_at'
        high-IsNode)
      (here 3)

next-ends_early_example :
    (get little (file_db bare) 2 (key_at little (leaf 3 0 5 7) 0)
      ≡ ok (some (val_at little (leaf 3 0 5 7) 0)))
    × (next little (file_db bare) 2 pristine ≡ (none, done))
next-ends_early_example =
    next-ends_early little (file_db bare) (leaf 3 0 5 7) bare 1 0 1 3 1 2 2 five_Leads high_at'
      (leaf-IsLeaf 3 0 5 7) (are_bytes-AreBytes (leaf 3 0 5 7) refl)
      (λ i j lt le. absurd (omega arith)) (omega arith) bare_down bare_at bare-IsLeaf
      (are_bytes-AreBytes bare refl) (omega arith) (omega arith)
