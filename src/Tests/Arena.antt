-- ===== src/Tests/Arena.antt =====
-- Databases of two levels and of one in the arena of a writer with pages of 512 bytes.
use db.Prelude.{
  ℕ, zero, suc, ◌+◌, ◌-◌, ◌≤◌, ◌<◌, ◌≡◌, ◌≢◌, refl, List, [], ◌∷◌, ◌++◌, length, replicate, get_or,
  true, false, arith, none, some, inl, inr, Ordering, Option, sym, ap, subst, ◌∙◌, ◌⊎◌,
}
use db.Outcomes.{ok}
use db.Words.{little, big, from_ne_u16, from_ne_u32}
use db.Words.Bytes.{are_bytes-AreBytes}
use db.Format.{align_entry, page_header_size}
use db.Order.{cmp, ◌≺◌}
use db.Order.Laws.{eq_of_cmp, ≺_trans}
use db.PageBuf.Slots.{upper_of, lower_of, slot_of}
use db.Db.{Db, open_db}
use db.Db.Search.{get}
use db.Writer.{Writer, finish}
use db.Writer.Meta.{IsArena}
use db.Writer.Entries.{leaf_nbytes, internal_nbytes}
use db.Writer.Put.{put, del, too_large}
use db.LeafPage.{IsLeaf, IsPacked, ksize_at, dsize_at, key_at, val_at}
use db.LeafPage.Search.{IsSorted, gt→≺, ≺_irrefl}
use db.InternalPage.{IsInternal, IsNode, sep_size_at, sep_at}
use db.Arena.{HasPage, stop, down, Reaches}
use db.Session.{update}
use db.Session.Held.{update-other}
use db.Arena.Table.{Lookup, Represents}
use db.Arena.Table.Reader.{get-Represents}
use db.Arena.Table.Calls.{put-Represents, put-Represents_held, del-Represents}

-- the root of the tree: pages 2 and 3 below it, the separators empty and 5
abbrev root : List ℕ
root =
    (1 ∷ 0 ∷ 0 ∷ 0 ∷ 0 ∷ 0 ∷ 0 ∷ 0 ∷ 0 ∷ 0 ∷ 0 ∷ 0 ∷ 1 ∷ 0 ∷ 0 ∷ 0 ∷ 24 ∷ 0 ∷ 232 ∷ 1 ∷ 244 ∷ 1
      ∷ 232 ∷ 1 ∷ [])
    ++ replicate 464 0
    ++ (1 ∷ 0 ∷ 0 ∷ 0 ∷ 3 ∷ 0 ∷ 0 ∷ 0 ∷ 0 ∷ 5 ∷ 0 ∷ 0 ∷ 0 ∷ 0 ∷ 0 ∷ 0 ∷ 2 ∷ 0 ∷ 0 ∷ 0 ∷ 0 ∷ 0 ∷ 0
        ∷ 0 ∷ [])

-- a leaf of one entry
abbrev leaf_of : ℕ → ℕ → ℕ → List ℕ
leaf_of pgno k d =
    (pgno ∷ 0 ∷ 0 ∷ 0 ∷ 0 ∷ 0 ∷ 0 ∷ 0 ∷ 0 ∷ 0 ∷ 0 ∷ 0 ∷ 2 ∷ 0 ∷ 0 ∷ 0 ∷ 22 ∷ 0 ∷ 244 ∷ 1 ∷ 244 ∷ 1
      ∷ [])
    ++ replicate 478 0
    ++ (1 ∷ 0 ∷ 0 ∷ 0 ∷ 1 ∷ 0 ∷ 0 ∷ 0 ∷ 0 ∷ k ∷ d ∷ 0 ∷ [])

abbrev tree : Writer
tree = record {
  psize = 512;
  pages = replicate 512 0 ++ root ++ leaf_of 2 1 9 ++ leaf_of 3 5 7;
  free = 0;
  nrecs = 0;
  flags = 32;
}

tree-IsArena : IsArena tree
tree-IsArena = record {
  psize_low = omega arith;
  psize_high = omega arith;
  psize_even = refl;
  whole = refl;
  some_page = omega arith;
  known_flags = refl;
}

root_held : HasPage tree 1 root
root_held = record { from_one = omega arith; inside = omega arith; held = refl }

low_held : HasPage tree 2 (leaf_of 2 1 9)
low_held = record { from_one = omega arith; inside = omega arith; held = refl }

leaf_of-IsLeaf : (pgno k d : ℕ) → IsLeaf little (leaf_of pgno k d) 1
unfolding from_ne_u16 from_ne_u32 align_entry
leaf_of-IsLeaf pgno k d = record {
  slots = record {
    header_in = omega arith;
    small = omega arith;
    lower_at = refl;
    free = omega arith;
    upper_in = omega arith;
  };
  leaf_flags = refl;
  entry_low = low;
  entry_high = high;
  entry_inline = inlined;
}
  where
    low : (i : ℕ) → i < 1 → upper_of little (leaf_of pgno k d) ≤ slot_of little (leaf_of pgno k d) i
    low zero lt = omega arith
    low (suc i) lt = absurd (omega arith)

    high :
        (i : ℕ)
        → i < 1
        → slot_of little (leaf_of pgno k d) i
            + leaf_nbytes
                (ksize_at little (leaf_of pgno k d) (slot_of little (leaf_of pgno k d) i))
                (dsize_at little (leaf_of pgno k d) (slot_of little (leaf_of pgno k d) i))
          ≤ length (leaf_of pgno k d)
    high zero lt = omega arith
    high (suc i) lt = absurd (omega arith)

    inlined :
        (i : ℕ) → i < 1 → get_or (leaf_of pgno k d) (slot_of little (leaf_of pgno k d) i + 8) 0 ≡ 0
    inlined zero lt = refl
    inlined (suc i) lt = absurd (omega arith)

root-IsInternal : IsInternal little root 2
unfolding from_ne_u16 from_ne_u32 align_entry
root-IsInternal = record {
  slots = record {
    header_in = omega arith;
    small = omega arith;
    lower_at = refl;
    free = omega arith;
    upper_in = omega arith;
  };
  internal_flags = refl;
  entry_low = low;
  entry_high = high;
  entry_inline = inlined;
}
  where
    low : (i : ℕ) → i < 2 → upper_of little root ≤ slot_of little root i
    low zero lt = omega arith
    low (suc zero) lt = omega arith
    low (suc (suc i)) lt = absurd (omega arith)

    high :
        (i : ℕ)
        → i < 2
        → slot_of little root i + internal_nbytes (sep_size_at little root i) ≤ length root
    high zero lt = omega arith
    high (suc zero) lt = omega arith
    high (suc (suc i)) lt = absurd (omega arith)

    inlined : (i : ℕ) → i < 2 → get_or root (slot_of little root i + 8) 0 ≡ 0
    inlined zero lt = refl
    inlined (suc zero) lt = refl
    inlined (suc (suc i)) lt = absurd (omega arith)

seps_ascend : (i j : ℕ) → i < j → j < 2 → sep_at little root i ≺ sep_at little root j
unfolding from_ne_u16 from_ne_u32 cmp
seps_ascend zero (suc zero) lt le = refl
seps_ascend i zero lt le = absurd (omega arith)
seps_ascend (suc i) (suc j) lt le = absurd (omega arith)
seps_ascend i (suc (suc j)) lt le = absurd (omega arith)

high_held : HasPage tree 3 (leaf_of 3 5 7)
high_held = record { from_one = omega arith; inside = omega arith; held = refl }

-- a key below 5 belongs to page 2
low-IsNode : (key : List ℕ) → key ≺ (5 ∷ []) → IsNode little root key 2
unfolding from_ne_u16 from_ne_u32
low-IsNode key less = record {
  count = 2;
  internal = root-IsInternal;
  bytes = are_bytes-AreBytes root refl;
  ascend = seps_ascend;
  slot = 0;
  slot_in = omega arith;
  slot_child = refl;
  not_above = λ some_slot. absurd (omega arith);
  above = above;
}
  where
    above : (j : ℕ) → 0 < j → j < 2 → key ≺ sep_at little root j
    above zero lt le = absurd (omega arith)
    above (suc zero) lt le = less
    above (suc (suc j)) lt le = absurd (omega arith)

-- another key belongs to page 3
high-IsNode : (key : List ℕ) → (5 ∷ [] ≡ key) ⊎ ((5 ∷ []) ≺ key) → IsNode little root key 3
unfolding from_ne_u16 from_ne_u32
high-IsNode key over = record {
  count = 2;
  internal = root-IsInternal;
  bytes = are_bytes-AreBytes root refl;
  ascend = seps_ascend;
  slot = 1;
  slot_in = omega arith;
  slot_child = refl;
  not_above = λ some_slot. over;
  above = λ j lt le. absurd (omega arith);
}

one-IsSorted : (p : List ℕ) → IsSorted little p 1
one-IsSorted p i j lt le = absurd (omega arith)

one-IsPacked : (p : List ℕ) → IsPacked little p 1
one-IsPacked p = record { apart = λ i j li lj ne. absurd (omega arith) }

low_reached : (key : List ℕ) → key ≺ (5 ∷ []) → Reaches little tree key 1 2 (leaf_of 2 1 9) 1
low_reached key less = record {
  path = down 1 2 0 2 root root_held (low-IsNode key less) (stop 2);
  at = low_held;
  leaf = leaf_of-IsLeaf 2 1 9;
  packed = one-IsPacked (leaf_of 2 1 9);
  bytes = are_bytes-AreBytes (leaf_of 2 1 9) refl;
  sorted = one-IsSorted (leaf_of 2 1 9);
}

high_reached :
    (key : List ℕ)
    → (5 ∷ [] ≡ key) ⊎ ((5 ∷ []) ≺ key)
    → Reaches little tree key 1 3 (leaf_of 3 5 7) 1
high_reached key over = record {
  path = down 1 3 0 3 root root_held (high-IsNode key over) (stop 3);
  at = high_held;
  leaf = leaf_of-IsLeaf 3 5 7;
  packed = one-IsPacked (leaf_of 3 5 7);
  bytes = are_bytes-AreBytes (leaf_of 3 5 7) refl;
  sorted = one-IsSorted (leaf_of 3 5 7);
}

abbrev low_find : List ℕ → Option (List ℕ)
low_find = update (1 ∷ []) (some (9 ∷ [])) (λ k. none)

-- the map that the tree is
abbrev tree_find : List ℕ → Option (List ℕ)
tree_find = update (5 ∷ []) (some (7 ∷ [])) low_find

low_key : key_at little (leaf_of 2 1 9) 0 ≡ 1 ∷ []
unfolding from_ne_u16 from_ne_u32
low_key = refl

low_val : val_at little (leaf_of 2 1 9) 0 ≡ 9 ∷ []
unfolding from_ne_u16 from_ne_u32
low_val = refl

high_key : key_at little (leaf_of 3 5 7) 0 ≡ 5 ∷ []
unfolding from_ne_u16 from_ne_u32
high_key = refl

high_val : val_at little (leaf_of 3 5 7) 0 ≡ 7 ∷ []
unfolding from_ne_u16 from_ne_u32
high_val = refl

one_found : tree_find (1 ∷ []) ≡ some (9 ∷ [])
unfolding update cmp
one_found = refl

three_absent : tree_find (3 ∷ []) ≡ none
unfolding update cmp
three_absent = refl

five_found : tree_find (5 ∷ []) ≡ some (7 ∷ [])
unfolding update cmp
five_found = refl

other_none : (key : List ℕ) → 1 ∷ [] ≢ key → 5 ∷ [] ≢ key → tree_find key ≡ none
other_none key ne1 ne5 =
    update-other (5 ∷ []) key (some (7 ∷ [])) low_find ne5
    ∙ update-other (1 ∷ []) key (some (9 ∷ [])) (λ k. none) ne1

low_Lookup : (key : List ℕ) → key ≺ (5 ∷ []) → Lookup little tree 1 key (tree_find key)
low_Lookup key less = record {
  depth = 1;
  pgno = 2;
  p = leaf_of 2 1 9;
  n = 1;
  not_deeper = omega arith;
  reached = low_reached key less;
  found = λ i lt e.
      let first : i ≡ 0 = omega arith in
      let here = sym low_key ∙ ap (key_at little (leaf_of 2 1 9)) (sym first) ∙ e in
      ap tree_find (sym here)
      ∙ one_found
      ∙ ap some (sym low_val ∙ ap (val_at little (leaf_of 2 1 9)) (sym first));
  missed = λ none_is.
      other_none key (λ e. none_is 0 (omega arith) (low_key ∙ e))
        (λ e. ≺_irrefl (5 ∷ []) (subst (λ k. k ≺ (5 ∷ [])) (sym e) less));
}

one_below : (1 ∷ []) ≺ (5 ∷ [])
unfolding cmp
one_below = refl

high_Lookup :
    (key : List ℕ) → (5 ∷ [] ≡ key) ⊎ ((5 ∷ []) ≺ key) → Lookup little tree 1 key (tree_find key)
high_Lookup key over = record {
  depth = 1;
  pgno = 3;
  p = leaf_of 3 5 7;
  n = 1;
  not_deeper = omega arith;
  reached = high_reached key over;
  found = λ i lt e.
      let first : i ≡ 0 = omega arith in
      let here = sym high_key ∙ ap (key_at little (leaf_of 3 5 7)) (sym first) ∙ e in
      ap tree_find (sym here)
      ∙ five_found
      ∙ ap some (sym high_val ∙ ap (val_at little (leaf_of 3 5 7)) (sym first));
  missed = λ none_is. other_none key not_one (λ e. none_is 0 (omega arith) (high_key ∙ e));
}
  where
    not_one : 1 ∷ [] ≢ key
    not_one e =
        let low : key ≺ (5 ∷ []) = subst (λ k. k ≺ (5 ∷ [])) e one_below in
        elim over [
          | inl same ↦ ≺_irrefl key (subst (λ k. key ≺ k) same low)
          | inr more ↦ ≺_irrefl key (≺_trans key (5 ∷ []) key low more)
        ]

tree-Represents : Represents little tree 1 tree_find
tree-Represents = record {
  arena = tree-IsArena;
  every = λ key. by_order key (cmp key (5 ∷ [])) refl;
}
  where
    by_order :
        (key : List ℕ) (o : Ordering)
        → cmp key (5 ∷ []) ≡ o
        → Lookup little tree 1 key (tree_find key)
    by_order key Ordering.lt e = low_Lookup key e
    by_order key Ordering.eq e = high_Lookup key (inl (sym (eq_of_cmp key (5 ∷ []) e)))
    by_order key Ordering.gt e = high_Lookup key (inr (gt→≺ key (5 ∷ []) e))

small_entry : too_large little (512 - page_header_size) 1 1 ≡ false
unfolding too_large align_entry
small_entry = refl

-- the leaf for the key 3 has room
room :
    leaf_nbytes 1 1 + 2
    ≤ upper_of little (tree-Represents.every (3 ∷ [])).p
      - lower_of little (tree-Represents.every (3 ∷ [])).p
unfolding align_entry from_ne_u16 cmp tree-Represents low_Lookup
room = omega arith

get-Represents_example :
    (file : List ℕ) × (finish little tree ≡ ok file)
    × (db : Db) × (open_db big file ≡ ok db)
    × ((key : List ℕ) → get big db 2 key ≡ ok (tree_find key))
get-Represents_example = get-Represents little big tree 1 2 tree_find tree-Represents (omega arith)

put-Represents_example :
    (w' : Writer) × (put little 2 (3 ∷ []) (8 ∷ []) tree ≡ (ok true, w'))
    × Represents little w' 1 (update (3 ∷ []) (some (8 ∷ [])) tree_find)
put-Represents_example =
    put-Represents little tree 1 2 tree_find (3 ∷ []) (8 ∷ []) tree-Represents (omega arith)
      (are_bytes-AreBytes (3 ∷ []) refl) (are_bytes-AreBytes (8 ∷ []) refl) small_entry three_absent
      room

put-Represents_held_example : put little 2 (1 ∷ []) (8 ∷ []) tree ≡ (ok false, tree)
put-Represents_held_example =
    put-Represents_held little tree 1 2 tree_find (1 ∷ []) (8 ∷ []) (9 ∷ []) tree-Represents
      (omega arith) small_entry one_found

del-Represents_example :
    ((old : List ℕ) × (tree_find (1 ∷ []) ≡ some old)
      × (w' : Writer) × (del little 2 (1 ∷ []) tree ≡ (ok true, w'))
      × Represents little w' 1 (update (1 ∷ []) none tree_find))
    ⊎ ((tree_find (1 ∷ []) ≡ none) × (del little 2 (1 ∷ []) tree ≡ (ok false, tree)))
del-Represents_example =
    del-Represents little tree 1 2 tree_find (1 ∷ []) tree-Represents (omega arith)
