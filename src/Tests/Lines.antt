-- ===== src/Tests/Lines.antt =====
-- The lines of the command line program, on a file of two pages of 512 bytes whose root is a leaf of
-- one entry.
use db.Prelude.{
  ℕ, zero, suc, ◌+◌, ◌≤◌, ◌<◌, ◌≡◌, refl, false, List, [], ◌∷◌, ◌++◌, length, replicate, get_or,
  arith,
}
use db.Outcomes.{ok}
use db.Words.{little, from_ne_u16, from_ne_u32, u32_from}
use db.Words.Bytes.{AreBytes, are_bytes-AreBytes}
use db.Format.{p_root, p_invalid, align_entry, parse_meta, meta_word}
use db.PageBuf.Slots.{upper_of, slot_of}
use db.Writer.Entries.{leaf_nbytes}
use db.Db.{Db, open_db, page}
use db.LeafPage.{IsLeaf, ksize_at, dsize_at}
use db.Dump.{main}
use db.Dump.Prints.{IsPrinted, page_entries, main-lines}

-- the key "k" and the value 9, each with a NUL
abbrev leaf : List ℕ
leaf =
    1
    ∷ 0
    ∷ 0
    ∷ 0
    ∷ 0
    ∷ 0
    ∷ 0
    ∷ 0
    ∷ 0
    ∷ 0
    ∷ 0
    ∷ 0
    ∷ 2
    ∷ 0
    ∷ 0
    ∷ 0
    ∷ 22
    ∷ 0
    ∷ 24
    ∷ 0
    ∷ 24
    ∷ 0
    ∷ 0
    ∷ 0
    ∷ 2
    ∷ 0
    ∷ 0
    ∷ 0
    ∷ 2
    ∷ 0
    ∷ 0
    ∷ 0
    ∷ 0
    ∷ 107
    ∷ 0
    ∷ 9
    ∷ 0
    ∷ replicate 475 0

abbrev meta : List ℕ
meta =
    98
    ∷ 49
    ∷ 5
    ∷ 0
    ∷ 3
    ∷ 0
    ∷ 0
    ∷ 0
    ∷ 0
    ∷ 2
    ∷ 0
    ∷ 0
    ∷ 0
    ∷ 0
    ∷ 0
    ∷ 0
    ∷ 0
    ∷ 0
    ∷ 0
    ∷ 0
    ∷ 32
    ∷ 0
    ∷ 0
    ∷ 0
    ∷ replicate 488 0

abbrev file : List ℕ
file = meta ++ leaf

abbrev file_db : Db
file_db = record { mmap = file; psize = 512; swap = false }

opened : open_db little file ≡ ok file_db
unfolding open_db parse_meta meta_word from_ne_u32
opened = refl

root : page file_db p_root ≡ ok leaf
unfolding page
root = refl

leaf-AreBytes : AreBytes leaf
leaf-AreBytes = are_bytes-AreBytes leaf refl

leaf-IsLeaf : IsLeaf little leaf 1
unfolding from_ne_u16 from_ne_u32 align_entry
leaf-IsLeaf = record {
  slots = record {
    header_in = omega arith;
    small = omega arith;
    lower_at = refl;
    free = omega arith;
    upper_in = omega arith;
  };
  leaf_flags = refl;
  entry_low = low;
  entry_high = high;
  entry_inline = inlined;
}
  where
    low : (i : ℕ) → i < 1 → upper_of little leaf ≤ slot_of little leaf i
    low zero lt = omega arith
    low (suc i) lt = absurd (omega arith)

    high :
        (i : ℕ)
        → i < 1
        → slot_of little leaf i
            + leaf_nbytes
                (ksize_at little leaf (slot_of little leaf i))
                (dsize_at little leaf (slot_of little leaf i))
          ≤ length leaf
    high zero lt = omega arith
    high (suc i) lt = absurd (omega arith)

    inlined : (i : ℕ) → i < 1 → get_or leaf (slot_of little leaf i + 8) 0 ≡ 0
    inlined zero lt = refl
    inlined (suc i) lt = absurd (omega arith)

alone : u32_from little leaf 8 ≡ p_invalid
unfolding from_ne_u32
alone = refl

main-lines_example :
    (out : List ℕ) × IsPrinted (page_entries little leaf 0 1) out
    × (main little (λ text. text) (λ name. ok file) 3 2 ((100 ∷ []) ∷ [])
        ≡ record { exit = ok 0; stdout = out; stderr = [] })
main-lines_example =
    main-lines little (λ text. text) (λ name. ok file) (100 ∷ []) file leaf file_db 1 2 refl opened
      root leaf-IsLeaf leaf-AreBytes alone
