-- ===== src/RootLeaf/First.antt =====
-- src/writer/mod.rs: the size check of `put`, by what it promises: on a new database it refuses the
-- entries that do not fit, and only those.
use db.Prelude.{
  ℕ, zero, suc, ◌+◌, ◌-◌, ◌*◌, ◌/◌, ◌%◌, ◌≤◌, ◌≡◌, refl, ◌⊎◌, inl, inr, List, length, Bool, true,
  false, arith,
}
use db.Outcomes.{ok, err, entry_too_large}
use db.Words.{Endian}
use db.Words.Bytes.{AreBytes}
use db.Format.{align_entry, p_root, page_header_size, min_psize, max_psize}
use db.Writer.{Writer, with_page, create_sized}
use db.Writer.Entries.{leaf_nbytes}
use db.Writer.Pages.{leaf_search}
use db.Writer.Put.{put, too_large}
use db.LeafPage.{key_at, val_at}
use db.LeafPage.Search.{IsPlace, leaf_search-IsPlace}
use db.RootLeaf.{IsRootLeaf}
use db.RootLeaf.Fresh.{root_of, lower_root, upper_root, fresh, create_sized-eq-ok, fresh-IsRootLeaf}
use db.RootLeaf.Puts.{put-root_leaf, put-too_large}

abbrev round_up : ℕ → ℕ
round_up n = (n + 3) / 4 * 4

-- An empty leaf page has room for the entry and its pointer, and an empty internal page for the key
-- as a separator, an entry without a key, and the pointers of both. A page header takes 20 bytes, a
-- pointer 2, the head of an entry 9.
abbrev pub Fits : ℕ → ℕ → ℕ → Type 0
Fits psize klen vlen =
    (20 + 2 + round_up (9 + klen + vlen) ≤ psize)
    × (20 + 2 * 2 + round_up 9 + round_up (9 + klen) ≤ psize)

module _ (h : Endian) (psize klen vlen : ℕ) (low : min_psize ≤ psize) where
  small-Fits : too_large h (psize - page_header_size) klen vlen ≡ false → Fits psize klen vlen
  unfolding too_large align_entry
  small-Fits e = ground arith

  large-not-Fits : too_large h (psize - page_header_size) klen vlen ≡ true → ¬ Fits psize klen vlen
  unfolding too_large align_entry
  large-not-Fits e = ground arith

  small-room :
      too_large h (psize - page_header_size) klen vlen ≡ false
      → leaf_nbytes klen vlen + 2 ≤ psize - page_header_size
  unfolding too_large align_entry
  small-room e = ground arith

-- For every even page size that the format allows, and a key and a value of bytes, of any lengths: on
-- a new database `put` either ends with `true` and leaves a leaf that holds this pair only, and the
-- pair fits, as an entry of an empty leaf and the key as a separator of a new root; or it does not
-- fit, and `put` reports `EntryTooLarge` and leaves the writer as it was.
pub put-Fits :
    (h : Endian) (psize fuel : ℕ) (key val : List ℕ)
    → min_psize ≤ psize
    → psize ≤ max_psize
    → psize % 2 ≡ 0
    → AreBytes key
    → AreBytes val
    → (w : Writer) × (create_sized h psize ≡ ok w)
      × ((Fits psize (length key) (length val)
            × ((q : List ℕ) × (put h (suc fuel) key val w ≡ (ok true, with_page w p_root q))
                × IsRootLeaf h (with_page w p_root q) q 1
                × (key_at h q 0 ≡ key)
                × (val_at h q 0 ≡ val)))
          ⊎ (¬ Fits psize (length key) (length val)
              × (put h (suc fuel) key val w
                  ≡ (err (entry_too_large (length key) (length val)), w))))
put-Fits h psize fuel key val low high even kb vb =
    (w, create_sized-eq-ok h psize low high, by_size (too_large h usable klen vlen) refl)
  where
    w : Writer
    w = fresh h psize low high

    p : List ℕ
    p = root_of h psize low high

    usable : ℕ
    usable = psize - page_header_size

    klen : ℕ
    klen = length key

    vlen : ℕ
    vlen = length val

    root : IsRootLeaf h w p 0
    root = fresh-IsRootLeaf h psize low high even

    Stored : Type 0
    Stored =
        (q : List ℕ) × (put h (suc fuel) key val w ≡ (ok true, with_page w p_root q))
        × IsRootLeaf h (with_page w p_root q) q 1
        × (key_at h q 0 ≡ key)
        × (val_at h q 0 ≡ val)

    stored : too_large h usable klen vlen ≡ false → Stored
    stored small =
        let (found, idx, searched, place) =
          leaf_search-IsPlace h p 0 p_root key root.leaf root.bytes root.sorted in
        at_place found idx searched place
      where
        at_place :
            (found : Bool) (idx : ℕ)
            → leaf_search h p_root p key ≡ ok (found, idx)
            → IsPlace h p 0 key found idx
            → Stored
        at_place true idx searched (lt, e) = absurd (omega arith)
        at_place false (suc idx) searched place = absurd (omega (arith, place.0))
        at_place false zero searched place =
            put-root_leaf h w p 0 fuel 0 key val root kb vb small searched (
              omega (
                arith,
                small-room h psize klen vlen low small,
                lower_root h psize low high,
                upper_root h psize low high,
              ))

    by_size :
        (large : Bool)
        → too_large h usable klen vlen ≡ large
        → (Fits psize klen vlen × Stored)
          ⊎ (¬ Fits psize klen vlen
              × (put h (suc fuel) key val w ≡ (err (entry_too_large klen vlen), w)))
    by_size true e = inr (
      large-not-Fits h psize klen vlen low e,
      put-too_large h w (suc fuel) key val (omega arith) e,
    )
    by_size false e = inl (small-Fits h psize klen vlen low e, stored e)
