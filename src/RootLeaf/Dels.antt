-- ===== src/RootLeaf/Dels.antt =====
-- `del` of a key that a database of one leaf holds.
use db.Prelude.{
  ℕ, suc, ◌+◌, ◌-◌, ◌≤◌, ◌<◌, ◌≡◌, ◌≢◌, refl, sym, ap, subst, ◌⊎◌, inl, inr, ◌∙◌, List, true, arith,
  some, none,
}
use native.Mathlib.Decide.{dec_lt}
use db.Outcomes.{ok}
use db.Words.{Endian}
use db.Format.{p_root}
use db.Db.{Db, open_db}
use db.Db.Search.{get}
use db.Order.{◌≺◌}
use db.Writer.{Writer, with_page, finish}
use db.Writer.Put.{del}
use db.LeafPage.{key_at, val_at}
use db.LeafPage.Delete.{Deleted, delete_leaf_entry-Deleted}
use db.LeafPage.Search.{IsSorted, key_unique}
use db.LeafPage.Store.{leaf_search-held}
use db.RootLeaf.{IsRootLeaf, del-present, replaced}
use db.RootLeaf.Files.{get-finish, get-finish_absent}

module _ (h : Endian) (p q : List ℕ) (n idx : ℕ) (sorted : IsSorted h p (n + 1)) (inside : idx ≤ n)
    (gone : Deleted h p q n idx) where
  -- An entry of the new page, with its old index.
  origin :
      (i : ℕ)
      → i < n
      → (s : ℕ) × (key_at h q i ≡ key_at h p s)
        × (((s ≡ i) × (i < idx)) ⊎ ((s ≡ i + 1) × (idx ≤ i)))
  origin i lt = elim (dec_lt i idx) [
    | yes b ↦ (i, (gone.before i b).0, inl (refl, b))
    | no a ↦ let le : idx ≤ i = omega arith in (i + 1, (gone.after i le lt).0, inr (refl, le))
  ]

  pub Deleted-IsSorted : IsSorted h q n
  Deleted-IsSorted i j lt le =
      let (s, ks, which) = origin i (omega arith) in
      let (t, kt, which') = origin j le in
      let less : s < t = ground arith in
      let inner : t < n + 1 = ground arith in
      subst (λ k. k ≺ key_at h q j) (sym ks)
        (subst (λ k. key_at h p s ≺ k) (sym kt) (sorted s t less inner))

  pub Deleted-absent : (i : ℕ) → i < n → key_at h q i ≢ key_at h p idx
  Deleted-absent i lt e =
      let (s, ks, which) = origin i lt in
      let inner : s < n + 1 = ground arith in
      let same : s ≡ idx = key_unique h p (n + 1) sorted s idx inner (omega arith) (sym ks ∙ e) in
      ground arith

  -- The new index of an entry that is kept.
  pub kept :
      (i : ℕ)
      → i ≤ n
      → i ≢ idx
      → (j : ℕ) × (j < n) × (key_at h q j ≡ key_at h p i) × (val_at h q j ≡ val_at h p i)
  kept i le ne = elim (dec_lt i idx) [
    | yes b ↦ (i, omega (arith, inside), (gone.before i b).0, (gone.before i b).1)
    | no a ↦
        let over : idx < i = ground arith in
        let back : i - 1 + 1 ≡ i = omega arith in
        let (k, d) = gone.after (i - 1) (omega arith) (omega arith) in
        (i - 1, omega arith, k ∙ ap (key_at h p) back, d ∙ ap (val_at h p) back)
  ]

-- When the root of the writer's database is a leaf of bytes with ascending keys and entries that
-- share no byte, `del` of the key of any of its entries ends with `true` and changes the root only,
-- which is then such a leaf of one entry less: its entries are the others, in their order, and none
-- has the key.
pub del-root_leaf :
    (h : Endian) (w : Writer) (p : List ℕ) (n fuel idx : ℕ)
    → IsRootLeaf h w p (n + 1)
    → idx ≤ n
    → (q : List ℕ) × (del h (suc fuel) (key_at h p idx) w ≡ (ok true, with_page w p_root q))
      × IsRootLeaf h (with_page w p_root q) q n
      × Deleted h p q n idx
      × ((i : ℕ) → i < n → key_at h q i ≢ key_at h p idx)
del-root_leaf h w p n fuel idx v inside =
    let (q, deleted, gone) = delete_leaf_entry-Deleted h p n idx v.leaf v.packed inside in
    let sorted = Deleted-IsSorted h p q n idx v.sorted inside gone in
    (
      q,
      del-present h w p (n + 1) v fuel idx (key_at h p idx) q
          (leaf_search-held h p (n + 1) p_root (key_at h p idx) idx v.leaf v.bytes v.sorted
            (omega arith) refl)
          deleted,
      replaced h w p (n + 1) v q n gone.same_length gone.leaf gone.packed (gone.bytes v.bytes)
          sorted,
      gone,
      Deleted-absent h p q n idx v.sorted inside gone,
    )

-- When the root of the writer's database is a leaf of bytes with ascending keys and entries that
-- share no byte: after `del` of the key of one of its entries, `finish` writes a file that `open`
-- accepts on a host of either byte order, and `get` on it ends with `None` for that key.
pub get-del :
    (h h' : Endian) (w : Writer) (p : List ℕ) (n fuel fuel' idx : ℕ)
    → IsRootLeaf h w p (n + 1)
    → idx ≤ n
    → (w' : Writer) × (del h (suc fuel) (key_at h p idx) w ≡ (ok true, w'))
      × (file : List ℕ) × (finish h w' ≡ ok file)
      × (db : Db) × (open_db h' file ≡ ok db)
      × (get h' db (suc fuel') (key_at h p idx) ≡ ok none)
get-del h h' w p n fuel fuel' idx v inside =
    let (q, done, v', gone, absent) = del-root_leaf h w p n fuel idx v inside in
    let (file, finished, db, opened, got) =
      get-finish_absent h h' (with_page w p_root q) q n fuel' (key_at h p idx) v' absent in
    (with_page w p_root q, done, file, finished, db, opened, got)

-- When the root of the writer's database is a leaf of bytes with ascending keys and entries that
-- share no byte: after `del` of the key of one of its entries, `finish` writes a file that `open`
-- accepts on a host of either byte order, and `get` of every other key of the leaf on it still
-- returns the value that was stored with the key.
pub get-del_other :
    (h h' : Endian) (w : Writer) (p : List ℕ) (n fuel fuel' idx i : ℕ)
    → IsRootLeaf h w p (n + 1)
    → idx ≤ n
    → i ≤ n
    → i ≢ idx
    → (w' : Writer) × (del h (suc fuel) (key_at h p idx) w ≡ (ok true, w'))
      × (file : List ℕ) × (finish h w' ≡ ok file)
      × (db : Db) × (open_db h' file ≡ ok db)
      × (get h' db (suc fuel') (key_at h p i) ≡ ok (some (val_at h p i)))
get-del_other h h' w p n fuel fuel' idx i v inside le ne =
    let (q, done, v', gone, absent) = del-root_leaf h w p n fuel idx v inside in
    let (j, lt, k, d) = kept h p q n idx v.sorted inside gone i le ne in
    let (file, finished, db, opened, got) =
      get-finish h h' (with_page w p_root q) q n fuel' j v' lt in
    (
      with_page w p_root q,
      done,
      file,
      finished,
      db,
      opened,
      ap (get h' db (suc fuel')) (sym k) ∙ got ∙ ap (λ x. ok (some x)) d,
    )
