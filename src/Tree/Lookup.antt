-- ===== src/Tree/Lookup.antt =====
-- `get` on a tree of any height.
use db.Prelude.{ℕ, suc, ◌+◌, ◌-◌, ◌<◌, ◌≡◌, ◌≢◌, refl, ap, ◌∙◌, List, arith, some, none}
use db.Outcomes.{ok}
use db.Words.{Endian, file_order}
use db.Words.Bytes.{AreBytes}
use db.Format.{p_root}
use db.Db.{Db, page}
use db.Db.Search.{search_loop, search, search_leaf, get}
use db.LeafPage.{IsLeaf, key_at, val_at}
use db.LeafPage.Read.{view_of, parse-eq-ok}
use db.LeafPage.Search.{IsSorted, get-hit, get-miss}
use db.Tree.{IsBranch, Leads, here, down}
use db.Tree.Descent.{descend_internal-IsBranch}

module _ (h : Endian) (db : Db) (key : List ℕ) where
  search_loop-IsBranch :
      (fuel pgno child : ℕ)
      → IsBranch h db key pgno child
      → search_loop h db (suc fuel) pgno key ≡ search_loop h db fuel child key
  unfolding search_loop
  search_loop-IsBranch fuel pgno child v =
      rw
        (
          search_loop,
          v.at,
          v.parsed,
          v.not_leaf,
          v.inner,
          descend_internal-IsBranch h db key pgno child v,
        )
        refl

  search_loop-Leads :
      (fuel : ℕ) {pgno depth leaf : ℕ}
      → Leads h db key pgno depth leaf
      → search_loop h db (depth + fuel) pgno key ≡ search_loop h db fuel leaf key
  search_loop-Leads fuel (here pgno) =
      let same : 0 + fuel ≡ fuel = omega arith in ap (λ f. search_loop h db f pgno key) same
  search_loop-Leads fuel (down pgno child depth leaf branch rest) =
      let same : suc depth + fuel ≡ suc (depth + fuel) = omega arith in
      ap (λ f. search_loop h db f pgno key) same
      ∙ search_loop-IsBranch (depth + fuel) pgno child branch
      ∙ search_loop-Leads fuel rest

  search_loop-leaf :
      (p : List ℕ) (n : ℕ) (v : IsLeaf (file_order h db.swap) p n) (bytes : AreBytes p)
      (fuel leaf : ℕ)
      → page db leaf ≡ ok p
      → search_loop h db (suc fuel) leaf key
        ≡ search_leaf h db (view_of h db.swap p n v bytes leaf) key
  unfolding search_loop
  search_loop-leaf p n v bytes fuel leaf at =
      rw (search_loop, at, parse-eq-ok h db.swap p n v bytes leaf) refl

  search-Leads :
      (p : List ℕ) (n : ℕ) (v : IsLeaf (file_order h db.swap) p n) (bytes : AreBytes p)
      (fuel depth leaf : ℕ)
      → page db leaf ≡ ok p
      → Leads h db key p_root depth leaf
      → depth < fuel
      → search h db fuel key ≡ search_leaf h db (view_of h db.swap p n v bytes leaf) key
  unfolding search
  search-Leads p n v bytes fuel depth leaf at leads enough =
      let same : fuel ≡ depth + suc (fuel - depth - 1) = omega arith in
      ap (λ f. search_loop h db f p_root key) same
      ∙ search_loop-Leads (suc (fuel - depth - 1)) leads
      ∙ search_loop-leaf p n v bytes (fuel - depth - 1) leaf at

-- When the separators lead from the root in `depth` steps to a leaf of bytes with ascending keys, on
-- a host of either byte order and whatever the height of the tree: given more fuel than `depth`,
-- `get` of a key of that leaf returns the value stored with it.
pub get-Leads :
    (h : Endian) (db : Db) (p : List ℕ) (n fuel depth leaf i : ℕ)
    → Leads h db (key_at (file_order h db.swap) p i) p_root depth leaf
    → page db leaf ≡ ok p
    → IsLeaf (file_order h db.swap) p n
    → AreBytes p
    → IsSorted (file_order h db.swap) p n
    → i < n
    → depth < fuel
    → get h db fuel (key_at (file_order h db.swap) p i)
      ≡ ok (some (val_at (file_order h db.swap) p i))
get-Leads h db p n fuel depth leaf i leads at v bytes sorted lt enough =
    let key = key_at (file_order h db.swap) p i in
    get-hit h db p n v bytes sorted leaf at fuel key
      (search-Leads h db key p n v bytes fuel depth leaf at leads enough) i lt refl

-- When the separators lead from the root in `depth` steps to a leaf of bytes with ascending keys,
-- none of which is the given key, on a host of either byte order and whatever the height of the
-- tree: given more fuel than `depth`, `get` of the key ends with `None`.
pub get-Leads_absent :
    (h : Endian) (db : Db) (p : List ℕ) (n fuel depth leaf : ℕ) (key : List ℕ)
    → Leads h db key p_root depth leaf
    → page db leaf ≡ ok p
    → IsLeaf (file_order h db.swap) p n
    → AreBytes p
    → IsSorted (file_order h db.swap) p n
    → ((i : ℕ) → i < n → key_at (file_order h db.swap) p i ≢ key)
    → depth < fuel
    → get h db fuel key ≡ ok none
get-Leads_absent h db p n fuel depth leaf key leads at v bytes sorted absent enough =
    get-miss h db p n v bytes sorted leaf at fuel key
      (search-Leads h db key p n v bytes fuel depth leaf at leads enough) absent
