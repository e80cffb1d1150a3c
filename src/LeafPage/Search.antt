-- ===== src/LeafPage/Search.antt =====
-- The searches of the writer and of the reader on a leaf whose keys ascend.
use db.Prelude.{
  ℕ, suc, ◌≤◌, ◌<◌, ◌≡◌, ◌≢◌, refl, sym, ap, subst, ◌∙◌, List, Bool, true, false, arith, Ordering,
  Option, some, none,
}
use native.Mathlib.Decide.{dec_lt, ℕ_discrete}
use db.Outcomes.{Outcome, ok}
use db.Words.Bytes.{AreBytes}
use db.Words.{Endian, file_order}
use db.Format.{p_root}
use db.Order.{cmp, ◌≺◌}
use db.Order.Laws.{flip, cmp_refl, eq_of_cmp, cmp-flip, ≺_trans}
use db.Page.{PageView, parse}
use db.Bisect.{Found, exact, missing}
use db.Bisect.Correct.{IsOrdered, Locates, bisect_all-Locates}
use db.Db.{Db, page}
use db.Db.Search.{Position, leaf_probe, search_leaf, search, search_loop, get}
use db.Db.Overflow.{compare_item, materialise}
use db.Writer.Pages.{leaf_search_probe, leaf_search}
use db.LeafPage.{IsLeaf, key_at, val_at}
use db.LeafPage.Read.{view_of, parse-eq-ok, leaf_entry-eq-ok, key-eq-ok, value-eq-ok}

-- The keys ascend.
abbrev pub IsSorted : Endian → List ℕ → ℕ → Type 0
IsSorted w p n = (i j : ℕ) → i < j → j < n → key_at w p i ≺ key_at w p j

-- The place of `key` on a leaf: the entry that holds it, or the one before which it belongs.
abbrev pub IsPlace : Endian → List ℕ → ℕ → List ℕ → Bool → ℕ → Type 0
IsPlace w p n key true idx = (idx < n) × (key_at w p idx ≡ key)
IsPlace w p n key false idx =
    (idx ≤ n)
    × ((i : ℕ) → i < idx → key_at w p i ≺ key)
    × ((i : ℕ) → idx ≤ i → i < n → key ≺ key_at w p i)

pub gt→≺ : (a b : List ℕ) → cmp a b ≡ Ordering.gt → b ≺ a
gt→≺ a b e = cmp-flip a b ∙ ap flip e

pub ≺→gt : (a b : List ℕ) → b ≺ a → cmp a b ≡ Ordering.gt
≺→gt a b e = cmp-flip b a ∙ ap flip e

module _ (w : Endian) (p : List ℕ) (n : ℕ) (sorted : IsSorted w p n) (key : List ℕ) where
  abbrev ord : ℕ → Ordering
  ord i = cmp key (key_at w p i)

  keys-IsOrdered : IsOrdered ord n
  keys-IsOrdered = record {
    greater = λ i j le lt e. elim (ℕ_discrete i j) [
      | yes same ↦ ap ord same ∙ e
      | no d ↦ ≺→gt key (key_at w p i) (
          ≺_trans (key_at w p i) (key_at w p j) key (sorted i j (omega arith) lt)
            (gt→≺ key (key_at w p j) e))
    ];
    less = λ i j le lt e. elim (ℕ_discrete i j) [
      | yes same ↦ ap ord (sym same) ∙ e
      | no d ↦ ≺_trans key (key_at w p i) (key_at w p j) e (sorted i j (omega arith) lt)
    ];
  }

abbrev is_exact : Found → Bool
is_exact (exact _) = true
is_exact (missing _) = false

abbrev index_of : Found → ℕ
index_of (exact i) = i
index_of (missing b) = b

answer :
    (f : Found)
    → elim f as (λ _. Outcome (Bool × ℕ)) [
      | exact idx ↦ ok (true, idx)
      | missing base ↦ ok (false, base)
    ]
      ≡ ok (is_exact f, index_of f)
answer (exact i) = refl
answer (missing b) = refl

module _ (h : Endian) (swap : Bool) (p : List ℕ) (n : ℕ) (v : IsLeaf (file_order h swap) p n)
    (bytes : AreBytes p) (sorted : IsSorted (file_order h swap) p n) (pgno : ℕ) (key : List ℕ) where
  abbrev view : PageView
  view = view_of h swap p n v bytes pgno

  writer_reads :
      (i : ℕ)
      → i < n
      → leaf_search_probe h view key i ≡ ok (cmp key (key_at (file_order h swap) p i))
  unfolding leaf_search_probe
  writer_reads i lt =
      rw (leaf_entry-eq-ok h swap p n v bytes pgno i lt, key-eq-ok h swap p n v bytes pgno i lt)

  reader_reads :
      (db : Db) (i : ℕ)
      → i < n
      → leaf_probe h db view key i ≡ ok (cmp key (key_at (file_order h swap) p i))
  unfolding leaf_probe compare_item
  reader_reads db i lt =
      rw (leaf_entry-eq-ok h swap p n v bytes pgno i lt, key-eq-ok h swap p n v bytes pgno i lt)

  abbrev ordered : IsOrdered (ord (file_order h swap) p n sorted key) n
  ordered = keys-IsOrdered (file_order h swap) p n sorted key

  -- What the search reports is the place of the key.
  Locates-IsPlace :
      (f : Found)
      → Locates (ord (file_order h swap) p n sorted key) n f
      → IsPlace (file_order h swap) p n key (is_exact f) (index_of f)
  Locates-IsPlace (exact i) (lt, e) = (lt, sym (eq_of_cmp key (key_at (file_order h swap) p i) e))
  Locates-IsPlace (missing b) (le, below, above) =
      (le, λ i lt. gt→≺ key (key_at (file_order h swap) p i) (below i lt), above)

  leaf_search-IsPlace_swap :
      swap ≡ false
      → (b : Bool) × (idx : ℕ) × (leaf_search h pgno p key ≡ ok (b, idx))
        × IsPlace (file_order h swap) p n key b idx
  unfolding leaf_search
  leaf_search-IsPlace_swap e =
      let (f, found, place) =
        bisect_all-Locates (leaf_search_probe h view key) (ord (file_order h swap) p n sorted key) n
          writer_reads ordered in
      let parsed : parse h pgno p false ≡ ok view =
        ap (parse h pgno p) (sym e) ∙ parse-eq-ok h swap p n v bytes pgno in
      (is_exact f, index_of f, rw (parsed, found) (answer f), Locates-IsPlace f place)

  module _ (db : Db) where
    abbrev reported : Found → Option Position
    reported (exact idx) = some (record { pgno = pgno; index = idx })
    reported (missing base) = none

    reported_lem :
        (f : Found)
        → elim f as (λ _. Outcome (Option Position)) [
          | exact idx ↦ ok (some (record { pgno = pgno; index = idx }))
          | missing base ↦ ok none
        ]
          ≡ ok (reported f)
    reported_lem (exact i) = refl
    reported_lem (missing b) = refl

    search_leaf-IsPlace :
        (f : Found) × (search_leaf h db view key ≡ ok (reported f))
        × IsPlace (file_order h swap) p n key (is_exact f) (index_of f)
    unfolding search_leaf
    search_leaf-IsPlace =
        let (f, found, place) =
          bisect_all-Locates (leaf_probe h db view key) (ord (file_order h swap) p n sorted key) n
            (reader_reads db) ordered in
        (f, rw found (reported_lem f), Locates-IsPlace f place)

-- On a leaf of bytes whose keys ascend, in the byte order of the host, `leaf_search` ends with the
-- place of the key: `(true, idx)` where entry `idx` holds it, `(false, idx)` where every key
-- before `idx` is smaller and every key from `idx` on is larger.
pub leaf_search-IsPlace :
    (h : Endian) (p : List ℕ) (n pgno : ℕ) (key : List ℕ)
    → IsLeaf h p n
    → AreBytes p
    → IsSorted h p n
    → (found : Bool) × (idx : ℕ) × (leaf_search h pgno p key ≡ ok (found, idx))
      × IsPlace h p n key found idx
leaf_search-IsPlace h p n pgno key v bytes sorted =
    leaf_search-IsPlace_swap h false p n v bytes sorted pgno key refl

pub ≺_irrefl : (a : List ℕ) → cmp a a ≢ Ordering.lt
≺_irrefl a lt = let both : Ordering.lt ≡ Ordering.eq = sym lt ∙ cmp_refl a in cc

-- Keys that ascend are there once.
pub key_unique :
    (w : Endian) (p : List ℕ) (n : ℕ)
    → IsSorted w p n
    → (i j : ℕ) → i < n
    → j < n
    → key_at w p i ≡ key_at w p j
    → i ≡ j
key_unique w p n sorted i j li lj e = elim (dec_lt i j) [
  | yes lt ↦ absurd (clash i j lt lj e)
  | no ge ↦ elim (dec_lt j i) [ yes lt ↦ absurd (clash j i lt li (sym e)) | no le ↦ omega arith ]
]
  where
    clash : (i j : ℕ) → i < j → j < n → key_at w p i ≢ key_at w p j
    clash i j lt lj e = ≺_irrefl (key_at w p j) (subst (λ k. k ≺ key_at w p j) e (sorted i j lt lj))

-- `get` once its descent has come to the leaf `p` at page `pgno`.
module _ (h : Endian) (db : Db) (p : List ℕ) (n : ℕ) (v : IsLeaf (file_order h db.swap) p n)
    (bytes : AreBytes p) (sorted : IsSorted (file_order h db.swap) p n) (pgno : ℕ)
    (at : page db pgno ≡ ok p) (fuel : ℕ) (key : List ℕ)
    (descent : search h db fuel key
      ≡ search_leaf h db (view_of h db.swap p n v bytes pgno) key) where
  abbrev w : Endian
  w = file_order h db.swap

  get-some :
      (i : ℕ)
      → i < n
      → search_leaf h db (view_of h db.swap p n v bytes pgno) key
        ≡ ok (some (record { pgno = pgno; index = i }))
      → get h db fuel key ≡ ok (some (val_at w p i))
  unfolding get materialise
  get-some i lt found = rw (
    descent,
    found,
    at,
    parse-eq-ok h db.swap p n v bytes pgno,
    leaf_entry-eq-ok h db.swap p n v bytes pgno i lt,
    value-eq-ok h db.swap p n v bytes pgno i lt,
  )

  get-none :
      search_leaf h db (view_of h db.swap p n v bytes pgno) key ≡ ok none
      → get h db fuel key ≡ ok none
  unfolding get
  get-none found = rw (descent, found)

  hit_of :
      (i : ℕ) (f : Found)
      → i < n
      → key_at w p i ≡ key
      → search_leaf h db (view_of h db.swap p n v bytes pgno) key
        ≡ ok (reported h db.swap p n v bytes sorted pgno key db f)
      → IsPlace w p n key (is_exact f) (index_of f)
      → get h db fuel key ≡ ok (some (val_at w p i))
  hit_of i (exact j) lt same found (lj, e) =
      get-some j lj found
      ∙ ap (λ k. ok (some (val_at w p k))) (key_unique w p n sorted j i lj lt (e ∙ sym same))
  hit_of i (missing b) lt same found (le, below, above) = elim (dec_lt i b) [
    | yes less ↦ absurd (≺_irrefl key (subst (λ k. k ≺ key) same (below i less)))
    | no more ↦ absurd (≺_irrefl key (subst (λ k. key ≺ k) same (above i (omega arith) lt)))
  ]

  miss_of :
      (f : Found)
      → ((i : ℕ) → i < n → key_at w p i ≢ key)
      → search_leaf h db (view_of h db.swap p n v bytes pgno) key
        ≡ ok (reported h db.swap p n v bytes sorted pgno key db f)
      → IsPlace w p n key (is_exact f) (index_of f)
      → get h db fuel key ≡ ok none
  miss_of (exact j) absent found (lj, e) = absurd (absent j lj e)
  miss_of (missing b) absent found place = get-none found

  pub get-hit : (i : ℕ) → i < n → key_at w p i ≡ key → get h db fuel key ≡ ok (some (val_at w p i))
  get-hit i lt same =
      let (f, found, place) = search_leaf-IsPlace h db.swap p n v bytes sorted pgno key db in
      hit_of i f lt same found place

  pub get-miss : ((i : ℕ) → i < n → key_at w p i ≢ key) → get h db fuel key ≡ ok none
  get-miss absent =
      let (f, found, place) = search_leaf-IsPlace h db.swap p n v bytes sorted pgno key db in
      miss_of f absent found place

search-root :
    (h : Endian) (db : Db) (p : List ℕ) (n : ℕ) (v : IsLeaf (file_order h db.swap) p n)
    (bytes : AreBytes p) (fuel : ℕ) (key : List ℕ)
    → page db p_root ≡ ok p
    → search h db (suc fuel) key ≡ search_leaf h db (view_of h db.swap p n v bytes p_root) key
unfolding search search_loop
search-root h db p n v bytes fuel key root = rw (root, parse-eq-ok h db.swap p n v bytes p_root)

-- On a file whose root is a leaf with ascending keys, on a host of either byte order, `get` of a key
-- of the leaf ends and returns the value stored with it.
pub get-stored :
    (h : Endian) (db : Db) (p : List ℕ) (n fuel i : ℕ)
    → IsLeaf (file_order h db.swap) p n
    → AreBytes p
    → IsSorted (file_order h db.swap) p n
    → page db p_root ≡ ok p
    → i < n
    → get h db (suc fuel) (key_at (file_order h db.swap) p i)
      ≡ ok (some (val_at (file_order h db.swap) p i))
get-stored h db p n fuel i v bytes sorted root lt =
    let key = key_at (file_order h db.swap) p i in
    get-hit h db p n v bytes sorted p_root root (suc fuel) key
      (search-root h db p n v bytes fuel key root) i lt refl

-- On such a file `get` of a key that no entry of the leaf holds ends with `None`.
pub get-absent :
    (h : Endian) (db : Db) (p : List ℕ) (n fuel : ℕ) (key : List ℕ)
    → IsLeaf (file_order h db.swap) p n
    → AreBytes p
    → IsSorted (file_order h db.swap) p n
    → page db p_root ≡ ok p
    → ((i : ℕ) → i < n → key_at (file_order h db.swap) p i ≢ key)
    → get h db (suc fuel) key ≡ ok none
get-absent h db p n fuel key v bytes sorted root absent =
    get-miss h db p n v bytes sorted p_root root (suc fuel) key
      (search-root h db p n v bytes fuel key root) absent
