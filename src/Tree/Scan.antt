-- ===== src/Tree/Scan.antt =====
-- A new scan of a file of any height.
use db.Prelude.{
  ℕ, zero, suc, ◌+◌, ◌-◌, ◌<◌, ◌≡◌, ◌≢◌, refl, sym, ap, subst, append_nil, ◌∙◌, List, [], ◌∷◌,
  length, arith, ◌==◌, false, true, some, none,
}
use db.Outcomes.{ok}
use db.Words.{Endian, file_order, u32_from}
use db.Words.Bytes.{AreBytes}
use db.Format.{p_root, p_invalid}
use db.Db.{Db, page}
use db.Db.Search.{get}
use db.Iter.{
  State, pristine, active, done, initial_state, initial_loop, advance_leaf, next_loop, next,
}
use db.LeafPage.{IsLeaf, key_at, val_at}
use db.LeafPage.Read.{view_of, parse-eq-ok}
use db.LeafPage.Search.{IsSorted}
use db.LeafPage.Scan.{collect, entries_of, and_rest, next-active}
use db.InternalPage.Read.{parse-node_view, internal_entry-eq-ok}
use db.Tree.{Leads}
use db.Tree.Chain.{
  Leftmost, bottom, deeper, Chain, ends, links, entries_along, count_along, begin_of,
  begin_of-links, advance_leaf-Chain, collect-Chain,
}
use db.Tree.Lookup.{get-Leads}

module _ (h : Endian) (db : Db) where
  initial_loop-Leftmost :
      (fuel : ℕ) {pgno depth leaf : ℕ}
      → Leftmost h db pgno depth leaf
      → initial_loop h db (depth + fuel) pgno ≡ initial_loop h db fuel leaf
  unfolding initial_loop
  initial_loop-Leftmost fuel (bottom pgno) =
      let same : 0 + fuel ≡ fuel = omega arith in ap (λ f. initial_loop h db f pgno) same
  initial_loop-Leftmost fuel (deeper pgno depth leaf count p at v bytes some_entry rest) =
      let same : suc depth + fuel ≡ suc (depth + fuel) = omega arith in
      let inner : (count == 0) ≡ false = ground arith in
      ap (λ f. initial_loop h db f pgno) same
      ∙ rw
          (
            at,
            parse-node_view h db.swap p count v bytes pgno,
            inner,
            internal_entry-eq-ok h db.swap p count v bytes pgno 0 some_entry,
          )
          (initial_loop-Leftmost fuel rest)

  module _ (p : List ℕ) (n depth leaf fuel : ℕ) (v : IsLeaf (file_order h db.swap) p n)
      (bytes : AreBytes p) (at : page db leaf ≡ ok p) (down : Leftmost h db p_root depth leaf)
      (enough : depth < fuel) where
    fuel_split : fuel ≡ depth + suc (fuel - depth - 1)
    fuel_split = omega arith

    -- the state in which the scan begins
    begin_empty : n ≡ 0 → initial_state h db fuel ≡ ok done
    unfolding initial_state initial_loop
    begin_empty e =
        let none_there : (n == 0) ≡ true = ground (arith, e) in
        ap (λ f. initial_loop h db f p_root) fuel_split
        ∙ initial_loop-Leftmost (suc (fuel - depth - 1)) down
        ∙ rw (at, parse-eq-ok h db.swap p n v bytes leaf, none_there)

    begin_at :
        0 < n
        → initial_state h db fuel
          ≡ ok (active (record { view = view_of h db.swap p n v bytes leaf; index = 0 }))
    unfolding initial_state initial_loop
    begin_at some_entry =
        let some_there : (n == 0) ≡ false = ground arith in
        ap (λ f. initial_loop h db f p_root) fuel_split
        ∙ initial_loop-Leftmost (suc (fuel - depth - 1)) down
        ∙ rw (at, parse-eq-ok h db.swap p n v bytes leaf, some_there)

    next-empty : n ≡ 0 → next h db fuel pristine ≡ (none, done)
    unfolding next next_loop
    next-empty e = rw (next_loop, begin_empty e) refl

    next-begin :
        (tail : State)
        → advance_leaf h db fuel (u32_from (file_order h db.swap) p 8) ≡ ok tail
        → 0 < n
        → next h db fuel pristine
          ≡ next h db fuel
              (active (record { view = view_of h db.swap p n v bytes leaf; index = 0 }))
    unfolding next next_loop
    next-begin tail behind some_entry =
        rw (next_loop, begin_at some_entry)
          (next-active h db p n v bytes leaf fuel tail behind 0 0 some_entry
            ∙ sym (next-active h db p n v bytes leaf fuel tail behind 1 0 some_entry))

-- On a file of any height, on a host of either byte order, whose first children lead from the root
-- in `depth` steps to a leaf with at least one entry, from which the links lead through leaves of
-- bytes, some of them perhaps without entries, to the end: given more fuel than `depth` and than
-- there are leaves behind the first, a new scan yields the entries of all leaves, each once and in their order, and
-- then ends.
pub collect-entries_along :
    (h : Endian) (db : Db) (depth leaf fuel n : ℕ) (p : List ℕ) (rest : List (List ℕ × ℕ))
    → Leftmost h db p_root depth leaf
    → Chain h db leaf ((p, n) ∷ rest)
    → 0 < n
    → depth < fuel
    → length rest < fuel
    → collect h db fuel (suc (count_along ((p, n) ∷ rest))) pristine
      ≡ entries_along (file_order h db.swap) ((p, n) ∷ rest)
unfolding collect begin_of
collect-entries_along h db depth leaf fuel n p rest down (links pgno n' p' rest' valid at v bytes c)
      some_entry enough leaves =
    let behind = advance_leaf-Chain h db fuel c (omega arith) in
    ap (λ call. and_rest call (collect h db fuel (count_along ((p, n) ∷ rest))))
      (next-begin h db p n depth leaf fuel v bytes at down enough (begin_of h db c) behind
        some_entry)
    ∙ ap (λ st. and_rest (next h db fuel st) (collect h db fuel (count_along ((p, n) ∷ rest))))
        (sym (begin_of-links h db leaf n p rest valid at v bytes c some_entry))
    ∙ collect-Chain h db fuel (links leaf n p rest valid at v bytes c) (omega arith)

-- On a file whose root is a leaf of bytes without a right neighbour, on a host of either byte
-- order, a new scan yields the entries of the leaf, each once and in the order of their pointers,
-- and then ends.
pub collect-entries_of :
    (h : Endian) (db : Db) (p : List ℕ) (n fuel : ℕ)
    → IsLeaf (file_order h db.swap) p n
    → AreBytes p
    → page db p_root ≡ ok p
    → u32_from (file_order h db.swap) p 8 ≡ p_invalid
    → collect h db (suc fuel) (suc n) pristine ≡ entries_of (file_order h db.swap) p 0 n
unfolding collect entries_of entries_along count_along
collect-entries_of h db p zero fuel v bytes root alone =
    ap (λ call. and_rest call (collect h db (suc fuel) 0))
      (next-empty h db p 0 0 p_root (suc fuel) v bytes root (bottom p_root) (omega arith) refl)
collect-entries_of h db p (suc n) fuel v bytes root alone =
    let valid : p_root ≢ p_invalid = λ e. omega (arith, e) in
    let chain = subst (λ k. Chain h db k []) (sym alone) ends in
    let count : suc n + 0 ≡ suc n = omega arith in
    ap (λ m. collect h db (suc fuel) (suc m) pristine) (sym count)
    ∙ collect-entries_along h db 0 p_root (suc fuel) (suc n) p [] (bottom p_root)
        (links p_root (suc n) p [] valid root v bytes chain) (omega arith) (omega arith)
        (omega arith)
    ∙ append_nil (entries_of (file_order h db.swap) p 0 (suc n))

-- On a file, on a host of either byte order, whose first children lead from the root to a leaf
-- without entries, and on which the separators lead a key to a leaf of bytes with ascending keys
-- that holds it: given more fuel than the height, `get` of the key returns the value stored with
-- it, and yet the first `next` of a new scan yields nothing and ends the scan.
pub next-ends_early :
    (h : Endian) (db : Db) (p q : List ℕ) (n i depth leaf depth' leaf' fuel : ℕ)
    → Leads h db (key_at (file_order h db.swap) p i) p_root depth leaf
    → page db leaf ≡ ok p
    → IsLeaf (file_order h db.swap) p n
    → AreBytes p
    → IsSorted (file_order h db.swap) p n
    → i < n
    → Leftmost h db p_root depth' leaf'
    → page db leaf' ≡ ok q
    → IsLeaf (file_order h db.swap) q 0
    → AreBytes q
    → depth < fuel
    → depth' < fuel
    → (get h db fuel (key_at (file_order h db.swap) p i)
        ≡ ok (some (val_at (file_order h db.swap) p i)))
      × (next h db fuel pristine ≡ (none, done))
next-ends_early h db p q n i depth leaf depth' leaf' fuel leads at v bytes sorted lt down at' empty
      bytes' enough enough' =
    (
      get-Leads h db p n fuel depth leaf i leads at v bytes sorted lt enough,
      next-empty h db q 0 depth' leaf' fuel empty bytes' at' down enough' refl,
    )
