-- ===== src/Tree/Chain.antt =====
-- The leaves of a file as the forward scan walks them: the first children down to the leftmost
-- leaf, and the links from leaf to leaf.
use db.Prelude.{
  ℕ, zero, suc, ◌+◌, ◌≤◌, ◌<◌, ◌≡◌, ◌≢◌, List, [], ◌∷◌, ◌++◌, length, ltb, if◌then◌else◌, refl,
  lt→ltb, le→ltb, arith, ap, ◌∙◌, ◌==◌, false,
}
use native.Mathlib.Decide.{dec_lt}
use db.Outcomes.{Outcome, ok}
use db.Words.{Endian, file_order, u32_from}
use db.Words.Bytes.{AreBytes}
use db.Format.{p_invalid}
use db.Db.{Db, page}
use db.Iter.{Entry, State, active, done, advance_leaf}
use db.LeafPage.{IsLeaf}
use db.LeafPage.Read.{view_of, parse-eq-ok}
use db.LeafPage.Scan.{entries_of, state_at, collect, collect-done, collect-state_at}
use db.InternalPage.{IsInternal, child_at}

-- The first children lead from page `pgno` in `depth` steps to page `leaf`.
pub data Leftmost (h : Endian) (db : Db) : ℕ → ℕ → ℕ → Type 0 where
  bottom : (pgno : ℕ) → Leftmost h db pgno 0 pgno
  deeper :
      (pgno depth leaf count : ℕ) (p : List ℕ)
      → page db pgno ≡ ok p
      → IsInternal (file_order h db.swap) p count
      → AreBytes p
      → 0 < count
      → Leftmost h db (child_at (file_order h db.swap) p 0) depth leaf
      → Leftmost h db pgno (suc depth) leaf

-- Page `pgno` and the pages behind it are the given leaves, each with its number of entries.
pub data Chain (h : Endian) (db : Db) : ℕ → List (List ℕ × ℕ) → Type 0 where
  ends : Chain h db p_invalid []
  links :
      (pgno n : ℕ) (p : List ℕ) (rest : List (List ℕ × ℕ))
      → pgno ≢ p_invalid
      → page db pgno ≡ ok p
      → IsLeaf (file_order h db.swap) p n
      → AreBytes p
      → Chain h db (u32_from (file_order h db.swap) p 8) rest
      → Chain h db pgno ((p, n) ∷ rest)

-- the entries of all leaves, in their order
unfoldable pub entries_along : Endian → List (List ℕ × ℕ) → List (Outcome Entry)
entries_along e [] = []
entries_along e ((p, n) ∷ rest) = entries_of e p 0 n ++ entries_along e rest

unfoldable pub count_along : List (List ℕ × ℕ) → ℕ
count_along [] = 0
count_along ((p, n) ∷ rest) = n + count_along rest

module _ (h : Endian) (db : Db) where
  abbrev w : Endian
  w = file_order h db.swap

  -- the state at the first leaf with an entry
  unfoldable pub begin_of : {pgno : ℕ} {pages : List (List ℕ × ℕ)} → Chain h db pgno pages → State
  begin_of ends = done
  begin_of (links pgno n p rest valid at v bytes chain) =
      let later = begin_of chain in
      if ltb 0 n
      then active (record { view = view_of h db.swap p n v bytes pgno; index = 0 })
      else later

  pub begin_of-links :
      (pgno n : ℕ) (p : List ℕ) (rest : List (List ℕ × ℕ)) (valid : pgno ≢ p_invalid)
      (at : page db pgno ≡ ok p) (v : IsLeaf (file_order h db.swap) p n) (bytes : AreBytes p)
      (c : Chain h db (u32_from (file_order h db.swap) p 8) rest)
      → 0 < n
      → begin_of (links pgno n p rest valid at v bytes c)
        ≡ active (record { view = view_of h db.swap p n v bytes pgno; index = 0 })
  unfolding begin_of
  begin_of-links pgno n p rest valid at v bytes c some_entry = rw (lt→ltb 0 n some_entry)

  -- `advance_leaf` skips leaves without entries.
  pub advance_leaf-Chain :
      (fuel : ℕ) {pgno : ℕ} {pages : List (List ℕ × ℕ)}
      → (c : Chain h db pgno pages) → length pages < fuel
      → advance_leaf h db fuel pgno ≡ ok (begin_of c)
  unfolding advance_leaf begin_of
  advance_leaf-Chain zero c enough = absurd (omega arith)
  advance_leaf-Chain (suc fuel) ends enough = refl
  advance_leaf-Chain (suc fuel) (links pgno n p rest valid at v bytes chain) enough =
      let further = advance_leaf-Chain fuel chain (omega arith) in
      let inner : (pgno == p_invalid) ≡ false = ground (arith, valid) in
      elim (dec_lt 0 n) [
        | yes some_entry ↦
            rw (inner, at, parse-eq-ok h db.swap p n v bytes pgno, lt→ltb 0 n some_entry)
        | no none_there ↦
            rw
              (inner, at, parse-eq-ok h db.swap p n v bytes pgno, le→ltb 0 n (omega arith), further)
      ]

  -- From the first leaf on, the scan yields the entries of all.
  pub collect-Chain :
      (fuel : ℕ) {pgno : ℕ} {pages : List (List ℕ × ℕ)}
      → (c : Chain h db pgno pages) → length pages ≤ fuel
      → collect h db fuel (suc (count_along pages)) (begin_of c) ≡ entries_along w pages
  unfolding begin_of entries_along count_along
  collect-Chain fuel ends enough = collect-done h db fuel 1
  collect-Chain fuel (links pgno n p rest valid at v bytes chain) enough =
      let behind = advance_leaf-Chain fuel chain (omega arith) in
      let rounds : suc (n + count_along rest) ≡ n + suc (count_along rest) = omega arith in
      ap (λ r. collect h db fuel r (state_at h db p n v bytes pgno fuel (begin_of chain) behind 0))
        rounds
      ∙ collect-state_at h db p n v bytes pgno fuel (begin_of chain) behind (suc (count_along rest))
          n 0 (omega arith)
      ∙ ap (λ l. entries_of w p 0 n ++ l) (collect-Chain fuel chain (omega arith))
