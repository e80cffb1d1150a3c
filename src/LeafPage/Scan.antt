-- ===== src/LeafPage/Scan.antt =====
-- The scan of one leaf: the entries that it yields, and where it goes on.
use db.Prelude.{
  ℕ, zero, suc, ◌+◌, ◌<◌, ◌≡◌, ◌∙◌, ap, refl, List, [], ◌∷◌, ◌++◌, false, Option, none, some, arith,
  ltb, lt→ltb, le→ltb, Bool-cases, inl, inr, if◌then◌else◌,
}
use db.Outcomes.{Outcome, ok}
use db.Words.{Endian, file_order, u32_from}
use db.Words.Bytes.{AreBytes}
use db.Page.{PageView}
use db.Db.{Db}
use db.Db.Overflow.{materialise}
use db.Iter.{Entry, State, active, done, advance_leaf, yield_current, next_loop, next}
use db.LeafPage.{IsLeaf, key_at, val_at}
use db.LeafPage.Read.{view_of, leaf_entry-eq-ok, key-eq-ok, value-eq-ok}

-- what a call yields, and then what the rest of the scan does
abbrev pub and_rest :
    Option (Outcome Entry) × State → (State → List (Outcome Entry)) → List (Outcome Entry)
and_rest (none, state) rest = []
and_rest (some entry, state) rest = entry ∷ rest state

-- The entries that `next` yields from a state on, in `rounds` calls at most, with the errors.
unfoldable pub collect : Endian → Db → ℕ → ℕ → State → List (Outcome Entry)
collect h db fuel zero state = []
collect h db fuel (suc rounds) state = and_rest (next h db fuel state) (collect h db fuel rounds)

-- entry `i` of a page, as the scan yields it
abbrev pub entry_of_pair : Endian → List ℕ → ℕ → Entry
entry_of_pair e p i = record { key = key_at e p i; value = val_at e p i }

-- `k` entries of a page from entry `i` on
unfoldable pub entries_of : Endian → List ℕ → ℕ → ℕ → List (Outcome Entry)
entries_of e p i zero = []
entries_of e p i (suc k) = ok (entry_of_pair e p i) ∷ entries_of e p (i + 1) k

-- Leaf `p`, of `n` entries, at page `pgno`; behind it the scan goes on with `tail`.
module _ (h : Endian) (db : Db) (p : List ℕ) (n : ℕ) (v : IsLeaf (file_order h db.swap) p n)
    (bytes : AreBytes p) (pgno fuel : ℕ) (tail : State)
    (behind : advance_leaf h db fuel (u32_from (file_order h db.swap) p 8) ≡ ok tail) where
  abbrev w : Endian
  w = file_order h db.swap

  abbrev view : PageView
  view = view_of h db.swap p n v bytes pgno

  -- the state before entry `i`, once the scan has come to the leaf
  abbrev pub state_at : ℕ → State
  state_at i = if ltb i n then active (record { view = view; index = i }) else tail

  yield_current-eq-ok :
      (i : ℕ)
      → i < n
      → yield_current h db fuel (record { view = view; index = i })
        ≡ ok (entry_of_pair w p i, state_at (i + 1))
  unfolding yield_current materialise
  yield_current-eq-ok i lt =
      rw
        (
          leaf_entry-eq-ok h db.swap p n v bytes pgno i lt,
          key-eq-ok h db.swap p n v bytes pgno i lt,
          value-eq-ok h db.swap p n v bytes pgno i lt,
        )
        (rw behind (elim (Bool-cases (ltb (i + 1) n)) [ inl t ↦ rw t refl | inr f ↦ rw f refl ]))

  pub next-active :
      (rounds i : ℕ)
      → i < n
      → next_loop h db (suc rounds) fuel (active (record { view = view; index = i }))
        ≡ (some (ok (entry_of_pair w p i)), state_at (i + 1))
  unfolding next_loop
  next-active rounds i lt = rw (next_loop, yield_current-eq-ok i lt)

  next-state_at :
      (i : ℕ)
      → i < n
      → next h db fuel (state_at i) ≡ (some (ok (entry_of_pair w p i)), state_at (i + 1))
  unfolding next
  next-state_at i lt = rw (lt→ltb i n lt) (next-active 1 i lt)

  -- The entries from entry `i` on, and then the rest of the scan.
  pub collect-state_at :
      (rounds k i : ℕ)
      → i + k ≡ n
      → collect h db fuel (k + rounds) (state_at i)
        ≡ entries_of w p i k ++ collect h db fuel rounds tail
  unfolding collect entries_of
  collect-state_at rounds zero i e =
      let none_left : ltb i n ≡ false = le→ltb i n (omega arith) in
      let same : 0 + rounds ≡ rounds = omega arith in rw (none_left, same)
  collect-state_at rounds (suc k) i e =
      let more : suc k + rounds ≡ suc (k + rounds) = omega arith in
      ap (λ r. collect h db fuel r (state_at i)) more
      ∙ ap (λ call. and_rest call (collect h db fuel (k + rounds))) (next-state_at i (omega arith))
      ∙ ap (λ l. ok (entry_of_pair w p i) ∷ l) (collect-state_at rounds k (i + 1) (omega arith))

pub collect-done : (h : Endian) (db : Db) (fuel rounds : ℕ) → collect h db fuel rounds done ≡ []
unfolding collect next next_loop
collect-done h db fuel zero = refl
collect-done h db fuel (suc rounds) = refl
