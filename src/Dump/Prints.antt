-- ===== src/Dump/Prints.antt =====
-- What the program prints for a file.
use db.Prelude.{
  ℕ, zero, suc, ◌+◌, ◌%◌, ◌<◌, ◌≤◌, ◌≡◌, ◌≢◌, ◌⊎◌, inl, inr, refl, sym, ap, ◌∙◌, List, [], ◌∷◌,
  ◌++◌, length, Bool, Option, none, some, arith,
}
use mathlib.Core.List.{append_assoc, append-nil}
use db.Outcomes.{Outcome, ok, err, panic, out_of_fuel}
use db.Words.{Endian, file_order, u32_from}
use db.Words.Bytes.{AreBytes}
use db.Format.{p_root, p_invalid, min_psize, max_psize}
use db.Db.{Db, open_db, page}
use db.Iter.{Entry, State, pristine, next}
use db.LeafPage.{IsLeaf}
use db.Writer.{Writer, create_sized, finish}
use db.Session.{Op, run, Table, Steps, empty_table}
use db.Session.Runs.{get-run}
use db.LeafPage.Scan.{collect, entries_of, entry_of_pair, and_rest}
use db.Tree.Scan.{collect-entries_of}
use db.Dump.{trim_nul, newline, write_pair, printed, and_loop, dump_loop, look_up, main}

-- A trailing NUL is what `trim_nul` takes off.
pub trim_nul-append : (bytes : List ℕ) → trim_nul (bytes ++ (0 ∷ [])) ≡ bytes
unfolding trim_nul
trim_nul-append [] = refl
trim_nul-append (x ∷ []) = refl
trim_nul-append (x ∷ y ∷ rest) = ap (λ l. x ∷ l) (trim_nul-append (y ∷ rest))

-- What a byte string is shown as: the text in front of a NUL at its end, or itself where it has none.
abbrev pub Shown : List ℕ → List ℕ → Type 0
Shown bytes text =
    (bytes ≡ text ++ (0 ∷ [])) ⊎ ((bytes ≡ text) × ((front : List ℕ) → bytes ≢ front ++ (0 ∷ [])))

nil-ne-snoc : (front : List ℕ) → [] ≢ front ++ (0 ∷ [])
nil-ne-snoc [] = λ e. cc
nil-ne-snoc (x ∷ front) = λ e. cc

one-ne-snoc : (x : ℕ) → x ≢ 0 → (front : List ℕ) → x ∷ [] ≢ front ++ (0 ∷ [])
one-ne-snoc x ne [] = λ e. ne (cc)
one-ne-snoc x ne (y ∷ front) = λ e. nil-ne-snoc front (cc)

more-ne-snoc :
    (x y : ℕ) (rest : List ℕ)
    → ((front : List ℕ) → y ∷ rest ≢ front ++ (0 ∷ []))
    → (front : List ℕ) → x ∷ y ∷ rest ≢ front ++ (0 ∷ [])
more-ne-snoc x y rest never [] = λ e. cc
more-ne-snoc x y rest never (z ∷ front) = λ e. never front (cc)

trim_nul-Shown : (bytes : List ℕ) → Shown bytes (trim_nul bytes)
unfolding trim_nul
trim_nul-Shown [] = inr (refl, nil-ne-snoc)
trim_nul-Shown (zero ∷ []) = inl refl
trim_nul-Shown (suc x ∷ []) = inr (ground arith, one-ne-snoc (suc x) (omega arith))
trim_nul-Shown (x ∷ y ∷ rest) = elim (trim_nul-Shown (y ∷ rest)) [
  | inl e ↦ inl (ap (λ l. x ∷ l) e)
  | inr (e, never) ↦ inr (ap (λ l. x ∷ l) e, more-ne-snoc x y rest never)
]

-- The output for entries: "file: ", the key as shown, " pkg: ", the value as shown and "\n" of each.
pub data IsPrinted : List Entry → List ℕ → Type 0 where
  no_line : IsPrinted [] []
  line :
      (e : Entry) (es : List Entry) (key value rest : List ℕ)
      → Shown e.key key
      → Shown e.value value
      → IsPrinted es rest
      → IsPrinted (e ∷ es) (
          ((102 ∷ 105 ∷ 108 ∷ 101 ∷ 58 ∷ 32 ∷ [])
            ++ key
            ++ (32 ∷ 112 ∷ 107 ∷ 103 ∷ 58 ∷ 32 ∷ [])
            ++ value
            ++ (10 ∷ []))
          ++ rest)

-- the lines of entries
unfoldable pub lines : List Entry → List ℕ
lines [] = []
lines (e ∷ es) = write_pair e.key e.value ++ lines es

lines-IsPrinted : (es : List Entry) → IsPrinted es (lines es)
unfolding lines write_pair
lines-IsPrinted [] = no_line
lines-IsPrinted (e ∷ es) =
    line e es (trim_nul e.key) (trim_nul e.value) (lines es) (trim_nul-Shown e.key)
      (trim_nul-Shown e.value) (lines-IsPrinted es)

abbrev all_ok : List Entry → List (Outcome Entry)
all_ok [] = []
all_ok (e ∷ es) = ok e ∷ all_ok es

all_ok_inv :
    (y x : Entry) (ys : List (Outcome Entry)) (xs : List Entry)
    → ok y ∷ ys ≡ all_ok (x ∷ xs)
    → (y ≡ x) × (ys ≡ all_ok xs)
all_ok_inv y x ys xs e = (cc, cc)

module _ (h : Endian) (lossy : List ℕ → List ℕ) (read : List ℕ → Outcome (List ℕ)) (db : Db)
    (fuel : ℕ) where
  -- A scan that yields entries only is printed line by line.
  dump_loop-collect :
      (es : List Entry) (rounds : ℕ) (state : State) (out : List ℕ)
      → collect h db fuel rounds state ≡ all_ok es
      → length es < rounds
      → dump_loop h lossy read db fuel rounds state out ≡ printed (ok 0) (out ++ lines es)
  unfolding dump_loop lines collect
  dump_loop-collect es zero state out e lt = absurd (omega arith)
  dump_loop-collect es (suc rounds) state out e lt =
      go es (next h db fuel state) e lt
        (λ es' state' out'. dump_loop-collect es' rounds state' out')
    where
      go :
          (es : List Entry) (call : Option (Outcome Entry) × State)
          → and_rest call (collect h db fuel rounds) ≡ all_ok es
          → length es < suc rounds
          → ((es : List Entry) (state : State) (out : List ℕ)
              → collect h db fuel rounds state ≡ all_ok es
              → length es < rounds
              → dump_loop h lossy read db fuel rounds state out ≡ printed (ok 0) (out ++ lines es))
          → and_loop call out (dump_loop h lossy read db fuel rounds)
            ≡ printed (ok 0) (out ++ lines es)
      go [] (none, state) e lt again = ap (printed (ok 0)) (sym (append-nil out))
      go (x ∷ es) (none, state) e lt again = cc
      go [] (some y, state) e lt again = cc
      go (x ∷ es) (some (ok y), state) e lt again =
          let (same, rest) = all_ok_inv y x (collect h db fuel rounds state) es e in
          again es state (out ++ write_pair y.key y.value) rest (omega arith)
          ∙ ap (printed (ok 0)) (
              append_assoc out (write_pair y.key y.value) (lines es)
              ∙ ap (λ z. out ++ (write_pair z.key z.value ++ lines es)) same)
      go (x ∷ es) (some (err y), state) e lt again = cc
      go (x ∷ es) (some panic, state) e lt again = cc
      go (x ∷ es) (some out_of_fuel, state) e lt again = cc

-- `k` entries of a page from entry `i` on
unfoldable pub page_entries : Endian → List ℕ → ℕ → ℕ → List Entry
page_entries e p i zero = []
page_entries e p i (suc k) = entry_of_pair e p i ∷ page_entries e p (i + 1) k

length-page_entries : (e : Endian) (p : List ℕ) (i k : ℕ) → length (page_entries e p i k) ≡ k
unfolding page_entries
length-page_entries e p i zero = refl
length-page_entries e p i (suc k) = ap suc (length-page_entries e p (i + 1) k)

entries_of-all_ok :
    (e : Endian) (p : List ℕ) (i k : ℕ) → entries_of e p i k ≡ all_ok (page_entries e p i k)
unfolding entries_of page_entries
entries_of-all_ok e p i zero = refl
entries_of-all_ok e p i (suc k) =
    ap (λ l. ok (entry_of_pair e p i) ∷ l) (entries_of-all_ok e p (i + 1) k)

-- When the file at the path is one that `open` accepts and its root is a leaf of bytes without a
-- right neighbour, `dump` without a key, given a round for each entry and one more, prints one line
-- for each entry of the leaf, in the order of their pointers, and exits with 0. A line is "file: ",
-- the key, " pkg: ", the value and a newline, where of a key or a value with a NUL at its end the text
-- in front of the NUL is shown.
pub main-lines :
    (h : Endian) (lossy : List ℕ → List ℕ) (read : List ℕ → Outcome (List ℕ)) (path file p : List ℕ)
    (db : Db) (n fuel : ℕ)
    → read path ≡ ok file
    → open_db h file ≡ ok db
    → page db p_root ≡ ok p
    → IsLeaf (file_order h db.swap) p n
    → AreBytes p
    → u32_from (file_order h db.swap) p 8 ≡ p_invalid
    → (out : List ℕ) × IsPrinted (page_entries (file_order h db.swap) p 0 n) out
      × (main h lossy read (suc fuel) (suc n) (path ∷ [])
          ≡ record { exit = ok 0; stdout = out; stderr = [] })
unfolding main
main-lines h lossy read path file p db n fuel there accepted root leaf bytes alone = (
  lines (page_entries (file_order h db.swap) p 0 n),
  lines-IsPrinted (page_entries (file_order h db.swap) p 0 n),
  rw (there, accepted)
      (dump_loop-collect h lossy read db (suc fuel) (page_entries (file_order h db.swap) p 0 n)
        (suc n) pristine []
        (collect-entries_of h db p n fuel leaf bytes root alone
          ∙ entries_of-all_ok (file_order h db.swap) p 0 n)
        (omega (arith, length-page_entries (file_order h db.swap) p 0 n))),
)

-- For every even page size that the format allows and every row of calls of `put` and `del` whose
-- entries fit on one page all along: where the table that they leave has a value with a NUL behind
-- it for the key argument with a NUL appended, `dump` of the finished file with that argument, on a
-- host of either byte order, prints the value without the NUL on a line and exits with 0.
pub main-run :
    (h h' : Endian) (lossy : List ℕ → List ℕ) (psize fuel fuel' rounds : ℕ) (ops : List Op)
    (answers : List (Outcome Bool)) (t : Table) (path arg val : List ℕ)
    → min_psize ≤ psize
    → psize ≤ max_psize
    → psize % 2 ≡ 0
    → Steps h psize ops answers (empty_table psize) t
    → t.find (lossy arg ++ (0 ∷ [])) ≡ some (val ++ (0 ∷ []))
    → (w : Writer) × (create_sized h psize ≡ ok w)
      × (w' : Writer) × (run h (suc fuel) ops w ≡ (answers, w'))
      × (file : List ℕ) × (finish h w' ≡ ok file)
      × (main h' lossy (λ name. ok file) (suc fuel') rounds (path ∷ arg ∷ [])
          ≡ record { exit = ok 0; stdout = lossy val ++ newline; stderr = [] })
unfolding main look_up
main-run h h' lossy psize fuel fuel' rounds ops answers t path arg val low high even steps has =
    let (w, created, w', ran, file, finished, db, accepted, got) =
      get-run h h' psize fuel fuel' ops answers t low high even steps in
    (
      w,
      created,
      w',
      ran,
      file,
      finished,
      rw (accepted, got (lossy arg ++ (0 ∷ [])), has, trim_nul-append val) refl,
    )
