-- ===== src/Session.antt =====
-- What a caller of src/writer/mod.rs may expect of `put` and `del` in a row: a table of keys and
-- values that forgets pages, offsets and order, and the room that is left on the root page.
pub mod Held
pub mod Runs
use db.Prelude.{
  ℕ, ◌+◌, ◌-◌, ◌≤◌, ◌≡◌, List, [], ◌∷◌, length, Bool, true, false, Option, none, some,
  if◌then◌else◌, Ordering,
}
use db.Outcomes.{Outcome, ok, err, entry_too_large}
use db.Words.{Endian}
use db.Words.Bytes.{AreBytes}
use db.Format.{page_header_size}
use db.Order.{cmp}
use db.Writer.{Writer}
use db.Writer.Entries.{leaf_nbytes}
use db.Writer.Put.{put, del, too_large}

pub data Op : Type 0 where
  put_op : List ℕ → List ℕ → Op
  del_op : List ℕ → Op

abbrev pub run_op : Endian → ℕ → Op → Writer → Outcome Bool × Writer
run_op h fuel (put_op key val) w = put h fuel key val w
run_op h fuel (del_op key) w = del h fuel key w

-- The answers of calls in a row, errors included, and the writer after them.
unfoldable pub run : Endian → ℕ → List Op → Writer → List (Outcome Bool) × Writer
run h fuel [] w = ([], w)
run h fuel (op ∷ ops) w =
    let first = run_op h fuel op w in
    let rest = run h fuel ops first.1 in (first.0 ∷ rest.0, rest.1)

pub record Table : Type 0 where
  pub find : List ℕ → Option (List ℕ)
  pub free : ℕ

-- the table in which `key` has the value `val`, or none
unfoldable pub update :
    List ℕ → Option (List ℕ) → (List ℕ → Option (List ℕ)) → List ℕ → Option (List ℕ)
update key val find k = elim (cmp key k) [
  | Ordering.lt ↦ find k
  | Ordering.eq ↦ val
  | Ordering.gt ↦ find k
]

-- the room that an entry takes, with its pointer
abbrev pub room_of : List ℕ → List ℕ → ℕ
room_of key val = leaf_nbytes (length key) (length val) + 2

-- One call and its answer, by the table alone. A `put` of a new key has to leave the entries on one page.
pub data Step (h : Endian) (psize : ℕ) : Op → Outcome Bool → Table → Table → Type 0 where
  put_new :
      (t : Table) (key val : List ℕ)
      → AreBytes key
      → AreBytes val
      → too_large h (psize - page_header_size) (length key) (length val) ≡ false
      → t.find key ≡ none
      → room_of key val ≤ t.free
      → Step h psize
          (put_op key val)
          (ok true)
          t
          (record { find = update key (some val) t.find; free = t.free - room_of key val })
  put_held :
      (t : Table) (key val old : List ℕ)
      → too_large h (psize - page_header_size) (length key) (length val) ≡ false
      → t.find key ≡ some old
      → Step h psize (put_op key val) (ok false) t t
  put_large :
      (t : Table) (key val : List ℕ)
      → too_large h (psize - page_header_size) (length key) (length val) ≡ true
      → Step h psize (put_op key val) (err (entry_too_large (length key) (length val))) t t
  del_held :
      (t : Table) (key old : List ℕ)
      → t.find key ≡ some old
      → Step h psize
          (del_op key)
          (ok true)
          t
          (record { find = update key none t.find; free = t.free + room_of key old })
  del_missing :
      (t : Table) (key : List ℕ) → t.find key ≡ none → Step h psize (del_op key) (ok false) t t

-- Calls in a row.
pub data Steps (h : Endian) (psize : ℕ)
    : List Op → List (Outcome Bool) → Table → Table → Type 0 where
  stop : (t : Table) → Steps h psize [] [] t t
  more :
      (op : Op) (answer : Outcome Bool) (ops : List Op) (answers : List (Outcome Bool))
      (t t' t'' : Table)
      → Step h psize op answer t t'
      → Steps h psize ops answers t' t''
      → Steps h psize (op ∷ ops) (answer ∷ answers) t t''

-- the table of a new database
abbrev pub empty_table : ℕ → Table
empty_table psize = record { find = λ k. none; free = psize - page_header_size }
