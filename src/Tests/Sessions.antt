-- ===== src/Tests/Sessions.antt =====
-- The theorems about calls in a row and about the command line program, on a database of pages of
-- 512 bytes and three calls.
use db.Prelude.{
  ℕ, ◌-◌, ◌≤◌, ◌≡◌, refl, List, [], ◌∷◌, ◌++◌, length, Bool, true, false, none, some, arith,
}
use db.Outcomes.{Outcome, ok}
use db.Words.{little, big}
use db.Words.Bytes.{are_bytes-AreBytes}
use db.Format.{page_header_size, align_entry}
use db.Order.{cmp}
use db.Db.{Db, open_db}
use db.Db.Search.{get}
use db.Writer.{Writer, create_sized, finish}
use db.Writer.Put.{too_large}
use db.Arena.Table.{Represents}
use db.Arena.Table.Created.{run-Represents}
use db.Session.{
  Op, put_op, del_op, run, Table, update, room_of, put_new, put_held, del_missing, Steps, stop,
  more, empty_table,
}
use db.Session.Runs.{get-run}
use db.Dump.{main, newline}
use db.Dump.Prints.{main-run}

abbrev key : List ℕ
key = 107 ∷ 0 ∷ []

abbrev val : List ℕ
val = 9 ∷ 8 ∷ 0 ∷ []

abbrev ops : List Op
ops = put_op key val ∷ put_op key [] ∷ del_op [] ∷ []

abbrev answers : List (Outcome Bool)
answers = ok true ∷ ok false ∷ ok false ∷ []

abbrev last_table : Table
last_table = record {
  find = update key (some val) (empty_table 512).find;
  free = (empty_table 512).free - room_of key val;
}

small : too_large little (512 - page_header_size) (length key) (length val) ≡ false
unfolding too_large align_entry
small = refl

still_small : too_large little (512 - page_header_size) (length key) 0 ≡ false
unfolding too_large align_entry
still_small = refl

room : room_of key val ≤ (empty_table 512).free
unfolding align_entry
room = omega arith

held : last_table.find key ≡ some val
unfolding update cmp
held = refl

missing : last_table.find [] ≡ none
unfolding update cmp
missing = refl

steps : Steps little 512 ops answers (empty_table 512) last_table
steps =
    more (put_op key val) (ok true) (put_op key [] ∷ del_op [] ∷ []) (ok false ∷ ok false ∷ [])
      (empty_table 512) last_table last_table
      (put_new (empty_table 512) key val (are_bytes-AreBytes key refl) (are_bytes-AreBytes val refl)
        small refl room)
      (more (put_op key []) (ok false) (del_op [] ∷ []) (ok false ∷ []) last_table last_table
        last_table (put_held last_table key [] val still_small held)
        (more (del_op []) (ok false) [] [] last_table last_table last_table
          (del_missing last_table [] missing) (stop last_table)))

get-run_example :
    (w : Writer) × (create_sized little 512 ≡ ok w)
    × (w' : Writer) × (run little 3 ops w ≡ (answers, w'))
    × (file : List ℕ) × (finish little w' ≡ ok file)
    × (db : Db) × (open_db big file ≡ ok db)
    × ((k : List ℕ) → get big db 3 k ≡ ok (last_table.find k))
get-run_example =
    get-run little big 512 2 2 ops answers last_table (omega arith) (omega arith) refl steps

run-Represents_example :
    (w : Writer) × (create_sized little 512 ≡ ok w)
    × (w' : Writer) × (run little 3 ops w ≡ (answers, w'))
    × Represents little w' 0 last_table.find
run-Represents_example =
    run-Represents little 512 2 ops answers last_table (omega arith) (omega arith) refl steps

-- text that is its own bytes
abbrev plain : List ℕ → List ℕ
plain bytes = bytes

main-run_example :
    (w : Writer) × (create_sized little 512 ≡ ok w)
    × (w' : Writer) × (run little 3 ops w ≡ (answers, w'))
    × (file : List ℕ) × (finish little w' ≡ ok file)
    × (main big plain (λ name. ok file) 3 0 ((100 ∷ []) ∷ (107 ∷ []) ∷ [])
        ≡ record { exit = ok 0; stdout = (9 ∷ 8 ∷ []) ++ newline; stderr = [] })
main-run_example =
    main-run little big plain 512 2 2 0 ops answers last_table (100 ∷ []) (107 ∷ []) (9 ∷ 8 ∷ [])
      (omega arith) (omega arith) refl steps held
