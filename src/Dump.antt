-- ===== src/Dump.antt =====
-- src/examples/dump.rs: the command line program. The file system is the parameter `read`, which
-- gives the bytes of the file at a path or an error; `lossy` stands for the conversion of bytes to
-- text that replaces what is not UTF-8. Writes to the standard output succeed. The scan of a file
-- takes fuel for its rounds, besides the fuel of the page walks.
pub mod Prints
use db.Prelude.{ℕ, zero, suc, ◌+◌, List, [], ◌∷◌, ◌++◌, ◌==◌, if◌then◌else◌, Option, none, some}
use db.Outcomes.{Outcome, ok, err, panic, out_of_fuel}
use db.Words.{Endian}
use db.Db.{Db, open_db}
use db.Db.Search.{get}
use db.Iter.{Entry, State, pristine, next}

-- The exit code or the error, and the bytes on the standard output and the standard error.
pub record Ran : Type 0 where
  pub exit : Outcome ℕ
  pub stdout : List ℕ
  pub stderr : List ℕ

-- `strip_suffix(b"\0")`, or the bytes themselves
unfoldable pub trim_nul : List ℕ → List ℕ
trim_nul [] = []
trim_nul (x ∷ []) = if x == 0 then [] else x ∷ []
trim_nul (x ∷ y ∷ rest) = x ∷ trim_nul (y ∷ rest)

-- "file: "
abbrev pub file_tag : List ℕ
file_tag = 102 ∷ 105 ∷ 108 ∷ 101 ∷ 58 ∷ 32 ∷ []

-- " pkg: "
abbrev pub pkg_tag : List ℕ
pkg_tag = 32 ∷ 112 ∷ 107 ∷ 103 ∷ 58 ∷ 32 ∷ []

-- "\n"
abbrev pub newline : List ℕ
newline = 10 ∷ []

-- "usage: dump <file.db> [key]\n"
abbrev usage_text : List ℕ
usage_text =
    117 ∷ 115 ∷ 97 ∷ 103 ∷ 101 ∷ 58 ∷ 32 ∷ 100 ∷ 117 ∷ 109 ∷ 112 ∷ 32 ∷ 60 ∷ 102 ∷ 105 ∷ 108 ∷ 101
    ∷ 46 ∷ 100 ∷ 98 ∷ 62 ∷ 32 ∷ 91 ∷ 107 ∷ 101 ∷ 121 ∷ 93 ∷ 10 ∷ []

-- what `write_pair` writes
unfoldable pub write_pair : List ℕ → List ℕ → List ℕ
write_pair key val = file_tag ++ trim_nul key ++ pkg_tag ++ trim_nul val ++ newline

abbrev pub usage : Ran
usage = record { exit = ok 2; stdout = []; stderr = usage_text }

-- Only the program's own text on the standard error: not what the runtime reports of an error that
-- `main` returns.
abbrev pub printed : Outcome ℕ → List ℕ → Ran
printed exit out = record { exit = exit; stdout = out; stderr = [] }

-- a round of the `for` loop, on what `next` returned
abbrev pub and_loop : Option (Outcome Entry) × State → List ℕ → (State → List ℕ → Ran) → Ran
and_loop (none, state) out rest = printed (ok 0) out
and_loop (some (ok entry), state) out rest = rest state (out ++ write_pair entry.key entry.value)
and_loop (some (err e), state) out rest = printed (err e) out
and_loop (some panic, state) out rest = printed panic out
and_loop (some out_of_fuel, state) out rest = printed out_of_fuel out

-- the value, or exit code 1
abbrev found : (List ℕ → List ℕ) → Outcome (Option (List ℕ)) → Ran
found lossy (ok none) = printed (ok 1) []
found lossy (ok (some value)) = printed (ok 0) (lossy (trim_nul value) ++ newline)
found lossy (err e) = printed (err e) []
found lossy panic = printed panic []
found lossy out_of_fuel = printed out_of_fuel []

abbrev opened : Outcome Db → (Db → Ran) → Ran
opened (ok db) rest = rest db
opened (err e) rest = printed (err e) []
opened panic rest = printed panic []
opened out_of_fuel rest = printed out_of_fuel []

abbrev read_and_open : Endian → Outcome (List ℕ) → Outcome Db
read_and_open h (ok file) = open_db h file
read_and_open h (err e) = err e
read_and_open h panic = panic
read_and_open h out_of_fuel = out_of_fuel

module _ (h : Endian) (lossy : List ℕ → List ℕ) (read : List ℕ → Outcome (List ℕ)) where
  -- the `for` loop, after the lines in `out`
  unfoldable pub dump_loop : Db → ℕ → ℕ → State → List ℕ → Ran
  dump_loop db fuel zero state out = printed out_of_fuel out
  dump_loop db fuel (suc rounds) state out =
      and_loop (next h db fuel state) out (dump_loop db fuel rounds)

  -- the branch with a key
  unfoldable pub look_up : Db → ℕ → List ℕ → Ran
  look_up db fuel arg = found lossy (get h db fuel (lossy arg ++ (0 ∷ [])))

  -- `main`, on the arguments behind the program's name
  unfoldable pub main : ℕ → ℕ → List (List ℕ) → Ran
  unfolding dump_loop look_up
  main fuel rounds [] = usage
  main fuel rounds (path ∷ []) =
      opened (read_and_open h (read path)) (λ db. dump_loop db fuel rounds pristine [])
  main fuel rounds (path ∷ arg ∷ []) =
      opened (read_and_open h (read path)) (λ db. look_up db fuel arg)
  main fuel rounds (path ∷ arg ∷ more ∷ rest) = usage
