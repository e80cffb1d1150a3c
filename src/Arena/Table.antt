-- ===== src/Arena/Table.antt =====
-- What a caller may expect of a database of any height: a finite map from keys to values that
-- forgets pages, offsets, order and height.
pub mod Reader
pub mod Change
pub mod Calls
pub mod Row
pub mod Grown
pub mod Created
use db.Prelude.{ℕ, ◌≤◌, ◌<◌, ◌≡◌, ◌≢◌, List, Option, none, some}
use db.Words.{Endian}
use db.Writer.{Writer}
use db.Writer.Meta.{IsArena}
use db.LeafPage.{key_at, val_at}
use db.Arena.{Reaches}

-- The separators lead from the root, in `height` steps at most, to the leaf that answers for `key`.
pub record Lookup (h : Endian) (w : Writer) (height : ℕ) (key : List ℕ) (answer : Option (List ℕ))
    : Type 0 where
  pub depth : ℕ
  pub pgno : ℕ
  pub p : List ℕ
  pub n : ℕ
  pub not_deeper : depth ≤ height
  pub reached : Reaches h w key depth pgno p n
  pub found : (i : ℕ) → i < n → key_at h p i ≡ key → answer ≡ some (val_at h p i)
  pub missed : ((i : ℕ) → i < n → key_at h p i ≢ key) → answer ≡ none

-- The database of the writer, of height `height` at most, is the map `find`.
pub record Represents (h : Endian) (w : Writer) (height : ℕ) (find : List ℕ → Option (List ℕ))
    : Type 0 where
  pub arena : IsArena w
  pub every : (key : List ℕ) → Lookup h w height key (find key)
