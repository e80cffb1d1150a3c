-- ===== src/Arena.antt =====
-- A database of any height, as the writer of src/writer/mod.rs has it in its arena: the pages on
-- the way from the root to the leaf of a key, and what the database stores.
pub mod Pages
pub mod Descent
pub mod Files
pub mod Append
pub mod Change
pub mod Puts
pub mod Dels
pub mod RootSplit
pub mod Table
use db.Prelude.{ℕ, zero, suc, ◌+◌, ◌*◌, ◌≤◌, ◌<◌, ◌≡◌, List, length, window}
use db.Words.{Endian}
use db.Words.Bytes.{AreBytes}
use db.Format.{p_root}
use db.Writer.{Writer}
use db.Writer.Meta.{IsArena}
use db.LeafPage.{IsLeaf, IsPacked, key_at, val_at}
use db.LeafPage.Search.{IsSorted}
use db.InternalPage.{IsNode}

-- Page `pgno` of the arena, not the meta page, has the bytes `p`.
pub record HasPage (w : Writer) (pgno : ℕ) (p : List ℕ) : Type 0 where
  pub from_one : 1 ≤ pgno
  pub inside : (pgno + 1) * w.psize ≤ length w.pages
  pub held : window w.pages (pgno * w.psize) w.psize ≡ p

-- From page `pgno` the separators of the arena's pages lead in `depth` steps to page `leaf`.
pub data Way (h : Endian) (w : Writer) (key : List ℕ) : ℕ → ℕ → ℕ → Type 0 where
  stop : (pgno : ℕ) → Way h w key pgno 0 pgno
  down :
      (pgno child depth leaf : ℕ) (p : List ℕ)
      → HasPage w pgno p
      → IsNode h p key child
      → Way h w key child depth leaf
      → Way h w key pgno (suc depth) leaf

-- The separators lead from the root in `depth` steps to page `pgno`, a leaf `p` of `n` entries with
-- ascending keys that share no byte.
pub record Reaches (h : Endian) (w : Writer) (key : List ℕ) (depth pgno : ℕ) (p : List ℕ) (n : ℕ)
    : Type 0 where
  pub path : Way h w key p_root depth pgno
  pub at : HasPage w pgno p
  pub leaf : IsLeaf h p n
  pub packed : IsPacked h p n
  pub bytes : AreBytes p
  pub sorted : IsSorted h p n
