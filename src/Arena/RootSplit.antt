-- ===== src/Arena/RootSplit.antt =====
-- `split_root_leaf` of src/writer/mod.rs: a root leaf without room becomes an internal root with two
-- leaves below it.
pub mod Built
pub mod Commit
pub mod Puts
pub mod Scan
use db.Prelude.{ℕ, ◌+◌, ◌≤◌, ◌<◌, ◌≡◌, List}
use db.Words.{Endian, u32_from}
use db.Words.Bytes.{AreBytes}
use db.Format.{p_root, p_invalid}
use db.Writer.{Writer}
use db.Writer.Meta.{IsArena}
use db.LeafPage.{key_at}
use db.LeafSplit.Shared.{IsShared, merged}
use db.InternalPage.Root.{IsRoot}
use db.Arena.{HasPage}
use db.Arena.Append.{page_count}

-- In `w'` the entries of the root leaf `p` of `w`, of `n` entries, and the new pair at `idx` stand on
-- two leaves at the end of the arena, linked, and the root is their parent.
pub record IsGrown (h : Endian) (w w' : Writer) (p : List ℕ) (n idx : ℕ) (key val : List ℕ)
    : Type 0 where
  pub l_buf : List ℕ
  pub r_buf : List ℕ
  pub l : List ℕ
  pub r : List ℕ
  pub top : List ℕ
  pub shared : IsShared h p n idx key val l_buf r_buf l r
  pub parent :
      IsRoot h p top (page_count w) (page_count w + 1) (merged idx key (key_at h p) shared.left)
  pub top_bytes : AreBytes top
  pub arena : IsArena w'
  pub at_top : HasPage w' p_root top
  pub at_l : HasPage w' (page_count w) l
  pub at_r : HasPage w' (page_count w + 1) r
  pub l_next : u32_from h l 8 ≡ page_count w + 1
  pub r_next : u32_from h r 8 ≡ p_invalid
