-- ===== src/Arena/Descent.antt =====
-- `descend` of the writer follows the separators, and so does the reader on the file that `finish`
-- writes.
use db.Prelude.{
  ℕ, zero, suc, ◌+◌, ◌-◌, ◌*◌, ◌<◌, ◌≡◌, sym, subst, ◌∙◌, List, [], ◌∷◌, false, arith,
  slice-eq-some,
}
use db.Outcomes.{ok}
use db.Words.{Endian, file_order}
use db.PageBuf
use db.PageBuf.Writes.{read_u32-eq-ok}
use db.Db.{Db, page}
use db.Writer.{Writer}
use db.Writer.Pages.{descend, descend_loop}
use db.LeafPage.{IsLeaf}
use db.InternalPage.{IsNode}
use db.InternalPage.Read.{parse-node_view, internal_entry-eq-ok}
use db.Tree.{IsBranch, Leads, here}
use db.Tree
use db.Tree.Nodes.{node-IsBranch}
use db.Tree.Descent.{descend_internal_pick-IsBranch}
use db.Arena.{HasPage, Way, stop, down, Reaches}
use db.Arena.Pages.{page_bytes-HasPage, start_in}

-- the arena, seen as a file of the writer's own host
abbrev arena_db : Writer → Db
arena_db w = record { mmap = w.pages; psize = w.psize; swap = false }

module _ (h : Endian) (w : Writer) (key : List ℕ) where
  arena_page : (pgno : ℕ) (p : List ℕ) → HasPage w pgno p → page (arena_db w) pgno ≡ ok p
  unfolding page
  arena_page pgno p at =
      let size : pgno * w.psize + w.psize - pgno * w.psize ≡ w.psize = omega arith in
      rw (
        slice-eq-some w.pages (pgno * w.psize) (pgno * w.psize + w.psize) (omega arith)
            (start_in w pgno p at),
        size,
        at.held,
      )

  abbrev node_at :
      (pgno child : ℕ) (p : List ℕ)
      → HasPage w pgno p
      → IsNode h p key child
      → IsBranch h (arena_db w) key pgno child
  node_at pgno child p at node =
      node-IsBranch h (arena_db w) key pgno child p (arena_page pgno p at) node

  descend_loop-node :
      (fuel pgno child : ℕ) (p : List ℕ) (path : List (ℕ × ℕ))
      → HasPage w pgno p
      → (v : IsNode h p key child)
      → descend_loop h w key (suc fuel) path pgno
        ≡ descend_loop h w key fuel ((pgno, v.slot) ∷ path) child
  unfolding descend_loop PageBuf.is_leaf PageBuf.flags
  descend_loop-node fuel pgno child p path at v = rw (
    page_bytes-HasPage w pgno p at,
    read_u32-eq-ok h p 12 (omega (arith, v.internal.slots.header_in)),
    v.internal.internal_flags,
    parse-node_view h false p v.count v.internal v.bytes pgno,
    descend_internal_pick-IsBranch h (arena_db w) key pgno child (node_at pgno child p at v),
    internal_entry-eq-ok h false p v.count v.internal v.bytes pgno v.slot v.slot_in,
    v.slot_child,
  )

  descend_loop-leaf :
      (fuel pgno n : ℕ) (p : List ℕ) (path : List (ℕ × ℕ))
      → HasPage w pgno p
      → IsLeaf h p n
      → descend_loop h w key (suc fuel) path pgno ≡ ok (record { path = path; leaf_pgno = pgno })
  unfolding descend_loop PageBuf.is_leaf PageBuf.flags
  descend_loop-leaf fuel pgno n p path at v = rw (
    page_bytes-HasPage w pgno p at,
    read_u32-eq-ok h p 12 (omega (arith, v.slots.header_in)),
    v.leaf_flags,
  )

  descend_loop-Way :
      (fuel n : ℕ) (p : List ℕ) (path : List (ℕ × ℕ)) {pgno depth leaf : ℕ}
      → Way h w key pgno depth leaf
      → HasPage w leaf p
      → IsLeaf h p n
      → depth < fuel
      → (spine : List (ℕ × ℕ)) × (descend_loop h w key fuel path pgno
          ≡ ok (record { path = spine; leaf_pgno = leaf }))
  descend_loop-Way zero n p path leads at v enough = absurd (omega arith)
  descend_loop-Way (suc fuel) n p path (stop pgno) at v enough =
      (path, descend_loop-leaf fuel pgno n p path at v)
  descend_loop-Way (suc fuel) n p path (down pgno child depth leaf r at' node rest) at v enough =
      let (spine, found) =
        descend_loop-Way fuel n p ((pgno, node.slot) ∷ path) rest at v (omega arith) in
      (spine, descend_loop-node fuel pgno child r path at' node ∙ found)

  -- With more fuel than the height of the tree the descent ends at the leaf.
  pub descend-Reaches :
      (fuel depth pgno n : ℕ) (p : List ℕ)
      → Reaches h w key depth pgno p n
      → depth < fuel
      → (spine : List (ℕ × ℕ)) × (descend h fuel w key
          ≡ ok (record { path = spine; leaf_pgno = pgno }))
  unfolding descend
  descend-Reaches fuel depth pgno n p v enough =
      descend_loop-Way fuel n p [] v.path v.at v.leaf enough

  -- The reader on a file with the arena's pages.
  pub Way-Leads :
      (h' : Endian) (db : Db)
      → file_order h' db.swap ≡ h
      → ((pgno : ℕ) (p : List ℕ) → HasPage w pgno p → page db pgno ≡ ok p)
      → {pgno depth leaf : ℕ} → Way h w key pgno depth leaf
      → Leads h' db key pgno depth leaf
  Way-Leads h' db order pages (stop pgno) = here pgno
  Way-Leads h' db order pages (down pgno child depth leaf p at node rest) =
      Tree.down pgno child depth leaf
        (node-IsBranch h' db key pgno child p (pages pgno p at)
          (subst (λ e. IsNode e p key child) (sym order) node))
        (Way-Leads h' db order pages rest)
