-- ===== src/Tree/Nodes.antt =====
-- An internal page by its bytes is one by what the reader sees of it.
use db.Prelude.{ℕ, ◌+◌, ◌≡◌, refl, List}
use db.Outcomes.{ok}
use db.Words.{Endian, file_order}
use db.Format.{binternal_header_size}
use db.PageBuf.Slots.{slot_of}
use db.Db.{Db, page}
use db.InternalPage.{IsNode, sep_size_at, sep_at, child_at}
use db.InternalPage.Read.{node_view, parse-node_view, internal_entry-eq-ok, sep-eq-ok}
use db.Tree.{IsBranch}

abbrev pub node-IsBranch :
    (h : Endian) (db : Db) (key : List ℕ) (pgno child : ℕ) (p : List ℕ)
    → page db pgno ≡ ok p
    → IsNode (file_order h db.swap) p key child
    → IsBranch h db key pgno child
node-IsBranch h db key pgno child p at v = record {
  bytes = p;
  view = node_view h db.swap p v.count v.internal v.bytes pgno;
  at = at;
  parsed = parse-node_view h db.swap p v.count v.internal v.bytes pgno;
  not_leaf = refl;
  inner = refl;
  offset = λ i. slot_of (file_order h db.swap) p i + binternal_header_size;
  size = sep_size_at (file_order h db.swap) p;
  kid = child_at (file_order h db.swap) p;
  sep = sep_at (file_order h db.swap) p;
  entries = internal_entry-eq-ok h db.swap p v.count v.internal v.bytes pgno;
  seps = sep-eq-ok h db.swap p v.count v.internal v.bytes pgno;
  ascend = v.ascend;
  slot = v.slot;
  slot_in = v.slot_in;
  slot_kid = v.slot_child;
  not_above = v.not_above;
  above = v.above;
}
