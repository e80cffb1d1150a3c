-- ===== src/Arena/Change.antt =====
-- A leaf of the database is changed in place: the paths of the database then.
use db.Prelude.{ℕ, ◌*◌, ◌≡◌, sym, ap, ◌∙◌, List, length, arith, window}
use db.Words.{Endian}
use db.Words.Bytes.{AreBytes}
use db.PageBuf.Slots.{lower_of}
use db.Writer.{Writer, with_page}
use db.LeafPage.{IsLeaf, IsPacked}
use db.LeafPage.Search.{IsSorted}
use db.Arena.{HasPage, Way, Reaches}
use db.Arena.Pages.{with_page-HasPage, with_page-HasPage_other, node≢leaf, Way-kept}

pub HasPage_unique :
    (w : Writer) (i j : ℕ) (p q : List ℕ) → HasPage w i p → HasPage w j q → i ≡ j → p ≡ q
HasPage_unique w i j p q u v e =
    sym u.held ∙ ap (λ k. window w.pages (k * w.psize) w.psize) e ∙ v.held

-- A leaf has one number of entries.
pub count_unique :
    (h : Endian) (p q : List ℕ) (m n : ℕ) → IsLeaf h p m → IsLeaf h q n → p ≡ q → m ≡ n
count_unique h p q m n u v e =
    let same : lower_of h p ≡ lower_of h q = ap (lower_of h) e in
    omega (arith, same, u.slots.lower_at, v.slots.lower_at)

-- Page `pgno`, a leaf `p` of `n` entries, becomes a leaf `q` of `m` entries.
module _ (h : Endian) (w : Writer) (pgno n m : ℕ) (p q : List ℕ) (at : HasPage w pgno p)
    (leaf : IsLeaf h p n) (len : length q ≡ length p) (leaf' : IsLeaf h q m)
    (packed' : IsPacked h q m) (bytes' : AreBytes q) (sorted' : IsSorted h q m) where
  abbrev w' : Writer
  w' = with_page w pgno q

  pub Way-changed :
      (key : List ℕ) {from depth to : ℕ} → Way h w key from depth to → Way h w' key from depth to
  Way-changed key = Way-kept h w w' key (λ j r child at' node.
      with_page-HasPage_other w pgno p at q len j r
        (node≢leaf h w j pgno r p key child n at' node at leaf) at')

  pub Reaches-changed :
      (key : List ℕ) (depth : ℕ) → Reaches h w key depth pgno p n → Reaches h w' key depth pgno q m
  Reaches-changed key depth v = record {
    path = Way-changed key v.path;
    at = with_page-HasPage w pgno p at q len;
    leaf = leaf';
    packed = packed';
    bytes = bytes';
    sorted = sorted';
  }
