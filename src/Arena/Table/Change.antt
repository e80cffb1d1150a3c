-- ===== src/Arena/Table/Change.antt =====
-- A leaf is changed in place: what the database says then of a key whose entry, if there is one,
-- stays.
use db.Prelude.{ℕ, ◌<◌, ◌≡◌, sym, ap, subst, ◌∙◌, List, length, Option, some, arith}
use native.Mathlib.Decide.{ℕ_discrete}
use db.Words.{Endian}
use db.Words.Bytes.{AreBytes}
use db.Format.{p_root}
use db.Writer.{Writer, with_page}
use db.LeafPage.{IsLeaf, IsPacked, key_at, val_at}
use db.LeafPage.Search.{IsSorted}
use db.Arena.{HasPage, Way}
use db.Arena.Pages.{with_page-HasPage, with_page-HasPage_other}
use db.Arena.Change.{HasPage_unique, count_unique, Way-changed}
use db.Arena.Table.{Lookup}

-- Each entry of page `p` with the key `k` is one of page `q`, of `m` entries.
abbrev pub Moves : Endian → List ℕ → ℕ → List ℕ → ℕ → List ℕ → Type 0
Moves h p n q m k =
    (i : ℕ)
    → i < n
    → key_at h p i ≡ k
    → (j : ℕ) × (j < m) × (key_at h q j ≡ key_at h p i) × (val_at h q j ≡ val_at h p i)

module _ (h : Endian) (w : Writer) (pgno n m : ℕ) (p q : List ℕ) (at : HasPage w pgno p)
    (leaf : IsLeaf h p n) (len : length q ≡ length p) (leaf' : IsLeaf h q m)
    (packed' : IsPacked h q m) (bytes' : AreBytes q) (sorted' : IsSorted h q m) where
  abbrev w' : Writer
  w' = with_page w pgno q

  pub Lookup-changed :
      (height : ℕ) (k : List ℕ) (answer answer' : Option (List ℕ))
      → answer' ≡ answer
      → Moves h p n q m k
      → Moves h q m p n k
      → Lookup h w height k answer
      → Lookup h w' height k answer'
  Lookup-changed height k answer answer' same_answer there back l = elim (ℕ_discrete l.pgno pgno) [
    | no other ↦ record {
      depth = l.depth;
      pgno = l.pgno;
      p = l.p;
      n = l.n;
      not_deeper = l.not_deeper;
      reached = record {
        path =
            Way-changed h w pgno n m p q at leaf len leaf' packed' bytes' sorted' k l.reached.path;
        at = with_page-HasPage_other w pgno p at q len l.pgno l.p other l.reached.at;
        leaf = l.reached.leaf;
        packed = l.reached.packed;
        bytes = l.reached.bytes;
        sorted = l.reached.sorted;
      };
      found = λ i lt e. same_answer ∙ l.found i lt e;
      missed = λ none_is. same_answer ∙ l.missed none_is;
    }
    | yes here ↦
        let same = HasPage_unique w l.pgno pgno l.p p l.reached.at at here in
        let count = count_unique h l.p p l.n n l.reached.leaf leaf same in
        record {
          depth = l.depth;
          pgno = pgno;
          p = q;
          n = m;
          not_deeper = l.not_deeper;
          reached = record {
            path = subst (Way h w' k p_root l.depth) here (
                Way-changed h w pgno n m p q at leaf len leaf' packed' bytes' sorted' k
                  l.reached.path);
            at = with_page-HasPage w pgno p at q len;
            leaf = leaf';
            packed = packed';
            bytes = bytes';
            sorted = sorted';
          };
          found = λ j lt e.
              let (i, li, ke, de) = back j lt e in
              same_answer
              ∙ l.found i (omega (arith, count)) (ap (λ x. key_at h x i) same ∙ ke ∙ e)
              ∙ ap some (ap (λ x. val_at h x i) same ∙ de);
          missed = λ none_is.
              same_answer
              ∙ l.missed (λ i lt e.
                let key_here : key_at h p i ≡ k = ap (λ x. key_at h x i) (sym same) ∙ e in
                let (j, lj, ke, de) = there i (omega (arith, count)) key_here in
                none_is j lj (ke ∙ key_here));
        }
  ]
