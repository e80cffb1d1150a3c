-- ===== src/Arena/Pages.antt =====
-- The pages of the arena: what `page_bytes` and `page_mut` do with one, and that a change of one
-- leaves the others.
use db.Prelude.{
  ℕ, suc, ◌+◌, ◌-◌, ◌*◌, ◌≤◌, ◌≡◌, ◌≢◌, sym, ap, ◌∙◌, List, length, window, splice, length-splice,
  length-window, window-splice_self, window-eq_of_Agree, splice-Agree_before, splice-Agree_after,
  slice-eq-some, arith,
}
use native.Mathlib.Decide.{dec_lt}
use native.Mathlib.Nat.{mul-le-mul_right}
use db.Outcomes.{Outcome, ok}
use db.Words.{Endian, u32_from}
use db.Format.{p_binternal, p_bleaf}
use db.Writer.{Writer, page_bytes, page_mut, with_page}
use db.Writer.Meta.{IsArena}
use db.LeafPage.{IsLeaf}
use db.InternalPage.{IsNode}
use db.Arena.{HasPage, Way, stop, down}

module _ (w : Writer) (pgno : ℕ) (p : List ℕ) (v : HasPage w pgno p) where
  abbrev start : ℕ
  start = pgno * w.psize

  pub start_in : start + w.psize ≤ length w.pages
  start_in = omega (arith, v.inside)

  pub length-HasPage : length p ≡ w.psize
  length-HasPage = ap length (sym v.held) ∙ length-window w.pages start w.psize start_in

  pub page_bytes-HasPage : page_bytes w pgno ≡ ok p
  unfolding page_bytes
  page_bytes-HasPage =
      let size : start + w.psize - start ≡ w.psize = omega arith in
      rw (slice-eq-some w.pages start (start + w.psize) (omega arith) start_in, size, v.held)

  pub page_mut-HasPage :
      (q : List ℕ) (change : List ℕ → Outcome (List ℕ))
      → change p ≡ ok q
      → page_mut pgno change w ≡ (ok tt, with_page w pgno q)
  unfolding page_mut
  page_mut-HasPage q change e = rw (page_bytes-HasPage, e)

  module _ (q : List ℕ) (len : length q ≡ length p) where
    width : length q ≡ w.psize
    width = len ∙ length-HasPage

    same_pages : length (splice w.pages start q) ≡ length w.pages
    same_pages = length-splice w.pages start q

    pub with_page-HasPage : HasPage (with_page w pgno q) pgno q
    with_page-HasPage = record {
      from_one = v.from_one;
      inside = rw same_pages v.inside;
      held =
          ap (window (splice w.pages start q) start) (sym width)
          ∙ window-splice_self w.pages start q (omega (arith, width, start_in));
    }

    -- Pages do not overlap.
    pub with_page-HasPage_other :
        (j : ℕ) (r : List ℕ) → j ≢ pgno → HasPage w j r → HasPage (with_page w pgno q) j r
    with_page-HasPage_other j r ne u = record {
      from_one = u.from_one;
      inside = rw same_pages u.inside;
      held =
          window-eq_of_Agree (splice w.pages start q) w.pages (j * w.psize) w.psize
            (omega (arith, same_pages, u.inside)) (omega (arith, u.inside))
            (λ i l s. elim (dec_lt j pgno) [
              | yes lt ↦
                  let before : suc j * w.psize ≤ start = mul-le-mul_right w.psize lt in
                  splice-Agree_before w.pages start q 0 i (omega arith) (omega arith)
              | no ge ↦
                  let over : suc pgno * w.psize ≤ j * w.psize =
                    mul-le-mul_right w.psize (ground arith) in
                  splice-Agree_after w.pages start q (j * w.psize) (j * w.psize + w.psize)
                    (omega (arith, width)) i l s
            ])
          ∙ u.held;
    }

    pub with_page-IsArena : IsArena w → IsArena (with_page w pgno q)
    with_page-IsArena a = record {
      psize_low = a.psize_low;
      psize_high = a.psize_high;
      psize_even = a.psize_even;
      whole = rw same_pages a.whole;
      some_page = rw same_pages a.some_page;
      known_flags = a.known_flags;
    }

-- An internal page is not a leaf.
pub node≢leaf :
    (h : Endian) (w : Writer) (i j : ℕ) (p q key : List ℕ) (child n : ℕ)
    → HasPage w i p
    → IsNode h p key child
    → HasPage w j q
    → IsLeaf h q n
    → i ≢ j
node≢leaf h w i j p q key child n at node at' leaf e =
    let same : p ≡ q = sym at.held ∙ ap (λ k. window w.pages (k * w.psize) w.psize) e ∙ at'.held in
    flags_differ p q same node.internal.internal_flags leaf.leaf_flags
  where
    flags_differ :
        (a b : List ℕ) → a ≡ b → u32_from h a 12 ≡ p_binternal → u32_from h b 12 ≢ p_bleaf
    flags_differ a b e f g =
        let clash : p_binternal ≡ p_bleaf = sym f ∙ ap (λ x. u32_from h x 12) e ∙ g in
        omega (arith, clash)

-- A path is kept where its internal pages are.
pub Way-kept :
    (h : Endian) (w w' : Writer) (key : List ℕ)
    → ((j : ℕ) (r : List ℕ) (child : ℕ) → HasPage w j r → IsNode h r key child → HasPage w' j r)
    → {pgno depth leaf : ℕ} → Way h w key pgno depth leaf
    → Way h w' key pgno depth leaf
Way-kept h w w' key kept (stop pgno) = stop pgno
Way-kept h w w' key kept (down pgno child depth leaf p at node rest) =
    down pgno child depth leaf p (kept pgno p child at node) node (Way-kept h w w' key kept rest)
