-- ===== src/Arena/RootSplit/Commit.antt =====
-- `commit_root` puts the pages of a root split into the arena, and `put` as far as it is there.
use db.Prelude.{
  ℕ, zero, suc, ◌+◌, ◌*◌, ◌^◌, ◌≤◌, ◌<◌, ◌≡◌, refl, subst, ◌∙◌, List, length, ==_iff, arith,
}
use db.Outcomes.{ok}
use db.Words.{Endian}
use db.Format.{p_root}
use db.Writer.{Writer, with_page}
use db.Writer.Meta.{IsArena}
use db.Writer.Split.{Halves}
use db.Writer.Put.{commit_root}
use db.RootLeaf.{IsRootLeaf, size_of_root}
use db.Arena.{HasPage}
use db.Arena.Pages.{with_page-HasPage, with_page-HasPage_other, with_page-IsArena}
use db.Arena.Append.{
  page_count, page_count_lem, with_pushed, page_count-pushed, push_page-eq-ok, pushed-IsArena,
  pushed-HasPage, pushed-HasPage_old, replace_page-eq-ok,
}

pub root-HasPage :
    (h : Endian) (w : Writer) (p : List ℕ) (n : ℕ) → IsRootLeaf h w p n → HasPage w p_root p
root-HasPage h w p n v = record {
  from_one = omega arith;
  inside = omega (arith, v.two_pages);
  held = v.root;
}

-- The arena has a root.
count_two :
    (w : Writer) (n : ℕ)
    → n * w.psize ≡ length w.pages
    → 2 * w.psize ≤ length w.pages
    → 0 < w.psize
    → p_root < n
count_two w zero e le pos = absurd (omega arith)
count_two w (suc zero) e le pos = absurd (omega arith)
count_two w (suc (suc n)) e le pos = omega arith

module _ (h : Endian) (w : Writer) (p : List ℕ) (n : ℕ) (v : IsRootLeaf h w p n) (l r top : List ℕ)
    (l_len : length l ≡ w.psize) (r_len : length r ≡ w.psize) (top_len : length top ≡ length p)
    (few : page_count w + 1 < 2 ^ 32) where
  abbrev w1 : Writer
  w1 = with_pushed w l

  abbrev w2 : Writer
  w2 = with_pushed w1 r

  abbrev w3 : Writer
  w3 = with_page w2 p_root top

  arena1 : IsArena w1
  arena1 = pushed-IsArena w v.arena l l_len

  count1 : page_count w1 ≡ page_count w + 1
  count1 = page_count-pushed w v.arena l l_len

  arena2 : IsArena w2
  arena2 = pushed-IsArena w1 arena1 r r_len

  old_root : HasPage w2 p_root p
  old_root =
      pushed-HasPage_old w1 arena1 r r_len p_root p
        (pushed-HasPage_old w v.arena l l_len p_root p (root-HasPage h w p n v))

  behind_root : p_root < page_count w
  behind_root =
      count_two w (page_count w) (page_count_lem w v.arena) v.two_pages
        (omega (arith, v.arena.psize_low))

  pub new-IsArena : IsArena w3
  new-IsArena = with_page-IsArena w2 p_root p old_root top top_len arena2

  pub new_root : HasPage w3 p_root top
  new_root = with_page-HasPage w2 p_root p old_root top top_len

  pub new_left : HasPage w3 (page_count w) l
  new_left =
      with_page-HasPage_other w2 p_root p old_root top top_len (page_count w) l
        (λ e. omega (arith, behind_root, e))
        (pushed-HasPage_old w1 arena1 r r_len (page_count w) l (pushed-HasPage w v.arena l l_len))

  pub new_right : HasPage w3 (page_count w + 1) r
  new_right =
      with_page-HasPage_other w2 p_root p old_root top top_len (page_count w + 1) r
        (λ e. omega (arith, behind_root, e))
        (subst (λ k. HasPage w2 k r) count1 (pushed-HasPage w1 arena1 r r_len))

  pub commit_root-eq-ok :
      (halves : Halves)
      → halves.l ≡ l
      → halves.r ≡ r
      → halves.l_pgno ≡ page_count w
      → halves.r_pgno ≡ page_count w + 1
      → commit_root h (halves, top) w ≡ (ok tt, w3)
  unfolding commit_root
  commit_root-eq-ok halves el er elp erp = rw (
    el,
    er,
    elp,
    erp,
    push_page-eq-ok w v.arena l l_len (omega (arith, few)),
    (==_iff (page_count w) (page_count w)).1 refl,
    push_page-eq-ok w1 arena1 r r_len (omega (arith, count1, few)),
    (==_iff (page_count w1) (page_count w + 1)).1 count1,
    replace_page-eq-ok w2 p_root p top old_root (top_len ∙ size_of_root h w p n v),
  )
