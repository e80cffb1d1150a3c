-- ===== src/Arena/Append.antt =====
-- A page pushed to the end of the arena, and one that takes the place of another.
use db.Prelude.{
  ℕ, zero, suc, ◌+◌, ◌*◌, ◌/◌, ◌%◌, ◌^◌, ◌≤◌, ◌<◌, ◌≡◌, sym, ap, ◌∙◌, List, ◌++◌, length, window,
  splice, length-append, get_or-append_left, drop-append, take, take_all, length-splice,
  window-eq_of_Agree, window-splice_self, lt→ltb, ==_iff, arith,
}
use native.Mathlib.Nat.{add-mod_right, add-div_right, div-add-mod'}
use db.Outcomes.{ok}
use db.Writer.{Writer, next_free_pgno, push_page, replace_page, with_page}
use db.Writer.Meta.{IsArena}
use db.Arena.{HasPage}
use db.Arena.Pages.{page_bytes-HasPage, length-HasPage}

-- the number of the arena's pages
abbrev pub page_count : Writer → ℕ
page_count w = length w.pages / w.psize

abbrev pub with_pushed : Writer → List ℕ → Writer
with_pushed w buf = record w { pages = w.pages ++ buf }

module _ (w : Writer) (arena : IsArena w) where
  some_psize : 0 < w.psize
  some_psize = omega (arith, arena.psize_low)

  pub page_count_lem : page_count w * w.psize ≡ length w.pages
  page_count_lem =
      let parts : length w.pages / w.psize * w.psize + length w.pages % w.psize ≡ length w.pages =
        div-add-mod' (length w.pages) w.psize in
      omega (arith, parts, arena.whole)

  pub next_free_pgno-eq-ok : page_count w < 2 ^ 32 → next_free_pgno w ≡ ok (page_count w)
  unfolding next_free_pgno
  next_free_pgno-eq-ok lt = rw (lt→ltb (length w.pages / w.psize) (2 ^ 32) lt)

  module _ (buf : List ℕ) (size : length buf ≡ w.psize) where
    length-pushed : length (w.pages ++ buf) ≡ length w.pages + w.psize
    length-pushed = length-append w.pages buf ∙ ap (λ n. length w.pages + n) size

    pub page_count-pushed : page_count (with_pushed w buf) ≡ page_count w + 1
    page_count-pushed =
        ap (λ n. n / w.psize) length-pushed ∙ add-div_right (length w.pages) some_psize

    pub push_page-eq-ok :
        page_count w < 2 ^ 32 → push_page buf w ≡ (ok (page_count w), with_pushed w buf)
    unfolding push_page
    push_page-eq-ok lt = rw ((==_iff (length buf) w.psize).1 size, next_free_pgno-eq-ok lt)

    pub pushed-IsArena : IsArena (with_pushed w buf)
    pushed-IsArena = record {
      psize_low = arena.psize_low;
      psize_high = arena.psize_high;
      psize_even = arena.psize_even;
      whole =
          ap (λ n. n % w.psize) length-pushed
          ∙ add-mod_right (length w.pages) w.psize
          ∙ arena.whole;
      some_page = omega (arith, length-pushed);
      known_flags = arena.known_flags;
    }

    -- The pages that were there stay.
    pub pushed-HasPage_old :
        (pgno : ℕ) (p : List ℕ) → HasPage w pgno p → HasPage (with_pushed w buf) pgno p
    pushed-HasPage_old pgno p v = record {
      from_one = v.from_one;
      inside = omega (arith, length-pushed, v.inside);
      held =
          window-eq_of_Agree (w.pages ++ buf) w.pages (pgno * w.psize) w.psize
            (omega (arith, length-pushed, v.inside)) (omega (arith, v.inside))
            (λ j l r. get_or-append_left w.pages buf j 0 (omega (arith, v.inside)))
          ∙ v.held;
    }

    pub pushed-HasPage : HasPage (with_pushed w buf) (page_count w) buf
    pushed-HasPage = record {
      from_one = count_pos (page_count w) page_count_lem;
      inside = omega (arith, length-pushed, page_count_lem);
      held =
          ap (λ a. window (w.pages ++ buf) a w.psize) page_count_lem
          ∙ ap (take w.psize) (drop-append w.pages buf)
          ∙ take_all w.psize buf (omega (arith, size));
    }
      where
        count_pos : (n : ℕ) → n * w.psize ≡ length w.pages → 1 ≤ n
        count_pos zero e = absurd (omega (arith, arena.some_page, some_psize))
        count_pos (suc n) e = omega arith

-- A page of the right size in the place of another.
pub replace_page-eq-ok :
    (w : Writer) (pgno : ℕ) (p q : List ℕ)
    → HasPage w pgno p
    → length q ≡ w.psize
    → replace_page pgno q w ≡ (ok tt, with_page w pgno q)
unfolding replace_page
replace_page-eq-ok w pgno p q at size =
    let same : length q ≡ length p = size ∙ sym (length-HasPage w pgno p at) in
    let all : splice p 0 q ≡ q =
      sym (take_all (length q) (splice p 0 q) (omega (arith, length-splice p 0 q, same)))
      ∙ window-splice_self p 0 q (omega (arith, same)) in
    rw ((==_iff (length q) w.psize).1 size, page_bytes-HasPage w pgno p at, all)
