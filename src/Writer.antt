-- ===== src/Writer.antt =====
-- src/writer/mod.rs: the state of a `Writer`, its page arena, and the file that `finish` writes.
-- The byte order of the host is a parameter. A method takes the writer and returns its outcome with
-- the writer after it, also where it fails. The file handle is left out: `finish` returns the bytes
-- that it writes.
pub mod Entries
pub mod Meta
pub mod Plan
pub mod Pages
pub mod Separator
pub mod Split
pub mod Put
use db.Prelude.{
  ℕ, zero, suc, ◌+◌, ◌-◌, ◌*◌, ◌/◌, ◌%◌, List, ◌++◌, length, replicate, splice, window, slice, Bool,
  not, ◌==◌, ◌&&◌, leb, if◌then◌else◌, false,
}
use db.Outcomes.{
  Outcome, ok, err, panic, out_of_fuel, ◌>>=◌, ◌>>◌, Error, assert, expect, to_u32, sub_usize,
}
use db.Words.{Endian}
use db.Format.{
  btree_magic, btree_version, b_nodups, max_psize, p_invalid, p_root, p_bleaf, p_binternal,
  page_header_size,
}
use db.PageBuf.{
  is_rightmost, nentries, write_u32, set_pgno, set_flags, set_lower, set_upper, copy_into,
}

pub record Writer : Type 0 where
  pub psize : ℕ
  pub pages : List ℕ
  pub free : ℕ
  pub nrecs : ℕ
  pub flags : ℕ

abbrev pub default_psize : ℕ
default_psize = 4096

-- A method: the outcome, and the writer after the call.
abbrev pub M {ℓ} : Type ℓ → Type ℓ
M A = Writer → Outcome A × Writer

abbrev pub and_then {ℓ κ} :
    {A : Type ℓ} {B : Type κ} → Outcome A × Writer → (A → M B) → Outcome B × Writer
and_then (ok a, w) k = k a w
and_then (err e, w) k = (err e, w)
and_then (panic, w) k = (panic, w)
and_then (out_of_fuel, w) k = (out_of_fuel, w)

-- a computation that leaves the writer alone
abbrev pub lift {ℓ} : {A : Type ℓ} → Outcome A → M A
lift m w = (m, w)

module _ (h : Endian) where
  -- `psize_as_u32` before the third write, as in the source
  unfoldable pub build_meta : ℕ → ℕ → ℕ → ℕ → Outcome (List ℕ)
  build_meta psize free nrecs flags = do
    p0 ← write_u32 h (replicate psize 0) 0 btree_magic
    p1 ← write_u32 h p0 4 btree_version
    assert (leb psize max_psize)
    size ← to_u32 psize
    p2 ← write_u32 h p1 8 size
    p3 ← write_u32 h p2 12 free
    p4 ← write_u32 h p3 16 nrecs
    write_u32 h p4 20 flags

  unfoldable pub empty_page : ℕ → ℕ → ℕ → Outcome (List ℕ)
  empty_page pgno psize flags = do
    p0 ← set_pgno h (replicate psize 0) pgno
    p1 ← set_flags h p0 flags
    p2 ← set_lower h p1 page_header_size
    set_upper h p2 psize

  unfoldable pub empty_leaf : ℕ → ℕ → Outcome (List ℕ)
  unfolding empty_page
  empty_leaf pgno psize = empty_page pgno psize p_bleaf

  unfoldable pub empty_internal : ℕ → ℕ → Outcome (List ℕ)
  unfolding empty_page
  empty_internal pgno psize = empty_page pgno psize p_binternal

  -- `create_new`, once the file is there. `psize` is `DEFAULT_PSIZE` in the source; it is an
  -- argument here so that small pages can be tried.
  unfoldable pub create_sized : ℕ → Outcome Writer
  create_sized psize = do
    root ← empty_leaf p_root psize
    pages ← copy_into (replicate (2 * psize) 0) psize root
    ok (record { psize = psize; pages = pages; free = p_invalid; nrecs = 0; flags = b_nodups })

  unfoldable pub create_new : Outcome Writer
  create_new = create_sized default_psize

  unfoldable pub finish : Writer → Outcome (List ℕ)
  finish w = do
    assert (not (length w.pages == 0) && (length w.pages % w.psize == 0))
    meta ← build_meta w.psize w.free w.nrecs w.flags
    copy_into w.pages 0 meta

-- `page_bytes`, of `page` as well
unfoldable pub page_bytes : Writer → ℕ → Outcome (List ℕ)
page_bytes w pgno = expect (slice w.pages (pgno * w.psize) (pgno * w.psize + w.psize))

unfoldable pub next_free_pgno : Writer → Outcome ℕ
next_free_pgno w = to_u32 (length w.pages / w.psize)

-- the writer with the bytes of page `pgno` replaced: a change through `page_bytes_mut`
abbrev pub with_page : Writer → ℕ → List ℕ → Writer
with_page w pgno buf = record w { pages = splice w.pages (pgno * w.psize) buf }

unfoldable pub push_page : List ℕ → M ℕ
push_page buf w =
    and_then (lift (do assert (length buf == w.psize); next_free_pgno w) w)
      (λ pgno w'. (ok pgno, record w' { pages = w'.pages ++ buf }))

unfoldable pub replace_page : ℕ → List ℕ → M (Unit {0})
replace_page pgno buf w =
    and_then
      (lift (do assert (length buf == w.psize); old ← page_bytes w pgno; ok (splice old 0 buf)) w)
      (λ new w'. (ok tt, with_page w' pgno new))

-- A change of page `pgno` in place by a function of its bytes, through `page_mut`. The changes that
-- are made so can only succeed or panic.
unfoldable pub page_mut : ℕ → (List ℕ → Outcome (List ℕ)) → M (Unit {0})
page_mut pgno change w =
    and_then (lift (do old ← page_bytes w pgno; change old) w)
      (λ buf w'. (ok tt, with_page w' pgno buf))

-- `is_rightmost() && skip == nentries()`: the test of both sorted appends
unfoldable pub appends_at_end : Endian → Writer → ℕ → ℕ → Outcome Bool
appends_at_end h w pgno skip = do
  page ← page_bytes w pgno
  rightmost ← is_rightmost h page
  let at_end = do n ← nentries h page; ok (skip == n)
  if rightmost then at_end else ok false
