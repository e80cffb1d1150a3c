-- ===== src/RootLeaf/Fresh.antt =====
-- The writer that `create_new` makes: its root is an empty leaf.
use db.Prelude.{
  ℕ, ◌*◌, ◌%◌, ◌≤◌, ◌≡◌, refl, sym, ap, ◌∙◌, List, length, window, splice, length-splice,
  window-splice_self, arith,
}
use native.Mathlib.Nat.{mul-mod_left}
use db.Outcomes.{ok}
use db.Words.{Endian, u16_from}
use db.Format.{p_root, p_invalid, b_nodups, page_header_size, min_psize, max_psize}
use db.PageBuf.Writes.{copy_into-eq-ok}
use db.Writer.{Writer, create_sized}
use db.LeafSplit.Empty.{
  zeros_of, length-zeros_of, page_of, length-page_of, empty_leaf-eq-ok, page_of-IsLeaf,
  page_of-AreBytes, lower_of_empty, upper_of_empty,
}
use db.RootLeaf.{IsRootLeaf}

module _ (h : Endian) (psize : ℕ) (low : min_psize ≤ psize) (high : psize ≤ max_psize) where
  abbrev pub root_of : List ℕ
  root_of = page_of h psize p_root low high

  length-root_of : length root_of ≡ psize
  length-root_of = length-page_of h psize p_root low high

  pub lower_root : u16_from h root_of 16 ≡ page_header_size
  lower_root = lower_of_empty h psize p_root low high

  pub upper_root : u16_from h root_of 18 ≡ psize
  upper_root = upper_of_empty h psize p_root low high

  abbrev pub fresh : Writer
  fresh = record {
    psize = psize;
    pages = splice (zeros_of (2 * psize)) psize root_of;
    free = p_invalid;
    nrecs = 0;
    flags = b_nodups;
  }

  length-pages : length fresh.pages ≡ 2 * psize
  length-pages = length-splice (zeros_of (2 * psize)) psize root_of ∙ length-zeros_of (2 * psize)

  pub create_sized-eq-ok : create_sized h psize ≡ ok fresh
  unfolding create_sized
  create_sized-eq-ok = rw (
    empty_leaf-eq-ok h psize p_root low high,
    copy_into-eq-ok (zeros_of (2 * psize)) psize root_of
        (omega (arith, length-root_of, length-zeros_of (2 * psize))),
  )

  pub fresh-IsRootLeaf : psize % 2 ≡ 0 → IsRootLeaf h fresh root_of 0
  fresh-IsRootLeaf even = record {
    arena = record {
      psize_low = low;
      psize_high = high;
      psize_even = even;
      whole = rw length-pages (mul-mod_left 2 psize);
      some_page = omega (arith, length-pages);
      known_flags = refl;
    };
    two_pages = omega (arith, length-pages);
    root =
        let one : p_root * psize ≡ psize = omega arith in
        rw one (
          ap (window fresh.pages psize) (sym length-root_of)
          ∙ window-splice_self (zeros_of (2 * psize)) psize root_of
              (omega (arith, length-root_of, length-zeros_of (2 * psize))));
    leaf = page_of-IsLeaf h psize p_root low high;
    packed = record { apart = λ i j li lj ne. absurd (omega arith) };
    bytes = page_of-AreBytes h psize p_root low high;
    sorted = λ i j lt le. absurd (omega arith);
  }

-- For every even page size that the format allows, creation succeeds, and the root of the new
-- writer's database is a leaf without entries.
pub create_sized-IsRootLeaf :
    (h : Endian) (psize : ℕ)
    → min_psize ≤ psize
    → psize ≤ max_psize
    → psize % 2 ≡ 0
    → (w : Writer) × (create_sized h psize ≡ ok w) × (p : List ℕ) × IsRootLeaf h w p 0
create_sized-IsRootLeaf h psize low high even = (
  fresh h psize low high,
  create_sized-eq-ok h psize low high,
  root_of h psize low high,
  fresh-IsRootLeaf h psize low high even,
)
