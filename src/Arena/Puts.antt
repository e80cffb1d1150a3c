-- ===== src/Arena/Puts.antt =====
-- `put` on a database of any height, on each branch that does not split a page.
use db.Prelude.{ℕ, ◌+◌, ◌-◌, ◌≤◌, ◌<◌, ◌≡◌, List, length, true, false, arith, le→leb}
use native.Mathlib.Decide.{dec_lt}
use db.Outcomes.{ok, sub_usize-eq-ok}
use db.Words.{Endian}
use db.Format.{page_header_size}
use db.PageBuf.Slots.{upper_of, lower_of, free_space-eq-ok}
use db.Writer.{Writer, with_page}
use db.Writer.Entries.{leaf_nbytes, insert_leaf_entry}
use db.Writer.Pages.{leaf_search}
use db.Writer.Put.{put, put_at, too_large}
use db.LeafPage.{key_at, val_at}
use db.LeafPage.Insert.{Inserted}
use db.Arena.{Reaches}
use db.Arena.Pages.{length-HasPage, page_bytes-HasPage, page_mut-HasPage}
use db.Arena.Descent.{descend-Reaches}

module _ (h : Endian) (w : Writer) (key : List ℕ) (fuel depth pgno n : ℕ) (p : List ℕ)
    (v : Reaches h w key depth pgno p n) (enough : depth < fuel) (val : List ℕ)
    (small : too_large h (w.psize - page_header_size) (length key) (length val) ≡ false) where
  header_in : page_header_size ≤ w.psize
  header_in = omega (arith, v.leaf.slots.header_in, length-HasPage w pgno p v.at)

  pub put-room :
      (idx : ℕ) (q : List ℕ)
      → leaf_search h pgno p key ≡ ok (false, idx)
      → leaf_nbytes (length key) (length val) + 2 ≤ upper_of h p - lower_of h p
      → insert_leaf_entry h idx key val p ≡ ok q
      → put h fuel key val w ≡ (ok true, with_page w pgno q)
  unfolding put put_at
  put-room idx q searched room inserted =
      let (spine, descended) = descend-Reaches h w key fuel depth pgno n p v enough in
      rw (
        sub_usize-eq-ok w.psize page_header_size header_in,
        small,
        descended,
        page_bytes-HasPage w pgno p v.at,
        searched,
        page_bytes-HasPage w pgno p v.at,
        free_space-eq-ok h p n v.leaf.slots,
        le→leb (leaf_nbytes (length key) (length val) + 2) (upper_of h p - lower_of h p) room,
        page_mut-HasPage w pgno p v.at q (insert_leaf_entry h idx key val) inserted,
      )

  pub put-found :
      (idx : ℕ) → leaf_search h pgno p key ≡ ok (true, idx) → put h fuel key val w ≡ (ok false, w)
  unfolding put
  put-found idx searched =
      let (spine, descended) = descend-Reaches h w key fuel depth pgno n p v enough in
      rw (
        sub_usize-eq-ok w.psize page_header_size header_in,
        small,
        descended,
        page_bytes-HasPage w pgno p v.at,
        searched,
      )

-- Where an entry of the old leaf stands on the new one.
pub Inserted-moves :
    (h : Endian) (p q : List ℕ) (n idx : ℕ) (key val : List ℕ)
    → Inserted h p q n idx key val
    → idx ≤ n
    → (i : ℕ) → i < n
    → (j : ℕ) × (j < n + 1) × (key_at h q j ≡ key_at h p i) × (val_at h q j ≡ val_at h p i)
Inserted-moves h p q n idx key val ins inside i lt = elim (dec_lt i idx) [
  | yes b ↦ (i, omega arith, (ins.before i b).0, (ins.before i b).1)
  | no a ↦ let (k, d) = ins.after i (omega arith) lt in (i + 1, omega arith, k, d)
]
