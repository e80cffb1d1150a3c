-- ===== src/Arena/Dels.antt =====
-- `del` on a database of any height.
use db.Prelude.{ℕ, ◌<◌, ◌≡◌, ◌≢◌, List, Bool, true, false}
use db.Outcomes.{ok}
use db.Words.{Endian}
use db.Writer.{Writer, with_page}
use db.Writer.Entries.{delete_leaf_entry}
use db.Writer.Pages.{leaf_search}
use db.Writer.Put.{del}
use db.LeafPage.{key_at}
use db.LeafPage.Search.{IsPlace, leaf_search-IsPlace}
use db.Arena.{Reaches}
use db.Arena.Pages.{page_bytes-HasPage, page_mut-HasPage}
use db.Arena.Descent.{descend-Reaches}

module _ (h : Endian) (w : Writer) (key : List ℕ) (fuel depth pgno n : ℕ) (p : List ℕ)
    (v : Reaches h w key depth pgno p n) (enough : depth < fuel) where
  pub del-found :
      (idx : ℕ) (q : List ℕ)
      → leaf_search h pgno p key ≡ ok (true, idx)
      → delete_leaf_entry h idx p ≡ ok q
      → del h fuel key w ≡ (ok true, with_page w pgno q)
  unfolding del
  del-found idx q searched deleted =
      let (spine, descended) = descend-Reaches h w key fuel depth pgno n p v enough in
      rw (
        descended,
        page_bytes-HasPage w pgno p v.at,
        searched,
        page_mut-HasPage w pgno p v.at q (delete_leaf_entry h idx) deleted,
      )

  del-not_found :
      (idx : ℕ) → leaf_search h pgno p key ≡ ok (false, idx) → del h fuel key w ≡ (ok false, w)
  unfolding del
  del-not_found idx searched =
      let (spine, descended) = descend-Reaches h w key fuel depth pgno n p v enough in
      rw (descended, page_bytes-HasPage w pgno p v.at, searched)

-- On a database of any height, when the separators lead to a leaf that does not hold the key, `del`
-- of the key ends with `false` and leaves the writer as it was, given more fuel than the height.
pub del-Reaches_absent :
    (h : Endian) (w : Writer) (key : List ℕ) (fuel depth pgno n : ℕ) (p : List ℕ)
    → Reaches h w key depth pgno p n
    → depth < fuel
    → ((i : ℕ) → i < n → key_at h p i ≢ key)
    → del h fuel key w ≡ (ok false, w)
del-Reaches_absent h w key fuel depth pgno n p v enough absent =
    let (found, idx, searched, place) =
      leaf_search-IsPlace h p n pgno key v.leaf v.bytes v.sorted in
    by_answer found idx searched place
  where
    by_answer :
        (found : Bool) (idx : ℕ)
        → leaf_search h pgno p key ≡ ok (found, idx)
        → IsPlace h p n key found idx
        → del h fuel key w ≡ (ok false, w)
    by_answer true idx searched (lt, e) = absurd (absent idx lt e)
    by_answer false idx searched place =
        del-not_found h w key fuel depth pgno n p v enough idx searched
