-- ===== src/Arena/RootSplit/Scan.antt =====
-- The scan of the file of a database whose root leaf was split.
use db.Prelude.{
  ℕ, zero, suc, ◌+◌, ◌-◌, ◌/◌, ◌^◌, ◌≤◌, ◌<◌, ◌≡◌, ◌≢◌, refl, sym, ap, ap₂, subst, ◌∙◌, List, [],
  ◌∷◌, ◌++◌, append_nil, length, true, false, arith,
}
use db.Outcomes.{Outcome, ok}
use db.Words.{Endian, file_order, u32_from}
use db.Words.Bytes.{AreBytes}
use db.Format.{p_root, p_invalid, page_header_size}
use db.PageBuf.Slots.{upper_of, lower_of}
use db.Db.{Db, open_db, page}
use db.Iter.{Entry, pristine}
use db.Writer.{Writer, finish}
use db.Writer.Entries.{leaf_nbytes}
use db.Writer.Pages.{leaf_search}
use db.Writer.Put.{put, too_large}
use db.LeafPage.{IsLeaf, key_at, val_at}
use db.LeafPage.Store.{leaf_search-IsPlace_of}
use db.LeafPage.Scan.{collect, entries_of}
use db.LeafSplit.Shared.{merged, size_of}
use db.InternalPage.{IsInternal, child_at}
use db.RootLeaf.{IsRootLeaf}
use db.Tree.Chain.{Leftmost, bottom, deeper, Chain, ends, links, entries_along, count_along}
use db.Tree.Scan.{collect-entries_along}
use db.Arena.{HasPage}
use db.Arena.Append.{page_count}
use db.Arena.Files.{file_pages}
use db.Arena.RootSplit.{IsGrown}
use db.Arena.RootSplit.Puts.{put-grown, split-IsGrown}

-- `k` pairs of a row of keys and a row of values, from pair `o` on
unfoldable pub pairs_of : (ℕ → List ℕ) → (ℕ → List ℕ) → ℕ → ℕ → List (Outcome Entry)
pairs_of key val o zero = []
pairs_of key val o (suc k) = ok (record { key = key o; value = val o }) ∷ pairs_of key val (o + 1) k

module _ (key val : ℕ → List ℕ) where
  pairs_of-add :
      (a b o : ℕ) → pairs_of key val o a ++ pairs_of key val (o + a) b ≡ pairs_of key val o (a + b)
  unfolding pairs_of
  pairs_of-add zero b o =
      let same : 0 + b ≡ b = omega arith in let here : o + 0 ≡ o = omega arith in rw (same, here)
  pairs_of-add (suc a) b o =
      let same : suc a + b ≡ suc (a + b) = omega arith in
      let here : o + suc a ≡ o + 1 + a = omega arith in
      rw (same, here)
        (ap (λ l. ok (record { key = key o; value = val o }) ∷ l) (pairs_of-add a b (o + 1)))

  entries_of-pairs_of :
      (h : Endian) (p : List ℕ) (n k i o : ℕ)
      → i + k ≤ n
      → ((j : ℕ) → j < n → key_at h p j ≡ key (o + j))
      → ((j : ℕ) → j < n → val_at h p j ≡ val (o + j))
      → entries_of h p i k ≡ pairs_of key val (o + i) k
  unfolding entries_of pairs_of
  entries_of-pairs_of h p n zero i o le ks vs = refl
  entries_of-pairs_of h p n (suc k) i o le ks vs =
      let next : o + (i + 1) ≡ o + i + 1 = omega arith in
      ap₂ (λ x l. x ∷ l)
        (ap₂ (λ a b. ok (record { key = a; value = b })) (ks i (omega arith)) (vs i (omega arith)))
        (entries_of-pairs_of h p n k (i + 1) o (omega arith) ks vs
          ∙ ap (λ s. pairs_of key val s k) next)

module _ (h h' : Endian) (w w' : Writer) (p : List ℕ) (n idx : ℕ) (key val : List ℕ)
    (g : IsGrown h w w' p n idx key val) (db : Db) (order : file_order h' db.swap ≡ h)
    (pages : (pgno : ℕ) (q : List ℕ) → HasPage w' pgno q → page db pgno ≡ ok q) where
  abbrev e : Endian
  e = file_order h' db.swap

  abbrev left : ℕ
  left = g.shared.left

  abbrev right : ℕ
  right = n + 1 - left

  abbrev leaves : List (List ℕ × ℕ)
  leaves = (g.l, left) ∷ (g.r, right) ∷ []

  not_invalid : (k : ℕ) → 1 ≤ k → k ≢ p_invalid
  not_invalid k pos same = omega (arith, same)

  behind : Chain h' db (page_count w + 1) ((g.r, right) ∷ [])
  behind =
      let next : u32_from e g.r 8 ≡ p_invalid = ap (λ x. u32_from x g.r 8) order ∙ g.r_next in
      links (page_count w + 1) right g.r [] (not_invalid (page_count w + 1) g.at_r.from_one)
        (pages (page_count w + 1) g.r g.at_r)
        (subst (λ x. IsLeaf x g.r right) (sym order) g.shared.r_half.leaf) g.shared.r_half.bytes
        (subst (λ k. Chain h' db k []) (sym next) ends)

  both : Chain h' db (page_count w) leaves
  both =
      let next : u32_from e g.l 8 ≡ page_count w + 1 =
        ap (λ x. u32_from x g.l 8) order ∙ g.l_next in
      links (page_count w) left g.l ((g.r, right) ∷ []) (not_invalid (page_count w) g.at_l.from_one)
        (pages (page_count w) g.l g.at_l)
        (subst (λ x. IsLeaf x g.l left) (sym order) g.shared.l_half.leaf) g.shared.l_half.bytes
        (subst (λ k. Chain h' db k ((g.r, right) ∷ [])) (sym next) behind)

  down_left : Leftmost h' db p_root 1 (page_count w)
  down_left =
      let first : child_at e g.top 0 ≡ page_count w =
        ap (λ x. child_at x g.top 0) order ∙ g.parent.l_child in
      deeper p_root 0 (page_count w) 2 g.top (pages p_root g.top g.at_top)
        (subst (λ x. IsInternal x g.top 2) (sym order) g.parent.internal) g.top_bytes (omega arith)
        (subst (λ k. Leftmost h' db k 0 (page_count w)) (sym first) (bottom (page_count w)))

  all_pairs :
      entries_along h leaves
      ≡ pairs_of (merged idx key (key_at h p)) (merged idx val (val_at h p)) 0 (n + 1)
  unfolding entries_along
  all_pairs =
      let row = merged idx key (key_at h p) in
      let vals = merged idx val (val_at h p) in
      let whole : left + right ≡ n + 1 = omega (arith, g.shared.right_some) in
      let zero_left : (j : ℕ) → 0 + j ≡ j = λ j. omega arith in
      let last : left + 0 ≡ 0 + left = omega arith in
      ap₂ (λ a b. a ++ b)
        (entries_of-pairs_of row vals h g.l left left 0 0 (omega arith)
          (λ j lt. g.shared.l_half.key_is j lt ∙ ap row (sym (zero_left j)))
          (λ j lt. g.shared.l_half.val_is j lt ∙ ap vals (sym (zero_left j))))
        (append_nil (entries_of h g.r 0 right)
          ∙ entries_of-pairs_of row vals h g.r right right 0 left (omega arith)
              g.shared.r_half.key_is g.shared.r_half.val_is
          ∙ ap (λ o. pairs_of row vals o right) last)
      ∙ pairs_of-add row vals left right 0
      ∙ ap (pairs_of row vals 0) whole

  pub collect-grown :
      (fuel : ℕ)
      → 1 < fuel
      → collect h' db fuel (suc (n + 1)) pristine
        ≡ pairs_of (merged idx key (key_at h p)) (merged idx val (val_at h p)) 0 (n + 1)
  unfolding count_along
  collect-grown fuel enough =
      let count : n + 1 ≡ left + (right + 0) = omega (arith, g.shared.right_some) in
      ap (λ m. collect h' db fuel (suc m) pristine) count
      ∙ collect-entries_along h' db 1 (page_count w) fuel left g.l ((g.r, right) ∷ []) down_left
          both g.shared.left_some enough enough
      ∙ ap (λ x. entries_along x leaves) order
      ∙ all_pairs

-- When the root of the writer's database is a leaf of bytes, of at least two ascending keys and
-- entries that share no byte, without room for a new entry of bytes that passes the size check,
-- neither an entry of the leaf nor the new one takes, with its pointer, more than half of the bytes
-- behind a page's header, `leaf_search` does not find the key, and the arena's page numbers stay
-- below 2^32: `put` ends with `true`, `finish` then writes a file that `open` accepts on a host of
-- either byte order, and a new scan of it, with a fuel of two at least, yields the entries of the leaf
-- with the new pair at the index that `leaf_search` answered, each once and in this order, and ends.
pub put-grown_scan :
    (h h' : Endian) (w : Writer) (p : List ℕ) (n fuel fuel' idx : ℕ) (key val : List ℕ)
    → IsRootLeaf h w p n
    → AreBytes key
    → AreBytes val
    → too_large h (w.psize - page_header_size) (length key) (length val) ≡ false
    → leaf_search h p_root p key ≡ ok (false, idx)
    → upper_of h p - lower_of h p < leaf_nbytes (length key) (length val) + 2
    → 2 ≤ n
    → ((i : ℕ) → i < n → size_of h p i + 2 ≤ (w.psize - page_header_size) / 2)
    → leaf_nbytes (length key) (length val) + 2 ≤ (w.psize - page_header_size) / 2
    → page_count w + 1 < 2 ^ 32
    → 1 < fuel'
    → (w' : Writer) × (put h (suc fuel) key val w ≡ (ok true, w'))
      × (file : List ℕ) × (finish h w' ≡ ok file)
      × (db : Db) × (open_db h' file ≡ ok db)
      × (collect h' db fuel' (suc (n + 1)) pristine
          ≡ pairs_of (merged idx key (key_at h p)) (merged idx val (val_at h p)) 0 (n + 1))
put-grown_scan h h' w p n fuel fuel' idx key val v kb vb fits searched full two small new_small few
      enough =
    let place =
      leaf_search-IsPlace_of h p n p_root key false idx v.leaf v.bytes v.sorted searched in
    let (w', split, g) =
      split-IsGrown h w p n v idx key val kb vb place.0 two small new_small few in
    let (file, finished, db, opened, order, pages) = file_pages h h' w' g.arena in
    (
      w',
      put-grown h w p n v fuel idx key val w' fits searched full split,
      file,
      finished,
      db,
      opened,
      collect-grown h h' w w' p n idx key val g db order pages fuel' enough,
    )
