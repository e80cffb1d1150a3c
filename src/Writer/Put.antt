-- ===== src/Writer/Put.antt =====
-- src/writer/mod.rs: `put` and `del`, with the commit of each split and the way up the spine. The
-- descent takes fuel.
use db.Prelude.{
  ℕ, ◌+◌, List, [], ◌∷◌, length, Bool, true, false, ◌==◌, ltb, leb, if◌then◌else◌, ◌||◌, Option,
  none, some,
}
use db.Outcomes.{Outcome, ok, panic, entry_too_large, assert, fail_if, sub_usize}
use db.Words.{Endian}
use db.Format.{p_invalid, p_root, page_header_size}
use db.PageBuf
use db.Writer.{
  Writer, M, and_then, lift, appends_at_end, page_bytes, push_page, replace_page, page_mut,
  empty_leaf, empty_internal,
}
use db.Writer.Entries.{
  leaf_nbytes, internal_nbytes, insert_leaf_entry, insert_internal_in_place, delete_leaf_entry,
  leaf_first_key, first_internal_key,
}
use db.Writer.Separator.{Separator, leaf, internal, sep_key, child, encoded_size}
use db.Writer.Pages.{Spine, leaf_search, descend}
use db.Writer.Split.{
  Halves, share_leaf, share_internal, leaf_halves, internal_halves, root_halves, appended_leaf,
  appended_internal,
}

infixl 5 ◌>>=◌ ◌>>◌
abbrev ◌>>=◌ {ℓ κ} : {A : Type ℓ} {B : Type κ} → M A → (A → M B) → M B
◌>>=◌ m k w = and_then (m w) k

abbrev ◌>>◌ {κ} : {B : Type κ} → M (Unit {0}) → M B → M B
m >> k = m >>= λ _. k

abbrev pub pure {ℓ} : {A : Type ℓ} → A → M A
pure a w = (ok a, w)

-- a computation that reads the writer
abbrev pub reading {ℓ} : {A : Type ℓ} → (Writer → Outcome A) → M A
reading f w = (f w, w)

module _ (h : Endian) where
  -- Phase 2 of a split that keeps the left page in its place.
  unfoldable pub commit_halves : Halves → M (Unit {0})
  commit_halves halves = do
    replace_page halves.l_pgno halves.l
    pushed ← push_page halves.r
    lift (assert (pushed == halves.r_pgno))
    let relink = page_mut halves.next (λ page. PageBuf.set_prev_pg h page halves.r_pgno)
    if halves.next == p_invalid then pure tt else relink

  -- Phase 2 of a root split.
  unfoldable pub commit_root : Halves × List ℕ → M (Unit {0})
  commit_root built = do
    l_pushed ← push_page built.0.l
    lift (assert (l_pushed == built.0.l_pgno))
    r_pushed ← push_page built.0.r
    lift (assert (r_pushed == built.0.r_pgno))
    replace_page p_root built.1

  unfoldable pub split_leaf_sorted_opt : ℕ → List ℕ → List ℕ → M Separator
  split_leaf_sorted_opt leaf_pgno key val = do
    built ← reading (λ w. appended_leaf h w leaf_pgno key val)
    page_mut leaf_pgno (λ page. PageBuf.set_next_pg h page built.1)
    pushed ← push_page built.2
    pure (leaf key built.1 built.0)

  unfoldable pub split_leaf_full : ℕ → ℕ → List ℕ → List ℕ → M Separator
  unfolding commit_halves
  split_leaf_full leaf_pgno skip key val = do
    halves ← reading (λ w. leaf_halves h w leaf_pgno skip key val)
    commit_halves halves
    pure (leaf halves.r_first_key halves.r_pgno halves.l_last_key)

  unfoldable pub split_non_root_leaf : ℕ → ℕ → List ℕ → List ℕ → M Separator
  unfolding split_leaf_sorted_opt split_leaf_full
  split_non_root_leaf leaf_pgno skip key val = do
    at_end ← reading (λ w. appends_at_end h w leaf_pgno skip)
    if at_end
        then split_leaf_sorted_opt leaf_pgno key val
        else split_leaf_full leaf_pgno skip key val

  unfoldable pub split_root_leaf : ℕ → List ℕ → List ℕ → M (Unit {0})
  unfolding commit_root
  split_root_leaf skip key val = do
    built ← reading (λ w.
        root_halves h (empty_leaf h) (λ old l r. share_leaf h p_root old w.psize skip key val l r)
          (leaf_first_key h) w)
    commit_root built

  unfoldable pub split_internal_sorted_opt : ℕ → Separator → ℕ → M Separator
  split_internal_sorted_opt parent_pgno sep nksize = do
    built ← reading (λ w. appended_internal h w parent_pgno sep nksize)
    page_mut parent_pgno (λ page. PageBuf.set_next_pg h page built.0)
    pushed ← push_page built.1
    pure (internal (sep_key sep) built.0 nksize)

  unfoldable pub split_internal_page : ℕ → ℕ → Separator → ℕ → M Separator
  unfolding commit_halves
  split_internal_page parent_pgno skip sep nksize = do
    halves ← reading (λ w. internal_halves h w parent_pgno skip sep nksize)
    commit_halves halves
    pure (internal halves.r_first_key halves.r_pgno (length halves.r_first_key))

  unfoldable pub split_root_internal : ℕ → Separator → ℕ → M (Unit {0})
  unfolding commit_root
  split_root_internal skip sep nksize = do
    built ← reading (λ w.
        root_halves h (empty_internal h)
          (λ old l r. share_internal h p_root old w.psize skip sep nksize l r)
          (first_internal_key h) w)
    commit_root built

  unfoldable pub try_insert_internal : ℕ → ℕ → Separator → M (Option Separator)
  unfolding split_internal_sorted_opt split_internal_page split_root_internal
  try_insert_internal parent_pgno skip sep = do
    parent ← reading (λ w. page_bytes w parent_pgno)
    prev ← lift (PageBuf.prev_pg h parent)
    free ← lift (PageBuf.free_space h parent)
    let nksize = (encoded_size sep prev skip).0
    let nbytes = (encoded_size sep prev skip).1
    let in_place = do
      page_mut parent_pgno (insert_internal_in_place h skip nksize (sep_key sep) (child sep))
      pure none
    let root = do split_root_internal skip sep nksize; pure none
    let split = do
      at_end ← reading (λ w. appends_at_end h w parent_pgno skip)
      new_sep ←
          if at_end
          then split_internal_sorted_opt parent_pgno sep nksize
          else split_internal_page parent_pgno skip sep nksize
      pure (some new_sep)
    if leb (nbytes + 2) free then in_place else if parent_pgno == p_root then root else split

  -- The spine holds its last element first. Past the root the source is `unreachable!`.
  unfoldable pub propagate_separator : List (ℕ × ℕ) → Separator → M (Unit {0})
  propagate_separator [] sep = lift panic
  propagate_separator ((parent_pgno, parent_idx) ∷ spine) sep = do
    pushed ← try_insert_internal parent_pgno (parent_idx + 1) sep
    elim pushed [ none ↦ pure tt | some new_sep ↦ propagate_separator spine new_sep ]

  -- The bounds that `put` checks first: the leaf entry, and the key as a separator in a new root.
  unfoldable pub too_large : ℕ → ℕ → ℕ → Bool
  too_large usable klen vlen =
      ltb usable (leaf_nbytes klen vlen + 2)
      || ltb usable (internal_nbytes klen + internal_nbytes 0 + 4)

  -- `put` from the point on where the leaf and the slot are known
  unfoldable pub put_at : Spine → ℕ → List ℕ → List ℕ → M Bool
  unfolding split_root_leaf split_non_root_leaf propagate_separator
  put_at spine idx key val = do
    page ← reading (λ w. page_bytes w spine.leaf_pgno)
    free ← lift (PageBuf.free_space h page)
    let in_place = do page_mut spine.leaf_pgno (insert_leaf_entry h idx key val); pure true
    let root = do split_root_leaf idx key val; pure true
    let split = do
      sep ← split_non_root_leaf spine.leaf_pgno idx key val
      propagate_separator spine.path sep
      pure true
    if leb (leaf_nbytes (length key) (length val) + 2) free
        then in_place
        else if spine.leaf_pgno == p_root
        then root
        else split

  unfoldable pub put : ℕ → List ℕ → List ℕ → M Bool
  unfolding too_large put_at
  put fuel key val = do
    usable ← reading (λ w. sub_usize w.psize page_header_size)
    lift (
        fail_if (too_large usable (length key) (length val))
          (entry_too_large (length key) (length val)))
    spine ← reading (λ w. descend h fuel w key)
    page ← reading (λ w. page_bytes w spine.leaf_pgno)
    found ← lift (leaf_search h spine.leaf_pgno page key)
    if found.0 then pure false else put_at spine found.1 key val

  unfoldable pub del : ℕ → List ℕ → M Bool
  del fuel key = do
    spine ← reading (λ w. descend h fuel w key)
    page ← reading (λ w. page_bytes w spine.leaf_pgno)
    found ← lift (leaf_search h spine.leaf_pgno page key)
    let removed = do page_mut spine.leaf_pgno (delete_leaf_entry h found.1); pure true
    if found.0 then removed else pure false
