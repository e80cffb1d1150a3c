-- ===== src/Session/Runs.antt =====
-- Calls of `put` and `del` in a row against the table of the session.
use db.Prelude.{
  ℕ, suc, ◌+◌, ◌-◌, ◌%◌, ◌≤◌, ◌≡◌, refl, sym, ap, subst, ◌∙◌, List, length, Bool, true, false,
  arith, Option, some, none,
}
use db.Outcomes.{Outcome, ok}
use db.Words.{Endian}
use db.Format.{p_root, page_header_size, min_psize, max_psize}
use db.Db.{Db, open_db}
use db.Db.Search.{get}
use db.Writer.{Writer, with_page, create_sized, finish}
use db.Writer.Put.{del, too_large}
use db.LeafPage.Store.{insert-searched, leaf_search-IsPlace_of, leaf_search-held}
use db.RootLeaf.{IsRootLeaf, put-fresh, put-held, replaced}
use db.RootLeaf.Dels.{del-root_leaf}
use db.RootLeaf.Puts.{put-too_large, del-absent}
use db.RootLeaf.Files.{root_page}
use db.Words.{file_order}
use db.Db.{page}
use db.LeafPage.{IsLeaf, key_at, val_at}
use db.LeafPage.Search.{IsSorted, get-stored, get-absent}
use db.RootLeaf.Fresh.{fresh, root_of, create_sized-eq-ok, fresh-IsRootLeaf, lower_root, upper_root}
use db.Session.{
  Op, run, run_op, Table, Step, put_new, put_held, put_large, del_held, del_missing, Steps, stop,
  more, empty_table,
}
use db.Session.Held.{
  IsTable, found_at, missing_at, missing_searched, Inserted-IsTable, Deleted-IsTable,
}

-- A call does what its step says.
run_op-Step :
    (h : Endian) (psize fuel : ℕ) (w : Writer) {op : Op} {answer : Outcome Bool} {t t' : Table}
    → IsTable h psize w t
    → Step h psize op answer t t'
    → (w' : Writer) × (run_op h (suc fuel) op w ≡ (answer, w')) × IsTable h psize w' t'
run_op-Step h psize fuel w v (put_new t key val kb vb small e room) =
    let (idx, searched) = missing_searched h psize w t v key e in
    let small_here =
      subst (λ s. too_large h (s - page_header_size) (length key) (length val) ≡ false) (sym v.size)
        small in
    let (q, inserted, ins, sorted, held) =
      insert-searched h v.contents v.n p_root idx key val v.root.leaf v.root.bytes kb vb
        v.root.sorted searched (omega (arith, v.free, room)) in
    let place =
      leaf_search-IsPlace_of h v.contents v.n p_root key false idx v.root.leaf v.root.bytes
        v.root.sorted searched in
    (
      with_page w p_root q,
      put-fresh h w v.contents v.n v.root fuel idx key val q small_here searched
          (omega (arith, v.free, room)) inserted,
      Inserted-IsTable h psize w t v q idx key val e place.0 ins (
          replaced h w v.contents v.n v.root q (v.n + 1) ins.same_length ins.leaf
            (ins.packed v.root.packed) (ins.bytes v.root.bytes kb vb) sorted),
    )
run_op-Step h psize fuel w v (put_held t key val old small e) =
    let (idx, lt, k, x) = found_at h psize w t v key old e in
    let small_here =
      subst (λ s. too_large h (s - page_header_size) (length key) (length val) ≡ false) (sym v.size)
        small in
    (
      w,
      put-held h w v.contents v.n v.root fuel idx key val small_here (
          leaf_search-held h v.contents v.n p_root key idx v.root.leaf v.root.bytes v.root.sorted lt
            k),
      v,
    )
run_op-Step h psize fuel w v (put_large t key val large) = (
  w,
  put-too_large h w (suc fuel) key val (omega (arith, v.root.arena.psize_low)) (
      subst (λ s. too_large h (s - page_header_size) (length key) (length val) ≡ true) (sym v.size)
        large),
  v,
)
run_op-Step h psize fuel w v (del_held t key old e) =
    let (idx, lt, k, x) = found_at h psize w t v key old e in
    let count : v.n ≡ v.n - 1 + 1 = omega arith in
    let (q, done, root, gone, absent) =
      del-root_leaf h w v.contents (v.n - 1) fuel idx
        (subst (λ n. IsRootLeaf h w v.contents n) count v.root) (omega arith) in
    (
      with_page w p_root q,
      ap (λ c. del h (suc fuel) c w) (sym k) ∙ done,
      Deleted-IsTable h psize w t v q (v.n - 1) idx key old count (omega arith) k x gone
          (λ i l same. absent i l (same ∙ sym k)) root,
    )
run_op-Step h psize fuel w v (del_missing t key e) =
    (w, del-absent h w v.contents v.n fuel key v.root (missing_at h psize w t v key e), v)

pub run-Steps :
    (h : Endian) (psize fuel : ℕ) (w : Writer) {ops : List Op} {answers : List (Outcome Bool)}
    {t t' : Table}
    → IsTable h psize w t
    → Steps h psize ops answers t t'
    → (w' : Writer) × (run h (suc fuel) ops w ≡ (answers, w')) × IsTable h psize w' t'
unfolding run
run-Steps h psize fuel w v (stop t) = (w, refl, v)
run-Steps h psize fuel w v (more op answer ops answers t t' t'' step steps) =
    let (w1, first, v1) = run_op-Step h psize fuel w v step in
    let (w2, rest, v2) = run-Steps h psize fuel w1 v1 steps in (w2, rw (run, first, rest) refl, v2)

-- `get` on a file with the root leaf of the table answers what the table says.
get_of :
    (h h' : Endian) (psize fuel : ℕ) (w : Writer) (t : Table) (v : IsTable h psize w t) (db : Db)
    → page db p_root ≡ ok v.contents
    → file_order h' db.swap ≡ h
    → (key : List ℕ) → get h' db (suc fuel) key ≡ ok (t.find key)
get_of h h' psize fuel w t v db root order key = go (t.find key) refl
  where
    leaf : IsLeaf (file_order h' db.swap) v.contents v.n
    leaf = subst (λ e. IsLeaf e v.contents v.n) (sym order) v.root.leaf

    sorted : IsSorted (file_order h' db.swap) v.contents v.n
    sorted = subst (λ e. IsSorted e v.contents v.n) (sym order) v.root.sorted

    keys : (i : ℕ) → key_at (file_order h' db.swap) v.contents i ≡ key_at h v.contents i
    keys i = ap (λ e. key_at e v.contents i) order

    vals : (i : ℕ) → val_at (file_order h' db.swap) v.contents i ≡ val_at h v.contents i
    vals i = ap (λ e. val_at e v.contents i) order

    go : (o : Option (List ℕ)) → t.find key ≡ o → get h' db (suc fuel) key ≡ ok (t.find key)
    go none e =
        get-absent h' db v.contents v.n fuel key leaf v.root.bytes sorted root
          (λ i lt same. missing_at h psize w t v key e i lt (sym (keys i) ∙ same))
        ∙ ap ok (sym e)
    go (some old) e =
        let (idx, lt, k, x) = found_at h psize w t v key old e in
        ap (get h' db (suc fuel)) (sym (keys idx ∙ k))
        ∙ get-stored h' db v.contents v.n fuel idx leaf v.root.bytes sorted root lt
        ∙ ap (λ y. ok (some y)) (vals idx ∙ x)
        ∙ ap ok (sym e)

-- What the free room of a new database is.
pub fresh-IsTable :
    (h : Endian) (psize : ℕ)
    → min_psize ≤ psize
    → psize ≤ max_psize
    → psize % 2 ≡ 0
    → (w : Writer) × (create_sized h psize ≡ ok w) × IsTable h psize w (empty_table psize)
fresh-IsTable h psize low high even = (
  fresh h psize low high,
  create_sized-eq-ok h psize low high,
  record {
    contents = root_of h psize low high;
    n = 0;
    root = fresh-IsRootLeaf h psize low high even;
    size = refl;
    free = omega (arith, lower_root h psize low high, upper_root h psize low high);
    held = λ i lt. absurd (omega arith);
    absent = λ key none_is. refl;
  },
)

-- For every even page size that the format allows and every row of calls of `put` and `del` whose
-- entries fit on one page all along, as the table of keys and values tracks: creation succeeds, the
-- calls give exactly the answers of the table, `finish` then writes a file that `open` accepts on a
-- host of either byte order, and `get` of each key on it ends with what the table has for the key.
pub get-run :
    (h h' : Endian) (psize fuel fuel' : ℕ) (ops : List Op) (answers : List (Outcome Bool))
    (t : Table)
    → min_psize ≤ psize
    → psize ≤ max_psize
    → psize % 2 ≡ 0
    → Steps h psize ops answers (empty_table psize) t
    → (w : Writer) × (create_sized h psize ≡ ok w)
      × (w' : Writer) × (run h (suc fuel) ops w ≡ (answers, w'))
      × (file : List ℕ) × (finish h w' ≡ ok file)
      × (db : Db) × (open_db h' file ≡ ok db)
      × ((key : List ℕ) → get h' db (suc fuel') key ≡ ok (t.find key))
get-run h h' psize fuel fuel' ops answers t low high even steps =
    let (w, created, v) = fresh-IsTable h psize low high even in
    let (w', ran, v') = run-Steps h psize fuel w v steps in
    let (file, finished, db, opened, root, order) = root_page h h' w' v'.contents v'.n v'.root in
    (w, created, w', ran, file, finished, db, opened, get_of h h' psize fuel' w' t v' db root order)
