-- ===== src/Arena/Table/Calls.antt =====
-- `put` and `del` on a database of any height do to it what the call says of the map.
use db.Prelude.{
  ℕ, ◌+◌, ◌-◌, ◌≤◌, ◌<◌, ◌≡◌, ◌≢◌, refl, sym, ap, subst, ◌∙◌, List, length, Bool, true, false,
  Option, some, none, arith, inl, inr, ◌⊎◌,
}
use native.Mathlib.Decide.{dec_lt, ℕ_discrete}
use db.Outcomes.{ok}
use db.Words.{Endian}
use db.Words.Bytes.{AreBytes}
use db.Format.{page_header_size}
use db.PageBuf.Slots.{upper_of, lower_of}
use db.Writer.{Writer, with_page}
use db.Writer.Entries.{leaf_nbytes}
use db.Writer.Pages.{leaf_search}
use db.Writer.Put.{put, del, too_large}
use db.LeafPage.{key_at, val_at}
use db.LeafPage.Insert.{Inserted}
use db.LeafPage.Delete.{Deleted, delete_leaf_entry-Deleted}
use db.LeafPage.Search.{IsPlace, leaf_search-IsPlace, key_unique}
use db.LeafPage.Store.{insert-searched, leaf_search-held}
use db.RootLeaf.Dels.{Deleted-IsSorted, Deleted-absent, kept}
use db.Session.{update}
use db.Session.Held.{List_dec, update-same, update-other}
use db.Arena.{Reaches}
use db.Arena.Pages.{with_page-IsArena}
use db.Arena.Change.{Reaches-changed}
use db.Arena.Puts.{put-room, put-found, Inserted-moves}
use db.Arena.Dels.{del-found, del-Reaches_absent}
use db.Arena.Table.{Lookup, Represents}
use db.Arena.Table.Reader.{held_or_not}
use db.Arena.Table.Change.{Moves, Lookup-changed}

-- An entry of the new leaf with another key is one of the old leaf.
Inserted-origin :
    (h : Endian) (p q : List ℕ) (n idx : ℕ) (key val k : List ℕ)
    → Inserted h p q n idx key val
    → idx ≤ n
    → key ≢ k
    → Moves h q (n + 1) p n k
Inserted-origin h p q n idx key val k ins inside other j lt e = elim (ℕ_discrete j idx) [
  | yes here ↦ absurd (other (sym ins.key_new ∙ ap (key_at h q) (sym here) ∙ e))
  | no off ↦ elim (dec_lt j idx) [
    | yes b ↦ (j, omega arith, sym (ins.before j b).0, sym (ins.before j b).1)
    | no a ↦
        let back : j - 1 + 1 ≡ j = omega (arith, off) in
        let (k', d') = ins.after (j - 1) (omega (arith, off)) (omega (arith, off)) in
        (j - 1, omega (arith, off), sym k' ∙ ap (key_at h q) back, sym d' ∙ ap (val_at h q) back)
  ]
]

Deleted-origin :
    (h : Endian) (p q : List ℕ) (n idx : ℕ) (k : List ℕ)
    → Deleted h p q n idx
    → Moves h q n p (n + 1) k
Deleted-origin h p q n idx k gone j lt e = elim (dec_lt j idx) [
  | yes b ↦ (j, omega arith, sym (gone.before j b).0, sym (gone.before j b).1)
  | no a ↦ let (k', d') = gone.after j (omega arith) lt in (j + 1, omega arith, sym k', sym d')
]

module _ (h : Endian) (w : Writer) (height fuel : ℕ) (find : List ℕ → Option (List ℕ))
    (v : Represents h w height find) (enough : height < fuel) (key : List ℕ) where
  abbrev l : Lookup h w height key (find key)
  l = v.every key

  deep_enough : l.depth < fuel
  deep_enough = omega (arith, l.not_deeper)

  some≢none : (a : List ℕ) → find key ≡ some a → find key ≢ none
  some≢none a e f = let clash : some a ≡ none = sym e ∙ f in cc

  -- A key that the map does not have is not on its leaf.
  not_held : find key ≡ none → (i : ℕ) → i < l.n → key_at h l.p i ≢ key
  not_held e i lt same = some≢none (val_at h l.p i) (l.found i lt same) e

  leaf_search-missing :
      find key ≡ none
      → (idx : ℕ) × (leaf_search h l.pgno l.p key ≡ ok (false, idx))
        × IsPlace h l.p l.n key false idx
  leaf_search-missing e =
      let (b, idx, searched, place) =
        leaf_search-IsPlace h l.p l.n l.pgno key l.reached.leaf l.reached.bytes l.reached.sorted in
      by_answer b idx searched place
    where
      by_answer :
          (b : Bool) (idx : ℕ)
          → leaf_search h l.pgno l.p key ≡ ok (b, idx)
          → IsPlace h l.p l.n key b idx
          → (i : ℕ) × (leaf_search h l.pgno l.p key ≡ ok (false, i)) × IsPlace h l.p l.n key false i
      by_answer true idx searched (lt, same) = absurd (not_held e idx lt same)
      by_answer false idx searched place = (idx, searched, place)

  put_new :
      (val : List ℕ)
      → AreBytes key
      → AreBytes val
      → too_large h (w.psize - page_header_size) (length key) (length val) ≡ false
      → find key ≡ none
      → leaf_nbytes (length key) (length val) + 2 ≤ upper_of h l.p - lower_of h l.p
      → (w' : Writer) × (put h fuel key val w ≡ (ok true, w'))
        × Represents h w' height (update key (some val) find)
  put_new val kb vb small absent room =
      let r = l.reached in
      let (idx, searched, place) = leaf_search-missing absent in
      let (q, inserted, ins, sorted, held) =
        insert-searched h l.p l.n l.pgno idx key val r.leaf r.bytes kb vb r.sorted searched room in
      let packed = ins.packed r.packed in
      let bytes = ins.bytes r.bytes kb vb in
      let here : Lookup h (with_page w l.pgno q) height key (update key (some val) find key) =
        record {
          depth = l.depth;
          pgno = l.pgno;
          p = q;
          n = l.n + 1;
          not_deeper = l.not_deeper;
          reached =
              Reaches-changed h w l.pgno l.n (l.n + 1) l.p q r.at r.leaf ins.same_length ins.leaf
                packed bytes sorted key l.depth r;
          found = λ i lt e.
              let same =
                key_unique h q (l.n + 1) sorted i idx lt (omega (arith, place.0))
                  (e ∙ sym ins.key_new) in
              update-same key (some val) find ∙ ap some (sym (ap (val_at h q) same ∙ ins.val_new));
          missed = λ none_is. absurd (none_is idx (omega (arith, place.0)) ins.key_new);
        } in
      (
        with_page w l.pgno q,
        put-room h w key fuel l.depth l.pgno l.n l.p r deep_enough val small idx q searched room
            inserted,
        record {
          arena = with_page-IsArena w l.pgno l.p r.at q ins.same_length v.arena;
          every = λ k. elim (List_dec key k) [
            | yes same ↦
                subst (λ x. Lookup h (with_page w l.pgno q) height x (update key (some val) find x))
                  same here
            | no other ↦
                Lookup-changed h w l.pgno l.n (l.n + 1) l.p q r.at r.leaf ins.same_length ins.leaf
                  packed bytes sorted height k (find k) (update key (some val) find k)
                  (update-other key k (some val) find other)
                  (λ i lt e. Inserted-moves h l.p q l.n idx key val ins place.0 i lt)
                  (Inserted-origin h l.p q l.n idx key val k ins place.0 other) (v.every k)
          ];
        },
      )

  put_held :
      (val old : List ℕ)
      → too_large h (w.psize - page_header_size) (length key) (length val) ≡ false
      → find key ≡ some old
      → put h fuel key val w ≡ (ok false, w)
  put_held val old small e = elim (held_or_not h w height key (find key) l) [
    | inl held ↦
        let r = l.reached in
        put-found h w key fuel l.depth l.pgno l.n l.p r deep_enough val small held.0
          (leaf_search-held h l.p l.n l.pgno key held.0 r.leaf r.bytes r.sorted held.1 held.2)
    | inr absent ↦ absurd (some≢none old e (l.missed absent))
  ]

  del_missing : find key ≡ none → del h fuel key w ≡ (ok false, w)
  del_missing e =
      del-Reaches_absent h w key fuel l.depth l.pgno l.n l.p l.reached deep_enough (not_held e)

  remove_at :
      (n idx : ℕ)
      → Reaches h w key l.depth l.pgno l.p (n + 1)
      → idx ≤ n
      → key_at h l.p idx ≡ key
      → (w' : Writer) × (del h fuel key w ≡ (ok true, w'))
        × Represents h w' height (update key none find)
  remove_at n idx r inside same =
      let (q, deleted, gone) = delete_leaf_entry-Deleted h l.p n idx r.leaf r.packed inside in
      let sorted = Deleted-IsSorted h l.p q n idx r.sorted inside gone in
      let bytes = gone.bytes r.bytes in
      let none_left =
        subst (λ k. (i : ℕ) → i < n → key_at h q i ≢ k) same
          (Deleted-absent h l.p q n idx r.sorted inside gone) in
      let here : Lookup h (with_page w l.pgno q) height key (update key none find key) = record {
        depth = l.depth;
        pgno = l.pgno;
        p = q;
        n = n;
        not_deeper = l.not_deeper;
        reached =
            Reaches-changed h w l.pgno (n + 1) n l.p q r.at r.leaf gone.same_length gone.leaf
              gone.packed bytes sorted key l.depth r;
        found = λ i lt e. absurd (none_left i lt e);
        missed = λ none_is. update-same key none find;
      } in
      (
        with_page w l.pgno q,
        del-found h w key fuel l.depth l.pgno (n + 1) l.p r deep_enough idx q
            (leaf_search-held h l.p (n + 1) l.pgno key idx r.leaf r.bytes r.sorted (omega arith)
              same)
            deleted,
        record {
          arena = with_page-IsArena w l.pgno l.p r.at q gone.same_length v.arena;
          every = λ k. elim (List_dec key k) [
            | yes alike ↦
                subst (λ x. Lookup h (with_page w l.pgno q) height x (update key none find x)) alike
                  here
            | no other ↦
                Lookup-changed h w l.pgno (n + 1) n l.p q r.at r.leaf gone.same_length gone.leaf
                  gone.packed bytes sorted height k (find k) (update key none find k)
                  (update-other key k none find other)
                  (λ i lt e.
                    kept h l.p q n idx r.sorted inside gone i (omega arith)
                      (λ it. other (sym same ∙ ap (key_at h l.p) (sym it) ∙ e)))
                  (Deleted-origin h l.p q n idx k gone) (v.every k)
          ];
        },
      )

  del_held :
      (old : List ℕ)
      → find key ≡ some old
      → (w' : Writer) × (del h fuel key w ≡ (ok true, w'))
        × Represents h w' height (update key none find)
  del_held old e = elim (held_or_not h w height key (find key) l) [
    | inl held ↦
        let pred : l.n ≡ l.n - 1 + 1 = omega (arith, held.1) in
        remove_at (l.n - 1) held.0 (subst (Reaches h w key l.depth l.pgno l.p) pred l.reached)
          (omega (arith, held.1)) held.2
    | inr absent ↦ absurd (some≢none old e (l.missed absent))
  ]

-- On a database of any height that is a map from keys to values, given more fuel than the height,
-- when the map does not have the key, the entry, of bytes, passes the size check, and the leaf to
-- which the separators lead has room for it and its pointer: `put` ends with `true`, and the
-- database is then the map with the value under the key.
pub put-Represents :
    (h : Endian) (w : Writer) (height fuel : ℕ) (find : List ℕ → Option (List ℕ)) (key val : List ℕ)
    → (v : Represents h w height find) → height < fuel
    → AreBytes key
    → AreBytes val
    → too_large h (w.psize - page_header_size) (length key) (length val) ≡ false
    → find key ≡ none
    → leaf_nbytes (length key) (length val) + 2
      ≤ upper_of h (v.every key).p - lower_of h (v.every key).p
    → (w' : Writer) × (put h fuel key val w ≡ (ok true, w'))
      × Represents h w' height (update key (some val) find)
put-Represents h w height fuel find key val v enough kb vb small absent room =
    put_new h w height fuel find v enough key val kb vb small absent room

-- On a database of any height that is a map from keys to values, given more fuel than the height,
-- when the map has the key and the entry passes the size check: `put` ends with `false` and leaves
-- the writer as it was.
pub put-Represents_held :
    (h : Endian) (w : Writer) (height fuel : ℕ) (find : List ℕ → Option (List ℕ))
    (key val old : List ℕ)
    → Represents h w height find
    → height < fuel
    → too_large h (w.psize - page_header_size) (length key) (length val) ≡ false
    → find key ≡ some old
    → put h fuel key val w ≡ (ok false, w)
put-Represents_held h w height fuel find key val old v enough small held =
    put_held h w height fuel find v enough key val old small held

-- On a database of any height that is a map from keys to values, given more fuel than the height:
-- either the map has the key, `del` of it ends with `true`, and the database is then the map without
-- the key; or the map does not have it, and `del` ends with `false` and leaves the writer as it was.
pub del-Represents :
    (h : Endian) (w : Writer) (height fuel : ℕ) (find : List ℕ → Option (List ℕ)) (key : List ℕ)
    → Represents h w height find
    → height < fuel
    → ((old : List ℕ) × (find key ≡ some old)
        × (w' : Writer) × (del h fuel key w ≡ (ok true, w'))
        × Represents h w' height (update key none find))
      ⊎ ((find key ≡ none) × (del h fuel key w ≡ (ok false, w)))
del-Represents h w height fuel find key v enough = by_answer (find key) refl
  where
    by_answer :
        (o : Option (List ℕ))
        → find key ≡ o
        → ((old : List ℕ) × (find key ≡ some old)
            × (w' : Writer) × (del h fuel key w ≡ (ok true, w'))
            × Represents h w' height (update key none find))
          ⊎ ((find key ≡ none) × (del h fuel key w ≡ (ok false, w)))
    by_answer (some old) e =
        let (w', done, after) = del_held h w height fuel find v enough key old e in
        inl (old, e, w', done, after)
    by_answer none e = inr (e, del_missing h w height fuel find v enough key e)
