-- ===== src/Session/Held.antt =====
-- The root leaf and the table of a session: each call does to the one what its step does to the
-- other.
use db.Prelude.{
  ℕ, ◌+◌, ◌-◌, ◌≤◌, ◌<◌, ◌≡◌, ◌≢◌, refl, sym, ap, ap₂, subst, ◌∙◌, List, [], length-window, length,
  Bool, true, false, arith, Option, some, none, Ordering,
}
use native.Mathlib.Decide.{dec_lt, ℕ_discrete}
use db.Outcomes.{ok}
use db.Words.{Endian}
use db.Format.{p_root}
use db.Order.{cmp, ◌≺◌}
use db.Order.Laws.{cmp_refl, eq_of_cmp}
use db.PageBuf.Slots.{upper_of, lower_of}
use db.Writer.{Writer, with_page}
use db.Writer.Pages.{leaf_search}
use db.Format.{bleaf_header_size}
use db.Format.Align.{align_entry_bounds}
use db.PageBuf.Slots.{slot_of}
use db.Writer.Entries.{leaf_nbytes}
use db.LeafPage.{IsLeaf, entry_size, ksize_at, dsize_at, key_at, val_at}
use db.LeafPage.Insert.{Inserted}
use db.LeafPage.Delete.{Deleted}
use db.LeafPage.Search.{≺_irrefl, IsPlace, leaf_search-IsPlace}
use db.RootLeaf.{IsRootLeaf}
use db.Session.{Table, update, room_of}

-- Writer `w`, of pages of `psize` bytes, has a root leaf with the entries of table `t`.
pub record IsTable (h : Endian) (psize : ℕ) (w : Writer) (t : Table) : Type 0 where
  pub contents : List ℕ
  pub n : ℕ
  pub root : IsRootLeaf h w contents n
  pub size : w.psize ≡ psize
  pub free : t.free ≡ upper_of h contents - lower_of h contents
  pub held : (i : ℕ) → i < n → t.find (key_at h contents i) ≡ some (val_at h contents i)
  pub absent : (key : List ℕ) → ((i : ℕ) → i < n → key_at h contents i ≢ key) → t.find key ≡ none

pub some_inj : {a b : List ℕ} → some a ≡ some b → a ≡ b
some_inj e = ap (λ o. get_some o) e
  where
    get_some : Option (List ℕ) → List ℕ
    get_some (some x) = x
    get_some none = []

pub List_dec : (a b : List ℕ) → Dec (a ≡ b)
List_dec a b = go (cmp a b) refl
  where
    go : (o : Ordering) → cmp a b ≡ o → Dec (a ≡ b)
    go Ordering.lt e = no (λ same. ≺_irrefl a (ap (cmp a) same ∙ e))
    go Ordering.eq e = yes (eq_of_cmp a b e)
    go Ordering.gt e = no (λ same.
        let clash : Ordering.eq ≡ Ordering.gt = sym (cmp_refl a) ∙ ap (cmp a) same ∙ e in cc)

-- A key that has a place between the entries is none of them.
pub IsPlace-absent :
    (h : Endian) (p : List ℕ) (n : ℕ) (key : List ℕ) (idx : ℕ)
    → IsPlace h p n key false idx
    → (i : ℕ) → i < n
    → key_at h p i ≢ key
IsPlace-absent h p n key idx (le, below, above) i lt same = elim (dec_lt i idx) [
  | yes b ↦ ≺_irrefl key (subst (λ k. k ≺ key) same (below i b))
  | no a ↦ ≺_irrefl key (subst (λ k. key ≺ k) same (above i (omega arith) lt))
]

pub update-same :
    (key : List ℕ) (val : Option (List ℕ)) (find : List ℕ → Option (List ℕ))
    → update key val find key ≡ val
unfolding update
update-same key val find = rw (update, cmp_refl key) refl

pub update-other :
    (key k : List ℕ) (val : Option (List ℕ)) (find : List ℕ → Option (List ℕ))
    → key ≢ k
    → update key val find k ≡ find k
unfolding update
update-other key k val find ne = go (cmp key k) refl
  where
    go : (o : Ordering) → cmp key k ≡ o → update key val find k ≡ find k
    go Ordering.lt e = rw (update, e) refl
    go Ordering.eq e = absurd (ne (eq_of_cmp key k e))
    go Ordering.gt e = rw (update, e) refl

-- The space of an entry, from its key and value.
entry_size-room :
    (h : Endian) (p : List ℕ) (n i : ℕ) (key old : List ℕ)
    → IsLeaf h p n
    → i < n
    → key_at h p i ≡ key
    → val_at h p i ≡ old
    → entry_size h p (slot_of h p i) + 2 ≡ room_of key old
entry_size-room h p n i key old leaf lt k x =
    let bounds =
      (align_entry_bounds
        (bleaf_header_size + ksize_at h p (slot_of h p i) + dsize_at h p (slot_of h p i))).0 in
    let key_len : length key ≡ ksize_at h p (slot_of h p i) =
      ap length (sym k)
      ∙ length-window p (slot_of h p i + bleaf_header_size) (ksize_at h p (slot_of h p i))
          (omega (arith, leaf.entry_high i lt, bounds)) in
    let val_len : length old ≡ dsize_at h p (slot_of h p i) =
      ap length (sym x)
      ∙ length-window p (slot_of h p i + bleaf_header_size + ksize_at h p (slot_of h p i))
          (dsize_at h p (slot_of h p i)) (omega (arith, leaf.entry_high i lt, bounds)) in
    ap (λ b. b + 2) (ap₂ leaf_nbytes (sym key_len) (sym val_len))

module _ (h : Endian) (psize : ℕ) (w : Writer) (t : Table) (v : IsTable h psize w t) where
  -- What the table says of a key, on the page.
  pub found_at :
      (key old : List ℕ)
      → t.find key ≡ some old
      → (idx : ℕ) × (idx < v.n) × (key_at h v.contents idx ≡ key) × (val_at h v.contents idx ≡ old)
  found_at key old e =
      let (found, idx, _, place) =
        leaf_search-IsPlace h v.contents v.n p_root key v.root.leaf v.root.bytes v.root.sorted in
      go found idx place
    where
      go :
          (found : Bool) (idx : ℕ)
          → IsPlace h v.contents v.n key found idx
          → (idx : ℕ) × (idx < v.n)
            × (key_at h v.contents idx ≡ key)
            × (val_at h v.contents idx ≡ old)
      go true idx (lt, same) =
          let both : some (val_at h v.contents idx) ≡ some old =
            sym (v.held idx lt) ∙ ap t.find same ∙ e in
          (idx, lt, same, some_inj both)
      go false idx place =
          let clash : some old ≡ none =
            sym e ∙ v.absent key (IsPlace-absent h v.contents v.n key idx place) in
          cc

  pub missing_at :
      (key : List ℕ) → t.find key ≡ none → (i : ℕ) → i < v.n → key_at h v.contents i ≢ key
  missing_at key e i lt same =
      let clash : some (val_at h v.contents i) ≡ none = sym (v.held i lt) ∙ ap t.find same ∙ e in cc

  pub missing_searched :
      (key : List ℕ)
      → t.find key ≡ none
      → (idx : ℕ) × (leaf_search h p_root v.contents key ≡ ok (false, idx))
  missing_searched key e =
      let (found, idx, searched, place) =
        leaf_search-IsPlace h v.contents v.n p_root key v.root.leaf v.root.bytes v.root.sorted in
      go found idx searched place
    where
      go :
          (found : Bool) (idx : ℕ)
          → leaf_search h p_root v.contents key ≡ ok (found, idx)
          → IsPlace h v.contents v.n key found idx
          → (idx : ℕ) × (leaf_search h p_root v.contents key ≡ ok (false, idx))
      go true idx searched (lt, same) = absurd (missing_at key e idx lt same)
      go false idx searched place = (idx, searched)

  -- The page with a new entry, and the table with it.
  pub Inserted-IsTable :
      (q : List ℕ) (idx : ℕ) (key val : List ℕ)
      → t.find key ≡ none
      → idx ≤ v.n
      → Inserted h v.contents q v.n idx key val
      → IsRootLeaf h (with_page w p_root q) q (v.n + 1)
      → IsTable h psize
          (with_page w p_root q)
          (record { find = update key (some val) t.find; free = t.free - room_of key val })
  Inserted-IsTable q idx key val e inside ins root = record {
    contents = q;
    n = v.n + 1;
    root = root;
    size = v.size;
    free = omega (arith, v.free, ins.space);
    held = λ i lt. elim (dec_lt i idx) [
      | yes b ↦ kept i i (omega (arith, inside)) (ins.before i b).0 (ins.before i b).1
      | no a ↦ elim (ℕ_discrete i idx) [
        | yes same ↦
            ap (update key (some val) t.find) (ap (key_at h q) same ∙ ins.key_new)
            ∙ update-same key (some val) t.find
            ∙ sym (ap some (ap (val_at h q) same ∙ ins.val_new))
        | no d ↦
            let back : i ≡ i - 1 + 1 = omega arith in
            let (k, x) = ins.after (i - 1) (omega arith) (omega arith) in
            kept i (i - 1) (omega arith) (ap (key_at h q) back ∙ k) (ap (val_at h q) back ∙ x)
      ]
    ];
    absent = λ k none_is.
        update-other key k (some val) t.find
          (λ same. none_is idx (omega (arith, inside)) (ins.key_new ∙ same))
        ∙ v.absent k (λ i lt same. elim (dec_lt i idx) [
          | yes b ↦ none_is i (omega arith) ((ins.before i b).0 ∙ same)
          | no a ↦ none_is (i + 1) (omega arith) ((ins.after i (omega arith) lt).0 ∙ same)
        ]);
  }
    where
      kept :
          (i s : ℕ)
          → s < v.n
          → key_at h q i ≡ key_at h v.contents s
          → val_at h q i ≡ val_at h v.contents s
          → update key (some val) t.find (key_at h q i) ≡ some (val_at h q i)
      kept i s lt k x =
          ap (update key (some val) t.find) k
          ∙ update-other key (key_at h v.contents s) (some val) t.find
              (λ same. missing_at key e s lt (sym same))
          ∙ v.held s lt
          ∙ ap some (sym x)

  -- The page without an entry, and the table without it.
  pub Deleted-IsTable :
      (q : List ℕ) (m idx : ℕ) (key old : List ℕ)
      → v.n ≡ m + 1
      → idx ≤ m
      → key_at h v.contents idx ≡ key
      → val_at h v.contents idx ≡ old
      → Deleted h v.contents q m idx
      → ((i : ℕ) → i < m → key_at h q i ≢ key)
      → IsRootLeaf h (with_page w p_root q) q m
      → IsTable h psize
          (with_page w p_root q)
          (record { find = update key none t.find; free = t.free + room_of key old })
  Deleted-IsTable q m idx key old count inside at_key at_val gone none_is root = record {
    contents = q;
    n = m;
    root = root;
    size = v.size;
    free = omega (
      arith,
      v.free,
      gone.space,
      entry_size-room h v.contents v.n idx key old v.root.leaf (omega (arith, count, inside)) at_key
          at_val,
    );
    held = λ i lt. elim (dec_lt i idx) [
      | yes b ↦ kept i lt i (omega (arith, count)) (gone.before i b).0 (gone.before i b).1
      | no a ↦
          let (k, x) = gone.after i (omega arith) lt in kept i lt (i + 1) (omega (arith, count)) k x
    ];
    absent = λ k away. elim (List_dec key k) [
      | yes same ↦ ap (update key none t.find) (sym same) ∙ update-same key none t.find
      | no ne ↦
          update-other key k none t.find ne
          ∙ v.absent k (λ i lt same. elim (dec_lt i idx) [
            | yes b ↦ away i (omega (arith, inside)) ((gone.before i b).0 ∙ same)
            | no a ↦ elim (ℕ_discrete i idx) [
              | yes here ↦ ne (sym at_key ∙ ap (key_at h v.contents) (sym here) ∙ same)
              | no d ↦
                  let back : i - 1 + 1 ≡ i = omega arith in
                  away (i - 1) (omega (arith, count)) (
                    (gone.after (i - 1) (omega arith) (omega (arith, count))).0
                    ∙ ap (key_at h v.contents) back
                    ∙ same)
            ]
          ])
    ];
  }
    where
      kept :
          (i : ℕ)
          → i < m
          → (s : ℕ) → s < v.n
          → key_at h q i ≡ key_at h v.contents s
          → val_at h q i ≡ val_at h v.contents s
          → update key none t.find (key_at h q i) ≡ some (val_at h q i)
      kept i lt s inner k x =
          update-other key (key_at h q i) none t.find (λ same. none_is i lt (sym same))
          ∙ ap t.find k
          ∙ v.held s inner
          ∙ ap some (sym x)
