-- ===== src/Arena/Table/Row.antt =====
-- The map that a database of one leaf is, and its map with a new pair, as rows of entries.
use db.Prelude.{
  ℕ, ◌+◌, ◌-◌, ◌≤◌, ◌<◌, ◌≡◌, ◌≢◌, refl, sym, ap, ◌∙◌, List, false, Option, some, none, arith,
}
use native.Mathlib.Decide.{dec_lt, ℕ_discrete}
use db.Words.{Endian}
use db.Format.{p_root}
use db.Writer.{Writer}
use db.LeafPage.{key_at, val_at}
use db.LeafPage.Search.{IsPlace}
use db.LeafSplit.Shared.{merged, merged-before, merged-here, merged-after}
use db.RootLeaf.{IsRootLeaf}
use db.Session.{Table, update}
use db.Session.Held.{IsTable, IsPlace-absent, update-same, update-other}
use db.Arena.Change.{HasPage_unique, count_unique}
use db.Arena.RootSplit.Commit.{root-HasPage}
use db.Arena.RootSplit.Puts.{IsRootLeaf-Reaches, only_root}
use db.Arena.Table.{Represents}

-- What the map says of the keys on the root leaf, and of the others.
module _ (h : Endian) (w : Writer) (p : List ℕ) (n : ℕ) (v : IsRootLeaf h w p n) (height : ℕ)
    (find : List ℕ → Option (List ℕ)) (m : Represents h w height find) where
  on_root : (k : List ℕ) → ((m.every k).p ≡ p) × ((m.every k).n ≡ n)
  on_root k =
      let l = m.every k in
      let here = only_root h w p n v k l.reached.path refl in
      let same = HasPage_unique w l.pgno p_root l.p p l.reached.at (root-HasPage h w p n v) here in
      (same, count_unique h l.p p l.n n l.reached.leaf v.leaf same)

  pub root_held : (i : ℕ) → i < n → find (key_at h p i) ≡ some (val_at h p i)
  root_held i lt =
      let (same, count) = on_root (key_at h p i) in
      (m.every (key_at h p i)).found i (omega (arith, count)) (ap (λ x. key_at h x i) same)
      ∙ ap (λ x. some (val_at h x i)) same

  root_absent : (k : List ℕ) → ((i : ℕ) → i < n → key_at h p i ≢ k) → find k ≡ none
  root_absent k none_is =
      let (same, count) = on_root k in
      (m.every k).missed
        (λ i lt e. none_is i (omega (arith, count)) (ap (λ x. key_at h x i) (sym same) ∙ e))

  module _ (idx : ℕ) (key val : List ℕ) (place : IsPlace h p n key false idx) where
    abbrev row : ℕ → List ℕ
    row = merged idx key (key_at h p)

    abbrev vals : ℕ → List ℕ
    vals = merged idx val (val_at h p)

    abbrev find' : List ℕ → Option (List ℕ)
    find' = update key (some val) find

    old_held :
        (o i : ℕ)
        → i < n
        → row o ≡ key_at h p i
        → vals o ≡ val_at h p i
        → find' (row o) ≡ some (vals o)
    old_held o i lt k d =
        ap find' k
        ∙ update-other key (key_at h p i) (some val) find
            (λ e. IsPlace-absent h p n key idx place i lt (sym e))
        ∙ root_held i lt
        ∙ ap some (sym d)

    pub row_held : (o : ℕ) → o ≤ n → find' (row o) ≡ some (vals o)
    row_held o le = elim (ℕ_discrete o idx) [
      | yes here ↦
          ap find' (merged-here idx key (key_at h p) o here)
          ∙ update-same key (some val) find
          ∙ ap some (sym (merged-here idx val (val_at h p) o here))
      | no off ↦ elim (dec_lt o idx) [
        | yes low ↦
            old_held o o (omega (arith, place.0)) (merged-before idx key (key_at h p) o low)
              (merged-before idx val (val_at h p) o low)
        | no high ↦
            old_held o (o - 1) (omega (arith, off))
              (merged-after idx key (key_at h p) o (o - 1) (omega (arith, off))
                (omega (arith, off)))
              (merged-after idx val (val_at h p) o (o - 1) (omega (arith, off))
                (omega (arith, off)))
      ]
    ]

    pub row_absent : (k : List ℕ) → ((o : ℕ) → o ≤ n → row o ≢ k) → find' k ≡ none
    row_absent k none_is =
        update-other key k (some val) find
          (λ e. none_is idx place.0 (merged-here idx key (key_at h p) idx refl ∙ e))
        ∙ root_absent k (λ i lt e. elim (dec_lt i idx) [
          | yes low ↦ none_is i (omega arith) (merged-before idx key (key_at h p) i low ∙ e)
          | no high ↦
              none_is (i + 1) (omega arith)
                (merged-after idx key (key_at h p) (i + 1) i (omega arith) refl ∙ e)
        ])

-- A database of one leaf with the entries of a table is the map of the table.
pub IsTable-Represents :
    (h : Endian) (psize : ℕ) (w : Writer) (t : Table)
    → IsTable h psize w t
    → Represents h w 0 t.find
IsTable-Represents h psize w t v = record {
  arena = v.root.arena;
  every = λ k. record {
    depth = 0;
    pgno = p_root;
    p = v.contents;
    n = v.n;
    not_deeper = omega arith;
    reached = IsRootLeaf-Reaches h w v.contents v.n v.root k;
    found = λ i lt e. ap t.find (sym e) ∙ v.held i lt;
    missed = v.absent k;
  };
}
