-- ===== src/Tree/Descent.antt =====
-- `descend_internal`, and `descend_internal_pick` of the writer, go where the separators lead.
use db.Prelude.{
  ℕ, zero, suc, ◌<◌, ◌≡◌, ◌≢◌, inl, inr, refl, sym, ap, subst, ◌∙◌, List, Bool, true, false, ◌==◌,
  ◌&&◌, if◌then◌else◌, arith, Ordering,
}
use native.Mathlib.Decide.{dec_lt, ℕ_discrete}
use db.Outcomes.{sub_usize, Outcome, ok}
use db.Words.{Endian}
use db.Format.{p_invalid}
use db.Order.{cmp, ◌≺◌}
use db.Order.Laws.{≺_trans}
use db.Bisect.{Found, exact, missing}
use db.Bisect.Correct.{IsOrdered, Locates, bisect_all-Locates}
use db.Db.{Db}
use db.Db.Overflow.{compare_item}
use db.Db.Search.{internal_probe, descend_internal, chosen_slot}
use db.Writer.Pages.{pick_probe, descend_internal_pick}
use db.LeafPage.Search.{≺_irrefl, gt→≺, ≺→gt}
use db.Tree.{IsBranch}

module _ (h : Endian) (db : Db) (key : List ℕ) (pgno child : ℕ)
    (v : IsBranch h db key pgno child) where
  abbrev n : ℕ
  n = v.view.nentries

  -- The first separator of the leftmost page is below every key.
  abbrev is_lowest : ℕ → Bool
  is_lowest i = i == 0 && v.view.prev_pg == p_invalid

  abbrev ord : ℕ → Ordering
  ord i = if is_lowest i then Ordering.gt else cmp key (v.sep i)

  reads : (i : ℕ) → i < n → internal_probe h db v.view key i ≡ ok (ord i)
  unfolding internal_probe compare_item
  reads i lt = go (is_lowest i) refl
    where
      go : (b : Bool) → is_lowest i ≡ b → internal_probe h db v.view key i ≡ ok (ord i)
      go true e = rw (internal_probe, v.entries i lt, e) refl
      go false e = rw (internal_probe, v.entries i lt, e, compare_item, v.seps i lt) refl

  not_lowest : (i : ℕ) → 0 < i → is_lowest i ≡ false
  not_lowest i some = ground arith

  ord_behind : (i : ℕ) → 0 < i → ord i ≡ cmp key (v.sep i)
  ord_behind i some = rw (not_lowest i some) refl

  ord_gt : (i : ℕ) → v.sep i ≺ key → ord i ≡ Ordering.gt
  ord_gt i lt = go (is_lowest i) refl
    where
      go : (b : Bool) → is_lowest i ≡ b → ord i ≡ Ordering.gt
      go true e = rw e refl
      go false e = rw e (≺→gt key (v.sep i) lt)

  ord_lt_inv : (i : ℕ) → ord i ≡ Ordering.lt → key ≺ v.sep i
  ord_lt_inv i lt = go (is_lowest i) refl
    where
      go : (b : Bool) → is_lowest i ≡ b → key ≺ v.sep i
      go true e =
          let first : ord i ≡ Ordering.gt = rw e refl in
          let clash : Ordering.gt ≡ Ordering.lt = sym first ∙ lt in cc
      go false e = let same : ord i ≡ cmp key (v.sep i) = rw e refl in sym same ∙ lt

  ordered : IsOrdered ord n
  ordered = record {
    greater = λ i j le lt e. elim (ℕ_discrete i j) [
      | yes same ↦ ap ord same ∙ e
      | no d ↦ ord_gt i (
          ≺_trans (v.sep i) (v.sep j) key (v.ascend i j (omega arith) lt)
            (gt→≺ key (v.sep j) (sym (ord_behind j (omega arith)) ∙ e)))
    ];
    less = λ i j le lt e. elim (ℕ_discrete i j) [
      | yes same ↦ ap ord (sym same) ∙ e
      | no d ↦
          ord_behind j (omega arith)
          ∙ ≺_trans key (v.sep i) (v.sep j) (ord_lt_inv i e) (v.ascend i j (omega arith) lt)
    ];
  }

  -- On which side of the slot an entry stands.
  ord_above : (j : ℕ) → v.slot < j → j < n → ord j ≡ Ordering.lt
  ord_above j lt le = ord_behind j (omega arith) ∙ v.above j lt le

  ord_below : (i : ℕ) → i < v.slot → ord i ≡ Ordering.gt
  ord_below i lt = elim (v.not_above (omega arith)) [
    | inl same ↦ ord_gt i (subst (λ k. v.sep i ≺ k) same (v.ascend i v.slot lt v.slot_in))
    | inr less ↦
        ord_gt i (≺_trans (v.sep i) (v.sep v.slot) key (v.ascend i v.slot lt v.slot_in) less)
  ]

  slot-ne-lt : 0 < v.slot → ord v.slot ≢ Ordering.lt
  slot-ne-lt some e =
      let over = ord_lt_inv v.slot e in
      elim (v.not_above some) [
        | inl same ↦ ≺_irrefl key (subst (λ k. key ≺ k) same over)
        | inr less ↦ ≺_irrefl key (≺_trans key (v.sep v.slot) key over less)
      ]

  lt≢eq : (o : Ordering) → o ≡ Ordering.eq → o ≢ Ordering.lt
  lt≢eq o e l = let clash : Ordering.eq ≡ Ordering.lt = sym e ∙ l in cc

  gt≢eq : (o : Ordering) → o ≡ Ordering.eq → o ≢ Ordering.gt
  gt≢eq o e l = let clash : Ordering.eq ≡ Ordering.gt = sym e ∙ l in cc

  gt≢lt : (o : Ordering) → o ≡ Ordering.gt → o ≢ Ordering.lt
  gt≢lt o e l = let clash : Ordering.gt ≡ Ordering.lt = sym e ∙ l in cc

  -- Where the search ends is the slot.
  chosen : (f : Found) → Locates ord n f → chosen_slot f ≡ ok v.slot
  chosen (exact i) (lt, e) = elim (dec_lt i v.slot) [
    | yes less ↦ absurd (gt≢eq (ord i) e (ord_below i less))
    | no more ↦ elim (dec_lt v.slot i) [
      | yes over ↦ absurd (lt≢eq (ord i) e (ord_above i over lt))
      | no here ↦ ap ok {x = i} {y = v.slot} (omega arith)
    ]
  ]
  chosen (missing zero) (le, below, over) = elim (dec_lt 0 v.slot) [
    | yes some ↦ absurd (slot-ne-lt some (over v.slot (omega arith) v.slot_in))
    | no none ↦ ap ok {x = 0} {y = v.slot} (omega arith)
  ]
  chosen (missing (suc b)) (le, below, over) = elim (dec_lt v.slot b) [
    | yes less ↦ absurd (gt≢lt (ord b) (below b (omega arith)) (ord_above b less (omega arith)))
    | no more ↦ elim (dec_lt b v.slot) [
      | yes past ↦ absurd (slot-ne-lt (omega arith) (over v.slot (omega arith) v.slot_in))
      | no here ↦ ground arith
    ]
  ]

  pub descend_internal-IsBranch : descend_internal h db v.view key ≡ ok child
  unfolding descend_internal
  descend_internal-IsBranch =
      let (f, found, place) =
        bisect_all-Locates (internal_probe h db v.view key) ord n reads ordered in
      rw (found, chosen f place, v.entries v.slot v.slot_in) (ap ok v.slot_kid)

  -- The writer's comparison is the reader's, since no separator is on an overflow chain.
  pick_reads :
      (i : ℕ) → i < n → pick_probe h v.view key (v.view.prev_pg == p_invalid) i ≡ ok (ord i)
  unfolding pick_probe
  pick_reads i lt = go (is_lowest i) refl
    where
      go :
          (b : Bool)
          → is_lowest i ≡ b
          → pick_probe h v.view key (v.view.prev_pg == p_invalid) i ≡ ok (ord i)
      go true e = rw (pick_probe, v.entries i lt, e) refl
      go false e = rw (pick_probe, v.entries i lt, e, v.seps i lt) refl

  picked :
      (f : Found)
      → elim f as (λ _. Outcome ℕ) [
        | exact idx ↦ ok idx
        | missing base ↦ if base == 0 then ok 0 else sub_usize base 1
      ]
        ≡ chosen_slot f
  picked (exact i) = refl
  picked (missing b) = refl

  pub descend_internal_pick-IsBranch :
      descend_internal_pick h v.view key (v.view.prev_pg == p_invalid) ≡ ok v.slot
  unfolding descend_internal_pick
  descend_internal_pick-IsBranch =
      let (f, found, place) =
        bisect_all-Locates (pick_probe h v.view key (v.view.prev_pg == p_invalid)) ord n pick_reads
          ordered in
      rw found (picked f ∙ chosen f place)
