-- ===== src/LeafSplit/Half.antt =====
-- One page of a split: a copied range, with the new entry or without it.
use db.Prelude.{
  inl, inr, ℕ, ◌+◌, ◌-◌, ◌*◌, ◌≤◌, ◌<◌, ◌≡◌, refl, sym, ap, ap₂, subst, ◌∙◌, List, length, arith,
  Agree, none, some, window,
}
use db.Outcomes.{ok}
use db.Words.{Endian}
use db.Words.Bytes.{AreBytes}
use db.Words.RoundTrip.{u16_from-Agree}
use db.Format.{bleaf_header_size, page_header_size}
use db.Page.{PageView}
use db.PageBuf.Slots.{slot_of, lower_of}
use db.Writer.Entries.{leaf_nbytes, write_entry_at_slot, copy_entries}
use db.LeafPage.{IsLeaf, IsPacked, entry_size, key_at, val_at}
use db.LeafSplit.{Holds, Filled, Blank}
use db.LeafSplit.Slot.{write_entry_at_slot-Filled}
use db.LeafSplit.Copies.{Reads, place, sum_from, copy_entries-Filled}

-- Page `q`, made of page `dst`, is a leaf of the `n` entries that `key` and `val` give.
pub record IsHalf (h : Endian) (dst q : List ℕ) (n : ℕ) (key val : ℕ → List ℕ) : Type 0 where
  pub leaf : IsLeaf h q n
  pub packed : IsPacked h q n
  pub same_length : length q ≡ length dst
  pub header : Agree q dst 0 16
  pub bytes : AreBytes q
  pub key_is : (i : ℕ) → i < n → key_at h q i ≡ key i
  pub val_is : (i : ℕ) → i < n → val_at h q i ≡ val i

-- A page that is filled and has its `lower`.
module _ (h : Endian) (q : List ℕ) (n hole : ℕ) (key val : ℕ → List ℕ)
    (v : Filled h q n n hole key val) (beyond : n ≤ hole)
    (low : lower_of h q ≡ page_header_size + n * 2) where
  at : (i : ℕ) → i < n → Holds h q (slot_of h q i) (key i) (val i)
  at i lt = v.entry i lt (omega arith)

  size_is :
      (i : ℕ)
      → i < n
      → entry_size h q (slot_of h q i) ≡ leaf_nbytes (length (key i)) (length (val i))
  size_is i lt = ap₂ leaf_nbytes (at i lt).ksize (at i lt).dsize

  Filled-IsHalf :
      (dst : List ℕ)
      → length q ≡ length dst
      → Agree q dst 0 16
      → AreBytes q
      → IsHalf h dst q n key val
  Filled-IsHalf dst len header bytes = record {
    leaf = record {
      slots = record {
        header_in = omega (arith, v.header_in, v.upper_in);
        small = v.small;
        lower_at = low;
        free = omega (arith, low, v.header_in);
        upper_in = v.upper_in;
      };
      leaf_flags = v.leaf_flags;
      entry_low = λ i lt. (at i lt).low;
      entry_high = λ i lt. omega (arith, size_is i lt, (at i lt).high);
      entry_inline = λ i lt. (at i lt).eflags;
    };
    packed = record {
      apart = λ i j li lj ne. elim (v.apart i j li lj (omega arith) (omega arith) ne) [
        | inl x ↦ inl (omega (arith, size_is i li))
        | inr x ↦ inr (omega (arith, size_is j lj))
      ];
    };
    same_length = len;
    header = header;
    bytes = bytes;
    key_is = λ i lt.
        ap (window q (slot_of h q i + bleaf_header_size)) (at i lt).ksize ∙ (at i lt).key_bytes;
    val_is = λ i lt.
        ap₂ (λ k d. window q (slot_of h q i + bleaf_header_size + k) d) (at i lt).ksize
          (at i lt).dsize
        ∙ (at i lt).val_bytes;
  }

module _ (h : Endian) (view : PageView) (n : ℕ) (skey sval : ℕ → List ℕ)
    (reads : Reads h view n skey sval) (key_bytes : (i : ℕ) → i < n → AreBytes (skey i))
    (val_bytes : (i : ℕ) → i < n → AreBytes (sval i)) (start finish count : ℕ)
    (span : finish - start ≡ count) (inside : start + count ≤ n) (dst : List ℕ)
    (blank : Blank h dst) (bytes : AreBytes dst) (key val : ℕ → List ℕ) where
  abbrev sizes : ℕ
  sizes = sum_from (λ i. leaf_nbytes (length (skey i)) (length (sval i))) start count

  pub IsHalf-without :
      0 < count
      → ((j : ℕ) → j < count → key j ≡ skey (start + j))
      → ((j : ℕ) → j < count → val j ≡ sval (start + j))
      → page_header_size + count * 2 + sizes ≤ length dst
      → (q : List ℕ) × (copy_entries h view start finish none dst ≡ ok q)
        × IsHalf h dst q count key val
  IsHalf-without some_entry keys vals room =
      let plain : (j : ℕ) → j ≤ count → place (count + 1) j ≡ j = λ j l. ground arith in
      let same = plain count (omega arith) in
      let (q, copied, (v, low, len, up, header, qb)) =
        copy_entries-Filled h view n skey sval reads count start count (count + 1) 0 none key val
          inside (omega (arith, same)) (omega (arith, room, blank.small)) (omega arith)
          (λ j lt. ap key (plain j (omega arith)) ∙ keys j lt)
          (λ j lt. ap val (plain j (omega arith)) ∙ vals j lt) key_bytes val_bytes finish dst span
          some_entry blank bytes (omega (arith, room)) in
      let full = subst (λ m. Filled h q count m (count + 1) key val) same v in
      (
        q,
        copied,
        Filled-IsHalf h q count (count + 1) key val full (omega arith)
            (low ∙ ap (λ m. page_header_size + m * 2) same) dst len header qb,
      )

  pub IsHalf-with :
      (r : ℕ) (new_key new_val : List ℕ)
      → r ≤ count
      → AreBytes new_key
      → AreBytes new_val
      → key r ≡ new_key
      → val r ≡ new_val
      → ((j : ℕ) → j < count → key (place r j) ≡ skey (start + j))
      → ((j : ℕ) → j < count → val (place r j) ≡ sval (start + j))
      → page_header_size + (count + 1) * 2 + leaf_nbytes (length new_key) (length new_val) + sizes
        ≤ length dst
      → (q : List ℕ) × (q' : List ℕ) × (copy_entries h view start finish (some r) dst ≡ ok q)
        × (write_entry_at_slot h r new_key new_val q ≡ ok q')
        × IsHalf h dst q' (count + 1) key val
  IsHalf-with r new_key new_val le kb vb here_key here_val keys vals room =
      let end : place r count ≡ count + 1 = ground arith in
      let (q, copied, (v, low, len, up, header, qb)) =
        copy_entries-Filled h view n skey sval reads (count + 1) start count r
          (leaf_nbytes (length new_key) (length new_val)) (some r) key val inside
          (omega (arith, end)) (omega (arith, room, blank.small)) refl keys vals key_bytes val_bytes
          finish dst span (omega arith) blank bytes (omega (arith, room)) in
      let size : leaf_nbytes (length (key r)) (length (val r))
          ≡ leaf_nbytes (length new_key) (length new_val) =
        ap₂ (λ k d. leaf_nbytes (length k) (length d)) here_key here_val in
      let (q', written, v', len', _, header', qb') =
        write_entry_at_slot-Filled h q (count + 1) (place r count) r key val r (count + 1)
          (count + 1) v (omega arith) (omega (arith, end)) (omega arith) (omega (arith, size, up))
          (λ i li ni off. (omega (arith, end), off)) in
      (
        q,
        q',
        copied,
        ap₂ (λ k d. write_entry_at_slot h r k d q) (sym here_key) (sym here_val) ∙ written,
        Filled-IsHalf h q' (count + 1) (count + 1) key val v' (omega arith)
            (u16_from-Agree h q' q 16 (λ j l s. header' j (omega arith) s)
              ∙ low
              ∙ ap (λ m. page_header_size + m * 2) end)
            dst (len' ∙ len) (λ j l s. header' j l (omega arith) ∙ header j l s)
            (qb' qb (subst AreBytes (sym here_key) kb) (subst AreBytes (sym here_val) vb)),
      )
