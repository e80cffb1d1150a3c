-- ===== src/Writer/Entries/Written.antt =====
-- What `write_bleaf_inline` and `write_binternal_inline` leave in a page: the entry, and every other
-- byte as it was.
use db.Prelude.{
  take_all, splice-nil, ℕ, suc, ◌+◌, ◌^◌, ◌≤◌, ◌<◌, ◌≡◌, ◌∙◌, List, [], ◌∷◌, length, splice, window,
  get_or, arith, le→leb, lt→ltb, length-splice, Agree, splice-Agree_before, splice-Agree_after,
  window-splice_self, window-eq_of_Agree, get_or-splice_at,
}
use db.Outcomes.{ok}
use db.Words.{Endian, to_ne_u32, u32_from}
use db.Words.Bytes.{AreBytes, nil-AreBytes, cons-AreBytes, splice-AreBytes, to_ne_u32-AreBytes}
use db.Words.RoundTrip.{length-to_ne_u32, u32_from-splice, u32_from-Agree}
use db.Format.{bleaf_header_size, binternal_header_size, max_psize}
use db.PageBuf.Writes.{copy_into-eq-ok, write_u32-eq-ok}
use db.Writer.Entries.{write_bleaf_inline, write_binternal_inline, len_as_u32}

-- Page `q` is page `p` with an entry written at `off`: the length of the key, the word `second`, no
-- flags, the key and the value. A leaf entry has the length of the value as its second word, an
-- internal one the child, and no value.
pub record EntryWritten (h : Endian) (p q : List ℕ) (off : ℕ) (key val : List ℕ) (second : ℕ)
    : Type 0 where
  pub same_length : length q ≡ length p
  pub before : (lo : ℕ) → Agree q p lo off
  pub after : (hi : ℕ) → Agree q p (off + bleaf_header_size + length key + length val) hi
  pub ksize : u32_from h q off ≡ length key
  pub dsize : u32_from h q (off + 4) ≡ second
  pub eflags : get_or q (off + 8) 0 ≡ 0
  pub key_bytes : window q (off + bleaf_header_size) (length key) ≡ key
  pub val_bytes : window q (off + bleaf_header_size + length key) (length val) ≡ val
  pub bytes : AreBytes p → AreBytes key → AreBytes val → AreBytes q

abbrev pub LeafWritten : Endian → List ℕ → List ℕ → ℕ → List ℕ → List ℕ → Type 0
LeafWritten h p q off key val = EntryWritten h p q off key val (length val)

abbrev pub InternalWritten : Endian → List ℕ → List ℕ → ℕ → List ℕ → ℕ → Type 0
InternalWritten h p q off key child = EntryWritten h p q off key [] child

len_as_u32-eq-ok : (n : ℕ) → n ≤ max_psize → len_as_u32 n ≡ ok n
unfolding len_as_u32
len_as_u32-eq-ok n h = rw (le→leb n max_psize h, lt→ltb n (2 ^ 32) (omega arith))

module _ (h : Endian) (p : List ℕ) (off : ℕ) (key val : List ℕ) (second : ℕ) where
  abbrev s0 : List ℕ
  s0 = splice p off (to_ne_u32 h (length key))

  abbrev s1 : List ℕ
  s1 = splice s0 (off + 4) (to_ne_u32 h second)

  abbrev s2 : List ℕ
  s2 = splice s1 (off + 8) (0 ∷ [])

  abbrev s3 : List ℕ
  s3 = splice s2 (off + bleaf_header_size) key

  abbrev s4 : List ℕ
  s4 = splice s3 (off + bleaf_header_size + length key) val

  length-s4 : length s4 ≡ length p
  length-s4 = simp length-splice

  module _ (small : length p ≤ max_psize)
      (fits : off + bleaf_header_size + length key + length val ≤ length p) where
    -- Later writes leave what lies before them.
    s4-s1 : Agree s4 s1 0 (off + 8)
    s4-s1 j l r =
        splice-Agree_before s3 (off + bleaf_header_size + length key) val 0 j l (omega arith)
        ∙ splice-Agree_before s2 (off + bleaf_header_size) key 0 j l (omega arith)
        ∙ splice-Agree_before s1 (off + 8) (0 ∷ []) 0 j l r

    s4-p : (lo : ℕ) → Agree s4 p lo off
    s4-p lo j l r =
        s4-s1 j (omega arith) (omega arith)
        ∙ splice-Agree_before s0 (off + 4) (to_ne_u32 h second) 0 j (omega arith) (omega arith)
        ∙ splice-Agree_before p off (to_ne_u32 h (length key)) 0 j (omega arith) r

    s4-p_after : (hi : ℕ) → Agree s4 p (off + bleaf_header_size + length key + length val) hi
    s4-p_after hi j l r =
        splice-Agree_after s3 (off + bleaf_header_size + length key) val j (suc j) l j (omega arith)
          (omega arith)
        ∙ splice-Agree_after s2 (off + bleaf_header_size) key j (suc j) (omega arith) j
            (omega arith) (omega arith)
        ∙ splice-Agree_after s1 (off + 8) (0 ∷ []) j (suc j) (omega arith) j (omega arith)
            (omega arith)
        ∙ splice-Agree_after s0 (off + 4) (to_ne_u32 h second) j (suc j)
            (omega (arith, length-to_ne_u32 h second)) j (omega arith) (omega arith)
        ∙ splice-Agree_after p off (to_ne_u32 h (length key)) j (suc j)
            (omega (arith, length-to_ne_u32 h (length key))) j (omega arith) (omega arith)

    -- The page that the write leaves.
    s4-EntryWritten : second < 2 ^ 32 → EntryWritten h p s4 off key val second
    s4-EntryWritten word = record {
      same_length = length-s4;
      before = s4-p;
      after = s4-p_after;
      ksize =
          u32_from-Agree h s4 s0 off (λ j l r.
            s4-s1 j (omega arith) (omega arith)
            ∙ splice-Agree_before s0 (off + 4) (to_ne_u32 h second) 0 j (omega arith) r)
          ∙ u32_from-splice h p off (length key) (omega arith) (omega arith);
      dsize =
          u32_from-Agree h s4 s1 (off + 4) (λ j l r. s4-s1 j (omega arith) (omega arith))
          ∙ u32_from-splice h s0 (off + 4) second (simp length-splice (omega arith)) word;
      eflags =
          splice-Agree_before s3 (off + bleaf_header_size + length key) val 0 (off + 8)
            (omega arith) (omega arith)
          ∙ splice-Agree_before s2 (off + bleaf_header_size) key 0 (off + 8) (omega arith)
              (omega arith)
          ∙ get_or-splice_at s1 (off + 8) (0 ∷ []) 0 (off + 8) 0 (omega arith) (omega arith)
              (simp length-splice (omega arith));
      key_bytes =
          window-eq_of_Agree s4 s3 (off + bleaf_header_size) (length key)
            (simp length-splice (omega arith)) (simp length-splice (omega arith))
            (λ j l r.
              splice-Agree_before s3 (off + bleaf_header_size + length key) val 0 j (omega arith) r)
          ∙ window-splice_self s2 (off + bleaf_header_size) key (simp length-splice (omega arith));
      val_bytes =
          window-splice_self s3 (off + bleaf_header_size + length key) val
            (simp length-splice (omega arith));
      bytes = λ b bk bv.
          splice-AreBytes s3 _ val
            (splice-AreBytes s2 _ key
              (splice-AreBytes s1 _ _
                (splice-AreBytes s0 _ _
                  (splice-AreBytes p _ _ b (to_ne_u32-AreBytes h (length key)))
                  (to_ne_u32-AreBytes h second))
                (cons-AreBytes 0 [] (omega arith) nil-AreBytes))
              bk)
            bv;
    }

module _ (h : Endian) (p : List ℕ) (off : ℕ) (key val : List ℕ) (small : length p ≤ max_psize)
    (fits : off + bleaf_header_size + length key + length val ≤ length p) where
  write_bleaf_inline-eq-ok :
      write_bleaf_inline h p off key val ≡ ok (s4 h p off key val (length val))
  unfolding write_bleaf_inline
  write_bleaf_inline-eq-ok = rw (
    len_as_u32-eq-ok (length key) (omega arith),
    write_u32-eq-ok h p off (length key) (omega arith),
    len_as_u32-eq-ok (length val) (omega arith),
    write_u32-eq-ok h (s0 h p off key val (length val)) (off + 4) (length val)
        (rw (length-splice p off (to_ne_u32 h (length key))) (omega arith)),
    copy_into-eq-ok (s1 h p off key val (length val)) (off + 8) (0 ∷ [])
        (simp length-splice (omega arith)),
    copy_into-eq-ok (s2 h p off key val (length val)) (off + bleaf_header_size) key
        (simp length-splice (omega arith)),
    copy_into-eq-ok (s3 h p off key val (length val)) (off + bleaf_header_size + length key) val
        (simp length-splice (omega arith)),
  )

-- An internal entry takes the whole of its key here.
module _ (h : Endian) (p : List ℕ) (off : ℕ) (key : List ℕ) (child : ℕ)
    (small : length p ≤ max_psize)
    (fits : off + binternal_header_size + length key ≤ length p) where
  write_binternal_inline-eq-ok :
      write_binternal_inline h p off (length key) key child ≡ ok (s4 h p off key [] child)
  unfolding write_binternal_inline
  write_binternal_inline-eq-ok = rw (
    le→leb (length key) (length key) (omega arith),
    len_as_u32-eq-ok (length key) (omega arith),
    write_u32-eq-ok h p off (length key) (omega arith),
    write_u32-eq-ok h (s0 h p off key [] child) (off + 4) child
        (rw (length-splice p off (to_ne_u32 h (length key))) (omega arith)),
    copy_into-eq-ok (s1 h p off key [] child) (off + 8) (0 ∷ []) (simp length-splice (omega arith)),
    take_all (length key) key (omega arith),
    copy_into-eq-ok (s2 h p off key [] child) (off + binternal_header_size) key
        (simp length-splice (omega arith)),
    splice-nil (s3 h p off key [] child) (off + bleaf_header_size + length key),
  )

-- On a page with room for it the write of an entry succeeds, and leaves the entry and nothing else.
pub write_bleaf_inline-LeafWritten :
    (h : Endian) (p : List ℕ) (off : ℕ) (key val : List ℕ)
    → length p ≤ max_psize
    → off + bleaf_header_size + length key + length val ≤ length p
    → (q : List ℕ) × (write_bleaf_inline h p off key val ≡ ok q) × LeafWritten h p q off key val
write_bleaf_inline-LeafWritten h p off key val small fits = (
  s4 h p off key val (length val),
  write_bleaf_inline-eq-ok h p off key val small fits,
  s4-EntryWritten h p off key val (length val) small fits (omega arith),
)

pub write_binternal_inline-InternalWritten :
    (h : Endian) (p : List ℕ) (off : ℕ) (key : List ℕ) (child : ℕ)
    → length p ≤ max_psize
    → off + binternal_header_size + length key ≤ length p
    → child < 2 ^ 32
    → (q : List ℕ) × (write_binternal_inline h p off (length key) key child ≡ ok q)
      × InternalWritten h p q off key child
write_binternal_inline-InternalWritten h p off key child small fits word = (
  s4 h p off key [] child,
  write_binternal_inline-eq-ok h p off key child small fits,
  s4-EntryWritten h p off key [] child small (omega arith) word,
)
