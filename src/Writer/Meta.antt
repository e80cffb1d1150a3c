-- ===== src/Writer/Meta.antt =====
-- The file that `finish` writes is one that `open` takes, on a host of either byte order.
use db.Prelude.{
  ℕ, ◌+◌, ◌*◌, ◌%◌, ◌^◌, ◌≤◌, ◌<◌, ◌≡◌, refl, ◌∙◌, inl, List, [], ◌∷◌, zero, suc, length, replicate,
  splice, get_or, window, length-splice, length-replicate, Bool, true, false, not, ◌==◌, le→leb,
  lt→ltb, ==_iff, arith, get_or-window, if◌then◌else◌, get_or-splice_in, slice-eq-some, drop-splice,
  ◌||◌,
}
use db.Outcomes.{ok, rem_usize-eq-ok}
use db.Words.{Endian, little, big, to_ne_u32, from_ne_u32, swap_bytes_u32, u32_from, bit_set}
use db.Words.RoundTrip.{length-to_ne_u32, u32_from-splice_self, u32_from-splice_apart}
use db.Format.{
  parse_meta, btree_magic, btree_version, min_psize, max_psize, b_nodups, meta_size, r_recno_bit,
}
use db.PageBuf.{write_u32}
use db.PageBuf.Writes.{write_u32-eq-ok, copy_into-eq-ok}
use db.Db.{open_db, foreign_flags, page}
use db.Writer.{Writer, build_meta, finish, page_bytes}

-- whether two hosts differ in byte order
abbrev pub differs : Endian → Endian → Bool
differs little little = false
differs little big = true
differs big little = true
differs big big = false

-- the word at the head of `xs`, read by a host that swaps where `swap` says so
abbrev read_swapped : Endian → Bool → List ℕ → ℕ → ℕ
read_swapped h swap xs off = if swap then swap_bytes_u32 (u32_from h xs off) else u32_from h xs off

-- A word written on one host is read on another that swaps exactly if their byte orders differ.
cross_word :
    (h h' : Endian) (v : ℕ) → v < 2 ^ 32 → read_swapped h' (differs h h') (to_ne_u32 h v) 0 ≡ v
unfolding to_ne_u32 from_ne_u32 swap_bytes_u32
cross_word little little v p = omega arith
cross_word little big v p = omega arith
cross_word big little v p = omega arith
cross_word big big v p = omega arith

-- `Meta::parse` finds out whether to swap.
cross_magic :
    (h h' : Endian) → not (u32_from h' (to_ne_u32 h btree_magic) 0 == btree_magic) ≡ differs h h'
unfolding to_ne_u32 from_ne_u32
cross_magic little little = refl
cross_magic little big = refl
cross_magic big little = refl
cross_magic big big = refl

-- Words written one behind the other.
module _ (h : Endian) where
  abbrev put_words : List ℕ → ℕ → List ℕ → List ℕ
  put_words buf off [] = buf
  put_words buf off (v ∷ vs) = put_words (splice buf off (to_ne_u32 h v)) (off + 4) vs

  length-put_words :
      (buf : List ℕ) (off : ℕ) (vs : List ℕ) → length (put_words buf off vs) ≡ length buf
  length-put_words buf off [] = refl
  length-put_words buf off (v ∷ vs) =
      length-put_words (splice buf off (to_ne_u32 h v)) (off + 4) vs ∙ length-splice buf off _

  put_words-before :
      (e : Endian) (buf : List ℕ) (off : ℕ) (vs : List ℕ) (at : ℕ)
      → at + 4 ≤ off
      → u32_from e (put_words buf off vs) at ≡ u32_from e buf at
  put_words-before e buf off [] at p = refl
  put_words-before e buf off (v ∷ vs) at p =
      put_words-before e (splice buf off (to_ne_u32 h v)) (off + 4) vs at (omega arith)
      ∙ u32_from-splice_apart e buf off (to_ne_u32 h v) at (inl p)

  -- Word `i` of a run from `off` on is the word written there.
  put_words-word :
      (e : Endian) (buf : List ℕ) (off : ℕ) (vs : List ℕ) (i at : ℕ)
      → at ≡ off + 4 * i
      → i < length vs
      → off + 4 * length vs ≤ length buf
      → u32_from e (put_words buf off vs) at ≡ u32_from e (to_ne_u32 h (get_or vs i 0)) 0
  put_words-word e buf off [] i at q lt p = absurd (omega arith)
  put_words-word e buf off (v ∷ vs) zero at q lt p =
      let here : at ≡ off = omega arith in
      put_words-before e (splice buf off (to_ne_u32 h v)) (off + 4) vs at (omega arith)
      ∙ rw here
          (u32_from-splice_self e buf off (to_ne_u32 h v) (length-to_ne_u32 h v) (omega arith))
  put_words-word e buf off (v ∷ vs) (suc i) at q lt p =
      put_words-word e (splice buf off (to_ne_u32 h v)) (off + 4) vs i at (omega arith)
        (omega arith) (omega (arith, length-splice buf off (to_ne_u32 h v)))

-- `Meta::parse` on host `h'` of a head that host `h` wrote.
module _ (h h' : Endian) (hdr : List ℕ) (version psize flags : ℕ) where
  parse_meta-cross :
      version < 2 ^ 32
      → psize < 2 ^ 32
      → flags < 2 ^ 32
      → u32_from h' hdr 0 ≡ u32_from h' (to_ne_u32 h btree_magic) 0
      → u32_from h' hdr 4 ≡ u32_from h' (to_ne_u32 h version) 0
      → u32_from h' hdr 8 ≡ u32_from h' (to_ne_u32 h psize) 0
      → u32_from h' hdr 20 ≡ u32_from h' (to_ne_u32 h flags) 0
      → parse_meta h' hdr ≡ (
        record { magic = btree_magic; version = version; psize = psize; flags = flags },
        differs h h',
      )
  unfolding parse_meta
  parse_meta-cross pv pp pf m v p f = rw (
    m,
    cross_magic h h',
    v,
    p,
    f,
    cross_word h h' btree_magic (omega arith),
    cross_word h h' version pv,
    cross_word h h' psize pp,
    cross_word h h' flags pf,
  )

module _ (h : Endian) (psize free nrecs flags : ℕ) where
  abbrev meta_words : List ℕ
  meta_words =
      put_words h (replicate psize 0) 0
        (btree_magic ∷ btree_version ∷ psize ∷ free ∷ nrecs ∷ flags ∷ [])

  length-meta_words : length meta_words ≡ psize
  length-meta_words =
      length-put_words h (replicate psize 0) 0
        (btree_magic ∷ btree_version ∷ psize ∷ free ∷ nrecs ∷ flags ∷ [])
      ∙ length-replicate psize 0

  build_meta-eq-ok :
      meta_size ≤ psize → psize ≤ max_psize → build_meta h psize free nrecs flags ≡ ok meta_words
  unfolding build_meta
  build_meta-eq-ok lo hi = rw (
    write_word [] 0 btree_magic (omega arith),
    write_word (btree_magic ∷ []) 4 btree_version (omega arith),
    le→leb psize max_psize hi,
    lt→ltb psize (2 ^ 32) (omega arith),
    write_word (btree_magic ∷ btree_version ∷ []) 8 psize (omega arith),
    write_word (btree_magic ∷ btree_version ∷ psize ∷ []) 12 free (omega arith),
    write_word (btree_magic ∷ btree_version ∷ psize ∷ free ∷ []) 16 nrecs (omega arith),
    write_word (btree_magic ∷ btree_version ∷ psize ∷ free ∷ nrecs ∷ []) 20 flags (omega arith),
  )
    where
      -- one more word behind those written so far
      write_word :
          (vs : List ℕ) (off v : ℕ)
          → off + 4 ≤ meta_size
          → write_u32 h (put_words h (replicate psize 0) 0 vs) off v
            ≡ ok (splice (put_words h (replicate psize 0) 0 vs) off (to_ne_u32 h v))
      write_word vs off v p = write_u32-eq-ok h (put_words h (replicate psize 0) 0 vs) off v (
          omega
            (arith, length-put_words h (replicate psize 0) 0 vs, length-replicate {A = ℕ} psize 0))

-- The writer's state as its methods keep it: a page size that the format allows, and a whole
-- number of pages, at least one.
pub record IsArena (w : Writer) : Type 0 where
  pub psize_low : min_psize ≤ w.psize
  pub psize_high : w.psize ≤ max_psize
  pub psize_even : w.psize % 2 ≡ 0
  pub whole : length w.pages % w.psize ≡ 0
  pub some_page : w.psize ≤ length w.pages
  pub known_flags : w.flags ≡ b_nodups

module _ (h : Endian) (w : Writer) (v : IsArena w) where
  abbrev meta_of : List ℕ
  meta_of = meta_words h w.psize w.free w.nrecs w.flags

  finish-eq-ok : finish h w ≡ ok (splice w.pages 0 meta_of)
  unfolding finish
  finish-eq-ok =
      rw
        (
          nonempty,
          (==_iff (length w.pages % w.psize) 0).1 v.whole,
          build_meta-eq-ok h w.psize w.free w.nrecs w.flags (omega arith) v.psize_high,
        )
        (copy_into-eq-ok w.pages 0 meta_of
          (omega (arith, length-meta_words h w.psize w.free w.nrecs w.flags)))
    where
      nonempty : (length w.pages == 0) ≡ false
      nonempty = ground arith

  head_byte :
      (j : ℕ)
      → j < meta_size
      → get_or (window (splice w.pages 0 meta_of) 0 meta_size) j 0 ≡ get_or meta_of j 0
  head_byte j p =
      get_or-window (splice w.pages 0 meta_of) 0 meta_size j 0 p
      ∙ get_or-splice_in w.pages 0 meta_of j 0
          (omega (arith, length-meta_words h w.psize w.free w.nrecs w.flags))
          (omega (arith, length-meta_words h w.psize w.free w.nrecs w.flags))

  -- A word of the file's head, read by host `h'`.
  file_word :
      (h' : Endian) (i at : ℕ)
      → at ≡ 4 * i
      → i < 6
      → u32_from h' (window (splice w.pages 0 meta_of) 0 meta_size) at
        ≡ u32_from h'
            (to_ne_u32 h (
              get_or (btree_magic ∷ btree_version ∷ w.psize ∷ w.free ∷ w.nrecs ∷ w.flags ∷ []) i 0))
            0
  file_word h' i at q lt =
      rw
        (
          head_byte at (omega arith),
          head_byte (at + 1) (omega arith),
          head_byte (at + 2) (omega arith),
          head_byte (at + 3) (omega arith),
        )
        (put_words-word h h' (replicate w.psize 0) 0
          (btree_magic ∷ btree_version ∷ w.psize ∷ w.free ∷ w.nrecs ∷ w.flags ∷ []) i at
          (omega arith) lt (omega (arith, length-replicate {A = ℕ} w.psize 0)))

  open-file :
      (h' : Endian)
      → open_db h' (splice w.pages 0 meta_of)
        ≡ ok (record { mmap = splice w.pages 0 meta_of; psize = w.psize; swap = differs h h' })
  unfolding open_db
  open-file h' = rw (
    slice-eq-some (splice w.pages 0 meta_of) 0 meta_size (omega arith)
        (omega (arith, length-splice w.pages 0 meta_of)),
    parse_meta-cross h h' (window (splice w.pages 0 meta_of) 0 meta_size) btree_version w.psize
        w.flags (omega arith) (omega arith) (omega arith) (file_word h' 0 0 refl (omega arith))
        (file_word h' 1 4 refl (omega arith)) (file_word h' 2 8 refl (omega arith))
        (file_word h' 5 20 refl (omega arith)),
    length-splice w.pages 0 meta_of,
    le→leb min_psize w.psize v.psize_low,
    le→leb w.psize max_psize v.psize_high,
    (==_iff (w.psize % 2) 0).1 v.psize_even,
    flags_pass,
    rem_usize-eq-ok (length w.pages) w.psize (omega (arith, v.psize_low)),
    (==_iff (length w.pages % w.psize) 0).1 v.whole,
  )
    where
      flags_pass : (foreign_flags w.flags || bit_set w.flags r_recno_bit) ≡ false
      flags_pass = ground arith

  page-file :
      (swap : Bool) (pgno : ℕ)
      → 1 ≤ pgno
      → (pgno + 1) * w.psize ≤ length w.pages
      → page (record { mmap = splice w.pages 0 meta_of; psize = w.psize; swap = swap }) pgno
        ≡ page_bytes w pgno
  unfolding page page_bytes
  page-file swap pgno pos inside = rw (
    slice-eq-some (splice w.pages 0 meta_of) (pgno * w.psize) (pgno * w.psize + w.psize)
        (omega arith) (omega (arith, length-splice w.pages 0 meta_of)),
    slice-eq-some w.pages (pgno * w.psize) (pgno * w.psize + w.psize) (omega arith) (omega arith),
    drop-splice w.pages 0 meta_of (pgno * w.psize)
        (grind (arith, length-meta_words h w.psize w.free w.nrecs w.flags)),
  )

-- For a writer with a legal page size and a whole number of pages: `finish` writes a file of the
-- arena's length that `open` accepts on a host of either byte order, with the writer's page size,
-- swapping exactly if the two hosts differ; and each page from 1 on is the page of the arena.
pub open-finish :
    (h h' : Endian) (w : Writer)
    → IsArena w
    → (file : List ℕ) × (finish h w ≡ ok file)
      × (length file ≡ length w.pages)
      × (open_db h' file ≡ ok (record { mmap = file; psize = w.psize; swap = differs h h' }))
      × ((pgno : ℕ)
          → 1 ≤ pgno
          → (pgno + 1) * w.psize ≤ length w.pages
          → page (record { mmap = file; psize = w.psize; swap = differs h h' }) pgno
            ≡ page_bytes w pgno)
open-finish h h' w v = (
  splice w.pages 0 (meta_of h w v),
  finish-eq-ok h w v,
  length-splice w.pages 0 (meta_of h w v),
  open-file h w v h',
  page-file h w v (differs h h'),
)
