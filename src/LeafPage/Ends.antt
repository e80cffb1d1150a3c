-- ===== src/LeafPage/Ends.antt =====
-- The first and the last key of a leaf, as the splits read them off.
use db.Prelude.{ℕ, ◌-◌, ◌<◌, ◌≡◌, List, false, arith}
use db.Outcomes.{ok, sub_usize-eq-ok}
use db.Words.{Endian}
use db.Words.Bytes.{AreBytes}
use db.Writer.Entries.{leaf_first_key, leaf_last_key}
use db.LeafPage.{IsLeaf, key_at}
use db.LeafPage.Read.{parse-eq-ok, leaf_entry-eq-ok, key-eq-ok}

module _ (h : Endian) (p : List ℕ) (n : ℕ) (v : IsLeaf h p n) (bytes : AreBytes p)
    (some_entry : 0 < n) where
  pub leaf_first_key-eq-ok : leaf_first_key h p ≡ ok (key_at h p 0)
  unfolding leaf_first_key
  leaf_first_key-eq-ok = rw (
    parse-eq-ok h false p n v bytes 0,
    leaf_entry-eq-ok h false p n v bytes 0 0 some_entry,
    key-eq-ok h false p n v bytes 0 0 some_entry,
  )

  pub leaf_last_key-eq-ok : leaf_last_key h p ≡ ok (key_at h p (n - 1))
  unfolding leaf_last_key
  leaf_last_key-eq-ok = rw (
    parse-eq-ok h false p n v bytes 0,
    sub_usize-eq-ok n 1 some_entry,
    leaf_entry-eq-ok h false p n v bytes 0 (n - 1) (omega arith),
    key-eq-ok h false p n v bytes 0 (n - 1) (omega arith),
  )
