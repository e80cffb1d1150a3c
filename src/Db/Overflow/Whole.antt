-- ===== src/Db/Overflow/Whole.antt =====
-- What `fetch_overflow` returns.
use db.Prelude.{
  ℕ, zero, suc, ◌+◌, ◌-◌, ◌≡◌, List, [], length, arith, min, length-append, length-take, ltb,
}
use db.Outcomes.{ok, ◌>>=◌, ◌>>◌, fail_if, corrupt_overflow, slice_to, >>=-eq-ok}
use db.Words.{Endian}
use db.Db.{Db}
use db.Page.{overflow_payload}
use db.Db.Overflow.{chain_page, chain_part, fetch_loop, fetch_overflow}

-- what a round takes of a page's payload
length-taken :
    (start want next : ℕ) (payload : List ℕ) (part : List ℕ × ℕ)
    → fail_if (ltb (length payload) want) (corrupt_overflow start)
        >> ◌>>=◌ {B = List ℕ × ℕ} (slice_to payload want) (λ bytes. ok (bytes, next))
      ≡ ok part
    → length part.0 ≡ want
length-taken start want next payload part e = ground (arith, length-take want payload)

module _ (h : Endian) (db : Db) where
  -- A part has the length asked for.
  pub length-chain_part :
      (start pgno want : ℕ) (part : List ℕ × ℕ)
      → chain_part h db start pgno want ≡ ok part
      → length part.0 ≡ want
  unfolding chain_part
  length-chain_part start pgno want part e =
      let (view, _, cut) = >>=-eq-ok (chain_page h db start pgno) _ e in
      let (payload, _, taken) = >>=-eq-ok (overflow_payload view) _ cut in
      length-taken start want view.next_pg payload part taken

  length-fetch_loop :
      (start per_page fuel pgno remaining : ℕ) (out bytes : List ℕ)
      → fetch_loop h db start per_page fuel pgno remaining out ≡ ok bytes
      → length bytes ≡ length out + remaining
  unfolding fetch_loop
  length-fetch_loop start per_page zero pgno remaining out bytes e = cc
  length-fetch_loop start per_page (suc fuel) pgno remaining out bytes e = grind (
    arith,
    length-chain_part start pgno (min remaining per_page),
    length-fetch_loop start per_page fuel,
    length-append,
  )

-- What `fetch_overflow` returns has the size that the reference to the chain names.
pub length-fetch_overflow :
    (h : Endian) (db : Db) (start size : ℕ) (bytes : List ℕ)
    → fetch_overflow h db start size ≡ ok bytes
    → length bytes ≡ size
unfolding fetch_overflow
length-fetch_overflow h db start size bytes e =
    grind (arith, length-fetch_loop h db start (db.psize - 20) (suc size) start size [] bytes)
