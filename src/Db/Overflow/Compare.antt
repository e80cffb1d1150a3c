-- ===== src/Db/Overflow/Compare.antt =====
-- The streaming comparison of a key with an overflow chain agrees with reading the chain first.
use mathlib.Core.List.{append_assoc, append-nil}
use db.Prelude.{
  ℕ, zero, suc, ◌+◌, ◌-◌, ◌≤◌, ◌<◌, ◌≡◌, refl, sym, ap, ◌∙◌, inl, inr, List, [], ◌∷◌, ◌++◌, length,
  drop, min, compare, Ordering, arith, none, some, Option, Bool, true, false, length-drop, lt→ltb,
  Option-cases,
}
use native.Mathlib.Nat.{sub-add-eq}
use native.Mathlib.Decide.{dec_lt}
use db.Outcomes.{Outcome, ok, err, panic, out_of_fuel, ◌>>=◌, >>=-eq-ok, sub_usize-eq-ok}
use db.Words.{Endian}
use db.Format.{page_header_size}
use db.Order.{cmp}
use db.Order.Prefix.{
  cmp_common, cmp-take-min, cmp-append_lt, cmp-append_gt, cmp-append_short, cmp-append_on,
}
use db.Db.{Db}
use db.Db.Overflow.Whole.{length-chain_part}
use db.Db.Overflow.{
  chain_part, fetch_loop, fetch_overflow, compare_part, compare_loop, compare_overflow,
}

ok_injective {ℓ} : {A : Type ℓ} {a b : A} → ok a ≡ ok b → a ≡ b
ok_injective e = cc

cmp-nil : (a : List ℕ) → cmp a [] ≡ compare (length a) 0
unfolding cmp
cmp-nil [] = refl
cmp-nil (x ∷ a) = ground arith

drop-nil : (n : ℕ) → drop {A = ℕ} n [] ≡ []
drop-nil zero = refl
drop-nil (suc n) = refl

drop-drop : (m n : ℕ) (xs : List ℕ) → drop m (drop n xs) ≡ drop (n + m) xs
drop-drop m zero xs = ap (λ k. drop k xs) {x = m} {y = 0 + m} (omega arith)
drop-drop zero (suc n) [] = sym (drop-nil (suc n + 0))
drop-drop (suc m) (suc n) [] = sym (drop-nil (suc n + suc m))
drop-drop m (suc n) (x ∷ xs) =
    drop-drop m n xs ∙ ap (λ k. drop k (x ∷ xs)) {x = suc (n + m)} {y = suc n + m} (omega arith)

drop-eq-nil : (n : ℕ) (xs : List ℕ) → length xs ≤ n → drop n xs ≡ []
drop-eq-nil n [] h = drop-nil n
drop-eq-nil zero (x ∷ xs) h = absurd (omega arith)
drop-eq-nil (suc n) (x ∷ xs) h = drop-eq-nil n xs (omega arith)

abbrev is_ok {ℓ} : {A : Type ℓ} → Outcome A → Bool
is_ok (ok a) = true
is_ok (err e) = false
is_ok panic = false
is_ok out_of_fuel = false

is_ok_inv {ℓ} : {A : Type ℓ} (m : Outcome A) → is_ok m ≡ true → (a : A) × (m ≡ ok a)
is_ok_inv (ok a) e = (a, refl)
is_ok_inv (err x) e = cc
is_ok_inv panic e = cc
is_ok_inv out_of_fuel e = cc

-- No round slices out of range.
compare_part-eq-ok :
    (key : List ℕ) (consumed : ℕ) (other : List ℕ)
    → (decided : Option Ordering) × (compare_part key consumed other ≡ ok decided)
unfolding compare_part
compare_part-eq-ok key consumed other = is_ok_inv (compare_part key consumed other) in_range
  where
    in_range : is_ok (compare_part key consumed other) ≡ true
    in_range = ground (arith, length-drop consumed key)

-- What one round of the comparison says of the whole rest of the chain.
module _ (key : List ℕ) (consumed : ℕ) (other rest : List ℕ) where
  compare_part-some :
      {o : Ordering}
      → 0 < length other
      → compare_part key consumed other ≡ ok (some o)
      → cmp (drop consumed key) (other ++ rest) ≡ o
  unfolding compare_part cmp_common
  compare_part-some {o} pos e = ground (
    arith,
    length-drop consumed key,
    drop-eq-nil consumed key,
    cmp-take-min (drop consumed key) other,
    cmp-append_lt (drop consumed key) other rest,
    cmp-append_gt (drop consumed key) other rest,
    cmp-append_short (drop consumed key) other rest,
  )

  compare_part-none :
      compare_part key consumed other ≡ ok none
      → (consumed + length other ≤ length key)
        × (cmp (drop consumed key) (other ++ rest) ≡ cmp (drop (consumed + length other) key) rest)
  unfolding compare_part
  compare_part-none e = ground (
    arith,
    length-drop consumed key,
    cmp-take-min (drop consumed key) other,
    cmp-append_on (drop consumed key) other rest,
    drop-drop (length other) consumed key,
  )

module _ (h : Endian) (db : Db) (key : List ℕ) (start per_page total : ℕ)
    (roomy : 0 < per_page) where
  -- One round of each loop where bytes remain.
  fetch_round :
      (fuel pgno remaining : ℕ) (out : List ℕ) {bytes : List ℕ}
      → 0 < remaining
      → fetch_loop h db start per_page (suc fuel) pgno remaining out ≡ ok bytes
      → (part : List ℕ × ℕ) × (chain_part h db start pgno (min remaining per_page) ≡ ok part)
        × (fetch_loop h db start per_page fuel part.1
              (remaining - min remaining per_page)
              (out ++ part.0)
            ≡ ok bytes)
  unfolding fetch_loop
  fetch_round fuel pgno remaining out {bytes} pos e =
      >>=-eq-ok (chain_part h db start pgno (min remaining per_page))
        (λ part.
          fetch_loop h db start per_page fuel part.1 (remaining - min remaining per_page)
            (out ++ part.0))
        (ground (arith, sub_usize-eq-ok remaining (min remaining per_page)))

  compare_round :
      (fuel pgno consumed : ℕ) (part : List ℕ × ℕ)
      → consumed < total
      → chain_part h db start pgno (min (total - consumed) per_page) ≡ ok part
      → compare_loop h db key start per_page total (suc fuel) pgno consumed ≡ (
          compare_part key consumed part.0 >>= λ decided. elim decided [
            | some ord ↦ ok ord
            | none ↦
                compare_loop h db key start per_page total fuel part.1
                  (consumed + min (total - consumed) per_page)
          ])
  unfolding compare_loop
  compare_round fuel pgno consumed part lt e =
      rw (lt→ltb consumed total lt, sub_usize-eq-ok total consumed (omega arith), e)

  fetch_end :
      (fuel pgno : ℕ) (out : List ℕ) → fetch_loop h db start per_page (suc fuel) pgno 0 out ≡ ok out
  unfolding fetch_loop
  fetch_end fuel pgno out = refl

  compare_end :
      (fuel pgno consumed : ℕ)
      → consumed ≡ total
      → consumed ≤ length key
      → compare_loop h db key start per_page total (suc fuel) pgno consumed
        ≡ ok (cmp (drop consumed key) [])
  unfolding compare_loop
  compare_end fuel pgno consumed e k =
      ground (arith, cmp-nil (drop consumed key), length-drop consumed key)

  fetch_loop-append :
      (fuel pgno remaining : ℕ) (out : List ℕ) {bytes : List ℕ}
      → fetch_loop h db start per_page fuel pgno remaining out ≡ ok bytes
      → (rest : List ℕ) × (bytes ≡ out ++ rest)
  fetch_loop-append zero pgno remaining out e = absurd (unfold fetch_loop in cc)
  fetch_loop-append (suc fuel) pgno zero out e =
      ([], ok_injective (sym e ∙ fetch_end fuel pgno out) ∙ sym (append-nil out))
  fetch_loop-append (suc fuel) pgno (suc remaining) out e =
      let (part, r, e') = fetch_round fuel pgno (suc remaining) out (omega arith) e in
      let (rest, p) =
        fetch_loop-append fuel part.1 (suc remaining - min (suc remaining) per_page) (out ++ part.0)
          e' in
      (part.0 ++ rest, p ∙ append_assoc out part.0 rest)

  -- The two ways a round of the comparison goes on, once its part has been read.
  module _ (fuel pgno consumed : ℕ) (part : List ℕ × ℕ) (lt : consumed < total)
      (r : chain_part h db start pgno (min (total - consumed) per_page) ≡ ok part)
      (rest : List ℕ) where
    abbrev taken : ℕ
    taken = min (total - consumed) per_page

    round_decided :
        {ord : Ordering}
        → compare_part key consumed part.0 ≡ ok (some ord)
        → compare_loop h db key start per_page total (suc fuel) pgno consumed
          ≡ ok (cmp (drop consumed key) (part.0 ++ rest))
    round_decided {ord} decided =
        compare_round fuel pgno consumed part lt r
        ∙ rw decided (
            ap ok (
              sym (
                compare_part-some key consumed part.0 rest
                  (omega (arith, length-chain_part h db start pgno taken part r)) decided)))

    round_goes_on :
        compare_part key consumed part.0 ≡ ok none
        → compare_loop h db key start per_page total fuel part.1 (consumed + taken)
          ≡ ok (cmp (drop (consumed + taken) key) rest)
        → compare_loop h db key start per_page total (suc fuel) pgno consumed
          ≡ ok (cmp (drop consumed key) (part.0 ++ rest))
    round_goes_on go later =
        compare_round fuel pgno consumed part lt r
        ∙ rw go (
            later
            ∙ ap ok (
                ap (λ n. cmp (drop (consumed + n) key) rest)
                  (sym (length-chain_part h db start pgno taken part r))
                ∙ sym (compare_part-none key consumed part.0 rest go).1))

    taken-le : compare_part key consumed part.0 ≡ ok none → consumed + taken ≤ length key
    taken-le go = omega (
      arith,
      length-chain_part h db start pgno taken part r,
      (compare_part-none key consumed part.0 rest go).0,
    )

  -- From any point of the chain on: what `fetch_loop` still reads is what `compare_loop` compares.
  compare_loop-fetch_loop :
      (fuel pgno consumed : ℕ) (out bytes : List ℕ)
      → consumed ≤ total
      → consumed ≤ length key
      → fetch_loop h db start per_page fuel pgno (total - consumed) out ≡ ok bytes
      → (rest : List ℕ) × (bytes ≡ out ++ rest)
        × (compare_loop h db key start per_page total fuel pgno consumed
            ≡ ok (cmp (drop consumed key) rest))
  compare_loop-fetch_loop zero pgno consumed out bytes c k e = absurd (unfold fetch_loop in cc)
  compare_loop-fetch_loop (suc fuel) pgno consumed out bytes c k e = elim (dec_lt consumed total) [
    | no z ↦ (
      [],
      ok_injective (sym e ∙ last z) ∙ sym (append-nil out),
      compare_end fuel pgno consumed (omega arith) k,
    )
    | yes lt ↦
        let (part, r, e') = fetch_round fuel pgno (total - consumed) out (omega arith) e in
        let (decision, made) = compare_part-eq-ok key consumed part.0 in
        elim (Option-cases decision) [
          | inr (ord, e) ↦
              let decided = made ∙ ap ok e in
              let (rest, p) = fetch_loop-append fuel part.1 _ (out ++ part.0) e' in
              (
                part.0 ++ rest,
                p ∙ append_assoc out part.0 rest,
                round_decided fuel pgno consumed part lt r rest decided,
              )
          | inl e ↦
              let go = made ∙ ap ok e in
              let (rest, p, later) =
                compare_loop-fetch_loop fuel part.1
                  (consumed + taken fuel pgno consumed part lt r []) (out ++ part.0) bytes
                  (omega arith) (taken-le fuel pgno consumed part lt r [] go)
                  (rw (sub-add-eq total consumed (min (total - consumed) per_page)) e') in
              (
                part.0 ++ rest,
                p ∙ append_assoc out part.0 rest,
                round_goes_on fuel pgno consumed part lt r rest go later,
              )
        ]
  ]
    where
      last :
          ¬ (consumed < total)
          → fetch_loop h db start per_page (suc fuel) pgno (total - consumed) out ≡ ok out
      last z = let e' : total - consumed ≡ 0 = omega arith in rw e' (fetch_end fuel pgno out)

module _ (h : Endian) (db : Db) (start size : ℕ) (roomy : page_header_size < db.psize) where
  fetch_overflow_lem :
      fetch_overflow h db start size
      ≡ fetch_loop h db start (db.psize - page_header_size) (suc size) start size []
  unfolding fetch_overflow
  fetch_overflow_lem = rw (sub_usize-eq-ok db.psize page_header_size (omega arith))

  compare_overflow_lem :
      (key : List ℕ)
      → compare_overflow h db key start size
        ≡ compare_loop h db key start (db.psize - page_header_size) size (suc size) start 0
  unfolding compare_overflow
  compare_overflow_lem key = rw (sub_usize-eq-ok db.psize page_header_size (omega arith))

-- On a page size above the page header, comparing a key with an overflow chain gives what comparing
-- it with the chain's bytes gives, wherever those can be read.
pub compare_overflow-fetch_overflow :
    (h : Endian) (db : Db) (key : List ℕ) (start size : ℕ) {bytes : List ℕ}
    → page_header_size < db.psize
    → fetch_overflow h db start size ≡ ok bytes
    → compare_overflow h db key start size ≡ ok (cmp key bytes)
compare_overflow-fetch_overflow h db key start size {bytes} roomy e =
    let whole : size - 0 ≡ size = omega arith in
    let (rest, p, q) =
      compare_loop-fetch_loop h db key start (db.psize - page_header_size) size (omega arith)
        (suc size) start 0 [] bytes (omega arith) (omega arith)
        (rw whole (sym (fetch_overflow_lem h db start size roomy) ∙ e)) in
    compare_overflow_lem h db start size roomy key ∙ q ∙ ap (λ l. ok (cmp key l)) (sym p)
