-- ===== src/Outcomes.antt =====
-- src/error.rs, and how a call of the crate can end. `io` stands for an error of the operating
-- system; no modelled function looks into one.
pub mod Settles
use db.Prelude.{
  ℕ, ◌+◌, ◌-◌, ◌%◌, ◌==◌, take, drop, ◌^◌, ◌≤◌, ◌<◌, ◌≡◌, refl, Bool, true, false, Option, none,
  some, String,
}
use db.Prelude.{List, ltb, leb, get_elem?, get_or, if◌then◌else◌, arith, length}
use db.Prelude.{get_elem?-eq-get_or, ◌⊎◌, inl, inr}

pub data Error : Type 0 where
  io : Error
  short_file : Error
  bad_magic : ℕ → Error
  bad_version : ℕ → Error
  bad_page_size : ℕ → Error
  unaligned_file_length : ℕ → ℕ → Error
  unsupported_flags : ℕ → Error
  page_out_of_bounds : ℕ → Error
  corrupt_page : ℕ → String → Error
  corrupt_overflow : ℕ → Error
  entry_too_large : ℕ → ℕ → Error

-- `ok` and `err` are the two sides of `Result`. `panic` is an index or slice out of range, a failed
-- assertion, a subtraction below zero or a division by zero; `out_of_fuel` is no end at all: a loop whose rounds are
-- bounded here only by the fuel of the model went on beyond it.
pub data Outcome {ℓ} (A : Type ℓ) : Type ℓ where
  ok : A → Outcome A
  err : Error → Outcome A
  panic : Outcome A
  out_of_fuel : Outcome A

infixl 5 ◌>>=◌ ◌>>◌
abbrev pub ◌>>=◌ {ℓ κ} : {A : Type ℓ} {B : Type κ} → Outcome A → (A → Outcome B) → Outcome B
ok a >>= f = f a
err e >>= f = err e
panic >>= f = panic
out_of_fuel >>= f = out_of_fuel

abbrev pub ◌>>◌ {ℓ} : {B : Type ℓ} → Outcome (Unit {0}) → Outcome B → Outcome B
m >> k = m >>= λ _. k

-- `if test { return Err(e) }`
abbrev pub fail_if : Bool → Error → Outcome (Unit {0})
fail_if true e = err e
fail_if false e = ok tt

-- `assert!(test)`
abbrev pub assert : Bool → Outcome (Unit {0})
assert true = ok tt
assert false = panic

-- `o.ok_or(e)`
abbrev pub ok_or {ℓ} : {A : Type ℓ} → Option A → Error → Outcome A
ok_or none e = err e
ok_or (some a) e = ok a

-- `o.expect(..)`, and an index whose `get` is `o`
abbrev pub expect {ℓ} : {A : Type ℓ} → Option A → Outcome A
expect none = panic
expect (some a) = ok a

-- `usize` is 64 bits wide.
abbrev pub usize_mod : ℕ
usize_mod = 2 ^ 64

-- `a.checked_add(b)` on `usize`
abbrev pub checked_add : ℕ → ℕ → Option ℕ
checked_add a b = if ltb (a + b) usize_mod then some (a + b) else none

-- `a - b` on `usize`, with overflow checks
abbrev pub sub_usize : ℕ → ℕ → Outcome ℕ
sub_usize a b = if leb b a then ok (a - b) else panic

-- `a % b` on `usize`
abbrev pub rem_usize : ℕ → ℕ → Outcome ℕ
rem_usize a b = if b == 0 then panic else ok (a % b)

-- `&xs[n..]`, and the second part of `xs.split_at(n)`
abbrev pub slice_from : List ℕ → ℕ → Outcome (List ℕ)
slice_from xs n = if leb n (length xs) then ok (drop n xs) else panic

-- `&xs[..n]`
abbrev pub slice_to : List ℕ → ℕ → Outcome (List ℕ)
slice_to xs n = if leb n (length xs) then ok (take n xs) else panic

-- `u32::try_from(a).expect(..)`
abbrev pub to_u32 : ℕ → Outcome ℕ
to_u32 a = if ltb a (2 ^ 32) then ok a else panic

-- `xs[i]`
abbrev pub index : List ℕ → ℕ → Outcome ℕ
index xs i = expect (get_elem? xs i)

pub sub_usize-eq-ok : (a b : ℕ) → b ≤ a → sub_usize a b ≡ ok (a - b)
sub_usize-eq-ok a b h = ground arith

pub index-eq-ok : (xs : List ℕ) (i : ℕ) → i < length xs → index xs i ≡ ok (get_or xs i 0)
index-eq-ok xs i h = ground (arith, get_elem?-eq-get_or xs i 0)

pub rem_usize-eq-ok : (a b : ℕ) → 0 < b → rem_usize a b ≡ ok (a % b)
rem_usize-eq-ok a b h = ground arith

pub slice_from-eq-ok : (xs : List ℕ) (n : ℕ) → n ≤ length xs → slice_from xs n ≡ ok (drop n xs)
slice_from-eq-ok xs n h = ground arith

pub slice_to-eq-ok : (xs : List ℕ) (n : ℕ) → n ≤ length xs → slice_to xs n ≡ ok (take n xs)
slice_to-eq-ok xs n h = ground arith

-- A chain that succeeds has a first step that does, and goes on from its value.
pub >>=-eq-ok {ℓ κ} :
    {A : Type ℓ} {B : Type κ} {last : B} (first : Outcome A) (next : A → Outcome B)
    (whole : (first >>= next) ≡ ok last)
    → (middle : A) × (first ≡ ok middle) × (next middle ≡ ok last)
>>=-eq-ok (ok middle) next whole = (middle, refl, whole)
>>=-eq-ok (err e) next whole = cc
>>=-eq-ok panic next whole = cc
>>=-eq-ok out_of_fuel next whole = cc

pub Outcome-cases {ℓ} :
    {A : Type ℓ} (m : Outcome A)
    → ((a : A) × (m ≡ ok a)) ⊎ (((e : Error) × (m ≡ err e)) ⊎ ((m ≡ panic) ⊎ (m ≡ out_of_fuel)))
Outcome-cases (ok a) = inl (a, refl)
Outcome-cases (err e) = inr (inl (e, refl))
Outcome-cases panic = inr (inr (inl refl))
Outcome-cases out_of_fuel = inr (inr (inr refl))
