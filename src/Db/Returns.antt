-- ===== src/Db/Returns.antt =====
-- src/db.rs: `get` on files of any page links: it ends, or it comes to a page a second time.
use native.Mathlib.Decide.{dec_lt, ℕ_discrete}
use native.Mathlib.Nat.{mul-le-mul_right}
use db.Prelude.{
  ℕ, zero, suc, ◌+◌, ◌*◌, ◌≤◌, ◌<◌, ◌≡◌, ◌≢◌, refl, sym, ap, ◌∙◌, subst, ◌⊎◌, inl, inr, List, [],
  ◌∷◌, length, Bool, true, false, ◌==◌, ==_iff, if◌then◌else◌, Bool-cases, arith,
}
use db.Outcomes.{Outcome, ok, err, panic, out_of_fuel, Error}
use db.Outcomes.Settles.{settles}
use db.Words.{Endian}
use db.Format.{page_header_size, p_root}
use db.Page.{PageView, parse, is_leaf, is_internal}
use db.Page.Settles.{parse-settles, leaf_entry-settles}
use db.Db.{Db, open_db, page}
use db.Db.Search.{descend_internal, search_loop, search, get}
use db.Db.Settles.{page-settles, materialise-settles, search_leaf-settles, descend_internal-settles}
use db.Db.Ends.{open_db-roomy}

-- Lists of the page numbers that a descent has not come to.
unfoldable In : ℕ → List ℕ → Type 0
In x [] = ⊥
In x (y ∷ ys) = (x ≡ y) ⊎ In x ys

unfoldable without : ℕ → List ℕ → List ℕ
without x [] = []
without x (y ∷ ys) = if x == y then ys else y ∷ without x ys

unfoldable below : ℕ → List ℕ
below zero = []
below (suc n) = n ∷ below n

length-below : (n : ℕ) → length (below n) ≡ n
unfolding below
length-below zero = refl
length-below (suc n) = ap suc (length-below n)

In-below : (p n : ℕ) → p < n → In p (below n)
unfolding In below
In-below p zero lt = absurd (omega arith)
In-below p (suc n) lt = elim (ℕ_discrete p n) [
  | yes e ↦ inl e
  | no d ↦ inr (In-below p n (omega (arith, d)))
]

length-without : (x : ℕ) (ys : List ℕ) → In x ys → suc (length (without x ys)) ≡ length ys
unfolding In without
length-without x [] i = absurd i
length-without x (y ∷ ys) (inl e) = ground arith
length-without x (y ∷ ys) (inr i) = let rest = length-without x ys i in ground arith

In-without : (x z : ℕ) (ys : List ℕ) → In z ys → z ≢ x → In z (without x ys)
unfolding In without
In-without x z [] i ne = absurd i
In-without x z (y ∷ ys) i ne = go (x == y) refl i (λ there. In-without x z ys there ne)
  where
    go :
        (b : Bool)
        → (x == y) ≡ b
        → (z ≡ y) ⊎ In z ys
        → (In z ys → In z (without x ys))
        → In z (if b then ys else y ∷ without x ys)
    go true same (inl e) behind = absurd (ne (e ∙ sym ((==_iff x y).0 same)))
    go true same (inr i) behind = i
    go false off (inl e) behind = inl e
    go false off (inr i) behind = inr (behind i)

Settled-cases {ℓ} :
    {A : Type ℓ} (m : Outcome A)
    → settles m ≡ true
    → ((a : A) × (m ≡ ok a)) ⊎ ((e : Error) × (m ≡ err e))
Settled-cases (ok a) s = inl (a, refl)
Settled-cases (err e) s = inr (e, refl)
Settled-cases panic s = cc
Settled-cases out_of_fuel s = cc

-- `Comes k pgno`: the descent for the key comes to page `pgno` after `k` steps from the root.
pub data Comes (h : Endian) (db : Db) (key : List ℕ) : ℕ → ℕ → Type 0 where
  at_root : Comes h db key 0 p_root
  deeper :
      (k pgno child : ℕ) (bytes : List ℕ) (view : PageView)
      → Comes h db key k pgno
      → page db pgno ≡ ok bytes
      → parse h pgno bytes db.swap ≡ ok view
      → is_leaf view ≡ false
      → descend_internal h db view key ≡ ok child
      → Comes h db key (suc k) child

-- The descent for the key comes to a page twice.
abbrev pub Returns : Endian → Db → List ℕ → Type 0
Returns h db key =
    (i : ℕ) × (j : ℕ) × (pgno : ℕ) × (i < j) × Comes h db key i pgno × Comes h db key j pgno

page-inside :
    (db : Db) (pgno : ℕ) (bytes : List ℕ)
    → page db pgno ≡ ok bytes
    → pgno * db.psize + db.psize ≤ length db.mmap
unfolding page
page-inside db pgno bytes at = ground arith

inside-lt : (p n psize len : ℕ) → p * psize + psize ≤ len → len < suc n * psize → p < n
inside-lt p n psize len inside short = elim (dec_lt p n) [
  | yes lt ↦ lt
  | no far ↦
      let le : n ≤ p = omega (arith, far) in
      let more : n * psize ≤ p * psize = mul-le-mul_right psize le in absurd (omega arith)
]

module _ (h : Endian) (db : Db) (roomy : page_header_size < db.psize) (key : List ℕ) where
  -- A step of the descent ends it, or goes on with a child.
  search_step :
      (fuel pgno : ℕ)
      → (settles (search_loop h db (suc fuel) pgno key) ≡ true)
        ⊎ ((bytes : List ℕ) × (view : PageView) × (child : ℕ) × (page db pgno ≡ ok bytes)
            × (parse h pgno bytes db.swap ≡ ok view)
            × (is_leaf view ≡ false)
            × (descend_internal h db view key ≡ ok child)
            × (search_loop h db (suc fuel) pgno key ≡ search_loop h db fuel child key))
  unfolding search_loop
  search_step fuel pgno = elim (Settled-cases (page db pgno) (page-settles h db pgno)) [
    | inr (e, at) ↦ inl (rw at refl)
    | inl (bytes, at) ↦
        elim (Settled-cases (parse h pgno bytes db.swap) (parse-settles h pgno bytes db.swap)) [
          | inr (e, parsed) ↦ inl (rw (at, parsed) refl)
          | inl (view, parsed) ↦ elim (Bool-cases (is_leaf view)) [
            | inl leaf ↦ inl (rw (at, parsed, leaf) (search_leaf-settles h db roomy view key))
            | inr inner ↦ elim (Bool-cases (is_internal view)) [
              | inr other ↦ inl (rw (at, parsed, inner, other) refl)
              | inl known ↦
                  elim (Settled-cases (descend_internal h db view key)
                    (descend_internal-settles h db roomy view key)) [
                      | inr (e, down) ↦ inl (rw (at, parsed, inner, known, down) refl)
                      | inl (child, down) ↦ inr (
                        bytes,
                        view,
                        child,
                        at,
                        parsed,
                        inner,
                        down,
                        rw (at, parsed, inner, known, down) refl,
                      )
                    ]
            ]
          ]
        ]
  ]

  -- A page of the file that the descent did not come to before step `k` is in `fresh`.
  abbrev Known : ℕ → List ℕ → Type 0
  Known k fresh =
      (p : ℕ)
      → p * db.psize + db.psize ≤ length db.mmap
      → ((i : ℕ) × (i < k) × Comes h db key i p) ⊎ In p fresh

  -- Each step takes a page off those that the descent has not come to.
  search_loop-Returns :
      (fuel k pgno : ℕ) (fresh : List ℕ)
      → Comes h db key k pgno
      → Known k fresh
      → length fresh < fuel
      → (settles (search_loop h db fuel pgno key) ≡ true) ⊎ Returns h db key
  search_loop-Returns zero k pgno fresh here known enough = absurd (omega arith)
  search_loop-Returns (suc fuel) k pgno fresh here known enough = elim (search_step fuel pgno) [
    | inl s ↦ inl s
    | inr (bytes, view, child, at, parsed, inner, down, same) ↦
        elim (known pgno (page-inside db pgno bytes at)) [
          | inl (i, lt, there) ↦ inr (i, k, pgno, lt, there, here)
          | inr unseen ↦
              elim (search_loop-Returns fuel (suc k) child (without pgno fresh)
                (deeper k pgno child bytes view here at parsed inner down) still_known
                (omega (arith, length-without pgno fresh unseen))) [
                  | inl s ↦ inl (ap settles same ∙ s)
                  | inr again ↦ inr again
                ]
        ]
  ]
    where
      still_known : Known (suc k) (without pgno fresh)
      still_known p inside = elim (ℕ_discrete p pgno) [
        | yes e ↦ inl (k, omega arith, subst (λ q. Comes h db key k q) (sym e) here)
        | no d ↦ elim (known p inside) [
          | inl (i, lt, there) ↦ inl (i, omega arith, there)
          | inr there ↦ inr (In-without pgno p fresh there d)
        ]
      ]

  get-settles_of :
      (fuel : ℕ)
      → settles (search_loop h db fuel p_root key) ≡ true
      → settles (get h db fuel key) ≡ true
  unfolding get search
  get-settles_of fuel s =
      grind (
        arith,
        page-settles h db,
        parse-settles,
        leaf_entry-settles,
        materialise-settles h db roomy,
      )

-- On every file that `open` accepts, given more fuel than the file has pages, `get` of any key ends
-- with a value or an error, or the descent for the key comes to a page twice, so that the page links
-- have a cycle.
pub get-Returns :
    (h : Endian) (file : List ℕ) (db : Db) (fuel : ℕ) (key : List ℕ)
    → open_db h file ≡ ok db
    → length db.mmap < fuel * db.psize
    → (settles (get h db fuel key) ≡ true) ⊎ Returns h db key
get-Returns h file db zero key opened enough = absurd (omega arith)
get-Returns h file db (suc fuel) key opened enough =
    let roomy = open_db-roomy h file db opened in
    elim (search_loop-Returns h db roomy key (suc fuel) 0 p_root (below fuel) at_root
      (λ p inside. inr (In-below p fuel (inside-lt p fuel db.psize (length db.mmap) inside enough)))
      (omega (arith, length-below fuel))) [
        | inl s ↦ inl (get-settles_of h db roomy key (suc fuel) s)
        | inr again ↦ inr again
      ]
