-- ===== src/Writer/Separator/Shortest.antt =====
-- Prefix compression keeps the order of the tree: the stored separator lies above the last key on
-- the left and not above the first key on the right, and is as short as that allows.
use db.Prelude.{
  ℕ, zero, suc, ◌≤◌, ◌<◌, ◌≡◌, refl, List, [], ◌∷◌, length, take, Ordering, arith, ◌==◌, ltb, ◌≢◌,
  not, ◌||◌, sym, ◌∙◌, ap, ◌⊎◌, inl, inr, Bool-cases, ltb→lt,
}
use mathlib.Core.Path.{subst}
use native.Mathlib.Decide.{ℕ_discrete}
use db.Format.{p_invalid}
use db.Order.{cmp, ◌≺◌}
use db.Writer.Entries.{internal_nbytes}
use db.Writer.Separator.{leaf, bt_defpfx, encoded_size}

-- `bt_defpfx` on two keys that begin alike
bt_defpfx-cons : (x : ℕ) (a b : List ℕ) → bt_defpfx (x ∷ a) (x ∷ b) ≡ suc (bt_defpfx a b)
unfolding bt_defpfx
bt_defpfx-cons x a b = ground arith

bt_defpfx-ne : (x y : ℕ) (a b : List ℕ) → x ≢ y → bt_defpfx (x ∷ a) (y ∷ b) ≡ 1
unfolding bt_defpfx
bt_defpfx-ne x y a b h = ground arith

bt_defpfx-nil : (y : ℕ) (b : List ℕ) → bt_defpfx [] (y ∷ b) ≡ 1
unfolding bt_defpfx
bt_defpfx-nil y b = ground arith

not-≺-nil : (a : List ℕ) → ¬ (a ≺ [])
unfolding cmp
not-≺-nil [] h = cc
not-≺-nil (x ∷ a) h = cc

cmp-cons : (x : ℕ) (a b : List ℕ) → cmp (x ∷ a) (x ∷ b) ≡ cmp a b
unfolding cmp
cmp-cons x a b = ground arith

cmp-cons_lt : (x y : ℕ) (a b : List ℕ) → x < y → cmp (x ∷ a) (y ∷ b) ≡ Ordering.lt
unfolding cmp
cmp-cons_lt x y a b h = ground arith

first-lt : (x y : ℕ) (a b : List ℕ) → x ≢ y → cmp (x ∷ a) (y ∷ b) ≡ Ordering.lt → x < y
unfolding cmp
first-lt x y a b ne h = ground arith

take-length : (l : List ℕ) → take (length l) l ≡ l
take-length [] = refl
take-length (x ∷ l) = ap (λ r. x ∷ r) (take-length l)

cmp-nil_cons : (y : ℕ) (b : List ℕ) → cmp [] (y ∷ b) ≡ Ordering.lt
unfolding cmp
cmp-nil_cons y b = refl

-- `n` is the length of the shortest prefix of `b` above `a`.
abbrev pub IsShortest : List ℕ → List ℕ → ℕ → Type 0
IsShortest a b n = (n ≤ length b) × (a ≺ take n b) × ((m : ℕ) → m < n → ¬ (a ≺ take m b))

below_one : (a l : List ℕ) (m : ℕ) → m < 1 → ¬ (a ≺ take m l)
below_one a l zero h k = not-≺-nil a k
below_one a l (suc m) h k = absurd (omega arith)

IsShortest-cons :
    (x : ℕ) (a b : List ℕ) (n : ℕ) → IsShortest a b n → IsShortest (x ∷ a) (x ∷ b) (suc n)
IsShortest-cons x a b n (len, above, least) =
    (omega arith, cmp-cons x a (take n b) ∙ above, shorter)
  where
    shorter : (m : ℕ) → m < suc n → ¬ (x ∷ a ≺ take m (x ∷ b))
    shorter zero h k = not-≺-nil (x ∷ a) k
    shorter (suc m) h k = least m (omega arith) (sym (cmp-cons x a (take m b)) ∙ k)

-- Where `a` is below `b`, `bt_defpfx a b` is the length of the shortest prefix of `b` that is
-- above `a`.
pub bt_defpfx-IsShortest : (a b : List ℕ) → a ≺ b → IsShortest a b (bt_defpfx a b)
bt_defpfx-IsShortest a [] h = absurd (not-≺-nil a h)
bt_defpfx-IsShortest [] (y ∷ b) h =
    rw (bt_defpfx-nil y b) (omega arith, cmp-nil_cons y [], below_one [] (y ∷ b))
bt_defpfx-IsShortest (x ∷ a) (y ∷ b) h = elim (ℕ_discrete x y) [
  | yes e ↦
      subst (λ z. IsShortest (x ∷ a) (z ∷ b) (bt_defpfx (x ∷ a) (z ∷ b))) e
        (rw (bt_defpfx-cons x a b) (
          IsShortest-cons x a b (bt_defpfx a b)
            (bt_defpfx-IsShortest a b (sym (cmp-cons x a b) ∙ cmp-cons_eq e))))
  | no ne ↦
      rw (bt_defpfx-ne x y a b ne)
        (omega arith, cmp-cons_lt x y a [] (first-lt x y a b ne h), below_one (x ∷ a) (y ∷ b))
]
  where
    cmp-cons_eq : x ≡ y → cmp (x ∷ a) (x ∷ b) ≡ Ordering.lt
    cmp-cons_eq e = subst (λ z. cmp (x ∷ a) (z ∷ b) ≡ Ordering.lt) (sym e) h

-- What `encoded_size` answers for a leaf split between these keys.
abbrev pub Separates : List ℕ → List ℕ → ℕ × ℕ → Type 0
Separates l_last_key key (nksize, nbytes) =
    (l_last_key ≺ take nksize key)
    × ((nksize ≡ length key) ⊎ IsShortest l_last_key key nksize)
    × (nbytes ≡ internal_nbytes nksize)
    × (nbytes ≤ internal_nbytes (length key))

module _ (key l_last_key : List ℕ) (h : l_last_key ≺ key) where
  whole-Separates : Separates l_last_key key (length key, internal_nbytes (length key))
  whole-Separates = (rw (take-length key) h, inl refl, refl, omega arith)

  prefix-Separates :
      internal_nbytes (bt_defpfx l_last_key key) < internal_nbytes (length key)
      → Separates l_last_key key
          (bt_defpfx l_last_key key, internal_nbytes (bt_defpfx l_last_key key))
  prefix-Separates lt =
      let least = bt_defpfx-IsShortest l_last_key key h in (least.1, inr least, refl, omega arith)

-- For a leaf split whose left page ends below the right page's first key: the bytes of the key that
-- go into the parent are above the left page's last key, they are the whole key or its shortest
-- such prefix, and the size charged is that of these bytes and at most that of the whole key.
pub encoded_size-Separates :
    (key l_last_key : List ℕ) (child prev skip : ℕ)
    → l_last_key ≺ key
    → Separates l_last_key key (encoded_size (leaf key child l_last_key) prev skip)
unfolding encoded_size
encoded_size-Separates key l_last_key child prev skip h =
    elim (Bool-cases (not (not (prev == p_invalid) || ltb 1 skip))) [
      | inl first ↦ rw first (whole-Separates key l_last_key h)
      | inr inner ↦
          rw inner
            (elim (Bool-cases
              (ltb (internal_nbytes (bt_defpfx l_last_key key)) (internal_nbytes (length key)))) [
                | inl short ↦ rw short (prefix-Separates key l_last_key h (ltb→lt _ _ short))
                | inr long ↦ rw long (whole-Separates key l_last_key h)
              ])
    ]
