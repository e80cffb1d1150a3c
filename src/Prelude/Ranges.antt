-- ===== src/Prelude/Ranges.antt =====
-- Lists that agree on a range of indices.
use Prim.Native.Nat.{ℕ, ◌+◌, ◌≤◌, ◌<◌}
use mathlib.Core.Path.{◌≡◌, sym, ap, ◌∙◌}
use mathlib.Core.List.{List}
use native.Mathlib.Omega.{arith}
use db.Prelude.Lists.{length, get_or, eq_of_get_or}
use db.Prelude.Slices.{
  splice, window, length-window, get_or-window, length-splice, get_or-splice_before,
  get_or-splice_after, get_or-splice_at,
}

-- the bytes `[a, b)` are the same
abbrev pub Agree : List ℕ → List ℕ → ℕ → ℕ → Type 0
Agree xs ys a b = (j : ℕ) → a ≤ j → j < b → get_or xs j 0 ≡ get_or ys j 0

pub splice-Agree_before :
    (xs : List ℕ) (a : ℕ) (ys : List ℕ) (lo : ℕ) → Agree (splice xs a ys) xs lo a
splice-Agree_before xs a ys lo j l r = get_or-splice_before xs a ys j 0 r

pub splice-Agree_after :
    (xs : List ℕ) (a : ℕ) (ys : List ℕ) (lo hi : ℕ)
    → a + length ys ≤ lo
    → Agree (splice xs a ys) xs lo hi
splice-Agree_after xs a ys lo hi p j l r = get_or-splice_after xs a ys j 0 (omega arith)

pub window-eq_of_Agree :
    (xs ys : List ℕ) (a n : ℕ)
    → a + n ≤ length xs
    → a + n ≤ length ys
    → Agree xs ys a (a + n)
    → window xs a n ≡ window ys a n
window-eq_of_Agree xs ys a n p q same =
    eq_of_get_or (window xs a n) (window ys a n) 0
      (length-window xs a n p ∙ sym (length-window ys a n q))
      (λ i lt.
        get_or-window xs a n i 0 (omega (arith, length-window xs a n p))
        ∙ same (a + i) (omega arith) (omega (arith, length-window xs a n p))
        ∙ sym (get_or-window ys a n i 0 (omega (arith, length-window xs a n p))))

-- What was written is read back as a window.
pub window-splice_self :
    (xs : List ℕ) (a : ℕ) (ys : List ℕ)
    → a + length ys ≤ length xs
    → window (splice xs a ys) a (length ys) ≡ ys
window-splice_self xs a ys p =
    eq_of_get_or (window (splice xs a ys) a (length ys)) ys 0 len (λ i lt.
      get_or-window (splice xs a ys) a (length ys) i 0 (omega (arith, len))
      ∙ get_or-splice_at xs a ys i (a + i) 0 (omega arith) (omega (arith, len)) p)
  where
    len : length (window (splice xs a ys) a (length ys)) ≡ length ys
    len = length-window (splice xs a ys) a (length ys) (omega (arith, length-splice xs a ys))

-- the bytes `[a, a + n)` of `ys` stand at `b` in `xs`
abbrev pub MovedTo : List ℕ → List ℕ → ℕ → ℕ → ℕ → Type 0
MovedTo xs ys b a n = (j : ℕ) → j < n → get_or xs (b + j) 0 ≡ get_or ys (a + j) 0

pub window-eq_of_MovedTo :
    (xs ys : List ℕ) (b a n : ℕ)
    → b + n ≤ length xs
    → a + n ≤ length ys
    → MovedTo xs ys b a n
    → window xs b n ≡ window ys a n
window-eq_of_MovedTo xs ys b a n p q same =
    eq_of_get_or (window xs b n) (window ys a n) 0
      (length-window xs b n p ∙ sym (length-window ys a n q))
      (λ i lt.
        get_or-window xs b n i 0 (omega (arith, length-window xs b n p))
        ∙ same i (omega (arith, length-window xs b n p))
        ∙ sym (get_or-window ys a n i 0 (omega (arith, length-window xs b n p))))

-- a part of what was moved
pub MovedTo-sub :
    (xs ys : List ℕ) (b a n k m b' a' : ℕ)
    → MovedTo xs ys b a n
    → k + m ≤ n
    → b' ≡ b + k
    → a' ≡ a + k
    → MovedTo xs ys b' a' m
MovedTo-sub xs ys b a n k m b' a' moved le eb ea j lt =
    let there : b' + j ≡ b + (k + j) = omega arith in
    let here : a + (k + j) ≡ a' + j = omega arith in
    ap (λ i. get_or xs i 0) there ∙ moved (k + j) (omega arith) ∙ ap (λ i. get_or ys i 0) here
