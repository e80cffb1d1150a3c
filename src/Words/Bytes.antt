-- ===== src/Words/Bytes.antt =====
-- Lists of `u8`s: what writes of bytes leave are bytes.
use db.Prelude.{
  ◌≡◌, Bool, true, ◌&&◌, ltb, ℕ, zero, suc, ◌<◌, List, [], ◌∷◌, get_or, take, drop, splice,
  overwrite, window, arith,
}
use db.Words.{Endian, little, big, byte_of, to_ne_u16, to_ne_u32}

abbrev pub AreBytes : List ℕ → Type 0
AreBytes xs = (i : ℕ) → get_or xs i 0 < 256

pub nil-AreBytes : AreBytes []
nil-AreBytes i = omega arith

pub cons-AreBytes : (x : ℕ) (xs : List ℕ) → x < 256 → AreBytes xs → AreBytes (x ∷ xs)
cons-AreBytes x xs h k zero = h
cons-AreBytes x xs h k (suc i) = k i

take-AreBytes : (n : ℕ) (xs : List ℕ) → AreBytes xs → AreBytes (take n xs)
take-AreBytes zero xs h = nil-AreBytes
take-AreBytes (suc n) [] h = nil-AreBytes
take-AreBytes (suc n) (x ∷ xs) h =
    cons-AreBytes x (take n xs) (h 0) (take-AreBytes n xs (λ i. h (suc i)))

drop-AreBytes : (n : ℕ) (xs : List ℕ) → AreBytes xs → AreBytes (drop n xs)
drop-AreBytes zero xs h = h
drop-AreBytes (suc n) [] h = nil-AreBytes
drop-AreBytes (suc n) (x ∷ xs) h = drop-AreBytes n xs (λ i. h (suc i))

pub window-AreBytes : (xs : List ℕ) (a n : ℕ) → AreBytes xs → AreBytes (window xs a n)
window-AreBytes xs a n h = take-AreBytes n (drop a xs) (drop-AreBytes a xs h)

overwrite-AreBytes : (xs ys : List ℕ) → AreBytes xs → AreBytes ys → AreBytes (overwrite xs ys)
unfolding overwrite
overwrite-AreBytes xs [] h k = h
overwrite-AreBytes [] (y ∷ ys) h k = nil-AreBytes
overwrite-AreBytes (x ∷ xs) (y ∷ ys) h k =
    cons-AreBytes y (overwrite xs ys) (k 0)
      (overwrite-AreBytes xs ys (λ i. h (suc i)) (λ i. k (suc i)))

pub splice-AreBytes :
    (xs : List ℕ) (a : ℕ) (ys : List ℕ) → AreBytes xs → AreBytes ys → AreBytes (splice xs a ys)
unfolding splice
splice-AreBytes xs zero ys h k = overwrite-AreBytes xs ys h k
splice-AreBytes [] (suc a) ys h k = nil-AreBytes
splice-AreBytes (x ∷ xs) (suc a) ys h k =
    cons-AreBytes x (splice xs a ys) (h 0) (splice-AreBytes xs a ys (λ i. h (suc i)) k)

byte_of_lem : (v k : ℕ) → byte_of v k < 256
byte_of_lem v k = omega arith

pub to_ne_u16-AreBytes : (e : Endian) (v : ℕ) → AreBytes (to_ne_u16 e v)
unfolding to_ne_u16
to_ne_u16-AreBytes little v zero = byte_of_lem v 0
to_ne_u16-AreBytes little v (suc zero) = byte_of_lem v 1
to_ne_u16-AreBytes little v (suc (suc i)) = omega arith
to_ne_u16-AreBytes big v zero = byte_of_lem v 1
to_ne_u16-AreBytes big v (suc zero) = byte_of_lem v 0
to_ne_u16-AreBytes big v (suc (suc i)) = omega arith

pub to_ne_u32-AreBytes : (e : Endian) (v : ℕ) → AreBytes (to_ne_u32 e v)
unfolding to_ne_u32
to_ne_u32-AreBytes little v zero = byte_of_lem v 0
to_ne_u32-AreBytes little v (suc zero) = byte_of_lem v 1
to_ne_u32-AreBytes little v (suc (suc zero)) = byte_of_lem v 2
to_ne_u32-AreBytes little v (suc (suc (suc zero))) = byte_of_lem v 3
to_ne_u32-AreBytes little v (suc (suc (suc (suc i)))) = omega arith
to_ne_u32-AreBytes big v zero = byte_of_lem v 3
to_ne_u32-AreBytes big v (suc zero) = byte_of_lem v 2
to_ne_u32-AreBytes big v (suc (suc zero)) = byte_of_lem v 1
to_ne_u32-AreBytes big v (suc (suc (suc zero))) = byte_of_lem v 0
to_ne_u32-AreBytes big v (suc (suc (suc (suc i)))) = omega arith

abbrev pub are_bytes : List ℕ → Bool
are_bytes [] = true
are_bytes (x ∷ xs) = ltb x 256 && are_bytes xs

pub are_bytes-AreBytes : (xs : List ℕ) → are_bytes xs ≡ true → AreBytes xs
are_bytes-AreBytes [] h i = omega arith
are_bytes-AreBytes (x ∷ xs) h zero = ground arith
are_bytes-AreBytes (x ∷ xs) h (suc i) = are_bytes-AreBytes xs (ground arith) i
