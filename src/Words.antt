-- ===== src/Words.antt =====
-- Machine words as bytes: `from_ne_bytes`, `to_ne_bytes` and `swap_bytes` of `u16` and `u32`. The
-- byte order of the host is a parameter; a byte slice is a list of numbers.
pub mod RoundTrip
pub mod Bytes
use db.Prelude.{ℕ, zero, suc, ◌+◌, ◌*◌, ◌/◌, ◌%◌, ◌^◌, List, [], ◌∷◌, get_or, Bool, true, false}
use db.Prelude.{if◌then◌else◌}

pub data Endian : Type 0 where
  little big : Endian

abbrev pub other : Endian → Endian
other little = big
other big = little

unfoldable pub from_ne_u16 : Endian → ℕ → ℕ → ℕ
from_ne_u16 little b0 b1 = b0 + 256 * b1
from_ne_u16 big b0 b1 = b1 + 256 * b0

unfoldable pub from_ne_u32 : Endian → ℕ → ℕ → ℕ → ℕ → ℕ
from_ne_u32 little b0 b1 b2 b3 = b0 + 256 * b1 + 65536 * b2 + 16777216 * b3
from_ne_u32 big b0 b1 b2 b3 = b3 + 256 * b2 + 65536 * b1 + 16777216 * b0

-- byte `k` of a word, counted from the least significant one
abbrev pub byte_of : ℕ → ℕ → ℕ
byte_of v k = v / 256 ^ k % 256

unfoldable pub to_ne_u16 : Endian → ℕ → List ℕ
to_ne_u16 little v = byte_of v 0 ∷ byte_of v 1 ∷ []
to_ne_u16 big v = byte_of v 1 ∷ byte_of v 0 ∷ []

unfoldable pub to_ne_u32 : Endian → ℕ → List ℕ
to_ne_u32 little v = byte_of v 0 ∷ byte_of v 1 ∷ byte_of v 2 ∷ byte_of v 3 ∷ []
to_ne_u32 big v = byte_of v 3 ∷ byte_of v 2 ∷ byte_of v 1 ∷ byte_of v 0 ∷ []

unfoldable pub swap_bytes_u16 : ℕ → ℕ
swap_bytes_u16 v = byte_of v 1 + 256 * byte_of v 0

unfoldable pub swap_bytes_u32 : ℕ → ℕ
swap_bytes_u32 v = byte_of v 3 + 256 * byte_of v 2 + 65536 * byte_of v 1 + 16777216 * byte_of v 0

-- `v & (1 << k) != 0`
abbrev pub bit_set : ℕ → ℕ → Bool
bit_set v k = elim (v / 2 ^ k % 2) [ zero ↦ false | suc _ ↦ true ]

-- A word read from a list at an offset, in a given byte order: what the readers mean.
abbrev pub u16_from : Endian → List ℕ → ℕ → ℕ
u16_from e xs off = from_ne_u16 e (get_or xs off 0) (get_or xs (off + 1) 0)

abbrev pub u32_from : Endian → List ℕ → ℕ → ℕ
u32_from e xs off =
    from_ne_u32 e (get_or xs off 0) (get_or xs (off + 1) 0) (get_or xs (off + 2) 0)
      (get_or xs (off + 3) 0)

-- The byte order of a file, seen from a host that must swap or need not.
abbrev pub file_order : Endian → Bool → Endian
file_order h swap = if swap then other h else h
