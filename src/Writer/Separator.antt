-- ===== src/Writer/Separator.antt =====
-- src/writer/mod.rs: what a split hands to the parent page, and its prefix compression.
pub mod Shortest
use db.Prelude.{
  ℕ, suc, ◌+◌, List, [], ◌∷◌, length, Bool, not, ◌==◌, ltb, if◌then◌else◌, ◌||◌, Option, none, some,
}
use db.Format.{p_invalid}
use db.Writer.Entries.{internal_nbytes}

-- `leaf sep_key child l_last_key` and `internal sep_key child ksize`
pub data Separator : Type 0 where
  leaf : List ℕ → ℕ → List ℕ → Separator
  internal : List ℕ → ℕ → ℕ → Separator

abbrev pub child : Separator → ℕ
child (leaf _ c _) = c
child (internal _ c _) = c

abbrev pub sep_key : Separator → List ℕ
sep_key (leaf k _ _) = k
sep_key (internal k _ _) = k

-- `a.iter().zip(b).position(|(x, y)| x != y)`
unfoldable pub first_difference : List ℕ → List ℕ → Option ℕ
first_difference [] b = none
first_difference (x ∷ a) [] = none
first_difference (x ∷ a) (y ∷ b) =
    if x == y then elim (first_difference a b) [ none ↦ none | some i ↦ some (suc i) ] else some 0

unfoldable pub bt_defpfx : List ℕ → List ℕ → ℕ
unfolding first_difference
bt_defpfx a b = elim (first_difference a b) [
  | some i ↦ i + 1
  | none ↦ if ltb (length a) (length b) then length a + 1 else length a
]

-- `(nksize, nbytes)` for a parent with this `prev_pg`, at this slot
unfoldable pub encoded_size : Separator → ℕ → ℕ → ℕ × ℕ
encoded_size (internal _ _ ksize) parent_prev_pg skip = (ksize, internal_nbytes ksize)
encoded_size (leaf key _ l_last_key) parent_prev_pg skip =
    let pfx_len = bt_defpfx l_last_key key in
    if not (not (parent_prev_pg == p_invalid) || ltb 1 skip)
    then (length key, internal_nbytes (length key))
    else if ltb (internal_nbytes pfx_len) (internal_nbytes (length key))
    then (pfx_len, internal_nbytes pfx_len)
    else (length key, internal_nbytes (length key))
