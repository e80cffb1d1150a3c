-- ===== src/Tests/Cycles.antt =====
-- The theorems about page links on a file of two pages whose root is an internal page with itself as
-- its only child.
use db.Prelude.{ℕ, ◌≡◌, refl, ◌⊎◌, List, [], ◌∷◌, ◌++◌, replicate, length, true, false, arith}
use db.Outcomes.{ok, out_of_fuel}
use db.Outcomes.Settles.{settles}
use db.Words.{little, from_ne_u16, from_ne_u32}
use db.Page.{
  parse, internal_entry, entry_offset, byte_at, u16_at, u32_at, decode_item, read_u16, read_u32,
  read_u16_bytes, read_u32_bytes,
}
use db.Bisect.{bisect, bisect_all}
use db.Format.{parse_meta, meta_word}
use db.Db.{Db, open_db, page}
use db.Db.Search.{internal_probe, descend_internal, search_loop, search, get}
use db.Db.Returns.{Returns, get-Returns}

abbrev meta : List ℕ
meta =
    98
    ∷ 49
    ∷ 5
    ∷ 0
    ∷ 3
    ∷ 0
    ∷ 0
    ∷ 0
    ∷ 0
    ∷ 2
    ∷ 0
    ∷ 0
    ∷ 0
    ∷ 0
    ∷ 0
    ∷ 0
    ∷ 0
    ∷ 0
    ∷ 0
    ∷ 0
    ∷ 32
    ∷ 0
    ∷ 0
    ∷ 0
    ∷ replicate 488 0

abbrev root : List ℕ
root =
    1
    ∷ 0
    ∷ 0
    ∷ 0
    ∷ 0
    ∷ 0
    ∷ 0
    ∷ 0
    ∷ 0
    ∷ 0
    ∷ 0
    ∷ 0
    ∷ 1
    ∷ 0
    ∷ 0
    ∷ 0
    ∷ 22
    ∷ 0
    ∷ 24
    ∷ 0
    ∷ 24
    ∷ 0
    ∷ 0
    ∷ 0
    ∷ 0
    ∷ 0
    ∷ 0
    ∷ 0
    ∷ 1
    ∷ replicate 483 0

abbrev file : List ℕ
file = meta ++ root

abbrev file_db : Db
file_db = record { mmap = file; psize = 512; swap = false }

opened : open_db little file ≡ ok file_db
unfolding open_db parse_meta meta_word from_ne_u32
opened = refl

two_pages : length file ≡ 1024
two_pages = refl

-- The descent for any key stays on the root.
no_end : get little file_db 3 (107 ∷ []) ≡ out_of_fuel
unfolding get search search_loop descend_internal internal_probe bisect_all bisect page parse
    internal_entry entry_offset byte_at u16_at u32_at decode_item read_u16 read_u32 read_u16_bytes
    read_u32_bytes from_ne_u16 from_ne_u32
no_end = refl

get-Returns_example :
    (settles (get little file_db 3 (107 ∷ [])) ≡ true) ⊎ Returns little file_db (107 ∷ [])
get-Returns_example = get-Returns little file file_db 3 (107 ∷ []) opened (omega (arith, two_pages))
