-- ===== src/Lib.antt =====
-- db185: reader and writer of the B-tree files of Berkeley DB 1.85, in Rust.
--
-- The program keeps a map of byte strings to byte strings in a file of pages of one size. Page 0
-- holds the meta page and page 1 is the root of a B+ tree: internal pages hold separators and page
-- numbers, leaves hold the entries and are linked in both directions. A page has a header of 20
-- bytes, the pointers `linp[]` behind it, free space between `lower` and `upper`, and the entries
-- from `upper` on. The reader (`Db`, `Iter`) decodes a mapped file of either byte order; the writer
-- (`Writer`) keeps all pages in one arena, in the byte order of its host, and writes it at the end.
--
-- The files and the code that they model:
--   Outcomes   src/error.rs, and how a call ends: a value, an error, a panic, or no end within the
--              fuel. `?` is `>>=`, `expect`, an index out of range, a failed assertion and an
--              overflow are `panic`, as in a build with debug assertions, and so are a slice out of
--              range, a subtraction below zero and a division by zero.
--   Words      the bytes of `u16` and `u32` on a host of either byte order, and the swaps.
--   Order      the order of byte strings.
--   Format     src/format.rs: constants, `align_entry`, the meta page.
--   Page       src/page.rs: `PageView` and every checked read of a page.
--   Bisect     the binary search that src/db.rs and src/writer/mod.rs write out four times, over
--              the comparison of one round.
--   Db         src/db.rs: `open` and `page`; Db/Overflow: overflow chains; Db/Search: `search` and
--              `get`.
--   Iter       src/iter.rs: the forward scan.
--   PageBuf    src/writer/page_buf.rs: a page under change, and `reserve_slot`.
--   Writer     src/writer/mod.rs: the arena and the meta page; Writer/Entries: the changes of one
--              page; Writer/Plan: the split plan; Writer/Separator: separators; Writer/Pages: the
--              descent; Writer/Split: the new pages of a split; Writer/Put: the splits, `put` and
--              `del`.
--   InternalPage
--              an internal page as a list of separators and children; InternalPage/Root is the new
--              root of a root split. No code of its own.
--   LeafPage   a leaf page as a list of entries: what the writer's changes and the reader's decoding
--              have in common. LeafPage/Insert and LeafPage/Delete are the two changes,
--              LeafPage/Scan the scan of one leaf. No code of its own.
--   RootLeaf   writer and reader together on a database of one leaf; RootLeaf/First is the size check
--              of `put`. No code of its own.
--   Session    `put` and `del` in a row, and the abstract table of keys and values that they
--              implement as long as the entries fit on one page. No code of its own.
--   LeafSplit  the leaf split of src/writer/mod.rs (`Writer.Split.share_leaf`) on the lists of
--              entries. No code of its own.
--   Tree       src/db.rs and src/iter.rs on trees of any height: the way that the separators of the
--              internal pages describe, and the chain of the leaves. No code of its own.
--   Arena      src/writer/mod.rs on trees of any height: the pages of the arena, the descent,
--              Arena/RootSplit the split of a root leaf, and Arena/Table the map from keys to values
--              that a database is, with what `put`, `del`, `finish`, `open` and `get` do to it. No
--              code of its own.
--   Dump       examples/dump.rs: the command line program.
--   Tests      the theorems at concrete inputs.
--
-- Bytes, words and offsets are natural numbers. A page and a file are lists of bytes. `u16` and `u32`
-- reads are below their bounds by construction on lists of bytes (`Words.Bytes.AreBytes`), writes keep
-- the low bytes only, casts that truncate are written with `%`, and `usize` has 64 bits. A change
-- through `&mut` is a function to the new page or the new writer; a method of the writer returns its
-- outcome and the writer that it leaves, also where it fails. The split code builds its new pages
-- before it changes the arena, which `Halves` separates. Where a masked flag is tested, the model
-- tests its bit.
--
-- Fuel: the binary search has one round more than entries, the overflow loops one more than bytes,
-- the split plan two more than entries; each is enough, since every round consumes one at least. The
-- descents from the root and the walks along leaves take a fuel argument: nothing in the code bounds
-- them on a file whose pages link in a cycle. Where no
-- page comes twice on the way of a key, more fuel than the file has pages is enough for `get`
-- (`Db.Returns`), and on a tree of a given height more fuel than the height is enough for `get`, `put`
-- and `del` (`Arena.Table`). The scan of `Dump` takes rounds as well, one more than entries.
--
-- Not modelled: the file system and `mmap`, from which `open` gets its bytes and to which `finish`
-- gives them; the texts of the error messages and the `io` errors; `Cow`, as both forms are the same
-- bytes; accessors of `Entry` and `Iter` that only wrap a value; the tests of the crate and the C
-- tools. The program of examples/dump.rs gets the file system and the conversion to text as
-- parameters. The page size of a new database is an argument of `create_sized`, so that small pages can
-- be tried; `create_new` passes the code's.
pub mod Prelude
pub mod Outcomes
pub mod Words
pub mod Order
pub mod Format
pub mod Page
pub mod Bisect
pub mod Db
pub mod Iter
pub mod PageBuf
pub mod Writer
pub mod InternalPage
pub mod LeafPage
pub mod RootLeaf
pub mod Session
pub mod LeafSplit
pub mod Tree
pub mod Arena
pub mod Dump
mod Tests
