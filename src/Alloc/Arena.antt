-- ===== src/Alloc/Arena.antt =====
-- src/arena.h: an arena of virtual memory with a bump pointer.
pub mod Aligned
pub mod Contained
pub mod Apart
use Prim.Native.Nat.{bit_xor}
use scalloc.Common.{
  ℕ, ◌+◌, ◌-◌, ◌%◌, Bool, List, [], ◌∷◌, Option, none, some, ltb, leb, ◌==◌, if◌then◌else◌,
}
use scalloc.Alloc.Globals.{u64, virtual_span_size}

pub record Arena : Type 0 where
  pub start : ℕ
  pub end : ℕ
  pub len : ℕ
  pub current : ℕ

abbrev arena_at : ℕ → ℕ → Arena
arena_at start size = record {
  start = start;
  end = u64 (start + size);
  len = size;
  current = start;
}

-- Init. `guided` is what SystemMmapGuided returns for the hint `alignment`, and `mapped` what
-- SystemMmap returns for `size + alignment` bytes; 0 is NULL. `none` is Fatal.
unfoldable pub init : (size alignment guided mapped : ℕ) → Option Arena
init size alignment guided mapped =
    if guided == 0
    then (if mapped == 0
        then none
        else some (arena_at (u64 (mapped + (alignment - mapped % alignment))) size))
    else some (arena_at guided size)

-- Contains
unfoldable pub contains : Arena → ℕ → Bool
contains a p = ltb (bit_xor p a.start) a.len

-- Allocate: one fetch_add, and the object, or `none` where the arena is exhausted (Fatal).
unfoldable pub allocate : ℕ → Arena → Option ℕ × Arena
allocate size a =
    let obj = a.current in
    (
      (if leb a.end (u64 (obj + size)) then none else some obj),
      record a { current = u64 (obj + size) },
    )

-- AllocateVirtualSpan
unfoldable pub allocate_virtual_span : Arena → Option ℕ × Arena
allocate_virtual_span a =
    let obj = a.current in
    (
      (if leb a.end (u64 (obj + virtual_span_size)) then none else some obj),
      record a { current = u64 (obj + virtual_span_size) },
    )
