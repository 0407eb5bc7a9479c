-- ===== src/Alloc/FreeList.antt =====
-- src/free_list.h: the free list of a span, which carves objects off the span when it is empty.
pub mod Holds
use scalloc.Common.{ℕ, ◌+◌, ◌-◌, ◌%◌, ◌^◌, ◌==◌, if◌then◌else◌}
use scalloc.Alloc.SizeClasses.{class_to_objects, class_to_size}
use scalloc.Alloc.Memory.{Mem, write, null}

-- len_ is an int32_t, kept as its bit pattern.
pub record IncrementalFreeList : Type 0 where
  pub list : ℕ
  pub bump_pointer : ℕ
  pub len : ℕ
  pub increment : ℕ

abbrev i32 : ℕ → ℕ
i32 n = n % 2 ^ 32

-- The constructor.
unfoldable pub new_free_list : ℕ → ℕ → IncrementalFreeList
new_free_list start size_class = record {
  list = null;
  bump_pointer = start;
  len = class_to_objects size_class;
  increment = class_to_size size_class;
}

-- Push: the new length, the memory and the list.
unfoldable pub push : ℕ → Mem → IncrementalFreeList → ℕ × Mem × IncrementalFreeList
push obj m f =
    let len = i32 (f.len + 1) in (len, write m obj f.list, record f { list = obj; len = len })

unfoldable pub set_list : ℕ → ℕ → IncrementalFreeList → IncrementalFreeList
set_list objs len f = record f { list = objs; len = len }

-- Pop: the object, or NULL, and the list behind it.
unfoldable pub pop : Mem → IncrementalFreeList → ℕ × IncrementalFreeList
pop m f =
    if f.list == null
    then (if f.len == 0 then (null, f) else (
      f.bump_pointer,
      record f { bump_pointer = f.bump_pointer + f.increment; len = i32 (f.len + 2 ^ 32 - 1) },
    ))
    else (f.list, record f { list = m f.list; len = i32 (f.len + 2 ^ 32 - 1) })
