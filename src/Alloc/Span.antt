-- ===== src/Alloc/Span.antt =====
-- src/span.h: the header of a span. The words of memory that free objects are linked through are a
-- parameter and a result of the operations on its lists.
pub mod Epoch
pub mod Objects
use scalloc.Common.{
  ℕ, zero, suc, ◌+◌, ◌-◌, ◌*◌, ◌/◌, ◌%◌, ◌^◌, Bool, true, ◌&&◌, not, ◌==◌, if◌then◌else◌, Option,
  none, some,
}
use scalloc.Alloc.Globals.{virtual_span_size, span_header_size, sub64}
use scalloc.Alloc.Bytes.{Bytes, read_word}
use scalloc.Alloc.SizeClasses.{class_to_size}
use scalloc.Alloc.Memory.{Mem, null}
use scalloc.Alloc.TaggedValue.{TaggedValue, swap}
use scalloc.Alloc.Stack.{Stack, is_empty, stack_length, empty_top, push_return_tag, pop_all}
use scalloc.Alloc.FreeList
use scalloc.Alloc.FreeList.{IncrementalFreeList, new_free_list, set_list}
use scalloc.Alloc.Span.Epoch.{new_mark_hot}

-- `base` is `this`; the link of the span in a deque is left to the deque.
pub record Span : Type 0 where
  pub base : ℕ
  pub owner : TaggedValue
  pub epoch : ℕ
  pub size_class : ℕ
  pub local_free_list : IncrementalFreeList
  pub remote_free_list : TaggedValue

-- FromObject: `& kVirtualSpanMask` rounds down to a multiple of the size of a virtual span.
unfoldable pub from_object : ℕ → ℕ
from_object p = p / virtual_span_size * virtual_span_size

-- HeaderEnd: the header has 128 bytes.
unfoldable pub header_end : ℕ → ℕ
header_end base = base + span_header_size

-- The constructor, on memory whose word of the epoch survives; the mark may fail.
unfoldable pub new_span : (base epoch size_class : ℕ) (owner : TaggedValue) → Span
new_span base epoch size_class owner = record {
  base = base;
  owner = owner;
  epoch = (new_mark_hot epoch epoch).0;
  size_class = size_class;
  local_free_list = new_free_list (header_end base) size_class;
  remote_free_list = empty_top;
}

-- NrRemoteObjects, NrLocalObjects, NrFreeObjects
unfoldable pub nr_remote_objects : Span → ℕ
nr_remote_objects s = if is_empty s.remote_free_list then 0 else stack_length s.remote_free_list

unfoldable pub nr_local_objects : Span → ℕ
nr_local_objects s = s.local_free_list.len

unfoldable pub nr_free_objects : Span → ℕ
nr_free_objects s = nr_local_objects s + nr_remote_objects s

-- Allocate: the object, or NULL.
unfoldable pub allocate : Mem → Span → ℕ × Span
allocate m s =
    let (obj, f) = FreeList.pop m s.local_free_list in (obj, record s { local_free_list = f })

-- Free: the number of free objects.
unfoldable pub free : ℕ → TaggedValue → Mem → Span → ℕ × Mem × Span
free p caller m s =
    if s.owner == caller
    then (let (n, m', f) = FreeList.push p m s.local_free_list in
        (n + nr_remote_objects s, m', record s { local_free_list = f }))
    else (let (n, r) = push_return_tag p (record { mem = m; top = s.remote_free_list }) in
        (n + nr_local_objects s, r.mem, record s { remote_free_list = r.top }))

-- The loop of MoveRemoteToLocalObjects over the list of `objects`; `none` when the rounds run out.
unfoldable pub move_objects : ℕ → ℕ → Mem → IncrementalFreeList → Option (Mem × IncrementalFreeList)
move_objects zero objects m f = if objects == null then some (m, f) else none
move_objects (suc rounds) objects m f =
    let rest =
      (let (_, m', f') = FreeList.push objects m f in move_objects rounds (m objects) m' f') in
    if objects == null then some (m, f) else rest

abbrev with_local : Span → Option (Mem × IncrementalFreeList) → Option (Mem × Span)
with_local s none = none
with_local s (some (m, f)) = some (m, record s { local_free_list = f })

-- MoveRemoteToLocalObjects
unfoldable pub move_remote_to_local_objects : ℕ → Mem → Span → Option (Mem × Span)
move_remote_to_local_objects rounds m s =
    if nr_remote_objects s == 0
    then some (m, s)
    else (let (objects, actual_len, r) = pop_all (record { mem = m; top = s.remote_free_list }) in
        let s' = record s { remote_free_list = r.top } in
        if nr_local_objects s == 0
        then some (m, record s' { local_free_list = set_list objects actual_len s.local_free_list })
        else with_local s' (move_objects rounds objects m s.local_free_list))

-- AlignToBlockStart. `width` is sizeof(int_fast32_t), 4 or 8 by the platform; kAlignTag is the number
-- 0xAAAAAAAA of that many bytes.
abbrev pub align_tag : ℕ
align_tag = 0xaaaa_aaaa

unfoldable pub align_to_block_start : (width : ℕ) → Bytes → (base size_class p : ℕ) → ℕ
align_to_block_start width m base size_class p =
    if read_word width m (sub64 p width) == align_tag
    then sub64 p (sub64 p (header_end base) % class_to_size size_class)
    else p
