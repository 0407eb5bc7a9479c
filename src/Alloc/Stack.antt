-- ===== src/Alloc/Stack.antt =====
-- src/stack.h: the Treiber stack. An operation is split at its accesses of the shared top: the load,
-- the write of the link and the swap. Here they follow one another; Stack/Threads interleaves them.
pub mod Pushed
pub mod Threads
use scalloc.Common.{ℕ, ◌+◌, Bool, ◌==◌, if◌then◌else◌}
use scalloc.Alloc.TaggedValue.{TaggedValue, tagged, value, tag, swap}
use scalloc.Alloc.Memory.{Mem, write, null}

pub record Stack : Type 0 where
  pub mem : Mem
  pub top : TaggedValue

-- Stack(), SetTop
abbrev pub empty_top : TaggedValue
empty_top = tagged null 0

unfoldable pub set_top : ℕ → Stack → Stack
set_top p s = record s { top = tagged p 0 }

-- Empty
unfoldable pub is_empty : TaggedValue → Bool
is_empty top = top == tagged null 0

-- Length
unfoldable pub stack_length : TaggedValue → ℕ
stack_length top = tag top

-- The write of the link to the old top into the last object of the pushed range.
unfoldable pub link : ℕ → TaggedValue → Mem → Mem
link p_end top_old mem = write mem p_end (value top_old)

-- The word that a push puts on top.
unfoldable pub pushed : ℕ → TaggedValue → TaggedValue
pushed p top_old = tagged p (tag top_old + 1)

-- PushRange: the objects from `p_start` on, linked up to `p_end`. A loop with no other thread in
-- between ends with its first round.
unfoldable pub push_range : ℕ → ℕ → Stack → Stack
unfolding pushed link
push_range p_start p_end s =
    let top_old = s.top in
    record { mem = link p_end top_old s.mem; top = (swap top_old (pushed p_start top_old) s.top).0 }

-- Push
unfoldable pub push : ℕ → Stack → Stack
push p s = push_range p p s

-- PushReturnTag: the sum is an int, and not cut to the width of a tag.
unfoldable pub push_return_tag : ℕ → Stack → ℕ × Stack
push_return_tag p s = (tag s.top + 1, push_range p p s)

-- The word that a pop puts on top: the successor is read from memory.
unfoldable pub popped : TaggedValue → Mem → TaggedValue
popped top_old mem = tagged (mem (value top_old)) (tag top_old + 1)

-- Pop
unfoldable pub pop : Stack → ℕ × Stack
pop s =
    if value s.top == null
    then (null, s)
    else (value s.top, record s { top = (swap s.top (popped s.top s.mem) s.top).0 })

-- PopAll: the elements, their number, and the stack behind it.
unfoldable pub pop_all : Stack → ℕ × ℕ × Stack
pop_all s = (
  value s.top,
  tag s.top,
  (if value s.top == null then s else record s { top = (swap s.top (tagged null 0) s.top).0 }),
)
