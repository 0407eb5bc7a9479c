-- ===== src/Alloc.antt =====
-- src/, the allocator: sizes, tagged words, free lists, spans, arenas and the entry points.
pub mod Globals
pub mod Bits
pub mod Utils
pub mod SizeClasses
pub mod TaggedValue
pub mod Memory
pub mod Stack
pub mod FreeList
pub mod Span
pub mod Arena
pub mod LargeObjects
pub mod Bytes
pub mod Glue
pub mod Deque
pub mod SpanPool
pub mod Lock
mod Tests
