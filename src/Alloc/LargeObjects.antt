-- ===== src/Alloc/LargeObjects.antt =====
-- src/large-objects.h: objects of more than 1 MiB, each in pages of its own.
pub mod Payload
use scalloc.Common.{ℕ, ◌+◌, ◌*◌, ◌/◌, ◌^◌, ◌==◌, if◌then◌else◌, Option, none, some}
use scalloc.Alloc.Globals.{page_size, u64, sub64}
use scalloc.Alloc.Utils.{pad_size}
use scalloc.Alloc.Memory.{Mem, write, null}

-- sizeof(LargeObject): the words actual_size_ and magic_.
abbrev header_size : ℕ
header_size = 16

abbrev pub magic : ℕ
magic = 0xaaaa_aaaa_aaaa_aaaa

abbrev actual_size_at : ℕ → ℕ
actual_size_at obj = obj

abbrev magic_at : ℕ → ℕ
magic_at obj = obj + 8

-- Validate
unfoldable pub validate : Mem → ℕ → Option ℕ
validate m obj = if m (magic_at obj) == magic then some obj else none

-- FromMutatorPtr; `none` is Fatal.
unfoldable pub from_mutator_ptr : Mem → ℕ → Option ℕ
from_mutator_ptr m p = validate m (p / page_size * page_size)

unfoldable pub actual_size : ℕ → ℕ
actual_size size = pad_size (u64 (size + header_size)) page_size

-- The constructor.
unfoldable pub construct : ℕ → ℕ → Mem → Mem
construct size obj m = write (write m (actual_size_at obj) size) (magic_at obj) magic

-- ObjectStart
unfoldable pub object_start : ℕ → ℕ
object_start obj = obj + header_size

-- Allocate, with what mmap gives for `actual_size size` bytes; `none` is Fatal.
unfoldable pub allocate : (size mapped : ℕ) → Mem → Option (ℕ × Mem)
allocate size mapped m =
    if mapped == null
    then none
    else some (object_start mapped, construct (actual_size size) mapped m)

abbrev payload_of : Mem → Option ℕ → Option ℕ
payload_of m none = none
payload_of m (some obj) = some (sub64 (m (actual_size_at obj)) header_size)

-- PayloadSize
unfoldable pub payload_size : Mem → ℕ → Option ℕ
payload_size m p = payload_of m (from_mutator_ptr m p)

abbrev pages_of : Mem → Option ℕ → Option (ℕ × ℕ)
pages_of m none = none
pages_of m (some obj) = some (obj, m (actual_size_at obj))

-- Free: the memory that munmap is called with.
unfoldable pub free : Mem → ℕ → Option (ℕ × ℕ)
free m p = pages_of m (from_mutator_ptr m p)
