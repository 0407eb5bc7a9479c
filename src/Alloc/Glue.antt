-- ===== src/Alloc/Glue.antt =====
-- src/glue.h: the entry points that ask malloc for memory and prepare it.
pub mod Calloc
pub mod Memalign
pub mod Realloc
use scalloc.Common.{
  ℕ, ◌+◌, ◌*◌, ◌/◌, ◌%◌, Bool, true, not, ◌&&◌, ◌==◌, if◌then◌else◌, Option, none, some,
}
use scalloc.Alloc.Globals.{page_size, u64, sub64}
use scalloc.Alloc.Utils.{pad_size}
use scalloc.Alloc.Memory.{null}
use scalloc.Alloc.Bytes.{Bytes, memset}

-- The state: that of the allocator, the bytes of memory, and the flag seen_memalign.
pub record Heap (A : Type 0) : Type 0 where
  pub state : A
  pub bytes : Bytes
  pub seen_memalign : Bool

-- ENOMEM
abbrev pub out_of_memory : ℕ
out_of_memory = 12

-- `malloc` is a parameter: it returns an address, or NULL, and the state behind it.
module _ {A : Type 0} (malloc : ℕ → Heap A → ℕ × Heap A) where
  abbrev pub cleared : ℕ → ℕ × Heap A → ℕ × Heap A
  cleared n (p, h) = (p, (if p == null then h else record h { bytes = memset p 0 n h.bytes }))

  unfoldable pub calloc : (nmemb size : ℕ) → Heap A → ℕ × Heap A
  calloc nmemb size h =
      let malloc_size = u64 (nmemb * size) in
      if not (size == 0) && not (malloc_size / size == nmemb)
      then (null, h)
      else cleared malloc_size (malloc malloc_size h)

  -- The address behind `start`; it differs from it, so the tag is always written.
  abbrev pub new_start : ℕ → ℕ → ℕ
  new_start start align = sub64 (u64 (start + align)) (start % align)

  abbrev pub tagged_below : ℕ → Heap A → Heap A
  tagged_below p h = record h { bytes = memset (sub64 p 4) 0xaa 4 h.bytes }

  abbrev pub placed : ℕ → ℕ × Heap A → ℕ × Option ℕ × Heap A
  placed align (start, h) =
      if start == null
      then (out_of_memory, none, h)
      else (let p = new_start start align in
          (0, some p, (if p == start then h else tagged_below p h)))

  -- posix_memalign: the code, what is written to *ptr, and the state.
  unfoldable pub posix_memalign : (align size : ℕ) → Heap A → ℕ × Option ℕ × Heap A
  posix_memalign align size h =
      let h' = record h { seen_memalign = true } in
      if size == 0 then (0, some null, h') else placed align (malloc (u64 (align + size)) h')

  -- What memalign returns when *ptr was written, or NULL.
  abbrev returned : ℕ × Option ℕ × Heap A → ℕ × Heap A
  returned (code, none, h) = (null, h)
  returned (code, some p, h) = ((if code == 0 then p else null), h)

  unfoldable pub memalign : (align size : ℕ) → Heap A → ℕ × Heap A
  memalign align size h = returned (posix_memalign align size h)

  unfoldable pub aligned_alloc : (alignment size : ℕ) → Heap A → ℕ × Heap A
  aligned_alloc alignment size h =
      if not (size % alignment == 0) then (null, h) else memalign alignment size h

  unfoldable pub valloc : ℕ → Heap A → ℕ × Heap A
  valloc size h = memalign page_size size h

  unfoldable pub pvalloc : ℕ → Heap A → ℕ × Heap A
  pvalloc size h = memalign page_size (pad_size size page_size) h
