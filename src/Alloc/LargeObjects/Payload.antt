-- ===== src/Alloc/LargeObjects/Payload.antt =====
-- What a large object holds, and what freeing it unmaps.
use scalloc.Common.{ℕ, ◌+◌, ◌-◌, ◌*◌, ◌/◌, ◌%◌, ◌^◌, ◌≤◌, ◌<◌, ◌≡◌, ◌≢◌, ◌⊎◌, refl, some, arith}
use scalloc.Alloc.Globals.{page_size}
use scalloc.Alloc.Utils.{pad_size}
use scalloc.Alloc.Memory.{Mem, write, null}
use scalloc.Alloc.LargeObjects.{
  validate, from_mutator_ptr, actual_size, construct, object_start, allocate, payload_size, free,
}

-- The pages of a request: enough for it and the header, or none, or one for a request that wraps around.
actual_bounds :
    (size : ℕ)
    → size < 2 ^ 64
    → actual_size size ≢ 0
    → (16 ≤ actual_size size)
      × (actual_size size < 2 ^ 64)
      × (((size + 16 ≤ actual_size size) × (actual_size size < size + 16 + page_size))
          ⊎ ((2 ^ 64 - 15 ≤ size) × (actual_size size ≡ page_size)))
unfolding actual_size pad_size
actual_bounds size h k = ground arith

module _ (size mapped : ℕ) (m : Mem) (some_mapped : mapped ≢ null)
    (aligned : mapped % page_size ≡ 0) where
  found :
      from_mutator_ptr (construct (actual_size size) mapped m) (object_start mapped) ≡ some mapped
  unfolding from_mutator_ptr object_start construct validate write
  found = let e : (mapped + 16) / 4096 * 4096 ≡ mapped = omega arith in rw e (ground arith)

  kept_size : construct (actual_size size) mapped m mapped ≡ actual_size size
  unfolding construct write
  kept_size = ground arith

  -- A request for which mmap gives pages gets an object that ends with them, and Free unmaps them. The
  -- object has at least the bytes of the request and less than a page more, but for the last 15 sizes:
  -- there the sum with the header wraps around, and the object has 4080 bytes.
  pub payload_lem :
      size < 2 ^ 64
      → actual_size size ≢ 0
      → (p : ℕ) × (m' : Mem) × (n : ℕ) × (allocate size mapped m ≡ some (p, m'))
        × (payload_size m' p ≡ some n)
        × (p + n ≡ mapped + actual_size size)
        × (free m' p ≡ some (mapped, actual_size size))
        × (((size ≤ n) × (n < size + page_size)) ⊎ ((2 ^ 64 - 15 ≤ size) × (n ≡ 4080)))
  unfolding allocate payload_size free object_start
  payload_lem fits some_pages =
      let bounds = actual_bounds size fits some_pages in
      (
        mapped + 16,
        construct (actual_size size) mapped m,
        actual_size size - 16,
        ground arith,
        rw (found, kept_size) (ground (arith, bounds)),
        ground (arith, bounds),
        rw (found, kept_size) refl,
        ground (arith, bounds),
      )
