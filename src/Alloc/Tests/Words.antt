-- ===== src/Alloc/Tests/Words.antt =====
-- Sizes, tagged words, epochs, arenas and the entry points.
use scalloc.Common.{
  ℕ, ◌+◌, ◌-◌, ◌*◌, ◌%◌, ◌^◌, ◌≤◌, ◌<◌, ◌≡◌, ◌↔◌, ◌⊎◌, refl, true, false, ◌&&◌, [], ◌∷◌, some, leb,
  ltb, ◌==◌, if◌then◌else◌, arith,
}
use scalloc.Alloc.Globals.{tera, page_size}
use scalloc.Alloc.SizeClasses.{size_to_class, size_to_block_size, class_to_size}
use scalloc.Alloc.SizeClasses.Fits.{HoldsBy, size_to_class-Fits}
use scalloc.Alloc.Utils.{log2, log_entry, pad_size}
use scalloc.Alloc.TaggedValue.{tagged, value, tag}
use scalloc.Alloc.TaggedValue.Packed.{IsCanonical, tagged_fields}
use scalloc.Alloc.Span.Epoch.{
  new_mark_hot, new_mark_full, new_mark_reuse, new_mark_floating, try_mark_floating,
}
use scalloc.Alloc.Span.Epoch.States.{
  encode, next, floating, hot, full, reusable, leaves, is_floating, same_state, marks_lem,
}
use scalloc.Alloc.Arena
use scalloc.Alloc.Arena.{Arena, contains}
use scalloc.Alloc.Arena.Contained.{object_space-Contains}
use scalloc.Alloc.Arena.Apart.{allocate_all, AreApart, allocate_all-AreApart}
use scalloc.Alloc.Memory.{Mem, null}
use scalloc.Alloc.LargeObjects
use scalloc.Alloc.LargeObjects.{actual_size, payload_size}
use scalloc.Alloc.LargeObjects.Payload.{payload_lem}
use scalloc.Alloc.Glue.{Heap, calloc, posix_memalign, tagged_below}
use scalloc.Alloc.Glue.Calloc.{IsZeroed, calloc_lem}
use scalloc.Alloc.Glue.Memalign.{posix_memalign_lem, align_to_block_start-tagged}
use scalloc.Alloc.Bytes.{memset}
use scalloc.Alloc.Span.{header_end, align_to_block_start}

logarithms :
    (log2 1 ≡ 0) × (log2 255 ≡ 7) × (log2 256 ≡ 8) × (log2 65535 ≡ 15) × (log2 1048575 ≡ 19)
unfolding log2 log_entry
logarithms = (refl, refl, refl, refl, refl)

size_to_class-Fits_example :
    HoldsBy 300 (size_to_class 300)
    × (size_to_block_size 300 ≡ some (class_to_size (size_to_class 300)))
size_to_class-Fits_example = size_to_class-Fits 300 (omega arith) (omega arith)

tagged_fields_example :
    (tag (tagged 0x7f00_0000_1000 9) ≡ 9)
    × ((value (tagged 0x7f00_0000_1000 9) ≡ 0x7f00_0000_1000) ↔ IsCanonical 0x7f00_0000_1000)
tagged_fields_example = tagged_fields 0x7f00_0000_1000 9 (omega arith)

marks_lem_example :
    (new_mark_hot (encode floating 3) (encode floating 3) ≡ (
      if leaves floating floating && 3 == 3
      then (encode hot (next 3), true)
      else (encode floating 3, false)))
    × (new_mark_full (encode floating 3) (encode floating 3) ≡ (
        if leaves floating floating && 3 == 3
        then (encode full (next 3), true)
        else (encode floating 3, false)))
    × (new_mark_reuse (encode floating 3) (encode floating 3) ≡ (
        if is_floating floating && 3 == 3
        then (encode reusable (next 3), true)
        else (encode floating 3, false)))
    × (try_mark_floating (encode floating 3) (encode floating 3) ≡ (
        if same_state floating floating && 3 == 3
        then (encode floating 3, true)
        else (encode floating 3, false)))
    × (new_mark_floating (encode floating 3) ≡ encode floating 3)
    × (next 3 < 2 ^ 28)
marks_lem_example = marks_lem 3 3 floating floating (omega arith) (omega arith)

abbrev object_space : Arena
object_space = record { start = 35 * tera; end = 70 * tera; len = 35 * tera; current = 35 * tera }

object_space-Contains_example : (contains object_space (65 * tera) ≡ true) ↔ (
    ((1 * tera ≤ 65 * tera) × (65 * tera < 4 * tera))
    ⊎ ((32 * tera ≤ 65 * tera) × (65 * tera < 64 * tera)))
unfolding Arena.init
object_space-Contains_example = object_space-Contains 0 (65 * tera) object_space refl (omega arith)

allocate_all-AreApart_example :
    AreApart (35 * tera) (70 * tera) (allocate_all (100 ∷ 0 ∷ 4096 ∷ []) object_space)
allocate_all-AreApart_example =
    allocate_all-AreApart (100 ∷ 0 ∷ 4096 ∷ []) object_space (omega arith)

abbrev zeros : Mem
zeros a = 0

payload_lem_example :
    (p : ℕ) × (m' : Mem) × (n : ℕ) × (LargeObjects.allocate 2000000 (2 ^ 30) zeros ≡ some (p, m'))
    × (payload_size m' p ≡ some n)
    × (p + n ≡ 2 ^ 30 + actual_size 2000000)
    × (LargeObjects.free m' p ≡ some (2 ^ 30, actual_size 2000000))
    × (((2000000 ≤ n) × (n < 2000000 + page_size)) ⊎ ((2 ^ 64 - 15 ≤ 2000000) × (n ≡ 4080)))
unfolding actual_size pad_size
payload_lem_example =
    payload_lem 2000000 (2 ^ 30) zeros (omega arith) (omega arith) (omega arith) (omega arith)

abbrev heap : Heap ℕ
heap = record { state = 0; bytes = λ a. 7; seen_memalign = false }

-- A malloc that hands out the same address.
abbrev one_object : ℕ → Heap ℕ → ℕ × Heap ℕ
one_object n h = (0x1000_0010, record h { state = n })

calloc_lem_example :
    ((2 ^ 64 ≤ 3 * 5) × (calloc one_object 3 5 heap ≡ (null, heap)))
    ⊎ ((3 * 5 < 2 ^ 64) × IsZeroed (3 * 5) (one_object (3 * 5) heap) (calloc one_object 3 5 heap))
calloc_lem_example = calloc_lem one_object 3 5 heap

posix_memalign_lem_example :
    (p : ℕ) × (posix_memalign one_object 64 100 heap ≡ (
      0,
      some p,
      tagged_below one_object p (record { state = 164; bytes = λ a. 7; seen_memalign = true }),
    ))
    × (p % 64 ≡ 0)
    × (0x1000_0010 < p)
    × (p + 100 ≤ 0x1000_0010 + (64 + 100))
    × ((a : ℕ)
        → (tagged_below one_object p
              (record { state = 164; bytes = λ a. 7; seen_memalign = true })).bytes
            a
          ≡ (if leb (p - 4) a && ltb a p then 0xaa else 7))
posix_memalign_lem_example =
    posix_memalign_lem one_object 64 100 heap (omega arith) (omega arith) (omega arith)
      (omega arith) (omega arith)

align_to_block_start-tagged_example :
    (align_to_block_start 4 (memset (0x20_1090 - 4) 0xaa 4 (λ a. 0)) 0x20_0000 17 0x20_1090
      ≡ header_end 0x20_0000 + 8 * class_to_size 17)
    × (align_to_block_start 8 (memset (0x20_1090 - 4) 0xaa 4 (λ a. 0)) 0x20_0000 17 0x20_1090
        ≡ 0x20_1090)
unfolding header_end class_to_size
align_to_block_start-tagged_example =
    align_to_block_start-tagged (λ a. 0) 0x20_0000 17 8 0x20_1090 (omega arith) (omega arith)
      (omega arith) (omega arith)
