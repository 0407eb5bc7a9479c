-- ===== src/Alloc/SizeClasses.antt =====
-- src/size_classes.h with the table of src/size_classes_raw.h, as src/glue.cc reads it.
pub mod Fits
use scalloc.Common.{
  ℕ, zero, suc, ◌+◌, ◌-◌, ◌*◌, ◌/◌, ◌%◌, ◌^◌, ◌≡◌, refl, List, [], ◌∷◌, map, arith, leb,
  if◌then◌else◌, get_or, Option, none, some,
}
use scalloc.Alloc.Globals.{
  page_size, max_small_shift, max_small_size, max_medium_size, min_alignment, fine_classes,
  span_header_size, reuse_threshold, u64, sub64,
}
use scalloc.Alloc.Utils.{log2}

-- V(a, b, c, d): the class, the size of its objects, the size of its spans, the objects in one.
pub record SizeClass : Type 0 where
  pub size : ℕ
  pub span_size : ℕ
  pub objects : ℕ

-- A class of small objects: its spans are 32 KiB.
abbrev fine : ℕ → SizeClass
fine size = record { size = size; span_size = 32768; objects = (32768 - span_header_size) / size }

-- A class of medium objects.
abbrev coarse : ℕ → ℕ → SizeClass
coarse n size = record {
  size = size;
  span_size = ((n * size + span_header_size) / page_size + 1) * page_size;
  objects = n;
}

abbrev no_class : SizeClass
no_class = record { size = 0; span_size = 0; objects = 0 }

-- FOR_ALL_SIZE_CLASSES
unfoldable pub all_size_classes : List SizeClass
all_size_classes =
    no_class
    ∷ fine 16
    ∷ fine 32
    ∷ fine 48
    ∷ fine 64
    ∷ fine 80
    ∷ fine 96
    ∷ fine 112
    ∷ fine 128
    ∷ fine 144
    ∷ fine 160
    ∷ fine 176
    ∷ fine 192
    ∷ fine 208
    ∷ fine 224
    ∷ fine 240
    ∷ fine 256
    ∷ coarse 64 512
    ∷ coarse 64 1024
    ∷ coarse 64 2048
    ∷ coarse 32 4096
    ∷ coarse 32 8192
    ∷ coarse 16 16384
    ∷ coarse 16 32768
    ∷ coarse 16 65536
    ∷ coarse 8 131072
    ∷ coarse 4 262144
    ∷ coarse 2 524288
    ∷ coarse 1 1048576
    ∷ []

-- The tables are indexed below kNumClasses; an index behind them gives the row of zeros.
unfoldable pub class_to_objects : ℕ → ℕ
unfolding all_size_classes
class_to_objects sc = (get_or all_size_classes sc no_class).objects

unfoldable pub class_to_size : ℕ → ℕ
unfolding all_size_classes
class_to_size sc = (get_or all_size_classes sc no_class).size

unfoldable pub class_to_span_size : ℕ → ℕ
unfolding all_size_classes
class_to_span_size sc = (get_or all_size_classes sc no_class).span_size

unfoldable pub class_to_reuse_threshold : ℕ → ℕ
class_to_reuse_threshold sc = class_to_objects sc * reuse_threshold / 100

-- 0 stands for a size of 0 and for large objects.
unfoldable pub size_to_class : ℕ → ℕ
size_to_class size =
    if leb size max_small_size
    then u64 (size + min_alignment - 1) / min_alignment
    else if leb size max_medium_size
    then u64 (sub64 (log2 (size - 1)) max_small_shift + fine_classes)
    else 0

-- `none` is UNREACHABLE(); `& ~(kMinAlignment - 1)` rounds down to a multiple of it.
unfoldable pub size_to_block_size : ℕ → Option ℕ
size_to_block_size size =
    if leb size max_small_size
    then some (u64 (size + min_alignment - 1) / min_alignment * min_alignment)
    else if leb size max_medium_size
    then some (2 ^ (log2 (size - 1) + 1))
    else none
