-- ===== src/Alloc/Globals.antt =====
-- The constants of src/globals.h and of src/size_classes_raw.h, and the wrap-around of a size_t.
use Prim.Native.Nat.{ℕ, ◌+◌, ◌-◌, ◌*◌, ◌/◌, ◌%◌, ◌^◌}

abbrev pub page_size : ℕ
page_size = 4096

abbrev pub tera : ℕ
tera = 2 ^ 40

abbrev pub object_space_size : ℕ
object_space_size = 35 * tera

abbrev pub max_small_shift : ℕ
max_small_shift = 8

abbrev pub max_medium_shift : ℕ
max_medium_shift = 20

abbrev pub virtual_span_shift : ℕ
virtual_span_shift = 21

abbrev pub min_alignment : ℕ
min_alignment = 16

abbrev pub max_small_size : ℕ
max_small_size = 2 ^ max_small_shift

abbrev pub max_medium_size : ℕ
max_medium_size = 2 ^ max_medium_shift

abbrev pub virtual_span_size : ℕ
virtual_span_size = 2 ^ virtual_span_shift

abbrev pub fine_classes : ℕ
fine_classes = max_small_size / min_alignment + 1

abbrev pub coarse_classes : ℕ
coarse_classes = max_medium_shift - max_small_shift

abbrev pub num_classes : ℕ
num_classes = fine_classes + coarse_classes

abbrev pub reuse_threshold : ℕ
reuse_threshold = 80

abbrev pub span_header_size : ℕ
span_header_size = 128

-- Arithmetic on size_t and uintptr_t; `-` adds the modulus first.
abbrev pub u64 : ℕ → ℕ
u64 n = n % 2 ^ 64

abbrev pub sub64 : ℕ → ℕ → ℕ
sub64 a b = (a + 2 ^ 64 - b) % 2 ^ 64
