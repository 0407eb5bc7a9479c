-- ===== src/Alloc/SizeClasses/Fits.antt =====
-- The class of a size is the smallest one whose objects hold it.
use scalloc.Common.{
  ℕ, ◌+◌, ◌-◌, ◌*◌, ◌/◌, ◌%◌, ◌^◌, ◌≤◌, ◌<◌, ◌≡◌, refl, Bool, true, arith, ◌||◌, ◌&&◌, ltb, leb,
  ◌==◌, some, ap, sym,
}
use scalloc.Alloc.Globals.{
  max_medium_size, num_classes, min_alignment, span_header_size, virtual_span_size,
}
use scalloc.Alloc.Bits.{all_below, all_below_lem, pow-add}
use scalloc.Alloc.Utils.{log2, log2_bounds}
use native.Mathlib.Decide.{dec_lt}
use native.Mathlib.Nat.{pow-le-pow_right}
use scalloc.Alloc.SizeClasses.{
  class_to_size, class_to_objects, class_to_span_size, class_to_reuse_threshold, size_to_class,
  size_to_block_size,
}

fine_sizes : all_below 17 (λ c. class_to_size c == 16 * c) ≡ true
unfolding all_below class_to_size
fine_sizes = refl

fine_size : (c : ℕ) → c < 17 → class_to_size c ≡ 16 * c
fine_size c lt = ground (arith, all_below_lem 17 (λ c. class_to_size c == 16 * c) c fine_sizes lt)

coarse_sizes : all_below 20 (λ k. leb k 7 || (class_to_size (k + 9) == 2 * 2 ^ k)) ≡ true
unfolding all_below class_to_size
coarse_sizes = refl

coarse_size : (k : ℕ) → 7 < k → k < 20 → class_to_size (k + 9) ≡ 2 * 2 ^ k
coarse_size k lo hi = ground (
  arith,
  all_below_lem 20 (λ k. leb k 7 || (class_to_size (k + 9) == 2 * 2 ^ k)) k coarse_sizes hi,
)

-- A logarithm of a medium size.
medium_log : (k v : ℕ) → 2 ^ k ≤ v → v < 2 * 2 ^ k → 256 ≤ v → v < 2 ^ 20 → (7 < k) × (k < 20)
medium_log k v lo hi a b = (below (dec_lt 7 k), above (dec_lt k 20))
  where
    below : Dec (7 < k) → 7 < k
    below (yes h) = h
    below (no h) =
        absurd (omega (arith, pow-le-pow_right {n = 2} (omega arith) {i = k} {j = 7} (omega arith)))

    above : Dec (k < 20) → k < 20
    above (yes h) = h
    above (no h) =
        absurd
          (omega (arith, pow-le-pow_right {n = 2} (omega arith) {i = 20} {j = k} (omega arith)))

abbrev pub HoldsBy : ℕ → ℕ → Type 0
HoldsBy size c =
    (0 < c) × (c < num_classes) × (size ≤ class_to_size c) × (class_to_size (c - 1) < size)

fine-HoldsBy : (size : ℕ) → 0 < size → size ≤ 256 → HoldsBy size ((size + 15) / 16)
fine-HoldsBy size pos le = omega (
  arith,
  fine_size ((size + 15) / 16) (omega arith),
  fine_size ((size + 15) / 16 - 1) (omega arith),
)

below_coarse : (k : ℕ) → 7 < k → k < 20 → class_to_size (k + 8) ≡ 2 ^ k
below_coarse k lo hi = elim (dec_lt 8 k) [
  | yes h ↦
      let e : (k - 1) + 9 ≡ k + 8 = omega arith in
      let f : 1 + (k - 1) ≡ k = omega arith in
      omega (
        arith,
        ap class_to_size e,
        coarse_size (k - 1) (omega arith) (omega arith),
        ap (λ (k : ℕ). 2 ^ k) f,
        pow-add 1 (k - 1),
      )
  | no h ↦ let e : k ≡ 8 = omega arith in rw e (fine_size 16 (omega arith))
]

coarse-HoldsBy :
    (size k : ℕ)
    → 256 < size
    → 2 ^ k < size
    → size ≤ 2 * 2 ^ k
    → 7 < k
    → k < 20
    → HoldsBy size (k + 9)
coarse-HoldsBy size k large lo hi a b =
    let e : k + 9 - 1 ≡ k + 8 = omega arith in
    omega (arith, coarse_size k a b, below_coarse k a b, ap class_to_size e)

module _ (size : ℕ) where
  small_class : size ≤ 256 → size_to_class size ≡ (size + 15) / 16
  unfolding size_to_class
  small_class h = ground arith

  small_block : size ≤ 256 → size_to_block_size size ≡ some (16 * ((size + 15) / 16))
  unfolding size_to_block_size
  small_block h = ground arith

  module _ (large : 256 < size) (le : size ≤ max_medium_size) where
    medium_bounds :
        (2 ^ log2 (size - 1) < size)
        × (size ≤ 2 * 2 ^ log2 (size - 1))
        × (7 < log2 (size - 1))
        × (log2 (size - 1) < 20)
    medium_bounds =
        let (lo, hi, _) = log2_bounds (size - 1) (omega arith) (omega arith) in
        let (a, b) = medium_log (log2 (size - 1)) (size - 1) lo hi (omega arith) (omega arith) in
        (omega arith, omega arith, a, b)

    medium_class : size_to_class size ≡ log2 (size - 1) + 9
    unfolding size_to_class
    medium_class = ground (arith, medium_bounds)

    medium_block : size_to_block_size size ≡ some (2 * 2 ^ log2 (size - 1))
    unfolding size_to_block_size
    medium_block = ground (arith, medium_bounds, pow-add (log2 (size - 1)) 1)

-- A size from 1 byte to 1 MiB has one of the classes 1 to 28; the objects of the class hold the size,
-- those of the class below do not, and their size is the one that SizeToBlockSize gives.
pub size_to_class-Fits :
    (size : ℕ)
    → 0 < size
    → size ≤ max_medium_size
    → HoldsBy size (size_to_class size)
      × (size_to_block_size size ≡ some (class_to_size (size_to_class size)))
size_to_class-Fits size pos le = elim (dec_lt 256 size) [
  | yes large ↦
      let (lo, hi, a, b) = medium_bounds size large le in
      rw (medium_class size large le, medium_block size large le)
        (
          coarse-HoldsBy size (log2 (size - 1)) large lo hi a b,
          ap some (sym (coarse_size (log2 (size - 1)) a b)),
        )
  | no small ↦
      rw (small_class size (omega arith), small_block size (omega arith))
        (
          fine-HoldsBy size pos (omega arith),
          ap some (sym (fine_size ((size + 15) / 16) (omega arith))),
        )
]

abbrev class_fits : ℕ → Bool
class_fits sc =
    (sc == 0)
    || (ltb 0 (class_to_size sc)
        && ltb 0 (class_to_objects sc)
        && ltb (class_to_objects sc) 2048
        && leb (span_header_size + class_to_objects sc * class_to_size sc) (class_to_span_size sc)
        && leb (class_to_span_size sc) virtual_span_size
        && leb (class_to_reuse_threshold sc) (class_to_objects sc)
        && (class_to_size sc % min_alignment == 0))

classes_fit : all_below num_classes class_fits ≡ true
unfolding all_below class_to_size class_to_objects class_to_span_size class_to_reuse_threshold
classes_fit = refl

-- In each class the header and the objects fit its spans, these fit a virtual span, the objects have
-- the least alignment, the threshold can be reached, and there are from 1 to 2047 objects.
pub spans_fit :
    (sc : ℕ)
    → 0 < sc
    → sc < num_classes
    → (0 < class_to_size sc)
      × (0 < class_to_objects sc)
      × (class_to_objects sc < 2048)
      × (span_header_size + class_to_objects sc * class_to_size sc ≤ class_to_span_size sc)
      × (class_to_span_size sc ≤ virtual_span_size)
      × (class_to_reuse_threshold sc ≤ class_to_objects sc)
      × (class_to_size sc % min_alignment ≡ 0)
spans_fit sc pos lt = ground (arith, all_below_lem num_classes class_fits sc classes_fit lt)
