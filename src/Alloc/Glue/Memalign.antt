-- ===== src/Alloc/Glue/Memalign.antt =====
-- Aligned objects, and the way back to the object that they stand in.
use native.Mathlib.Nat.{mod-lt, mod-eq_of_lt, mul-add-mod_self_right}
use scalloc.Common.{
  ℕ, ◌+◌, ◌-◌, ◌*◌, ◌%◌, ◌^◌, ◌≤◌, ◌<◌, ◌≡◌, ◌≢◌, refl, ◌∙◌, true, false, ◌&&◌, leb, ltb, some,
  ◌==◌, if◌then◌else◌, arith,
}
use scalloc.Alloc.Globals.{u64, sub64}
use scalloc.Alloc.SizeClasses.{class_to_size}
use scalloc.Alloc.Memory.{null}
use scalloc.Alloc.Bytes.{Bytes, memset, read_word}
use scalloc.Alloc.Arena.Aligned.{align_up}
use scalloc.Alloc.Span.{header_end, align_tag, align_to_block_start}
use scalloc.Alloc.Glue.{Heap, new_start, tagged_below, posix_memalign}

test_some : (n : ℕ) → n ≢ 0 → (n == 0) ≡ false
test_some n h = ground arith

test_other : (p s : ℕ) → s < p → (p == s) ≡ false
test_other p s h = ground arith

module _ {A : Type 0} (malloc : ℕ → Heap A → ℕ × Heap A) (align size : ℕ) (h : Heap A) where
  -- The heap and the object of the call of malloc.
  abbrev asked : ℕ × Heap A
  asked = malloc (u64 (align + size)) (record h { seen_memalign = true })

  -- When malloc gives memory and no address wraps around, posix_memalign gives an address at a multiple
  -- of the alignment, behind the start of the object, with `size` bytes up to the end of what was asked
  -- for; the four bytes below the address become the tag 0xAAAAAAAA, and no other byte changes.
  pub posix_memalign_lem :
      0 < align
      → size ≢ 0
      → asked.0 ≢ null
      → 4 ≤ asked.0
      → asked.0 + align + size < 2 ^ 64
      → (p : ℕ) × (posix_memalign malloc align size h ≡ (0, some p, tagged_below malloc p asked.1))
        × (p % align ≡ 0)
        × (asked.0 < p)
        × (p + size ≤ asked.0 + (align + size))
        × ((a : ℕ)
            → (tagged_below malloc p asked.1).bytes a
              ≡ (if leb (p - 4) a && ltb a p then 0xaa else asked.1.bytes a))
  unfolding posix_memalign memset
  posix_memalign_lem pos some_size got low fits =
      let start = asked.0 in
      let p = start + (align - start % align) in
      let (aligned, behind, before) = align_up start align pos in
      let at : new_start malloc start align ≡ p = omega (arith, mod-lt start pos) in
      (
        p,
        rw (test_some size some_size, test_some start got, at, test_other p start (omega arith))
            refl,
        aligned,
        behind,
        omega arith,
        λ a. ground (arith, a),
      )

module _ (m : Bytes) where
  tagged_at : (q a : ℕ) → q ≤ a → a < q + 4 → memset q 0xaa 4 m a ≡ 0xaa
  unfolding memset
  tagged_at q a lo hi = ground arith

  read_tag : (q : ℕ) → read_word 4 (memset q 0xaa 4 m) q ≡ align_tag
  unfolding read_word
  read_tag q = omega (
    arith,
    tagged_at q q (omega arith) (omega arith),
    tagged_at q (q + 1) (omega arith) (omega arith),
    tagged_at q (q + 1 + 1) (omega arith) (omega arith),
    tagged_at q (q + 1 + 1 + 1) (omega arith) (omega arith),
  )

  -- Eight bytes that end with the tag make a larger number, whatever the lower four are.
  read_wide : (q w : ℕ) → w + 4 ≡ q → align_tag < read_word 8 (memset q 0xaa 4 m) w
  unfolding read_word
  read_wide q w e =
      omega (arith, tagged_at q (w + 1 + 1 + 1 + 1 + 1 + 1 + 1) (omega arith) (omega arith))

-- The offset in an object.
offset_lem : (i size r : ℕ) → r < size → (i * size + r) % size ≡ r
offset_lem i size r h = mul-add-mod_self_right i size r ∙ mod-eq_of_lt h

-- On an address that is tagged below and stands in an object of the span, AlignToBlockStart gives the
-- start of the object if an int_fast32_t has four bytes, and leaves the address as it is if it has
-- eight, as on 64-bit Linux.
pub align_to_block_start-tagged :
    (m : Bytes) (base sc i p : ℕ)
    → header_end base + i * class_to_size sc < p
    → p < header_end base + i * class_to_size sc + class_to_size sc
    → 8 ≤ p
    → p < 2 ^ 64
    → (align_to_block_start 4 (memset (p - 4) 0xaa 4 m) base sc p
        ≡ header_end base + i * class_to_size sc)
      × (align_to_block_start 8 (memset (p - 4) 0xaa 4 m) base sc p ≡ p)
unfolding align_to_block_start
align_to_block_start-tagged m base sc i p lo hi low top =
    let at : sub64 p 4 ≡ p - 4 = omega arith in
    let at' : sub64 p 8 ≡ p - 8 = omega arith in
    let r = p - (header_end base + i * class_to_size sc) in
    let e : sub64 p (header_end base) ≡ i * class_to_size sc + r = omega arith in
    (
      rw (at, read_tag m (p - 4), e, offset_lem i (class_to_size sc) r (omega arith)) (omega arith),
      rw at' (ground (arith, read_wide m (p - 4) (p - 8) (omega arith))),
    )
