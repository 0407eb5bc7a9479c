-- ===== src/Alloc/Arena/Contained.antt =====
-- What Contains answers for the arena of objects at the address of its hint.
use Prim.Native.Nat.{bit_xor}
use scalloc.Common.{
  ℕ, ◌+◌, ◌*◌, ◌/◌, ◌%◌, ◌^◌, ◌≤◌, ◌<◌, ◌≡◌, ◌↔◌, ◌⊎◌, refl, ap, sym, if◌then◌else◌, ◌∙◌, Bool,
  true, ◌&&◌, ◌||◌, some, ltb, leb, arith,
}
use scalloc.Alloc.Globals.{tera, object_space_size}
use scalloc.Alloc.Bits.{all_below, all_below_lem, bit_xor_high}
use scalloc.Alloc.Arena.{Arena, init, contains}

-- The addresses between 1 and 4 TiB, and between 32 and 64 TiB.
abbrev in_ranges : ℕ → Bool
in_ranges q = (leb 1 q && ltb q 4) || (leb 32 q && ltb q 64)

abbrev agrees : ℕ → Bool
agrees q = if in_ranges q then ltb (bit_xor q 35) 35 else leb 35 (bit_xor q 35)

agrees_low : all_below 128 agrees ≡ true
unfolding all_below
agrees_low = refl

-- Contains, on the arena of objects that Init makes at the hint of 35 TiB, holds of the addresses of
-- user space from 1 to 4 TiB and from 32 to 64 TiB and of no others. The arena is from 35 to 70 TiB.
pub object_space-Contains :
    (mapped p : ℕ) (a : Arena)
    → init object_space_size object_space_size object_space_size mapped ≡ some a
    → p < 2 ^ 47
    → (contains a p ≡ true)
      ↔ (((1 * tera ≤ p) × (p < 4 * tera)) ⊎ ((32 * tera ≤ p) × (p < 64 * tera)))
unfolding init contains
object_space-Contains mapped p a e h =
    let start : a.start ≡ 35 * tera = ground (arith, e) in
    let len : a.len ≡ 35 * tera = ground (arith, e) in
    let parts : p / tera * tera + p % tera ≡ p = omega arith in
    let high : bit_xor p (35 * tera) ≡ bit_xor (p / tera) 35 * tera + p % tera =
      ap (λ x. bit_xor x (35 * tera)) (sym parts)
      ∙ bit_xor_high 40 (p / tera) 35 (p % tera) (omega arith) in
    rw (start, len, high)
      (ground (arith, all_below_lem 128 agrees (p / tera) agrees_low (omega arith)))
