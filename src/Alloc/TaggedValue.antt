-- ===== src/Alloc/TaggedValue.antt =====
-- src/atomic_value.h: a value of 48 bits and a tag of 16 in one word, and the atomic cell of it.
pub mod Packed
use scalloc.Common.{
  ℕ, ◌+◌, ◌-◌, ◌*◌, ◌/◌, ◌%◌, ◌^◌, Bool, true, false, ◌||◌, ltb, leb, ◌==◌, if◌then◌else◌,
}

-- raw_, a uint64_t. `& kValueMask` is the remainder by 2 ^ 48, `<< 48` and `>> 48` a product and a
-- quotient; the parts share no bit, so `|` is their sum.
abbrev pub TaggedValue : Type 0
TaggedValue = ℕ

abbrev pub value_mod : ℕ
value_mod = 2 ^ 48

-- The constructor; the tag is converted to uint16_t.
unfoldable pub tagged : ℕ → ℕ → TaggedValue
tagged value tag = value % value_mod + tag % 2 ^ 16 * value_mod

abbrev extend_mask : ℕ
extend_mask = 2 ^ 64 - 2 ^ 48

-- value(): the bit 47 is extended.
unfoldable pub value : TaggedValue → ℕ
value raw = raw % value_mod + raw / 2 ^ 47 % 2 * extend_mask

unfoldable pub tag : TaggedValue → ℕ
tag raw = raw / value_mod % 2 ^ 16

-- AtomicTaggedValue::swap: the cell behind it, and whether it was swapped.
unfoldable pub swap : TaggedValue → TaggedValue → TaggedValue → TaggedValue × Bool
swap expected desired cell = if cell == expected then (desired, true) else (cell, false)
