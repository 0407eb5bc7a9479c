-- ===== src/Alloc/Span/Epoch.antt =====
-- The epoch of a span (src/span.h): a counter of 28 bits below the bits hot, full and reuse.
pub mod States
use scalloc.Common.{ℕ, ◌+◌, ◌*◌, ◌/◌, ◌%◌, ◌^◌, Bool, true, false, not, ◌&&◌, ◌==◌, if◌then◌else◌}

-- An int32_t as its bit pattern; a mask of a bit b keeps `bit b e`, and setting it where the masks
-- have cleared it is a sum.
abbrev pub hot_bit : ℕ
hot_bit = 31

abbrev pub full_bit : ℕ
full_bit = 30

abbrev pub reuse_bit : ℕ
reuse_bit = 29

abbrev pub last_value_bit : ℕ
last_value_bit = 28

abbrev pub bit : ℕ → ℕ → ℕ
bit b e = e / 2 ^ b % 2

-- e & kEpochOnlyValuesMask
abbrev pub only_values : ℕ → ℕ
only_values e = e % 2 ^ last_value_bit

-- e & kEpochReuseMask
abbrev pub reuse_masked : ℕ → ℕ
reuse_masked e = only_values e + bit reuse_bit e * 2 ^ reuse_bit

unfoldable pub is_hot : ℕ → Bool
is_hot e = not (bit hot_bit e == 0)

unfoldable pub is_full : ℕ → Bool
is_full e = not (bit full_bit e == 0)

unfoldable pub is_reusable : ℕ → Bool
is_reusable e = not (bit reuse_bit e == 0)

unfoldable pub is_floating_or_reusable : ℕ → Bool
is_floating_or_reusable e = not (is_full e) && not (is_hot e)

-- compare_exchange_strong on epoch_: the epoch behind it, and whether it was exchanged.
abbrev pub exchange : ℕ → ℕ → ℕ → ℕ × Bool
exchange old new e = if e == old then (new, true) else (e, false)

-- (x | kEpochHot) & kEpochHotMask, and so on: the values and the one bit.
unfoldable pub new_mark_hot : ℕ → ℕ → ℕ × Bool
new_mark_hot old e =
    let old = reuse_masked old in exchange old (only_values (old + 1) + 2 ^ hot_bit) e

unfoldable pub new_mark_full : ℕ → ℕ → ℕ × Bool
new_mark_full old e =
    let old = reuse_masked old in exchange old (only_values (old + 1) + 2 ^ full_bit) e

unfoldable pub new_mark_reuse : ℕ → ℕ → ℕ × Bool
new_mark_reuse old e =
    let old = only_values old in exchange old (only_values (old + 1) + 2 ^ reuse_bit) e

unfoldable pub new_mark_floating : ℕ → ℕ
new_mark_floating e = only_values e

unfoldable pub try_mark_floating : ℕ → ℕ → ℕ × Bool
try_mark_floating old e = exchange old (only_values old) e
