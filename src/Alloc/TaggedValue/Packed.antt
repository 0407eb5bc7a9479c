-- ===== src/Alloc/TaggedValue/Packed.antt =====
-- What a tagged value gives back, and when two of them are the same word.
use scalloc.Common.{ℕ, ◌-◌, ◌^◌, ◌≤◌, ◌<◌, ◌≡◌, ◌↔◌, ◌⊎◌, arith, ap}
use scalloc.Alloc.TaggedValue.{tagged, value, tag}

-- A word of 64 bits whose upper 16 bits extend the bit 47: a pointer of the platform.
abbrev pub IsCanonical : ℕ → Type 0
IsCanonical v = (v < 2 ^ 47) ⊎ ((2 ^ 64 - 2 ^ 47 ≤ v) × (v < 2 ^ 64))

-- The tag comes back, and the value exactly when it is canonical.
pub tagged_fields :
    (v t : ℕ) → t < 2 ^ 16 → (tag (tagged v t) ≡ t) × ((value (tagged v t) ≡ v) ↔ IsCanonical v)
unfolding tagged value tag
tagged_fields v t h = ground arith

-- Canonical values make the same word only when they are equal and their tags are.
pub tagged_injective :
    (v w t u : ℕ)
    → IsCanonical v
    → IsCanonical w
    → t < 2 ^ 16
    → u < 2 ^ 16
    → (tagged v t ≡ tagged w u) ↔ ((v ≡ w) × (t ≡ u))
tagged_injective v w t u a b c d =
    ground (arith, ap value, tagged_fields v t c, tagged_fields w u d)
