-- ===== src/Alloc/Utils.antt =====
-- src/utils.h: PadSize, the table of logarithms and Log2.
use scalloc.Common.{
  ℕ, ◌+◌, ◌-◌, ◌*◌, ◌/◌, ◌%◌, ◌^◌, ◌≤◌, ◌<◌, ◌≡◌, refl, Bool, true, ◌&&◌, ◌||◌, List, [], ◌∷◌, ◌++◌,
  arith, ltb, leb, ◌==◌, if◌then◌else◌, get_or, Bool-cases, inl, inr,
}
use scalloc.Alloc.Globals.{u64, sub64}
use scalloc.Alloc.Bits.{all_below, all_below_lem, pow-add}

-- (size + multiple - 1) / multiple * multiple
unfoldable pub pad_size : ℕ → ℕ → ℕ
pad_size size multiple = u64 (sub64 (u64 (size + multiple)) 1 / multiple * multiple)

-- The macro LT.
abbrev lt16 : ℕ → List ℕ
lt16 n = n ∷ n ∷ n ∷ n ∷ n ∷ n ∷ n ∷ n ∷ n ∷ n ∷ n ∷ n ∷ n ∷ n ∷ n ∷ n ∷ []

-- The first entry of the table is -1: it is read for v = 0 only, and kept here as 2 ^ 32 - 1, the
-- value that `unsigned int r` has then.
unfoldable pub log_table : List ℕ
log_table =
    (2 ^ 32 - 1)
    ∷ 0
    ∷ 1
    ∷ 1
    ∷ 2
    ∷ 2
    ∷ 2
    ∷ 2
    ∷ 3
    ∷ 3
    ∷ 3
    ∷ 3
    ∷ 3
    ∷ 3
    ∷ 3
    ∷ 3
    ∷ (lt16 4
        ++ lt16 5
        ++ lt16 5
        ++ lt16 6
        ++ lt16 6
        ++ lt16 6
        ++ lt16 6
        ++ lt16 7
        ++ lt16 7
        ++ lt16 7
        ++ lt16 7
        ++ lt16 7
        ++ lt16 7
        ++ lt16 7
        ++ lt16 7)

-- An index behind the table is read as 0: the callers stay below 2 ^ 32, and so inside of it.
unfoldable pub log_entry : ℕ → ℕ
unfolding log_table
log_entry i = get_or log_table i 0

-- `tt` and `t` are unsigned int: the shifted size loses what is above 32 bits.
unfoldable pub log2 : ℕ → ℕ
log2 v =
    let tt = v / 2 ^ 16 % 2 ^ 32 in
    let t = tt / 2 ^ 8 in
    let s = v / 2 ^ 8 % 2 ^ 32 in
    if ltb 0 tt
    then (if ltb 0 t then 24 + log_entry t else 16 + log_entry tt)
    else (if ltb 0 s then 8 + log_entry s else log_entry v)

-- The entries are the logarithms of the indices, rounded down.
abbrev entry_fits : ℕ → Bool
entry_fits i =
    (i == 0) || (leb (2 ^ log_entry i) i && ltb i (2 * 2 ^ log_entry i) && ltb (log_entry i) 8)

log_table_fits : all_below 256 entry_fits ≡ true
unfolding all_below log_entry
log_table_fits = refl

log_entry_bounds :
    (i : ℕ)
    → 0 < i
    → i < 256
    → (2 ^ log_entry i ≤ i) × (i < 2 * 2 ^ log_entry i) × (log_entry i < 8)
log_entry_bounds i pos lt = ground (arith, all_below_lem 256 entry_fits i log_table_fits lt)

-- Log2 is the logarithm rounded down, of a size_t that fits an unsigned int.
pub log2_bounds :
    (v : ℕ) → 0 < v → v < 2 ^ 32 → (2 ^ log2 v ≤ v) × (v < 2 * 2 ^ log2 v) × (log2 v < 32)
unfolding log2
log2_bounds v pos lt = elim (Bool-cases (ltb 0 (v / 2 ^ 16 % 2 ^ 32))) [
  | inl wide ↦ elim (Bool-cases (ltb 0 (v / 2 ^ 16 % 2 ^ 32 / 2 ^ 8))) [
    | inl a ↦
        rw (wide, a)
          (ground (
            arith,
            wide,
            a,
            log_entry_bounds (v / 2 ^ 16 % 2 ^ 32 / 2 ^ 8),
            pow-add 24 (log_entry (v / 2 ^ 16 % 2 ^ 32 / 2 ^ 8)),
          ))
    | inr a ↦
        rw (wide, a)
          (ground (
            arith,
            wide,
            a,
            log_entry_bounds (v / 2 ^ 16 % 2 ^ 32),
            pow-add 16 (log_entry (v / 2 ^ 16 % 2 ^ 32)),
          ))
  ]
  | inr narrow ↦ elim (Bool-cases (ltb 0 (v / 2 ^ 8 % 2 ^ 32))) [
    | inl a ↦
        rw (narrow, a)
          (ground (
            arith,
            narrow,
            a,
            log_entry_bounds (v / 2 ^ 8 % 2 ^ 32),
            pow-add 8 (log_entry (v / 2 ^ 8 % 2 ^ 32)),
          ))
    | inr a ↦ rw (narrow, a) (ground (arith, narrow, a, log_entry_bounds v))
  ]
]
