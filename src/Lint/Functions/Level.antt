-- ===== src/Lint/Functions/Level.antt =====
-- The confidence with which `_FunctionState.Check` of tools/cpplint.py reports a long function.
use scalloc.Common.{
  ℕ, zero, suc, ◌*◌, ◌/◌, ◌^◌, ◌≤◌, ◌<◌, ◌≡◌, refl, arith, Bool-cases, ◌⊎◌, inl, inr, ltb,
  if◌then◌else◌, ltb→lt, if-true, if-false, ◌∙◌,
}
use scalloc.Common.Text.{Text, codes}
use scalloc.Common.Regex.{matches}
use scalloc.Lint.World.{ok, World, ErrorFn}
use scalloc.Lint.Functions.{
  FunctionState, log2_from, log2, error_level, base_trigger, check, too_long, re_test,
}

-- The exponent of the largest power of 2 that is at most `n`.
abbrev pub Log2 : ℕ → ℕ → Type 0
Log2 n k = (2 ^ k ≤ n) × (n < 2 ^ suc k)

Log2-half : (n k : ℕ) → 2 ≤ n → Log2 (n / 2) k → Log2 n (suc k)
Log2-half n k h (a, b) = (omega arith, omega arith)

log2_from-Log2 : (fuel n : ℕ) → 0 < n → n ≤ fuel → Log2 n (log2_from fuel n)
unfolding log2_from
log2_from-Log2 zero n p h = absurd (omega arith)
log2_from-Log2 (suc fuel) n p h = elim (Bool-cases (ltb n 2)) [
  | inl small ↦ rw small (ground arith)
  | inr big ↦
      let two : 2 ≤ n = ground arith in
      rw big (Log2-half n _ two (log2_from-Log2 fuel (n / 2) (omega arith) (omega arith)))
]

pub log2-Log2 : (n : ℕ) → 0 < n → Log2 n (log2 n)
unfolding log2
log2-Log2 n p = log2_from-Log2 n n p (omega arith)

pow_pos : (k : ℕ) → 0 < 2 ^ k
pow_pos zero = omega arith
pow_pos (suc k) = let h = pow_pos k in omega arith

pow_mono : (a b : ℕ) → a ≤ b → 2 ^ a ≤ 2 ^ b
pow_mono zero b h = omega (arith, pow_pos b)
pow_mono (suc a) zero h = absurd (omega arith)
pow_mono (suc a) (suc b) h = let k = pow_mono a b (omega arith) in omega arith

-- A power of 2 that is at most `n` has at most its logarithm.
Log2-max : (n k v : ℕ) → Log2 n k → 2 ^ v ≤ n → v ≤ k
Log2-max n k v (a, b) h = elim (Bool-cases (ltb k v)) [
  | inl big ↦ let m = pow_mono (suc k) v (ltb→lt k v big) in absurd (omega arith)
  | inr small ↦ ground arith
]

-- The lines that trigger an error at verbosity 0.
abbrev pub test_or_normal : FunctionState → ℕ
test_or_normal s = if matches re_test s.current_function then 400 else 250

-- What the check does with a function of more than `base * 2 ^ v` lines.
abbrev pub Reported : ErrorFn → Text → ℕ → FunctionState → World → ℕ → Type 0
Reported report filename linenum s w level =
    let base = test_or_normal s in
    (base * 2 ^ w.lint.verbose_level < s.lines_in_function)
    × (check report filename linenum s w
        ≡ report filename linenum (codes "readability/fn_size") level
            (too_long s (base * 2 ^ w.lint.verbose_level)) w)
    × (level ≤ 5)
    × (base * 2 ^ level ≤ s.lines_in_function)
    × (level < 5 → s.lines_in_function < base * 2 ^ suc level)
    × (w.lint.verbose_level ≤ 5 → w.lint.verbose_level ≤ level)

capped :
    (n v : ℕ)
    → 0 < n
    → 2 ^ v ≤ n
    → let level = error_level n in
      (level ≤ 5) × (2 ^ level ≤ n) × (level < 5 → n < 2 ^ suc level) × (v ≤ 5 → v ≤ level)
unfolding error_level
capped n v p h =
    let (a, b) = log2-Log2 n p in
    let m = Log2-max n (log2 n) v (a, b) h in
    elim (Bool-cases (ltb 5 (log2 n))) [
      | inl big ↦
          let five : 5 ≤ log2 n = ground arith in
          let k = pow_mono 5 (log2 n) five in
          rw big (omega arith, omega arith, λ q. absurd (omega arith), λ q. q)
      | inr small ↦ let five : log2 n ≤ 5 = ground arith in rw small (five, a, λ q. b, λ q. m)
    ]

quotient : (base k n : ℕ) → (base ≡ 250) ⊎ (base ≡ 400) → base * k < n → k ≤ n / base
quotient base k n (inl e) h = rw e (let h' : 250 * k < n = rw e at h in omega arith)
quotient base k n (inr e) h = rw e (let h' : 400 * k < n = rw e at h in omega arith)

below : (base k n : ℕ) → (base ≡ 250) ⊎ (base ≡ 400) → n / base < k → n < base * k
below base k n (inl e) h = rw e (let h' : n / 250 < k = rw e at h in omega arith)
below base k n (inr e) h = rw e (let h' : n / 400 < k = rw e at h in omega arith)

at_least : (base k n : ℕ) → (base ≡ 250) ⊎ (base ≡ 400) → k ≤ n / base → base * k ≤ n
at_least base k n (inl e) h = rw e (let h' : k ≤ n / 250 = rw e at h in omega arith)
at_least base k n (inr e) h = rw e (let h' : k ≤ n / 400 = rw e at h in omega arith)

test_or_normal-cases : (s : FunctionState) → (test_or_normal s ≡ 250) ⊎ (test_or_normal s ≡ 400)
test_or_normal-cases s = elim (Bool-cases (matches re_test s.current_function)) [
  | inl t ↦ inr (rw t refl)
  | inr f ↦ inl (rw f refl)
]

check-ltb :
    (report : ErrorFn) (filename : Text) (linenum : ℕ) (s : FunctionState) (w : World)
    → check report filename linenum s w ≡ (
        if ltb (test_or_normal s * 2 ^ w.lint.verbose_level) s.lines_in_function
        then report filename linenum
            (codes "readability/fn_size")
            (error_level (s.lines_in_function / test_or_normal s))
            (too_long s (test_or_normal s * 2 ^ w.lint.verbose_level))
            w
        else ok w)
unfolding check base_trigger
check-ltb report filename linenum s w = refl

-- With a base of 400 lines for a function named like a test and of 250 for any other, and a limit of
-- base * 2^verbosity lines, `_FunctionState.Check` does nothing exactly for a function within the limit.
-- For a longer one it reports one message, at a level that is at most 5, at which base * 2^level lines
-- are reached and, below 5, twice as many are not; for a verbosity of at most 5 the level is no lower
-- than the verbosity.
pub check_lem :
    (report : ErrorFn) (filename : Text) (linenum : ℕ) (s : FunctionState) (w : World)
    → ((s.lines_in_function ≤ test_or_normal s * 2 ^ w.lint.verbose_level)
        × (check report filename linenum s w ≡ ok w))
      ⊎ ((level : ℕ) × Reported report filename linenum s w level)
check_lem report filename linenum s w =
    let base = test_or_normal s in
    let v = w.lint.verbose_level in
    let n = s.lines_in_function in
    elim (Bool-cases (ltb (base * 2 ^ v) n)) [
      | inl long ↦
          let over = ltb→lt (base * 2 ^ v) n long in
          let bt = test_or_normal-cases s in
          let q = quotient base (2 ^ v) n bt over in
          let (a, b, c, d) = capped (n / base) v (omega (arith, q, pow_pos v)) q in
          inr (
            error_level (n / base),
            (
              over,
              check-ltb report filename linenum s w ∙ if-true _ _ long,
              a,
              at_least base _ n bt b,
              λ h. below base _ n bt (c h),
              d,
            ),
          )
      | inr short ↦ inl (ground arith, check-ltb report filename linenum s w ∙ if-false _ _ short)
    ]
