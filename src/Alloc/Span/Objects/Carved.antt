-- ===== src/Alloc/Span/Objects/Carved.antt =====
-- The objects that have been carved off a span, counted.
use native.Mathlib.Decide.{dec_lt}
use scalloc.Common.{
  ℕ, zero, suc, ◌+◌, ◌*◌, ◌≤◌, ◌<◌, ◌≡◌, ◌≢◌, refl, arith, ◌==◌, if◌then◌else◌, Bool-cases, inl,
  inr,
}

module _ (start inc : ℕ) where
  -- How often `a` is among the first `n` objects from `start`.
  pub carved : ℕ → ℕ → ℕ
  carved zero a = 0
  carved (suc n) a = (if a == start + n * inc then 1 else 0) + carved n a

  pub carved_range : (n a : ℕ) → 0 < carved n a → (start ≤ a) × (a + inc ≤ start + n * inc)
  unfolding carved
  carved_range zero a h = absurd (omega arith)
  carved_range (suc n) a h = elim (Bool-cases (a == start + n * inc)) [
    | inl e ↦ grind arith
    | inr e ↦ let ih = carved_range n a (ground arith) in grind arith
  ]

  pub carved-le : 0 < inc → (n a : ℕ) → carved n a ≤ 1
  unfolding carved
  carved-le pos zero a = omega arith
  carved-le pos (suc n) a = elim (dec_lt 0 (carved n a)) [
    | yes old ↦ let range = carved_range n a old in ground (arith, carved-le pos n a, range)
    | no new ↦ ground arith
  ]

  pub carved-off : (a : ℕ) → ((i : ℕ) → a ≢ start + i * inc) → (n : ℕ) → carved n a ≡ 0
  unfolding carved
  carved-off a h zero = refl
  carved-off a h (suc n) = ground (arith, h n, carved-off a h n)

  pub carved_new : (n : ℕ) → 0 < carved (suc n) (start + n * inc)
  unfolding carved
  carved_new n = ground arith

  pub carved-suc :
      (n a : ℕ) → carved (suc n) a ≡ (if a == start + n * inc then 1 else 0) + carved n a
  unfolding carved
  carved-suc n a = refl

  pub carved_index : (n a : ℕ) → 0 < carved n a → (i : ℕ) × (i < n) × (a ≡ start + i * inc)
  unfolding carved
  carved_index zero a h = absurd (omega arith)
  carved_index (suc n) a h = elim (Bool-cases (a == start + n * inc)) [
    | inl e ↦ (n, omega arith, ground (arith, e))
    | inr e ↦ let (i, lt, at) = carved_index n a (ground (arith, e)) in (i, omega arith, at)
  ]

  pub carved_zero : (a : ℕ) → carved 0 a ≡ 0
  unfolding carved
  carved_zero a = refl

  -- The next object has not been carved yet.
  pub carved_next : 0 < inc → (n : ℕ) → carved n (start + n * inc) ≡ 0
  unfolding carved
  carved_next pos n = ground (arith, carved-le pos (suc n) (start + n * inc))
