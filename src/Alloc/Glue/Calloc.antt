-- ===== src/Alloc/Glue/Calloc.antt =====
-- The test for overflow in calloc.
use native.Mathlib.Decide.{dec_lt, ℕ_discrete}
use native.Mathlib.Nat.{div-mul-le_self, mul-div_cancel}
use scalloc.Common.{
  ℕ, ◌*◌, ◌/◌, ◌^◌, ◌+◌, ◌<◌, ◌≤◌, ◌⊎◌, ltb, sym, subst, ◌∙◌, if-true, if-false, ◌≡◌, ◌≢◌, refl, ap,
  inl, inr, Bool-cases, not, ◌&&◌, ◌==◌, if◌then◌else◌, leb, arith,
}
use scalloc.Alloc.Globals.{u64}
use scalloc.Alloc.Memory.{null}
use scalloc.Alloc.Bytes.{memset}
use scalloc.Alloc.Glue.{Heap, calloc, cleared}

-- The product divided by one of its factors gives the other one back exactly when it fits a size_t.
quotient_test :
    (nmemb size : ℕ)
    → (not (size == 0) && not (u64 (nmemb * size) / size == nmemb)) ≡ leb (2 ^ 64) (nmemb * size)
quotient_test nmemb size = elim (ℕ_discrete size 0) [
  | yes e ↦ rw e (ground arith)
  | no some_size ↦ elim (dec_lt (nmemb * size) (2 ^ 64)) [
    | yes fits ↦
        let small : u64 (nmemb * size) ≡ nmemb * size = omega arith in
        let back : u64 (nmemb * size) / size ≡ nmemb =
          rw small (mul-div_cancel nmemb {n = size} (omega arith)) in
        ground (arith, back)
    | no over ↦
        let lost : u64 (nmemb * size) / size ≢ nmemb = λ e.
          absurd (omega (arith, div-mul-le_self (u64 (nmemb * size)) size, ap (λ q. q * size) e)) in
        ground (arith, lost)
  ]
]

calloc-fits :
    {A : Type 0} (malloc : ℕ → Heap A → ℕ × Heap A) (nmemb size : ℕ) (h : Heap A)
    → calloc malloc nmemb size h ≡ (
        if leb (2 ^ 64) (nmemb * size)
        then (null, h)
        else cleared malloc (nmemb * size) (malloc (nmemb * size) h))
unfolding calloc
calloc-fits malloc nmemb size h = elim (Bool-cases (leb (2 ^ 64) (nmemb * size))) [
  | inl over ↦ rw (quotient_test nmemb size, over) refl
  | inr fits ↦
      let small : u64 (nmemb * size) ≡ nmemb * size = ground (arith, fits) in
      rw (quotient_test nmemb size, fits, small) refl
]

module _ {A : Type 0} where
  -- A heap with the `n` bytes from `p` on cleared, and nothing else changed.
  pub record IsCleared (p n : ℕ) (before after : Heap A) : Type 0 where
    pub same_state : after.state ≡ before.state
    pub same_flag : after.seen_memalign ≡ before.seen_memalign
    pub zeros : (k : ℕ) → k < n → after.bytes (p + k) ≡ 0
    pub below : (a : ℕ) → a < p → after.bytes a ≡ before.bytes a
    pub behind : (a : ℕ) → p + n ≤ a → after.bytes a ≡ before.bytes a

  -- What becomes of `new`, the result of malloc.
  abbrev pub IsZeroed : ℕ → ℕ × Heap A → ℕ × Heap A → Type 0
  IsZeroed n new r =
      ((new.0 ≡ null) × (r ≡ new)) ⊎ ((new.0 ≢ null) × (r.0 ≡ new.0) × IsCleared new.0 n new.1 r.1)

  memset-IsCleared :
      (p n : ℕ) (h : Heap A) → IsCleared p n h (record h { bytes = memset p 0 n h.bytes })
  unfolding memset
  memset-IsCleared p n h = record {
    same_state = refl;
    same_flag = refl;
    zeros = λ k l. if-true {b = leb p (p + k) && ltb (p + k) (p + n)} _ _ (ground (arith, l));
    below = λ a l. if-false {b = leb p a && ltb a (p + n)} _ _ (ground (arith, l));
    behind = λ a l. if-false {b = leb p a && ltb a (p + n)} _ _ (ground (arith, l));
  }

  cleared-IsZeroed :
      (malloc : ℕ → Heap A → ℕ × Heap A) (n : ℕ) (new : ℕ × Heap A)
      → IsZeroed n new (cleared malloc n new)
  cleared-IsZeroed malloc n (p, h) = elim (Bool-cases (p == null)) [
    | inl failed ↦
        inl (ground (arith, failed), ap (λ x. (p, x)) (if-true {b = p == null} _ _ failed))
    | inr given ↦ inr (
      (λ e. absurd (ground (arith, given, e))),
      refl,
      subst (λ x. IsCleared p n h x) (sym (if-false {b = p == null} _ _ given))
          (memset-IsCleared p n h),
    )
  ]

  -- calloc gives NULL, asks for nothing and leaves the heap alone when the product does not fit a
  -- size_t. Else it asks malloc for the product: NULL comes back with what malloc left; any other
  -- address with the heap of malloc, in which as many bytes from the address on are 0 and nothing else
  -- has changed.
  pub calloc_lem :
      (malloc : ℕ → Heap A → ℕ × Heap A) (nmemb size : ℕ) (h : Heap A)
      → ((2 ^ 64 ≤ nmemb * size) × (calloc malloc nmemb size h ≡ (null, h)))
        ⊎ ((nmemb * size < 2 ^ 64)
            × IsZeroed (nmemb * size) (malloc (nmemb * size) h) (calloc malloc nmemb size h))
  calloc_lem malloc nmemb size h = elim (Bool-cases (leb (2 ^ 64) (nmemb * size))) [
    | inl over ↦ inl (ground (arith, over), calloc-fits malloc nmemb size h ∙ if-true _ _ over)
    | inr fits ↦ inr (
      ground (arith, fits),
      subst (λ r. IsZeroed (nmemb * size) (malloc (nmemb * size) h) r)
          (sym (calloc-fits malloc nmemb size h ∙ if-false _ _ fits))
          (cleared-IsZeroed malloc (nmemb * size) (malloc (nmemb * size) h)),
    )
  ]
