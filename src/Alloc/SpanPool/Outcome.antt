-- ===== src/Alloc/SpanPool/Outcome.antt =====
-- src/span_pool.h: what a search of some backends of the pool gives.
use scalloc.Common.{
  ℕ, ◌≡◌, ◌≢◌, ◌⊎◌, inl, inr, refl, sym, ap, subst, ◌∙◌, false, ◌==◌, if◌then◌else◌, if-true,
  if-false, Bool-cases, arith,
}
use mathlib.Core.Path.{fun_ext}
use scalloc.Alloc.TaggedValue.{TaggedValue, value}
use scalloc.Alloc.Memory.{null}
use scalloc.Alloc.Stack.{Stack, pop}
use scalloc.Alloc.SpanPool.{SpanPool, set_top, pop_backend}

pub set_top_same :
    (slot b : ℕ) (tops : ℕ → ℕ → TaggedValue) → set_top slot b (tops slot b) tops ≡ tops
set_top_same slot b tops = fun_ext (λ slot'. fun_ext (λ b'. ground (arith, slot', b')))

pub pop_empty : (s : Stack) → value s.top ≡ null → pop s ≡ (null, s)
unfolding pop
pop_empty s e = if-true {b = value s.top == null} _ _ (ground (arith, e))

pub pop_some : (s : Stack) → value s.top ≢ null → (pop s).0 ≡ value s.top
unfolding pop
pop_some s h =
    ap (λ (r : ℕ × Stack). r.0) (if-false {b = value s.top == null} _ _ (ground (arith, h)))

-- A pop of an empty backend leaves the pool, and no other pop returns NULL.
abbrev pub popped_from : ℕ → ℕ → SpanPool → ℕ × Stack → ℕ × SpanPool
popped_from slot b p r =
    (r.0, record p { backends = set_top slot b r.1.top p.backends; mem = r.1.mem })

abbrev pub with_tops : SpanPool → (ℕ → ℕ → TaggedValue) → ℕ × SpanPool
with_tops p tops = (null, record p { backends = tops })

pub pop_backend_empty :
    (slot b : ℕ) (p : SpanPool)
    → value (p.backends slot b) ≡ null
    → pop_backend slot b p ≡ (null, p)
unfolding pop_backend
pop_backend_empty slot b p e =
    subst (λ r. popped_from slot b p r ≡ (null, p))
      (sym (pop_empty (record { mem = p.mem; top = p.backends slot b }) e))
      (ap (with_tops p) (set_top_same slot b p.backends))

pub pop_backend_some :
    (slot b : ℕ) (p : SpanPool)
    → value (p.backends slot b) ≢ null
    → (pop_backend slot b p).0 ≡ value (p.backends slot b)
unfolding pop_backend
pop_backend_some slot b p h = pop_some (record { mem = p.mem; top = p.backends slot b }) h

pub some_test : (a : ℕ) → a ≢ null → (a == null) ≡ false
some_test a h = ground arith

pub none_test :
    (r : ℕ × SpanPool) (p : SpanPool) (f : SpanPool → ℕ × SpanPool)
    → r ≡ (null, p)
    → (if r.0 == null then f r.1 else r) ≡ f p
none_test r p f e = subst (λ r. (if r.0 == null then f r.1 else r) ≡ f p) (sym e) refl

-- A search of some backends pops one that holds a span, or returns NULL where all are empty.
abbrev pub Outcome : (ℕ → ℕ → Type 0) → SpanPool → ℕ × SpanPool → Type 0
Outcome P p r =
    ((slot : ℕ) × (b : ℕ) × P slot b
      × (value (p.backends slot b) ≢ null)
      × (r ≡ pop_backend slot b p))
    ⊎ (((slot b : ℕ) → P slot b → value (p.backends slot b) ≡ null) × (r ≡ (null, p)))

pub Outcome-map :
    (P Q : ℕ → ℕ → Type 0) (p : SpanPool) (r : ℕ × SpanPool)
    → ((slot b : ℕ) → P slot b → Q slot b)
    → ((slot b : ℕ) → Q slot b → P slot b)
    → Outcome P p r
    → Outcome Q p r
Outcome-map P Q p r to from (inl (slot, b, h, some_span, e)) =
    inl (slot, b, to slot b h, some_span, e)
Outcome-map P Q p r to from (inr (empty, e)) = inr ((λ slot b h. empty slot b (from slot b h)), e)

-- A search behind another one that found nothing.
pub Outcome-then :
    (P Q : ℕ → ℕ → Type 0) (p : SpanPool) (r : ℕ × SpanPool) (f : SpanPool → ℕ × SpanPool)
    → Outcome P p r
    → Outcome Q p (f p)
    → Outcome (λ slot b. P slot b ⊎ Q slot b) p (if r.0 == null then f r.1 else r)
Outcome-then P Q p r f (inl (slot, b, h, some_span, e)) o = inl (
  slot,
  b,
  inl h,
  some_span,
  if-false _ _ (
        some_test r.0 (λ z.
          some_span
            (sym (ap (λ (r : ℕ × SpanPool). r.0) e ∙ pop_backend_some slot b p some_span) ∙ z)))
      ∙ e,
)
Outcome-then P Q p r f (inr (empty, e)) (inl (slot, b, h, some_span, e')) =
    inl (slot, b, inr h, some_span, none_test r p f e ∙ e')
Outcome-then P Q p r f (inr (empty, e)) (inr (empty', e')) = inr (
  (λ slot b h. elim h [ inl h ↦ empty slot b h | inr h ↦ empty' slot b h ]),
  none_test r p f e ∙ e',
)

pub pop_backend-Outcome :
    (slot b : ℕ) (p : SpanPool)
    → Outcome (λ slot' b'. (slot' ≡ slot) × (b' ≡ b)) p (pop_backend slot b p)
pop_backend-Outcome slot b p = elim (Bool-cases (value (p.backends slot b) == null)) [
  | inl e ↦ inr (
    (λ slot' b' h. rw (h.0, h.1) (ground (arith, e))),
    pop_backend_empty slot b p (ground (arith, e)),
  )
  | inr e ↦ inl (slot, b, (refl, refl), (λ z. absurd (ground (arith, e, z))), refl)
]
