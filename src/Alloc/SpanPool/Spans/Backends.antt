-- ===== src/Alloc/SpanPool/Spans/Backends.antt =====
-- The backends of a pool as lists of spans linked in memory.
use scalloc.Common.{
  ℕ, ◌<◌, ◌^◌, ◌≡◌, ◌≢◌, refl, sym, ap, subst, ◌∙◌, Bool, true, false, ◌==◌, if◌then◌else◌,
  if-false, List, [], ◌∷◌, arith,
}
use scalloc.Alloc.TaggedValue.{TaggedValue, value}
use scalloc.Alloc.Memory.{Mem, null, write, Chain, Chain-write, count, NotIn-count}
use scalloc.Alloc.Stack.{Stack, pushed, popped, link, pop, push, push_range}
use scalloc.Alloc.Stack.Pushed.{value-pushed, swap_self, push-Chain}
use scalloc.Alloc.SpanPool.{SpanPool, set_top, pop_backend, push_backend}
use scalloc.Alloc.SpanPool.Spans.Places.{same_backend, set_list}

abbrev pub AreLinked : Mem → (ℕ → ℕ → TaggedValue) → (ℕ → ℕ → List ℕ) → Type 0
AreLinked mem tops lists = (slot b : ℕ) → Chain mem (value (tops slot b)) (lists slot b)

-- The pool behind a pop and a push of one backend.
abbrev pub without_top : ℕ → ℕ → SpanPool → SpanPool
without_top slot b p =
    let top = p.backends slot b in
    record p { backends = set_top slot b (pushed (p.mem (value top)) top) p.backends }

abbrev pub with_top : ℕ → ℕ → ℕ → SpanPool → SpanPool
with_top slot b s p =
    let top = p.backends slot b in
    record p { backends = set_top slot b (pushed s top) p.backends; mem = link s top p.mem }

abbrev popped_stack : Stack → TaggedValue → ℕ × Stack
popped_stack s top = (value s.top, record s { top = top })

pop_full :
    (s : Stack) → value s.top ≢ null → pop s ≡ popped_stack s (pushed (s.mem (value s.top)) s.top)
unfolding pop popped pushed
pop_full s h =
    if-false {b = value s.top == null} _ _ (ground (arith, h))
    ∙ ap (popped_stack s) (swap_self s.top _)

abbrev from_stack : ℕ → ℕ → SpanPool → ℕ × Stack → ℕ × SpanPool
from_stack slot b p r =
    (r.0, record p { backends = set_top slot b r.1.top p.backends; mem = r.1.mem })

pub pop_backend_full :
    (slot b : ℕ) (p : SpanPool)
    → value (p.backends slot b) ≢ null
    → pop_backend slot b p ≡ (value (p.backends slot b), without_top slot b p)
unfolding pop_backend
pop_backend_full slot b p h =
    ap (from_stack slot b p) (pop_full (record { mem = p.mem; top = p.backends slot b }) h)

pub push_backend_full :
    (slot b s : ℕ) (p : SpanPool) → push_backend slot b s p ≡ with_top slot b s p
unfolding push_backend push push_range
push_backend_full slot b s p =
    ap
      (λ top. record p {
        backends = set_top slot b top p.backends;
        mem = link s (p.backends slot b) p.mem;
      })
      (swap_self (p.backends slot b) (pushed s (p.backends slot b)))

-- A backend that is read and the list that it holds change together.
Chain-set :
    (mem : Mem) (t : Bool) (top top' : TaggedValue) (xs xs' : List ℕ)
    → (t ≡ true → Chain mem (value top) xs)
    → Chain mem (value top') xs'
    → Chain mem (value (if t then top else top')) (if t then xs else xs')
Chain-set mem true top top' xs xs' h k = h refl
Chain-set mem false top top' xs xs' h k = k

next_low :
    (mem : Mem) (p : ℕ) (xs : List ℕ)
    → ((a : ℕ) → 0 < count a xs → a < 2 ^ 47)
    → Chain mem p xs
    → p < 2 ^ 47
next_low mem p [] low e = omega (arith, e)
next_low mem p (x ∷ xs) low (e, some_x, c) = subst (λ a. a < 2 ^ 47) (sym e) (low x (ground arith))

-- The successor in a chain of spans below 2 ^ 47 comes back from a tagged word.
after_top :
    (mem : Mem) (x : ℕ) (top : TaggedValue) (xs : List ℕ)
    → ((a : ℕ) → 0 < count a xs → a < 2 ^ 47)
    → Chain mem (mem x) xs
    → Chain mem (value (pushed (mem x) top)) xs
after_top mem x top xs low c =
    subst (λ p. Chain mem p xs) (sym (value-pushed (mem x) top (next_low mem (mem x) xs low c))) c

pub without_top-AreLinked :
    (slot b : ℕ) (p : SpanPool) (lists : ℕ → ℕ → List ℕ) (x : ℕ) (xs : List ℕ)
    → lists slot b ≡ x ∷ xs
    → ((a : ℕ) → 0 < count a xs → a < 2 ^ 47)
    → AreLinked p.mem p.backends lists
    → AreLinked p.mem (without_top slot b p).backends (set_list slot b xs lists)
without_top-AreLinked slot b p lists x xs e low linked slot' b' =
    let (at, some_x, rest) =
      subst (λ l. Chain p.mem (value (p.backends slot b)) l) e (linked slot b) in
    Chain-set p.mem (same_backend slot b slot' b') _ _ xs (lists slot' b')
      (λ t.
        subst (λ v. Chain p.mem (value (pushed (p.mem v) (p.backends slot b))) xs) (sym at)
          (after_top p.mem x (p.backends slot b) xs low rest))
      (linked slot' b')

pub with_top-AreLinked :
    (slot b s : ℕ) (p : SpanPool) (lists : ℕ → ℕ → List ℕ)
    → s ≢ null
    → s < 2 ^ 47
    → ((slot b : ℕ) → count s (lists slot b) ≡ 0)
    → AreLinked p.mem p.backends lists
    → AreLinked
        (with_top slot b s p).mem
        (with_top slot b s p).backends
        (set_list slot b (s ∷ lists slot b) lists)
unfolding link
with_top-AreLinked slot b s p lists some_s low out linked slot' b' =
    Chain-set _ (same_backend slot b slot' b') _ _ (s ∷ lists slot b) (lists slot' b')
      (λ t.
        push-Chain p.mem (p.backends slot b) s (lists slot b) some_s low
          (NotIn-count s (lists slot b) (out slot b)) (linked slot b))
      (Chain-write p.mem s _ _ (lists slot' b') (NotIn-count s (lists slot' b') (out slot' b'))
        (linked slot' b'))

pub write-AreLinked :
    (a v : ℕ) (mem : Mem) (tops : ℕ → ℕ → TaggedValue) (lists : ℕ → ℕ → List ℕ)
    → ((slot b : ℕ) → count a (lists slot b) ≡ 0)
    → AreLinked mem tops lists
    → AreLinked (write mem a v) tops lists
write-AreLinked a v mem tops lists out linked slot b =
    Chain-write mem a v _ (lists slot b) (NotIn-count a (lists slot b) (out slot b)) (linked slot b)
