-- ===== src/Alloc/SpanPool/Search.antt =====
-- src/span_pool.h: the search for a free span looks at every backend below the limit.
use scalloc.Common.{
  ℕ, zero, suc, ◌+◌, ◌-◌, ◌%◌, ◌<◌, ◌≡◌, ◌≢◌, ◌⊎◌, inl, inr, refl, sym, ap, subst, ◌∙◌, ◌==◌, leb,
  if◌then◌else◌, if-false, Bool-cases, Option, some, arith,
}
use native.Mathlib.Nat.{mod-eq_of_lt, mod-lt, add-mul-mod_self_right}
use scalloc.Alloc.TaggedValue.{value}
use scalloc.Alloc.Memory.{null}
use scalloc.Alloc.Arena.{Arena, allocate_virtual_span}
use scalloc.Alloc.SpanPool.{
  SpanPool, pop_backend, size_class_slots, slot_of_round, scan_backends, scan_slots,
  size_class_slot, allocate,
}
use scalloc.Alloc.Globals.{num_classes}
use scalloc.Alloc.SpanPool.Outcome.{
  Outcome, Outcome-map, Outcome-then, pop_backend-Outcome, pop_backend_some, some_test,
}

-- The rounds of the loops reach every backend and every slot.
backend_of_round :
    (start limit b : ℕ)
    → start < limit
    → b < limit
    → (k : ℕ) × (k < limit) × ((start + k) % limit ≡ b)
backend_of_round start limit b h l = elim (Bool-cases (leb start b)) [
  | inl above ↦ (b - start, omega (arith, l), ap (λ n. n % limit) (ground arith) ∙ mod-eq_of_lt l)
  | inr below ↦ (
    b + limit - start,
    ground arith,
    ap (λ n. n % limit) (ground arith) ∙ add-mul-mod_self_right b 1 limit ∙ mod-eq_of_lt l,
  )
]

slot_of_round-onto :
    (slot i : ℕ)
    → slot < size_class_slots
    → i < size_class_slots
    → (k : ℕ) × (k < size_class_slots) × (slot_of_round slot k ≡ i)
unfolding slot_of_round
slot_of_round-onto slot i h l = elim (Bool-cases (leb i slot)) [
  | inl above ↦ (slot - i, ground arith, ground arith)
  | inr below ↦ (slot + size_class_slots - i, ground arith, ground arith)
]

-- The backends of the rounds of a slot from the round `j` on.
abbrev InRounds : ℕ → ℕ → ℕ → ℕ → ℕ → ℕ → ℕ → Type 0
InRounds limit slot start rounds j slot' b' =
    (slot' ≡ slot) × ((k : ℕ) × (k < rounds) × (b' ≡ (start + (j + k)) % limit))

InRounds-suc :
    (limit slot start rounds j slot' b' : ℕ)
    → ((slot' ≡ slot) × (b' ≡ (start + j) % limit))
      ⊎ InRounds limit slot start rounds (suc j) slot' b'
    → InRounds limit slot start (suc rounds) j slot' b'
InRounds-suc limit slot start rounds j slot' b' (inl (e, f)) =
    (e, (0, omega arith, f ∙ ap (λ n. (start + n) % limit) (omega arith)))
InRounds-suc limit slot start rounds j slot' b' (inr (e, (k, h, f))) =
    (e, (suc k, omega (arith, h), f ∙ ap (λ n. (start + n) % limit) (omega arith)))

suc-InRounds :
    (limit slot start rounds j slot' b' : ℕ)
    → InRounds limit slot start (suc rounds) j slot' b'
    → ((slot' ≡ slot) × (b' ≡ (start + j) % limit))
      ⊎ InRounds limit slot start rounds (suc j) slot' b'
suc-InRounds limit slot start rounds j slot' b' (e, (zero, h, f)) =
    inl (e, f ∙ ap (λ n. (start + n) % limit) (omega arith))
suc-InRounds limit slot start rounds j slot' b' (e, (suc k, h, f)) =
    inr (e, (k, omega (arith, h), f ∙ ap (λ n. (start + n) % limit) (omega arith)))

scan_backends-Outcome :
    (slot start rounds j : ℕ) (p : SpanPool)
    → Outcome (InRounds p.limit slot start rounds j) p (scan_backends slot start rounds j p)
unfolding scan_backends
scan_backends-Outcome slot start zero j p =
    inr ((λ slot' b' h. absurd (omega (arith, h.1.1))), refl)
scan_backends-Outcome slot start (suc rounds) j p =
    Outcome-map _ _ p _ (InRounds-suc p.limit slot start rounds j)
      (suc-InRounds p.limit slot start rounds j)
      (Outcome-then _ _ p _ (scan_backends slot start rounds (suc j))
        (pop_backend-Outcome slot ((start + j) % p.limit) p)
        (scan_backends-Outcome slot start rounds (suc j) p))

-- All backends of a slot below the limit.
scan_backends-all :
    (slot draw : ℕ) (p : SpanPool)
    → 0 < p.limit
    → Outcome
        (λ slot' b'. (slot' ≡ slot) × (b' < p.limit))
        p
        (scan_backends slot (draw % p.limit) p.limit 0 p)
scan_backends-all slot draw p some_limit =
    Outcome-map _ _ p _
      (λ slot' b' h.
        let (e, (k, l, f)) = h in
        (e, subst (λ n. n < p.limit) (sym f) (mod-lt (draw % p.limit + (0 + k)) some_limit)))
      (λ slot' b' h.
        let (k, l, f) = backend_of_round (draw % p.limit) p.limit b' (mod-lt draw some_limit) h.1 in
        (h.0, (k, l, sym f ∙ ap (λ n. (draw % p.limit + n) % p.limit) (omega arith))))
      (scan_backends-Outcome slot (draw % p.limit) p.limit 0 p)

abbrev InSlots : ℕ → ℕ → ℕ → ℕ → ℕ → ℕ → Type 0
InSlots limit slot rounds k slot' b' =
    ((m : ℕ) × (m < rounds) × (slot' ≡ slot_of_round slot (k + m))) × (b' < limit)

InSlots-suc :
    (limit slot rounds k slot' b' : ℕ)
    → ((slot' ≡ slot_of_round slot k) × (b' < limit)) ⊎ InSlots limit slot rounds (suc k) slot' b'
    → InSlots limit slot (suc rounds) k slot' b'
InSlots-suc limit slot rounds k slot' b' (inl (e, l)) =
    ((0, omega arith, e ∙ ap (slot_of_round slot) (omega arith)), l)
InSlots-suc limit slot rounds k slot' b' (inr ((m, h, e), l)) =
    ((suc m, omega (arith, h), e ∙ ap (slot_of_round slot) (omega arith)), l)

suc-InSlots :
    (limit slot rounds k slot' b' : ℕ)
    → InSlots limit slot (suc rounds) k slot' b'
    → ((slot' ≡ slot_of_round slot k) × (b' < limit)) ⊎ InSlots limit slot rounds (suc k) slot' b'
suc-InSlots limit slot rounds k slot' b' ((zero, h, e), l) =
    inl (e ∙ ap (slot_of_round slot) (omega arith), l)
suc-InSlots limit slot rounds k slot' b' ((suc m, h, e), l) =
    inr ((m, omega (arith, h), e ∙ ap (slot_of_round slot) (omega arith)), l)

scan_slots-Outcome :
    (rand : ℕ → ℕ) (slot rounds k : ℕ) (p : SpanPool)
    → 0 < p.limit
    → Outcome (InSlots p.limit slot rounds k) p (scan_slots rand slot rounds k p)
unfolding scan_slots
scan_slots-Outcome rand slot zero k p h = inr ((λ slot' b' z. absurd (omega (arith, z.0.1))), refl)
scan_slots-Outcome rand slot (suc rounds) k p h =
    Outcome-map _ _ p _ (InSlots-suc p.limit slot rounds k) (suc-InSlots p.limit slot rounds k) (
      Outcome-then _ _ p _ (scan_slots rand slot rounds (suc k))
        (scan_backends-all (slot_of_round slot k) (rand k) p h)
        (scan_slots-Outcome rand slot rounds (suc k) p h))

-- The backends of all slots below the limit.
abbrev pub IsBackend : ℕ → ℕ → ℕ → Type 0
IsBackend limit slot b = (slot < size_class_slots) × (b < limit)

slot_of_round_below :
    (slot k : ℕ)
    → slot < size_class_slots
    → k < size_class_slots
    → slot_of_round slot k < size_class_slots
unfolding slot_of_round
slot_of_round_below slot k h l = ground arith

search-Outcome :
    (rand : ℕ → ℕ) (slot id : ℕ) (p : SpanPool)
    → 0 < p.limit
    → slot < size_class_slots
    → Outcome (IsBackend p.limit) p (
        let own = pop_backend slot (id % p.limit) p in
        if own.0 == null then scan_slots rand slot size_class_slots 0 own.1 else own)
search-Outcome rand slot id p some_limit in_slots =
    Outcome-map _ _ p _
      (λ slot' b' h. elim h [
        | inl (e, f) ↦ (rw e in_slots, rw f (mod-lt id some_limit))
        | inr ((m, h, e), l) ↦
            (rw e (slot_of_round_below slot (0 + m) in_slots (omega (arith, h))), l)
      ])
      (λ slot' b' h.
        let (m, l, e) = slot_of_round-onto slot slot' in_slots h.0 in
        inr ((m, l, sym e ∙ ap (slot_of_round slot) (omega arith)), h.1))
      (Outcome-then _ _ p _ (scan_slots rand slot size_class_slots 0)
        (pop_backend-Outcome slot (id % p.limit) p)
        (scan_slots-Outcome rand slot size_class_slots 0 p some_limit))

size_class_slot_below :
    (size_class : ℕ) → size_class < num_classes → size_class_slot size_class < size_class_slots
unfolding size_class_slot
size_class_slot_below size_class h = ground arith

-- What Allocate does with what the search found.
abbrev finished : Arena → ℕ × SpanPool → Option ℕ × SpanPool × Arena
finished a found =
    if found.0 == null
    then ((allocate_virtual_span a).0, found.1, (allocate_virtual_span a).1)
    else (some found.0, found.1, a)

abbrev handed_out : Arena → SpanPool → ℕ → Option ℕ × SpanPool × Arena
handed_out a p s = (some s, p, a)

finished-some :
    (a : Arena) (r : ℕ × SpanPool) (s : ℕ) → r.0 ≡ s → s ≢ null → finished a r ≡ (some s, r.1, a)
finished-some a r s e some_span =
    if-false _ _ (some_test r.0 (λ z. some_span (sym e ∙ z))) ∙ ap (handed_out a r.1) e

-- With a limit, Allocate pops a backend of some slot below the limit that holds a span, whatever the
-- random numbers, and takes a new span of the arena only when every such backend is empty.
pub allocate_lem :
    (rand : ℕ → ℕ) (size_class id : ℕ) (p : SpanPool) (a : Arena)
    → size_class < num_classes
    → 0 < p.limit
    → ((slot : ℕ) × (b : ℕ) × IsBackend p.limit slot b
        × (value (p.backends slot b) ≢ null)
        × (allocate rand size_class id p a
            ≡ (some (value (p.backends slot b)), (pop_backend slot b p).1, a)))
      ⊎ (((slot b : ℕ) → IsBackend p.limit slot b → value (p.backends slot b) ≡ null)
          × (allocate rand size_class id p a
              ≡ ((allocate_virtual_span a).0, p, (allocate_virtual_span a).1)))
unfolding allocate
allocate_lem rand size_class id p a class some_limit =
    elim (search-Outcome rand (size_class_slot size_class) id p some_limit
      (size_class_slot_below size_class class)) [
        | inl (slot, b, h, some_span, e) ↦ inl (
          slot,
          b,
          h,
          some_span,
          ap (finished a) e ∙ finished-some a _ _ (pop_backend_some slot b p some_span) some_span,
        )
        | inr (empty, e) ↦ inr (empty, ap (finished a) e)
      ]
