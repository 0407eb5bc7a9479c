-- ===== src/Alloc/SpanPool/Spans/Taking.antt =====
-- What a call of Allocate does to the places of the spans.
use scalloc.Common.{
  ℕ, zero, suc, ◌+◌, ◌^◌, ◌<◌, ◌≤◌, ◌≡◌, ◌≢◌, ◌⊎◌, inl, inr, refl, sym, ap, subst, ◌∙◌, ◌==◌,
  Bool-cases, List, [], ◌∷◌, some, arith,
}
use scalloc.Alloc.Globals.{num_classes, virtual_span_size}
use scalloc.Alloc.TaggedValue.{value}
use scalloc.Alloc.Memory.{Mem, null, Chain, count}
use scalloc.Alloc.Arena.{Arena, allocate_virtual_span}
use scalloc.Alloc.SpanPool.{SpanPool, allocate, pop_backend}
use scalloc.Alloc.SpanPool.Search.{allocate_lem}
use scalloc.Alloc.SpanPool.Spans.{System, span_at}
use scalloc.Alloc.SpanPool.Spans.Places.{
  Place, nowhere, with_program, on_backend, with, put, set_list, on-with, with-on, on_somewhere,
  IsPlaced, take-IsPlaced, fresh-IsPlaced,
}
use scalloc.Alloc.SpanPool.Spans.Backends.{
  AreLinked, without_top, pop_backend_full, without_top-AreLinked,
}

pub record Inv (start end : ℕ) (s : System) : Type 0 where
  pub made : ℕ
  pub lists : ℕ → ℕ → List ℕ
  pub places : ℕ → Place
  pub placed : IsPlaced lists s.held places
  pub linked : AreLinked s.pool.mem s.pool.backends lists
  pub spans : (a : ℕ) → places a ≢ nowhere → (i : ℕ) × (i < made) × (a ≡ span_at start i)
  pub some_start : 0 < start
  pub current : s.arena.current ≡ span_at start made
  pub same_end : s.arena.end ≡ end
  pub inside : s.arena.current ≤ end
  pub low : end ≤ 2 ^ 47

-- What a call of Allocate gives.
abbrev pub IsNew : ℕ → ℕ → List ℕ → ℕ → Type 0
IsNew start end held span =
    (count span held ≡ 0) × ((i : ℕ) × (span ≡ span_at start i)) × (span + virtual_span_size ≤ end)

abbrev pub IsTaken : ℕ → ℕ → System → ℕ → SpanPool → Arena → Type 0
IsTaken start end s span pool arena =
    IsNew start end s.held span
    × Inv start end (record { pool = pool; arena = arena; held = span ∷ s.held })

pub first_of :
    (m : Mem) (p : ℕ) (xs : List ℕ) → Chain m p xs → p ≢ null → (ys : List ℕ) × (xs ≡ p ∷ ys)
first_of m p [] e h = absurd (h e)
first_of m p (x ∷ xs) (e, some_x, c) h = (xs, ap (λ y. y ∷ xs) (sym e))

pub bumped :
    (a : Arena) (span : ℕ)
    → a.current ≤ a.end
    → a.end ≤ 2 ^ 47
    → (allocate_virtual_span a).0 ≡ some span
    → (span ≡ a.current)
      × ((allocate_virtual_span a).1.current ≡ a.current + virtual_span_size)
      × (a.current + virtual_span_size ≤ a.end)
unfolding allocate_virtual_span
bumped a span h l e = ground (arith, h, l, e)

pub bumped_end : (a : Arena) → (allocate_virtual_span a).1.end ≡ a.end
unfolding allocate_virtual_span
bumped_end a = refl

pub place_cases : (place : Place) → (place ≡ nowhere) ⊎ (place ≢ nowhere)
place_cases nowhere = inl refl
place_cases with_program = inr (λ e. absurd (ground (arith, e)))
place_cases (on_backend slot b) = inr (λ e. absurd (ground (arith, e)))

pub none_counted : (n : ℕ) → (0 < n → ⊥) → n ≡ 0
none_counted zero h = refl
none_counted (suc n) h = absurd (h (ground arith))

module _ (start end : ℕ) (s : System) (q : Inv start end s) where
  pub place_below : (a : ℕ) → q.places a ≢ nowhere → (0 < a) × (a + virtual_span_size ≤ end)
  place_below a h =
      let (i, l, e) = q.spans a h in
      (ground (arith, e, q.some_start), ground (arith, e, l, q.current, q.inside))

  pub listed_below :
      (a slot b : ℕ) → 0 < count a (q.lists slot b) → (0 < a) × (a + virtual_span_size ≤ end)
  listed_below a slot b h =
      place_below a
        (on_somewhere (q.places a) slot b (subst (λ n. 0 < n) (q.placed.pooled a slot b) h))

  pub unlisted : (a : ℕ) → 0 < count a s.held → (slot b : ℕ) → count a (q.lists slot b) ≡ 0
  unlisted a h slot b =
      q.placed.pooled a slot b
      ∙ with-on (q.places a) slot b (subst (λ n. 0 < n) (q.placed.holding a) h)

  pub spans-put :
      (x : ℕ) (place : Place)
      → q.places x ≢ nowhere
      → (a : ℕ) → put x place q.places a ≢ nowhere
      → (i : ℕ) × (i < q.made) × (a ≡ span_at start i)
  spans-put x place h a k = elim (Bool-cases (a == x)) [
    | inl same ↦
        subst (λ y. (i : ℕ) × (i < q.made) × (y ≡ span_at start i)) (ground (arith, same))
          (q.spans x h)
    | inr other ↦ q.spans a (λ e. k (rw other e))
  ]

  pub from_pool :
      (slot b : ℕ)
      → value (s.pool.backends slot b) ≢ null
      → IsTaken start end s (value (s.pool.backends slot b)) (without_top slot b s.pool) s.arena
  from_pool slot b some_span =
      let x = value (s.pool.backends slot b) in
      let (xs, e) = first_of _ _ _ (q.linked slot b) some_span in
      let here = sym (q.placed.pooled x slot b) ∙ ap (count x) e in
      let there = on_somewhere (q.places x) slot b (ground (arith, here)) in
      (
        (
          q.placed.holding x ∙ on-with (q.places x) slot b (ground (arith, here)),
          (let (i, l, f) = q.spans x there in (i, f)),
          (place_below x there).1,
        ),
        record {
          made = q.made;
          lists = set_list slot b xs q.lists;
          places = put x with_program q.places;
          placed = take-IsPlaced q.lists s.held q.places q.placed slot b x xs e;
          linked =
              without_top-AreLinked slot b s.pool q.lists x xs e
                (λ a h. ground (
                  arith,
                  q.low,
                  (listed_below a slot b
                      (subst (λ l. 0 < count a l) (sym e) (ground (arith, h)))).1,
                ))
                q.linked;
          spans = spans-put x with_program there;
          some_start = q.some_start;
          current = q.current;
          same_end = q.same_end;
          inside = q.inside;
          low = q.low;
        },
      )

  pub fresh_place : (span : ℕ) → span ≡ s.arena.current → q.places span ≡ nowhere
  fresh_place span at = elim (place_cases (q.places span)) [
    | inl e ↦ e
    | inr h ↦ (let (i, l, e) = q.spans span h in absurd (ground (arith, l, e, at, q.current)))
  ]

  pub from_arena :
      (span : ℕ)
      → (allocate_virtual_span s.arena).0 ≡ some span
      → IsTaken start end s span s.pool (allocate_virtual_span s.arena).1
  from_arena span e =
      let (at, next, room) =
        bumped s.arena span (ground (arith, q.inside, q.same_end))
          (ground (arith, q.low, q.same_end)) e in
      let new = fresh_place span at in
      (
        (
          q.placed.holding span ∙ ap with new,
          (q.made, at ∙ q.current),
          ground (arith, at, room, q.same_end),
        ),
        record {
          made = suc q.made;
          lists = q.lists;
          places = put span with_program q.places;
          placed = fresh-IsPlaced q.lists s.held q.places q.placed span new;
          linked = q.linked;
          spans = λ a k. elim (Bool-cases (a == span)) [
            | inl same ↦ (q.made, ground arith, ground (arith, same) ∙ at ∙ q.current)
            | inr other ↦
                (let (i, l, f) = q.spans a (λ z. k (rw other z)) in (i, ground (arith, l), f))
          ];
          some_start = q.some_start;
          current = next ∙ ground (arith, q.current);
          same_end = bumped_end s.arena ∙ q.same_end;
          inside = ground (arith, next, room, q.same_end);
          low = q.low;
        },
      )

  -- A call of Allocate.
  pub taken :
      (rand : ℕ → ℕ) (size_class id span : ℕ)
      → size_class < num_classes
      → 0 < s.pool.limit
      → (allocate rand size_class id s.pool s.arena).0 ≡ some span
      → IsTaken start end s span
          (allocate rand size_class id s.pool s.arena).1
          (allocate rand size_class id s.pool s.arena).2
  taken rand size_class id span class some_limit =
      elim (allocate_lem rand size_class id s.pool s.arena class some_limit)
        as (λ _.
          (allocate rand size_class id s.pool s.arena).0 ≡ some span
          → IsTaken start end s span (allocate rand size_class id s.pool s.arena).1
              (allocate rand size_class id s.pool s.arena).2) [
                | inl (slot, b, h, some_span, e) ↦
                    subst (λ r. r.0 ≡ some span → IsTaken start end s span r.1 r.2) (sym e)
                      (λ same.
                        subst (λ v. IsTaken start end s v (pop_backend slot b s.pool).1 s.arena)
                          (ground (arith, same))
                          (subst
                            (λ p. IsTaken start end s (value (s.pool.backends slot b)) p s.arena)
                            (sym (
                              ap (λ (r : ℕ × SpanPool). r.1)
                                (pop_backend_full slot b s.pool some_span)))
                            (from_pool slot b some_span)))
                | inr (empty, e) ↦
                    subst (λ r. r.0 ≡ some span → IsTaken start end s span r.1 r.2) (sym e)
                      (from_arena span)
              ]
