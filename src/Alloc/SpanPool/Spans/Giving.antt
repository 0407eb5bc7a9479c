-- ===== src/Alloc/SpanPool/Spans/Giving.antt =====
-- What Free, the announcements of threads and the writes of the program do to the places of the spans.
use scalloc.Common.{
  ℕ, ◌+◌, ◌%◌, ◌^◌, ◌<◌, ◌≡◌, ◌≢◌, ◌⊎◌, inl, inr, refl, sym, subst, Bool, true, false, not, ◌||◌,
  if◌then◌else◌, ◌∷◌, arith,
}
use scalloc.Alloc.Memory.{write, count, erase}
use scalloc.Alloc.SpanPool.{
  SpanPool, hard_limit, above32, free, size_class_slot, announce_new_thread,
  announce_leaving_thread,
}
use scalloc.Alloc.SpanPool.Limit.{Announcement, arriving, leaving, announce}
use scalloc.Alloc.SpanPool.Spans.{System, span_at}
use scalloc.Alloc.SpanPool.Spans.Places.{
  on_backend, put, set_list, on_somewhere, with_somewhere, give-IsPlaced,
}
use scalloc.Alloc.SpanPool.Spans.Backends.{
  AreLinked, push_backend_full, with_top-AreLinked, write-AreLinked,
}
use scalloc.Alloc.SpanPool.Spans.Taking.{Inv, place_below, unlisted, spans-put, none_counted}

module _ (start end : ℕ) (s : System) (q : Inv start end s) where
  pub given :
      (size_class id span : ℕ)
      → 0 < count span s.held
      → Inv start end (record s { pool = free size_class span id s.pool; held = erase span s.held })
  unfolding free
  given size_class id span h =
      let slot = size_class_slot size_class in
      let b = id % s.pool.limit in
      let there = with_somewhere (q.places span) (subst (λ n. 0 < n) (q.placed.holding span) h) in
      let (some_span, room) = place_below start end s q span there in
      subst (λ p. Inv start end (record s { pool = p; held = erase span s.held }))
        (sym (push_backend_full slot b span s.pool))
        (record {
          made = q.made;
          lists = set_list slot b (span ∷ q.lists slot b) q.lists;
          places = put span (on_backend slot b) q.places;
          placed = give-IsPlaced q.lists s.held q.places q.placed slot b span h;
          linked =
              with_top-AreLinked slot b span s.pool q.lists
                (λ e. absurd (omega (arith, e, some_span))) (ground (arith, room, q.low))
                (unlisted start end s q span h) q.linked;
          spans = spans-put start end s q span (on_backend slot b) there;
          some_start = q.some_start;
          current = q.current;
          same_end = q.same_end;
          inside = q.inside;
          low = q.low;
        })

  pub written :
      (a v : ℕ)
      → (0 < count a s.held) ⊎ ((i : ℕ) → a ≢ span_at start i)
      → Inv start end (record s { pool = record (s.pool) { mem = write s.pool.mem a v } })
  written a v own = record {
    made = q.made;
    lists = q.lists;
    places = q.places;
    placed = q.placed;
    linked =
        write-AreLinked a v s.pool.mem s.pool.backends q.lists
          (λ slot b. elim own [
            | inl h ↦ unlisted start end s q a h slot b
            | inr h ↦ none_counted _ (λ l.
                let (i, k, e) = q.spans a (
                  on_somewhere (q.places a) slot b
                    (subst (λ n. 0 < n) (q.placed.pooled a slot b) l)) in
                h i e)
          ])
          q.linked;
    spans = q.spans;
    some_start = q.some_start;
    current = q.current;
    same_end = q.same_end;
    inside = q.inside;
    low = q.low;
  }

-- The announcements of threads leave the backends.
pub record KeepsBackends (p p' : SpanPool) : Type 0 where
  pub same_backends : p'.backends ≡ p.backends
  pub same_mem : p'.mem ≡ p.mem

pub if-KeepsBackends :
    (p : SpanPool) (t : Bool) (x y : SpanPool)
    → KeepsBackends p x
    → KeepsBackends p y
    → KeepsBackends p (if t then x else y)
if-KeepsBackends p true x y h k = h
if-KeepsBackends p false x y h k = k

pub numbers-KeepsBackends :
    (p : SpanPool) (threads limit : ℕ)
    → KeepsBackends p (record p { current_threads = threads; limit = limit })
numbers-KeepsBackends p threads limit = record { same_backends = refl; same_mem = refl }

pub announce_new_thread-KeepsBackends :
    (cpus : ℕ) (p : SpanPool) → KeepsBackends p (announce_new_thread cpus p)
unfolding announce_new_thread
announce_new_thread-KeepsBackends cpus p =
    let n = (p.current_threads + 1) % 2 ^ 32 in
    let kept = numbers-KeepsBackends p n p.limit in
    let counted = numbers-KeepsBackends p n (p.limit + 1) in
    let announced = record p { current_threads = n } in
    let raised = record announced { limit = p.limit + 1 } in
    if-KeepsBackends p (above32 n cpus || above32 n hard_limit) announced
      (if not (above32 n p.limit) then announced else raised) kept
      (if-KeepsBackends p (not (above32 n p.limit)) announced raised kept counted)

pub announce-KeepsBackends :
    (cpus : ℕ) (x : Announcement) (p : SpanPool) → KeepsBackends p (announce cpus x p)
unfolding announce announce_leaving_thread
announce-KeepsBackends cpus arriving p = announce_new_thread-KeepsBackends cpus p
announce-KeepsBackends cpus leaving p = numbers-KeepsBackends p _ _

pub announced :
    (start end : ℕ) (s : System) (p : SpanPool)
    → KeepsBackends s.pool p
    → Inv start end s
    → Inv start end (record s { pool = p })
announced start end s p kept q = record {
  made = q.made;
  lists = q.lists;
  places = q.places;
  placed = q.placed;
  linked =
      subst (λ m. AreLinked m p.backends q.lists) (sym kept.same_mem)
        (subst (λ tops. AreLinked s.pool.mem tops q.lists) (sym kept.same_backends) q.linked);
  spans = q.spans;
  some_start = q.some_start;
  current = q.current;
  same_end = q.same_end;
  inside = q.inside;
  low = q.low;
}
