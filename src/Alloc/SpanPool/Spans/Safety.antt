-- ===== src/Alloc/SpanPool/Spans/Safety.antt =====
-- No span of the arena is handed out to the program twice.
use scalloc.Common.{ℕ, ◌^◌, ◌<◌, ◌≤◌, ◌≡◌, refl, sym, subst, [], some, arith}
use scalloc.Alloc.Globals.{num_classes}
use scalloc.Alloc.TaggedValue.{value, tagged}
use scalloc.Alloc.Memory.{Mem, count}
use scalloc.Alloc.Arena.{Arena}
use scalloc.Alloc.SpanPool.{init, allocate}
use scalloc.Alloc.SpanPool.Limit.{announce}
use scalloc.Alloc.SpanPool.Spans.{System, Step, take, give, come_or_go, mutate, Reach, begin, later}
use scalloc.Alloc.SpanPool.Spans.Places.{Place, nowhere, with_program, on_backend, with}
use scalloc.Alloc.SpanPool.Spans.Taking.{Inv, IsNew, taken}
use scalloc.Alloc.SpanPool.Spans.Giving.{given, written, announced, announce-KeepsBackends}

with_le : (place : Place) → with place ≤ 1
with_le nowhere = omega arith
with_le with_program = omega arith
with_le (on_backend slot b) = omega arith

-- An arena in user space that does not start at NULL.
pub record IsArena (a : Arena) : Type 0 where
  pub some_start : 0 < a.current
  pub inside : a.current ≤ a.end
  pub low : a.end ≤ 2 ^ 47

begin-Inv :
    (m : Mem) (a : Arena)
    → IsArena a
    → Inv a.current a.end (record { pool = init m; arena = a; held = [] })
unfolding init tagged value
begin-Inv m a h = record {
  made = 0;
  lists = λ slot b. [];
  places = λ x. nowhere;
  placed = record { pooled = λ x slot b. refl; holding = λ x. refl };
  linked = λ slot b. refl;
  spans = λ x k. absurd (k refl);
  some_start = h.some_start;
  current = omega arith;
  same_end = refl;
  inside = h.inside;
  low = h.low;
}

step-Inv : (start end : ℕ) (s s' : System) → Step start s s' → Inv start end s → Inv start end s'
step-Inv start end s _ (take rand size_class id span class some_limit e) q =
    (taken start end s q rand size_class id span class some_limit e).1
step-Inv start end s _ (give size_class id span h) q = given start end s q size_class id span h
step-Inv start end s _ (come_or_go cpus x) q =
    announced start end s (announce cpus x s.pool) (announce-KeepsBackends cpus x s.pool) q
step-Inv start end s _ (mutate a v h) q = written start end s q a v h

reach-Inv : {m : Mem} {a : Arena} {s : System} → IsArena a → Reach m a s → Inv a.current a.end s
reach-Inv h begin = begin-Inv _ _ h
reach-Inv h (later r st) = step-Inv _ _ _ _ st (reach-Inv h r)

held_once : (start end : ℕ) (s : System) → Inv start end s → (x : ℕ) → count x s.held ≤ 1
held_once start end s q x = subst (λ n. n ≤ 1) (sym (q.placed.holding x)) (with_le (q.places x))

-- From an empty pool and an arena in user space, after any calls of Allocate and Free, any coming and
-- going of threads and any writes of the program to its spans, Allocate gives a span of the arena,
-- whole and aligned to the start, that the program does not hold; and no span is held twice.
pub pool-IsNew :
    {m : Mem} {a : Arena} {s : System}
    → IsArena a
    → Reach m a s
    → (rand : ℕ → ℕ) (size_class id span : ℕ) → size_class < num_classes
    → 0 < s.pool.limit
    → (allocate rand size_class id s.pool s.arena).0 ≡ some span
    → IsNew a.current a.end s.held span × ((x : ℕ) → count x s.held ≤ 1)
pool-IsNew h r rand size_class id span class some_limit e =
    let q = reach-Inv h r in
    ((taken _ _ _ q rand size_class id span class some_limit e).0, held_once _ _ _ q)
