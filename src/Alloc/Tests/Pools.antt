-- ===== src/Alloc/Tests/Pools.antt =====
-- The pool of spans with a limit of two backends, and a lock with two threads.
use scalloc.Common.{
  ℕ, ◌+◌, ◌^◌, ◌≤◌, ◌<◌, ◌≡◌, ◌≢◌, ◌⊎◌, refl, ap, ◌∙◌, inl, inr, Option, List, [], ◌∷◌, some, arith,
  if◌then◌else◌,
}
use scalloc.Alloc.TaggedValue.{value, tagged}
use scalloc.Alloc.Memory.{Mem, null, count}
use scalloc.Alloc.Arena.{Arena, allocate_virtual_span}
use scalloc.Alloc.SpanPool
use scalloc.Alloc.SpanPool.Limit.{Announcement, arriving, leaving, announce_all, announce_all-limit}
use scalloc.Alloc.SpanPool.Limit.{announce}
use scalloc.Alloc.SpanPool.Spans
use scalloc.Alloc.SpanPool.Spans.Taking.{IsNew}
use scalloc.Alloc.SpanPool.Spans.Safety.{pool-IsNew}
use scalloc.Alloc.SpanPool.Search.{IsBackend, allocate_lem}
use scalloc.Alloc.Lock
use scalloc.Alloc.Lock.{IsExclusive, Reach-IsExclusive}

abbrev zeros : Mem
zeros a = 0

-- Two threads have come, and the second has freed a span of the class 20 at 2 MiB.
abbrev pool : SpanPool.SpanPool
pool =
    SpanPool.free 20 (2 ^ 21) 1
      (SpanPool.announce_new_thread 4 (SpanPool.announce_new_thread 4 (SpanPool.init zeros)))

abbrev arena : Arena
arena = record { start = 2 ^ 40; len = 2 ^ 40; end = 2 ^ 41; current = 2 ^ 40 }

two_backends : pool.limit ≡ 2
unfolding SpanPool.free SpanPool.push_backend SpanPool.announce_new_thread SpanPool.init
    SpanPool.above32
two_backends = refl

allocate_lem_example :
    ((slot : ℕ) × (b : ℕ) × IsBackend pool.limit slot b
      × (value (pool.backends slot b) ≢ null)
      × (SpanPool.allocate (λ k. 7 + k) 1 0 pool arena
          ≡ (some (value (pool.backends slot b)), (SpanPool.pop_backend slot b pool).1, arena)))
    ⊎ (((slot b : ℕ) → IsBackend pool.limit slot b → value (pool.backends slot b) ≡ null)
        × (SpanPool.allocate (λ k. 7 + k) 1 0 pool arena
            ≡ ((allocate_virtual_span arena).0, pool, (allocate_virtual_span arena).1)))
allocate_lem_example =
    allocate_lem (λ k. 7 + k) 1 0 pool arena (omega arith) (omega (arith, two_backends))

-- Two more threads come and go.
abbrev announcements : List Announcement
announcements = arriving ∷ arriving ∷ leaving ∷ leaving ∷ []

announce_all-limit_example :
    let p = announce_all 4 announcements (SpanPool.announce_new_thread 4 (SpanPool.init zeros)) in
    (0 < p.limit) × (p.limit ≤ 4) × (p.limit ≤ SpanPool.hard_limit)
announce_all-limit_example = announce_all-limit 4 zeros announcements (omega arith) (omega arith)

-- One thread takes the first span of the arena.
abbrev new_pool : Spans.System
new_pool = record { pool = announce 4 arriving (SpanPool.init zeros); arena = arena; held = [] }

new_pool_reached : Spans.Reach zeros arena new_pool
new_pool_reached = Spans.later Spans.begin (Spans.come_or_go 4 arriving)

one_backend : new_pool.pool.limit ≡ 1
unfolding announce SpanPool.announce_new_thread SpanPool.init SpanPool.above32
one_backend = refl

no_span : (slot b : ℕ) → value (new_pool.pool.backends slot b) ≡ null
unfolding announce SpanPool.announce_new_thread SpanPool.init SpanPool.above32 value tagged
no_span slot b = refl

bump : (allocate_virtual_span arena).0 ≡ some (2 ^ 40)
unfolding allocate_virtual_span
bump = refl

first_span : (SpanPool.allocate (λ k. k) 1 0 new_pool.pool arena).0 ≡ some (2 ^ 40)
first_span =
    elim (allocate_lem (λ k. k) 1 0 new_pool.pool arena (omega arith)
      (omega (arith, one_backend))) [
        | inl (slot, b, h, some_span, e) ↦ absurd (some_span (no_span slot b))
        | inr (empty, e) ↦ ap (λ (r : Option ℕ × SpanPool.SpanPool × Arena). r.0) e ∙ bump
      ]

pool-IsNew_example : IsNew (2 ^ 40) (2 ^ 41) [] (2 ^ 40) × ((x : ℕ) → count x [] ≤ 1)
pool-IsNew_example =
    pool-IsNew (record { some_start = omega arith; inside = omega arith; low = omega arith })
      new_pool_reached (λ k. k) 1 0 (2 ^ 40) (omega arith) (omega (arith, one_backend)) first_span

-- Thread 0 holds the lock, and thread 1 spins.
abbrev begun : Lock.System
begun = record Lock.init { local = Lock.update Lock.init.local 0 Lock.spinning }

abbrev locked : Lock.System
locked = record {
  lock = (Lock.try_lock 0).1;
  local = Lock.update begun.local 0 (if (Lock.try_lock 0).0 then Lock.guarded else Lock.spinning);
}

abbrev contended : Lock.System
contended = record locked { local = Lock.update locked.local 1 Lock.spinning }

contended_reached : Lock.Reach contended
unfolding Lock.try_lock
contended_reached =
    Lock.later (Lock.later (Lock.later Lock.start (Lock.begin 0 refl)) (Lock.try 0 refl))
      (Lock.begin 1 refl)

Reach-IsExclusive_example : IsExclusive contended
Reach-IsExclusive_example = Reach-IsExclusive contended_reached
