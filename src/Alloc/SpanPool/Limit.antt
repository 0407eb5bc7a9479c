-- ===== src/Alloc/SpanPool/Limit.antt =====
-- src/span_pool.h: the limit of the backends under the announcements of threads.
use scalloc.Common.{ℕ, ◌+◌, ◌^◌, ◌≤◌, ◌<◌, ◌≡◌, List, [], ◌∷◌, arith}
use scalloc.Alloc.Memory.{Mem}
use scalloc.Alloc.SpanPool.{
  init, SpanPool, hard_limit, above32, announce_new_thread, announce_leaving_thread,
}

-- The limit counts up by one at most, only to a number of cores and to no more than the hard limit.
abbrev IsBounded : ℕ → SpanPool → Type 0
IsBounded cpus p = (p.limit ≤ cpus) × (p.limit ≤ hard_limit) × (p.current_threads < 2 ^ 32)

announce_new_thread_lem :
    (cpus : ℕ) (p : SpanPool)
    → cpus < 2 ^ 31
    → IsBounded cpus p
    → IsBounded cpus (announce_new_thread cpus p)
      × (p.limit ≤ (announce_new_thread cpus p).limit)
      × ((announce_new_thread cpus p).limit ≤ p.limit + 1)
unfolding announce_new_thread above32
announce_new_thread_lem cpus p small q = ground (arith, q)

-- What the threads announce behind the first one.
pub data Announcement : Type 0 where
  arriving : Announcement
  leaving : Announcement

unfoldable pub announce : ℕ → Announcement → SpanPool → SpanPool
announce cpus arriving p = announce_new_thread cpus p
announce cpus leaving p = announce_leaving_thread p

unfoldable pub announce_all : ℕ → List Announcement → SpanPool → SpanPool
announce_all cpus [] p = p
announce_all cpus (x ∷ xs) p = announce_all cpus xs (announce cpus x p)

announce_lem :
    (cpus : ℕ) (x : Announcement) (p : SpanPool)
    → cpus < 2 ^ 31
    → IsBounded cpus p
    → IsBounded cpus (announce cpus x p) × (p.limit ≤ (announce cpus x p).limit)
unfolding announce announce_leaving_thread
announce_lem cpus arriving p small q =
    let (bounded, low, high) = announce_new_thread_lem cpus p small q in (bounded, low)
announce_lem cpus leaving p small q = ground (arith, q)

announce_all_lem :
    (cpus : ℕ) (xs : List Announcement) (p : SpanPool)
    → cpus < 2 ^ 31
    → IsBounded cpus p
    → IsBounded cpus (announce_all cpus xs p) × (p.limit ≤ (announce_all cpus xs p).limit)
unfolding announce_all
announce_all_lem cpus [] p small q = (q, omega arith)
announce_all_lem cpus (x ∷ xs) p small q =
    let (bounded, low) = announce_lem cpus x p small q in
    let (bounded', low') = announce_all_lem cpus xs (announce cpus x p) small bounded in
    (bounded', omega (arith, low, low'))

first_limit :
    (cpus : ℕ) (mem : Mem)
    → 0 < cpus
    → cpus < 2 ^ 31
    → ((announce_new_thread cpus (init mem)).limit ≡ 1)
      × IsBounded cpus (announce_new_thread cpus (init mem))
unfolding announce_new_thread above32 init
first_limit cpus mem h small = ground arith

-- Behind the announcement of a first thread, whatever threads come and go, the limit is positive and
-- at most the number of cores and the hard limit.
pub announce_all-limit :
    (cpus : ℕ) (mem : Mem) (xs : List Announcement)
    → 0 < cpus
    → cpus < 2 ^ 31
    → (0 < (announce_all cpus xs (announce_new_thread cpus (init mem))).limit)
      × ((announce_all cpus xs (announce_new_thread cpus (init mem))).limit ≤ cpus)
      × ((announce_all cpus xs (announce_new_thread cpus (init mem))).limit ≤ hard_limit)
announce_all-limit cpus mem xs some_cpu small =
    let first = first_limit cpus mem some_cpu small in
    let (bounded, low) =
      announce_all_lem cpus xs (announce_new_thread cpus (init mem)) small first.1 in
    (omega (arith, low, first.0), bounded.0, bounded.1)
