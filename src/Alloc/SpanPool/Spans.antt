-- ===== src/Alloc/SpanPool/Spans.antt =====
-- src/span_pool.h, src/arena.h: where the spans of the arena are, while a program takes spans of any
-- size classes and gives them back, threads come and go, and the program writes to its spans.
mod Places
mod Backends
pub mod Taking
mod Giving
pub mod Safety
use scalloc.Common.{ℕ, ◌+◌, ◌*◌, ◌<◌, ◌≤◌, ◌≡◌, ◌≢◌, ◌⊎◌, ◌^◌, List, [], ◌∷◌, Option, some}
use scalloc.Alloc.Globals.{num_classes, virtual_span_size}
use scalloc.Alloc.Memory.{Mem, write, count, erase}
use scalloc.Alloc.Arena.{Arena}
use scalloc.Alloc.SpanPool.{SpanPool, init, allocate, free}
use scalloc.Alloc.SpanPool.Limit.{Announcement, announce}

-- `held` are the spans that the program has.
pub record System : Type 0 where
  pub pool : SpanPool
  pub arena : Arena
  pub held : List ℕ

-- The address of a span of an arena.
abbrev pub span_at : ℕ → ℕ → ℕ
span_at start i = start + i * virtual_span_size

-- One call, run to its end. A call of Allocate that exhausts the arena stops the program.
pub data Step (start : ℕ) (s : System) : System → Type 0 where
  take :
      (rand : ℕ → ℕ) (size_class id span : ℕ)
      → size_class < num_classes
      → 0 < s.pool.limit
      → (allocate rand size_class id s.pool s.arena).0 ≡ some span
      → Step start s (record {
        pool = (allocate rand size_class id s.pool s.arena).1;
        arena = (allocate rand size_class id s.pool s.arena).2;
        held = span ∷ s.held;
      })
  give :
      (size_class id span : ℕ)
      → 0 < count span s.held
      → Step start s (record s { pool = free size_class span id s.pool; held = erase span s.held })
  come_or_go :
      (cpus : ℕ) (x : Announcement) → Step start s (record s { pool = announce cpus x s.pool })
  -- A write to the first word of a span of the program, or to a word that starts no span.
  mutate :
      (a v : ℕ)
      → (0 < count a s.held) ⊎ ((i : ℕ) → a ≢ span_at start i)
      → Step start s (record s { pool = record (s.pool) { mem = write s.pool.mem a v } })

-- From the pool that Init makes and an arena.
pub data Reach (m : Mem) (a : Arena) : System → Type 0 where
  begin : Reach m a (record { pool = init m; arena = a; held = [] })
  later : {s s' : System} → Reach m a s → Step a.current s s' → Reach m a s'
