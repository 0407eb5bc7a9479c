-- ===== src/Alloc/Tests/Moves.antt =====
-- realloc over allocators that give one object.
use scalloc.Common.{ℕ, ◌+◌, ◌^◌, inr, refl, false}
use scalloc.Alloc.Arena.{Arena, contains}
use scalloc.Alloc.Glue.{Heap}
use scalloc.Alloc.Glue.Realloc.{Allocators, IsOwned, IsReallocated, realloc, realloc_lem}

-- What `malloc` and both frees leave: the state counts the calls.
abbrev counted : Heap ℕ → Heap ℕ
counted h = record h { state = h.state + 1 }

abbrev allocators : Allocators ℕ
allocators = record {
  malloc = λ size h. (0x2000, counted h);
  core_free = λ p h. counted h;
  large_free = λ p h. counted h;
  span_class = λ p h. 4;
  payload_size = λ p h. 48;
}

abbrev object_space : Arena
object_space = record { start = 2 ^ 40; end = 2 ^ 41; len = 2 ^ 40; current = 2 ^ 40 }

abbrev heap : Heap ℕ
heap = record { state = 0; bytes = λ a. a; seen_memalign = false }

-- An object of 48 bytes outside of the arena.
large : IsOwned object_space allocators 0x1000 heap 48 counted
unfolding contains
large = inr (refl, refl, refl)

realloc_lem_example :
    IsReallocated object_space allocators 0x1000 100 48 counted heap
      (0x2000, counted heap)
      (realloc object_space allocators 0x1000 100 heap)
realloc_lem_example =
    realloc_lem object_space allocators 0x1000 100 48 counted heap large (λ k l. refl)
      (λ h k l. refl)
