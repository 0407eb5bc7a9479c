-- ===== src/Alloc/Span/Objects.antt =====
-- The objects of one span: a program that allocates, frees, from the owner or from elsewhere, and
-- writes to its objects, while the owner moves remote objects to the local list.
mod Carved
pub mod Owned
mod Allocating
mod Releasing
mod Moving
mod Conserved
pub mod Safety
use scalloc.Common.{
  ℕ, zero, suc, ◌+◌, ◌*◌, ◌<◌, ◌≡◌, ◌≢◌, ◌⊎◌, List, [], ◌∷◌, ◌==◌, if◌then◌else◌, some,
}
use scalloc.Alloc.SizeClasses.{class_to_size}
use scalloc.Alloc.TaggedValue.{TaggedValue}
use scalloc.Alloc.Memory.{Mem, write, null, count, erase}
use scalloc.Alloc.Span.{
  Span, new_span, header_end, allocate, free, nr_remote_objects, move_remote_to_local_objects,
}

-- `held` are the objects of the span that the program has.
pub record System : Type 0 where
  pub mem : Mem
  pub span : Span
  pub held : List ℕ

abbrev pub object : ℕ → ℕ → ℕ → ℕ
object base sc i = header_end base + i * class_to_size sc

abbrev pub gained : ℕ → List ℕ → List ℕ
gained p held = if p == null then held else p ∷ held

-- One call of the owner or of another thread, run to its end.
pub data Step (base sc : ℕ) (s : System) : System → Type 0 where
  alloc : Step base sc s (record s {
    span = (allocate s.mem s.span).1;
    held = gained (allocate s.mem s.span).0 s.held;
  })
  release :
      (p : ℕ) (caller : TaggedValue)
      → 0 < count p s.held
      → Step base sc s (record {
        mem = (free p caller s.mem s.span).1;
        span = (free p caller s.mem s.span).2;
        held = erase p s.held;
      })
  move :
      {m : Mem} {span : Span}
      → move_remote_to_local_objects (nr_remote_objects s.span) s.mem s.span ≡ some (m, span)
      → Step base sc s (record s { mem = m; span = span })
  -- A write to an object that the program has, or to a word that starts none.
  mutate :
      (a v : ℕ)
      → (0 < count a s.held) ⊎ ((i : ℕ) → a ≢ object base sc i)
      → Step base sc s (record s { mem = write s.mem a v })
  -- The marks of the epoch and TryReviveNew.
  relabel :
      (owner : TaggedValue) (epoch : ℕ)
      → Step base sc s (record s { span = record (s.span) { owner = owner; epoch = epoch } })

pub data Reach (m : Mem) (base epoch sc : ℕ) (owner : TaggedValue) : System → Type 0 where
  start :
      Reach m base epoch sc owner
        (record { mem = m; span = new_span base epoch sc owner; held = [] })
  later :
      {s s' : System}
      → Reach m base epoch sc owner s
      → Step base sc s s'
      → Reach m base epoch sc owner s'
