-- ===== src/Alloc/Tests/Lists.antt =====
-- The lists of free objects: a stack with two threads, and a span.
use scalloc.Common.{ℕ, ◌+◌, ◌^◌, ◌≤◌, ◌<◌, ◌≡◌, refl, true, [], ◌∷◌, some, length, arith}
use scalloc.Alloc.SizeClasses.{class_to_objects, class_to_size}
use scalloc.Alloc.TaggedValue.{TaggedValue, tagged, value, tag, swap}
use scalloc.Alloc.Memory.{Mem, null, count, erase, Chain, write}
use scalloc.Alloc.Stack.{pushed, link}
use scalloc.Alloc.Stack.Threads.{
  System, at, idle, pushing, loaded, linked, claiming, popping, init, Step, Reach, start, later,
}
use scalloc.Alloc.Stack.Threads.Refines.{IsStack, Reach-IsStack, pop_all-Chain}
use scalloc.Alloc.FreeList
use scalloc.Alloc.Span.{
  Span, header_end, allocate, free, move_remote_to_local_objects, nr_remote_objects,
  nr_local_objects, nr_free_objects, new_span,
}
use scalloc.Alloc.Span.Objects
use scalloc.Alloc.Span.Objects.Owned.{IsPlaced}
use scalloc.Alloc.Span.Objects.Safety.{
  IsFresh, allocate-IsFresh, free_counts, move_remote_to_local_objects_total,
}

abbrev zeros : Mem
zeros a = 0

-- Thread 0 has pushed the object at 64, and thread 1 is about to claim the list.
abbrev old : TaggedValue
old = tagged null 0

abbrev loaded_system : System
loaded_system = at (at (init zeros) 0 (pushing 64)) 0 (loaded 64 old)

abbrev linked_system : System
linked_system = record (at loaded_system 0 (linked 64 old)) { mem = link 64 old zeros }

abbrev pushed_system : System
pushed_system = record (at linked_system 0 idle) { top = (swap old (pushed 64 old) old).0 }

abbrev claiming_system : System
claiming_system = at (at pushed_system 1 popping) 1 (claiming pushed_system.top)

claiming_reached : Reach zeros claiming_system (64 ∷ [])
unfolding tagged value tag swap pushed link write
claiming_reached =
    later
      (later
        (later
          (later
            (later
              (later start (
                Step.begin_push 0 64 refl ((λ e. absurd (omega (arith, e))), omega arith)
                  (tt, λ u. λ e. cc)))
              (Step.load_top 0 64 refl))
            (Step.write_link 0 64 old refl))
          (Step.push_done 0 64 old refl refl))
        (Step.begin_pop_all 1 refl))
      (Step.load_all 1 refl (λ e. absurd (omega (arith, e))))

Reach-IsStack_example : IsStack claiming_system (64 ∷ [])
Reach-IsStack_example = Reach-IsStack claiming_reached

claims : (swap pushed_system.top (tagged null 0) claiming_system.top).1 ≡ true
unfolding tagged tag pushed swap
claims = refl

pop_all-Chain_example :
    Chain claiming_system.mem (value pushed_system.top) (64 ∷ [])
    × (tag pushed_system.top ≡ length {A = ℕ} (64 ∷ []))
pop_all-Chain_example = pop_all-Chain claiming_reached 1 pushed_system.top (omega arith) refl claims

-- A span of the class 1 at 2 MiB, behind one allocation.
abbrev base : ℕ
base = 2 ^ 21

placed : IsPlaced base 1
unfolding header_end class_to_objects class_to_size
placed = record { class = omega arith; some_class = omega arith; low = omega arith }

abbrev fresh : Objects.System
fresh = record { mem = zeros; span = new_span base 0 1 (tagged 4096 1); held = [] }

abbrev one_held : Objects.System
one_held = record fresh {
  span = (allocate zeros fresh.span).1;
  held = Objects.gained (allocate zeros fresh.span).0 [];
}

one_held_reached : Objects.Reach zeros base 0 1 (tagged 4096 1) one_held
one_held_reached = Objects.Reach.later Objects.Reach.start Objects.Step.alloc

allocate-IsFresh_example : IsFresh base 1 one_held × ((a : ℕ) → count a one_held.held ≤ 1)
allocate-IsFresh_example = allocate-IsFresh placed one_held_reached

first_object : 0 < count (base + 128) one_held.held
unfolding allocate FreeList.pop new_span FreeList.new_free_list header_end class_to_objects
first_object = omega arith

free_counts_example :
    (free (base + 128) (tagged 8192 2) one_held.mem one_held.span).0
      + length (erase (base + 128) one_held.held)
    ≡ class_to_objects 1
free_counts_example = free_counts placed one_held_reached (base + 128) (tagged 8192 2) first_object

move_remote_to_local_objects_total_example :
    (m' : Mem) × (span : Span) × (move_remote_to_local_objects
        (nr_remote_objects one_held.span)
        zeros
        one_held.span
      ≡ some (m', span))
    × (nr_remote_objects span ≡ 0)
    × (nr_local_objects span ≡ nr_free_objects one_held.span)
move_remote_to_local_objects_total_example =
    move_remote_to_local_objects_total placed one_held_reached
