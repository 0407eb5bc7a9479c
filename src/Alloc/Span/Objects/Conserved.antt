-- ===== src/Alloc/Span/Objects/Conserved.antt =====
-- Every object that has been carved is on one of the two lists or held by the program, once.
use mathlib.Core.Option
use native.Mathlib.Decide.{dec_lt}
use scalloc.Common.{
  ℕ, suc, ◌-◌, ◌≡◌, inl, inr, refl, sym, subst, ◌∙◌, List, [], ◌∷◌, ◌==◌, arith, Bool-cases,
}
use scalloc.Alloc.SizeClasses.{class_to_size, class_to_objects}
use scalloc.Alloc.SizeClasses.Fits.{spans_fit}
use scalloc.Alloc.TaggedValue.{TaggedValue}
use scalloc.Alloc.Memory.{Mem, write, count, Chain-write, NotIn-count}
use scalloc.Alloc.FreeList
use scalloc.Alloc.FreeList.{IncrementalFreeList}
use scalloc.Alloc.FreeList.Holds.{Holds-write}
use scalloc.Alloc.Span.{new_span, header_end, allocate}
use scalloc.Alloc.Span.Objects.{System, gained, Step, Reach, start, later}
use scalloc.Alloc.Span.Objects.Carved.{carved-off, carved_zero}
use scalloc.Alloc.Span.Objects.Owned.{
  IsPlaced, Owned, HasOwners, held_alone, empty_tag, empty_value,
}
use scalloc.Alloc.Span.Objects.Allocating.{alloc_listed, alloc_carved, alloc_none}
use scalloc.Alloc.Span.Objects.Releasing.{free_local, free_remote}
use scalloc.Alloc.Span.Objects.Moving.{moved}

HasOwners-alloc :
    (base sc : ℕ) (placed : IsPlaced base sc) (s : System) (locals remotes : List ℕ) (n : ℕ)
    → Owned base sc s locals remotes n
    → HasOwners base sc (record s {
      span = (allocate s.mem s.span).1;
      held = gained (allocate s.mem s.span).0 s.held;
    })
HasOwners-alloc base sc placed s (x ∷ xs) remotes n o =
    (xs, remotes, n, alloc_listed base sc placed s remotes n x xs o)
HasOwners-alloc base sc placed s [] remotes n o = elim (dec_lt n (class_to_objects sc)) [
  | yes left ↦ (
    [],
    remotes,
    suc n,
    alloc_carved base sc placed s remotes n (class_to_objects sc - suc n) (omega arith) o,
  )
  | no full ↦ ([], remotes, n, alloc_none base sc placed s remotes n (omega (arith, o.fits)) o)
]

-- A write that a program may make is not to a free object.
mutate-Owned :
    (base sc : ℕ) (placed : IsPlaced base sc) (s : System) (locals remotes : List ℕ) (n a v : ℕ)
    → Owned base sc s locals remotes n
    → (count a locals ≡ 0) × (count a remotes ≡ 0)
    → Owned base sc (record s { mem = write s.mem a v }) locals remotes n
mutate-Owned base sc placed s locals remotes n a v o (off_local, off_remote) = record {
  fits = o.fits;
  local =
      Holds-write s.mem a v (s.span).local_free_list locals _ (NotIn-count a locals off_local)
        o.local;
  bump = o.bump;
  increment = o.increment;
  remote = Chain-write s.mem a v _ remotes (NotIn-count a remotes off_remote) o.remote;
  tagged = o.tagged;
  balance = o.balance;
  total = o.total;
}

Step-HasOwners :
    {base sc : ℕ} {s s' : System}
    → IsPlaced base sc
    → Step base sc s s'
    → HasOwners base sc s
    → HasOwners base sc s'
Step-HasOwners {base} {sc} {s} placed Step.alloc (locals, remotes, n, o) =
    HasOwners-alloc base sc placed s locals remotes n o
Step-HasOwners {base} {sc} {s} placed (Step.release p caller h) (locals, remotes, n, o) =
    elim (Bool-cases ((s.span).owner == caller)) [
      | inl own ↦ (
        p ∷ locals,
        remotes,
        n,
        (free_local base sc placed s locals remotes n p caller o h own).0,
      )
      | inr other ↦ (
        locals,
        p ∷ remotes,
        n,
        (free_remote base sc placed s locals remotes n p caller o h other).0,
      )
    ]
Step-HasOwners {base} {sc} {s} placed (Step.move {m} {span} run) (locals, remotes, n, o) =
    let (m', span', locals', run', o') = moved base sc placed s n locals remotes o in
    (
      locals',
      [],
      n,
      subst (λ r. Owned base sc (record s { mem = r.0; span = r.1 }) locals' [] n)
          (Option.some-injective (m', span') (m, span) (sym run' ∙ run)) o',
    )
Step-HasOwners {base} {sc} {s} placed (Step.mutate a v (inl held)) (locals, remotes, n, o) =
    let alone = held_alone base sc placed s remotes n locals o a held in
    (locals, remotes, n, mutate-Owned base sc placed s locals remotes n a v o (alone.0, alone.1))
Step-HasOwners {base} {sc} {s} placed (Step.mutate a v (inr off)) (locals, remotes, n, o) =
    let none_here = carved-off (header_end base) (class_to_size sc) a off n in
    (
      locals,
      remotes,
      n,
      mutate-Owned base sc placed s locals remotes n a v o
          (omega (arith, none_here, o.balance a), omega (arith, none_here, o.balance a)),
    )
Step-HasOwners placed (Step.relabel owner epoch) (locals, remotes, n, o) = (
  locals,
  remotes,
  n,
  record {
    fits = o.fits;
    local = o.local;
    bump = o.bump;
    increment = o.increment;
    remote = o.remote;
    tagged = o.tagged;
    balance = o.balance;
    total = o.total;
  },
)

new_span-HasOwners :
    (m : Mem) (base epoch sc : ℕ) (owner : TaggedValue)
    → IsPlaced base sc
    → HasOwners base sc (record { mem = m; span = new_span base epoch sc owner; held = [] })
unfolding new_span FreeList.new_free_list
new_span-HasOwners m base epoch sc owner placed = (
  [],
  [],
  0,
  record {
    fits = omega arith;
    local = record {
      chain = refl;
      len = omega arith;
      small = omega (arith, spans_fit sc placed.some_class placed.class);
    };
    bump = omega arith;
    increment = refl;
    remote = empty_value;
    tagged = empty_tag;
    balance = λ a. sym (carved_zero (header_end base) (class_to_size sc) a);
    total = refl;
  },
)

pub Reach-HasOwners :
    {m : Mem} {base epoch sc : ℕ} {owner : TaggedValue} {s : System}
    → IsPlaced base sc
    → Reach m base epoch sc owner s
    → HasOwners base sc s
Reach-HasOwners {m} {base} {epoch} {sc} {owner} placed start =
    new_span-HasOwners m base epoch sc owner placed
Reach-HasOwners placed (later r st) = Step-HasOwners placed st (Reach-HasOwners placed r)
