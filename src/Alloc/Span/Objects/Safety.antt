-- ===== src/Alloc/Span/Objects/Safety.antt =====
-- What the operations of a span give its program, after any calls before.
use native.Mathlib.Decide.{dec_lt}
use scalloc.Common.{
  ℕ, suc, ◌+◌, ◌-◌, ◌≤◌, ◌<◌, ◌≡◌, ◌≢◌, ◌⊎◌, inl, inr, refl, ap, subst, ◌∙◌, List, [], ◌∷◌, ◌==◌,
  some, length, arith, Bool-cases,
}
use scalloc.Alloc.SizeClasses.{class_to_size, class_to_objects}
use scalloc.Alloc.SizeClasses.Fits.{spans_fit}
use scalloc.Alloc.TaggedValue.{TaggedValue}
use scalloc.Alloc.Memory.{Mem, null, count, erase}
use scalloc.Alloc.FreeList.Holds.{Holds, pop_listed, pop_carved, pop_none}
use scalloc.Alloc.Span.{
  Span, nr_remote_objects, nr_local_objects, nr_free_objects, header_end, allocate, free,
  move_remote_to_local_objects,
}
use scalloc.Alloc.Span.Objects.{System, object, Reach}
use scalloc.Alloc.Span.Objects.Carved.{carved, carved-le, carved_new, carved_index, carved_next}
use scalloc.Alloc.Span.Objects.Owned.{IsPlaced, Owned, carved_object, nr_remote_objects_lem}
use scalloc.Alloc.Span.Objects.Releasing.{free_local, free_remote}
use scalloc.Alloc.Span.Objects.Conserved.{Reach-HasOwners}
use scalloc.Alloc.Span.Objects.Moving.{moved}

abbrev IsObjectOf : ℕ → ℕ → ℕ → Type 0
IsObjectOf base sc p = (i : ℕ) × (i < class_to_objects sc) × (p ≡ object base sc i)

-- What Allocate may return.
abbrev pub IsFresh : ℕ → ℕ → System → Type 0
IsFresh base sc s =
    (((allocate s.mem s.span).0 ≡ null)
      × (length s.held + nr_remote_objects s.span ≡ class_to_objects sc))
    ⊎ (((allocate s.mem s.span).0 ≢ null)
        × IsObjectOf base sc (allocate s.mem s.span).0
        × (count (allocate s.mem s.span).0 s.held ≡ 0))

module _ (base sc : ℕ) (placed : IsPlaced base sc) (s : System) (remotes : List ℕ) (n : ℕ) where
  once :
      (locals : List ℕ)
      → Owned base sc s locals remotes n
      → (a : ℕ) → count a locals + count a s.held ≤ 1
  once locals o a = omega (
    arith,
    o.balance a,
    carved-le (header_end base) (class_to_size sc) (spans_fit sc placed.some_class placed.class).0 n
        a,
  )

  -- An object that was carved, as one of the span.
  carved-IsObjectOf :
      (k a : ℕ)
      → k ≤ class_to_objects sc
      → 0 < carved (header_end base) (class_to_size sc) k a
      → IsObjectOf base sc a
  carved-IsObjectOf k a le h =
      let (i, lt, at) = carved_index (header_end base) (class_to_size sc) k a h in
      (i, omega arith, at)

  Owned-IsFresh : (locals : List ℕ) → Owned base sc s locals remotes n → IsFresh base sc s
  unfolding allocate
  Owned-IsFresh (x ∷ xs) o =
      let same =
        (pop_listed s.mem (s.span).local_free_list x xs (class_to_objects sc - n) o.local).0 in
      let some_x : x ≢ null = o.local.chain.1 in
      inr (
        rw same (
          some_x,
          carved-IsObjectOf n x o.fits (ground (arith, o.balance x)),
          ground (arith, once (x ∷ xs) o x),
        ))
  Owned-IsFresh [] o = elim (dec_lt n (class_to_objects sc)) [
    | yes left ↦
        let rest : class_to_objects sc - n ≡ suc (class_to_objects sc - suc n) = omega arith in
        let same =
          (pop_carved s.mem (s.span).local_free_list (class_to_objects sc - suc n)
            (subst (Holds s.mem (s.span).local_free_list []) rest o.local)).0 in
        let new = carved_new (header_end base) (class_to_size sc) n in
        inr (
          rw (same ∙ o.bump) (
            (carved_object base sc placed (suc n) (object base sc n) (omega arith) new).0,
            (n, left, refl),
            omega (
              arith,
              o.balance (object base sc n),
              carved_next (header_end base) (class_to_size sc)
                  (spans_fit sc placed.some_class placed.class).0 n,
            ),
          ))
    | no full ↦
        let rest : class_to_objects sc - n ≡ 0 = omega arith in
        let nothing =
          pop_none s.mem (s.span).local_free_list
            (subst (Holds s.mem (s.span).local_free_list []) rest o.local) in
        inl (
          ap (λ r. r.0) nothing,
          omega (arith, o.fits, o.total, nr_remote_objects_lem base sc placed s remotes n [] o),
        )
  ]

module _ {m : Mem} {base epoch sc : ℕ} {owner : TaggedValue} {s : System}
    (placed : IsPlaced base sc) (r : Reach m base epoch sc owner s) where
  -- Allocate returns an object of the span that the program does not hold, or NULL when every object
  -- is held or on the remote list; and no object is held twice.
  pub allocate-IsFresh : IsFresh base sc s × ((a : ℕ) → count a s.held ≤ 1)
  allocate-IsFresh =
      let (locals, remotes, n, o) = Reach-HasOwners placed r in
      (
        Owned-IsFresh base sc placed s remotes n locals o,
        λ a. omega (arith, once base sc placed s remotes n locals o a),
      )

  -- Free returns the number of objects that the program then does not hold.
  pub free_counts :
      (p : ℕ) (caller : TaggedValue)
      → 0 < count p s.held
      → (free p caller s.mem s.span).0 + length (erase p s.held) ≡ class_to_objects sc
  free_counts p caller h =
      let (locals, remotes, n, o) = Reach-HasOwners placed r in
      elim (Bool-cases ((s.span).owner == caller)) [
        | inl own ↦ (free_local base sc placed s locals remotes n p caller o h own).1
        | inr other ↦ (free_remote base sc placed s locals remotes n p caller o h other).1
      ]

  -- MoveRemoteToLocalObjects ends within as many rounds as there are remote objects; behind it none is
  -- left, and the local list has as many free objects as both lists had.
  pub move_remote_to_local_objects_total :
      (m' : Mem) × (span : Span) × (move_remote_to_local_objects
          (nr_remote_objects s.span)
          s.mem
          s.span
        ≡ some (m', span))
      × (nr_remote_objects span ≡ 0)
      × (nr_local_objects span ≡ nr_free_objects s.span)
  unfolding nr_local_objects nr_free_objects
  move_remote_to_local_objects_total =
      let (locals, remotes, n, o) = Reach-HasOwners placed r in
      let (m', span, locals', run, o') = moved base sc placed s n locals remotes o in
      let before = nr_remote_objects_lem base sc placed s remotes n locals o in
      let after =
        nr_remote_objects_lem base sc placed (record s { mem = m'; span = span }) [] n locals' o' in
      (m', span, run, after, omega (arith, before, o.local.len, o.total, o'.local.len, o'.total))
