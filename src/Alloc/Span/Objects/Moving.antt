-- ===== src/Alloc/Span/Objects/Moving.antt =====
-- MoveRemoteToLocalObjects keeps the objects of a span apart.
use mathlib.Core.List.{reverse_aux}
use native.Mathlib.Decide.{ℕ_discrete}
use scalloc.Common.{
  ℕ, zero, suc, ◌+◌, ◌-◌, ◌^◌, ◌≤◌, ◌<◌, ◌≡◌, ◌≢◌, refl, sym, ap, ◌∙◌, List, [], ◌∷◌, ◌==◌, some,
  length, arith, if-false, true, false,
}
use scalloc.Alloc.SizeClasses.{class_to_size, class_to_objects}
use scalloc.Alloc.SizeClasses.Fits.{spans_fit}
use scalloc.Alloc.TaggedValue.{TaggedValue, tagged, value, tag}
use scalloc.Alloc.Memory.{
  Mem, null, count, Chain, Chain-write, NotIn-count, count-reverse_aux, length-reverse_aux,
}
use scalloc.Alloc.FreeList
use scalloc.Alloc.FreeList.{IncrementalFreeList, set_list}
use scalloc.Alloc.FreeList.Holds.{Holds, push-Holds, push_frame}
use scalloc.Alloc.Span.{
  Span, header_end, nr_remote_objects, nr_local_objects, move_objects, with_local,
  move_remote_to_local_objects,
}
use scalloc.Alloc.Stack.{pop_all}
use scalloc.Alloc.Stack.Pushed.{swap_self}
use scalloc.Alloc.Span.Objects.{System}
use scalloc.Alloc.Span.Objects.Carved.{carved-le}
use scalloc.Alloc.Span.Objects.Owned.{
  IsPlaced, Owned, nr_remote_objects_lem, empty_tag, empty_value,
}

move_objects_end :
    (rounds : ℕ) (m : Mem) (f : IncrementalFreeList) → move_objects rounds null m f ≡ some (m, f)
unfolding move_objects
move_objects_end zero m f = refl
move_objects_end (suc rounds) m f = refl

move_objects_step :
    (rounds p : ℕ) (m : Mem) (f : IncrementalFreeList)
    → p ≢ null
    → move_objects (suc rounds) p m f
      ≡ move_objects rounds (m p) (FreeList.push p m f).1 (FreeList.push p m f).2
unfolding move_objects
move_objects_step rounds p m f some_p = if-false {b = p == null} _ _ (ground arith)

-- The loop with as many rounds as there are objects puts them, reversed, on the local list.
move_objects-Holds :
    (rounds : ℕ) (m : Mem) (f : IncrementalFreeList) (ys : List ℕ) (objects : ℕ) (xs : List ℕ)
    (k : ℕ)
    → Holds m f xs k
    → Chain m objects ys
    → ((a : ℕ) → count a xs + count a ys ≤ 1)
    → f.len + length ys < 2 ^ 31
    → length ys ≤ rounds
    → (m' : Mem) × (f' : IncrementalFreeList) × (move_objects rounds objects m f ≡ some (m', f'))
      × Holds m' f' (reverse_aux ys xs) k
      × (f'.bump_pointer ≡ f.bump_pointer)
      × (f'.increment ≡ f.increment)
move_objects-Holds rounds m f [] objects xs k h c once small le =
    (m, f, rw c (move_objects_end rounds m f), h, refl, refl)
move_objects-Holds zero m f (y ∷ ys) objects xs k h c once small le = absurd (omega arith)
move_objects-Holds (suc rounds) m f (y ∷ ys) objects xs k h (e, some_y, c) once small le =
    let alone : (count y xs ≡ 0) × (count y ys ≡ 0) = ground (arith, once y) in
    let (n, holds) = push-Holds m f xs k y h some_y (NotIn-count y xs alone.0) (omega arith) in
    let (written, bump, inc) = push_frame y m f in
    let (m', f', run, holds', bump', inc') =
      move_objects-Holds rounds (FreeList.push y m f).1 (FreeList.push y m f).2 ys (m y) (y ∷ xs) k
        holds (rw written (Chain-write m y f.list (m y) ys (NotIn-count y ys alone.1) c))
        (λ a. ground (arith, once a)) (omega (arith, holds.len, h.len)) (omega arith) in
    (
      m',
      f',
      ap (λ p. move_objects (suc rounds) p m f) e ∙ move_objects_step rounds y m f some_y ∙ run,
      holds',
      bump' ∙ bump,
      inc' ∙ inc,
    )

test_zero : (n : ℕ) → n ≡ 0 → (n == 0) ≡ true
test_zero n h = ground arith

test_some : (n : ℕ) → n ≢ 0 → (n == 0) ≡ false
test_some n h = ground arith

pop_all_some :
    (m : Mem) (top : TaggedValue)
    → value top ≢ null
    → pop_all (record { mem = m; top = top })
      ≡ (value top, tag top, record { mem = m; top = tagged null 0 })
unfolding pop_all
pop_all_some m top h = rw (test_some (value top) h, swap_self top (tagged null 0)) refl

module _ (rounds : ℕ) (m : Mem) (s : Span) where
  moved_nothing : nr_remote_objects s ≡ 0 → move_remote_to_local_objects rounds m s ≡ some (m, s)
  unfolding move_remote_to_local_objects
  moved_nothing e = rw (test_zero (nr_remote_objects s) e) refl

  moved_list :
      nr_remote_objects s ≢ 0
      → value s.remote_free_list ≢ null
      → nr_local_objects s ≡ 0
      → move_remote_to_local_objects rounds m s
        ≡ some (
          m,
          record s {
            remote_free_list = tagged null 0;
            local_free_list =
                set_list (value s.remote_free_list) (tag s.remote_free_list) s.local_free_list;
          },
        )
  unfolding move_remote_to_local_objects
  moved_list h some_top e =
      rw
        (
          test_some (nr_remote_objects s) h,
          test_zero (nr_local_objects s) e,
          pop_all_some m s.remote_free_list some_top,
        )
        refl

  moved_one_by_one :
      nr_remote_objects s ≢ 0
      → value s.remote_free_list ≢ null
      → nr_local_objects s ≢ 0
      → move_remote_to_local_objects rounds m s
        ≡ with_local
            (record s { remote_free_list = tagged null 0 })
            (move_objects rounds (value s.remote_free_list) m s.local_free_list)
  unfolding move_remote_to_local_objects
  moved_one_by_one h some_top e =
      rw
        (
          test_some (nr_remote_objects s) h,
          test_some (nr_local_objects s) e,
          pop_all_some m s.remote_free_list some_top,
        )
        refl

module _ (base sc : ℕ) (placed : IsPlaced base sc) where
  module _ (s : System) (n : ℕ) where
    -- What the move leaves: no remote object.
    abbrev pub Moved : Type 0
    Moved =
        (m : Mem) × (span : Span) × (locals : List ℕ) × (move_remote_to_local_objects
            (nr_remote_objects s.span) s.mem s.span
          ≡ some (m, span))
        × Owned base sc (record s { mem = m; span = span }) locals [] n

    move_list :
        (y : ℕ) (ys : List ℕ)
        → Owned base sc s [] (y ∷ ys) n
        → (s.span).local_free_list.len ≡ 0
        → Moved
    unfolding set_list nr_local_objects
    move_list y ys o e =
        let some_remote : nr_remote_objects s.span ≢ 0 =
          λ z. absurd (omega (arith, z, nr_remote_objects_lem base sc placed s (y ∷ ys) n [] o)) in
        let few = spans_fit sc placed.some_class placed.class in
        (
          _,
          _,
          y ∷ ys,
          moved_list _ s.mem s.span some_remote (λ z. o.remote.1 (sym o.remote.0 ∙ z)) e,
          record {
            fits = o.fits;
            local = record {
              chain = o.remote;
              len = omega (arith, o.tagged, o.local.len, e);
              small = omega (arith, o.tagged, o.total, few, o.fits);
            };
            bump = o.bump;
            increment = o.increment;
            remote = empty_value;
            tagged = empty_tag;
            balance = λ a. omega (arith, o.balance a);
            total = omega (arith, o.total);
          },
        )

    move_each :
        (locals : List ℕ) (y : ℕ) (ys : List ℕ)
        → Owned base sc s locals (y ∷ ys) n
        → (s.span).local_free_list.len ≢ 0
        → Moved
    unfolding nr_local_objects
    move_each locals y ys o some_local =
        let nr = nr_remote_objects_lem base sc placed s (y ∷ ys) n locals o in
        let some_remote : nr_remote_objects s.span ≢ 0 = λ z. absurd (omega (arith, z, nr)) in
        let few = spans_fit sc placed.some_class placed.class in
        let (m, f, run, holds, bump, inc) =
          move_objects-Holds (nr_remote_objects s.span) s.mem (s.span).local_free_list (y ∷ ys)
            (value (s.span).remote_free_list) locals (class_to_objects sc - n) o.local o.remote
            (λ a.
              omega (arith, o.balance a, carved-le (header_end base) (class_to_size sc) few.0 n a))
            (omega (arith, o.local.len, o.total, few, o.fits)) (omega (arith, nr)) in
        (
          m,
          _,
          reverse_aux (y ∷ ys) locals,
          moved_one_by_one _ s.mem s.span some_remote (λ z. o.remote.1 (sym o.remote.0 ∙ z))
                some_local
              ∙ ap (with_local (record (s.span) { remote_free_list = tagged null 0 })) run,
          record {
            fits = o.fits;
            local = holds;
            bump = bump ∙ o.bump;
            increment = inc ∙ o.increment;
            remote = empty_value;
            tagged = empty_tag;
            balance = λ a. omega (arith, o.balance a, count-reverse_aux a (y ∷ ys) locals);
            total = omega (arith, o.total, length-reverse_aux (y ∷ ys) locals);
          },
        )

    -- MoveRemoteToLocalObjects ends, in as many rounds as there are remote objects.
    pub moved : (locals remotes : List ℕ) → Owned base sc s locals remotes n → Moved
    moved locals [] o = (
      s.mem,
      s.span,
      locals,
      moved_nothing _ s.mem s.span (nr_remote_objects_lem base sc placed s [] n locals o),
      o,
    )
    moved [] (y ∷ ys) o = elim (ℕ_discrete ((s.span).local_free_list.len) 0) [
      | yes e ↦ move_list y ys o e
      | no e ↦ move_each [] y ys o e
    ]
    moved (x ∷ xs) (y ∷ ys) o =
        move_each (x ∷ xs) y ys o (λ e. absurd (omega (arith, e, o.local.len)))
