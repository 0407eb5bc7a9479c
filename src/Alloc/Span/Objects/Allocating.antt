-- ===== src/Alloc/Span/Objects/Allocating.antt =====
-- Allocation keeps the objects of a span apart.
use scalloc.Common.{ℕ, suc, ◌+◌, ◌-◌, ◌≡◌, ◌≢◌, subst, ◌∙◌, List, [], ◌∷◌, arith, if-false}
use scalloc.Alloc.SizeClasses.{class_to_size, class_to_objects}
use scalloc.Alloc.Memory.{null}
use scalloc.Alloc.FreeList
use scalloc.Alloc.FreeList.{IncrementalFreeList}
use scalloc.Alloc.FreeList.Holds.{Holds, pop_listed, pop_carved, pop_none}
use scalloc.Alloc.Span.{header_end, allocate}
use scalloc.Alloc.Span.Objects.{System, object, gained}
use scalloc.Alloc.Span.Objects.Carved.{carved_new, carved-suc}
use scalloc.Alloc.Span.Objects.Owned.{IsPlaced, Owned, carved_object}

module _ (base sc : ℕ) (placed : IsPlaced base sc) where
  module _ (s : System) (remotes : List ℕ) (n : ℕ) where
    -- Allocation with an object on the local list.
    pub alloc_listed :
        (x : ℕ) (xs : List ℕ)
        → Owned base sc s (x ∷ xs) remotes n
        → Owned base sc
            (record s {
              span = (allocate s.mem s.span).1;
              held = gained (allocate s.mem s.span).0 s.held;
            })
            xs
            remotes
            n
    unfolding allocate
    alloc_listed x xs o =
        let (same, holds, bump, inc) =
          pop_listed s.mem (s.span).local_free_list x xs (class_to_objects sc - n) o.local in
        let some_x : x ≢ null = o.local.chain.1 in
        let gain : gained x s.held ≡ x ∷ s.held = if-false (s.held) (x ∷ s.held) (ground arith) in
        record {
          fits = o.fits;
          local = holds;
          bump = bump ∙ o.bump;
          increment = inc ∙ o.increment;
          remote = o.remote;
          tagged = o.tagged;
          balance = λ a. rw (same, gain) (omega (arith, o.balance a));
          total = rw (same, gain) (omega (arith, o.total));
        }

    -- Allocation of a new object.
    pub alloc_carved :
        (left : ℕ)
        → n + suc left ≡ class_to_objects sc
        → Owned base sc s [] remotes n
        → Owned base sc
            (record s {
              span = (allocate s.mem s.span).1;
              held = gained (allocate s.mem s.span).0 s.held;
            })
            []
            remotes
            (suc n)
    unfolding allocate
    alloc_carved left e o =
        let rest : class_to_objects sc - n ≡ suc left = omega arith in
        let (same, holds, bump, inc) =
          pop_carved s.mem (s.span).local_free_list left
            (subst (Holds s.mem (s.span).local_free_list []) rest o.local) in
        let placed_at = same ∙ o.bump in
        let some_x : object base sc n ≢ null =
          (carved_object base sc placed (suc n) (object base sc n) (omega arith)
            (carved_new (header_end base) (class_to_size sc) n)).0 in
        let gain : gained (object base sc n) s.held ≡ object base sc n ∷ s.held =
          if-false s.held (object base sc n ∷ s.held) (ground arith) in
        record {
          fits = omega arith;
          local =
              subst (Holds s.mem (FreeList.pop s.mem (s.span).local_free_list).1 []) (omega arith)
                holds;
          bump = grind (arith, bump, o.bump, o.increment);
          increment = inc ∙ o.increment;
          remote = o.remote;
          tagged = o.tagged;
          balance = λ a.
              rw (placed_at, gain)
                (omega (arith, o.balance a, carved-suc (header_end base) (class_to_size sc) n a));
          total = rw (placed_at, gain) (omega (arith, o.total));
        }

    pub alloc_none :
        n ≡ class_to_objects sc
        → Owned base sc s [] remotes n
        → Owned base sc
            (record s {
              span = (allocate s.mem s.span).1;
              held = gained (allocate s.mem s.span).0 s.held;
            })
            []
            remotes
            n
    unfolding allocate
    alloc_none full o =
        let none_left : class_to_objects sc - n ≡ 0 = omega arith in
        rw
          (pop_none s.mem (s.span).local_free_list
            (subst (Holds s.mem (s.span).local_free_list []) none_left o.local))
          o
