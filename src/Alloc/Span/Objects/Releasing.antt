-- ===== src/Alloc/Span/Objects/Releasing.antt =====
-- Free, by the owner or by another thread, keeps the objects of a span apart.
use scalloc.Common.{ℕ, ◌+◌, ◌-◌, ◌^◌, ◌<◌, ◌≡◌, ◌∙◌, List, ◌∷◌, ◌==◌, length, arith, true, false}
use scalloc.Alloc.SizeClasses.{class_to_objects}
use scalloc.Alloc.SizeClasses.Fits.{spans_fit}
use scalloc.Alloc.TaggedValue.{TaggedValue, value}
use scalloc.Alloc.Memory.{count, erase, Chain-write, NotIn-count, count-erase, length-erase}
use scalloc.Alloc.FreeList.Holds.{push-Holds, push_frame, Holds-write}
use scalloc.Alloc.Span.{nr_local_objects, free}
use scalloc.Alloc.Stack.{push_return_tag, push_range, pushed, link}
use scalloc.Alloc.Stack.Pushed.{swap_self, tag-pushed, push-Chain}
use scalloc.Alloc.Span.Objects.{System}
use scalloc.Alloc.Span.Objects.Owned.{IsPlaced, Owned, held_alone, nr_remote_objects_lem}

module _ (base sc : ℕ) (placed : IsPlaced base sc) where
  module _ (s : System) (locals remotes : List ℕ) (n p : ℕ) (caller : TaggedValue) where
    -- What Free leaves, and the number that it returns.
    abbrev pub Released : List ℕ → List ℕ → Type 0
    Released locals' remotes' =
        Owned base sc
          (record s {
            mem = (free p caller s.mem s.span).1;
            span = (free p caller s.mem s.span).2;
            held = erase p s.held;
          })
          locals' remotes' n
        × ((free p caller s.mem s.span).0 + length (erase p s.held) ≡ class_to_objects sc)

    pub free_local :
        Owned base sc s locals remotes n
        → 0 < count p s.held
        → ((s.span).owner == caller) ≡ true
        → Released (p ∷ locals) remotes
    unfolding free
    free_local o h own =
        let (off_local, off_remote, some_p, low) =
          held_alone base sc placed s remotes n locals o p h in
        let few = spans_fit sc placed.some_class placed.class in
        let (returned, holds) =
          push-Holds s.mem (s.span).local_free_list locals (class_to_objects sc - n) p o.local
            some_p (NotIn-count p locals off_local)
            (omega (arith, few, o.local.len, o.total, o.fits)) in
        rw own (
          record {
            fits = o.fits;
            local = holds;
            bump = (push_frame p s.mem (s.span).local_free_list).1 ∙ o.bump;
            increment = (push_frame p s.mem (s.span).local_free_list).2 ∙ o.increment;
            remote =
                rw (push_frame p s.mem (s.span).local_free_list).0
                  (Chain-write s.mem p _ _ remotes (NotIn-count p remotes off_remote) o.remote);
            tagged = o.tagged;
            balance = λ a. omega (arith, o.balance a, count-erase p a s.held h);
            total = omega (arith, o.total, length-erase p s.held h);
          },
          omega (
            arith,
            returned,
            nr_remote_objects_lem base sc placed s remotes n locals o,
            o.total,
            o.local.len,
            o.fits,
            length-erase p s.held h,
          ),
        )

    pub free_remote :
        Owned base sc s locals remotes n
        → 0 < count p s.held
        → ((s.span).owner == caller) ≡ false
        → Released locals (p ∷ remotes)
    unfolding free push_return_tag push_range nr_local_objects link
    free_remote o h own =
        let (off_local, off_remote, some_p, low) =
          held_alone base sc placed s remotes n locals o p h in
        let few = spans_fit sc placed.some_class placed.class in
        let top = (s.span).remote_free_list in
        let small : length remotes < 2 ^ 11 = omega (arith, few, o.total, o.fits) in
        rw (own, swap_self top (pushed p top))
          (
            record {
              fits = o.fits;
              local =
                  Holds-write s.mem p (value top) (s.span).local_free_list locals _
                    (NotIn-count p locals off_local) o.local;
              bump = o.bump;
              increment = o.increment;
              remote =
                  push-Chain s.mem top p remotes some_p low (NotIn-count p remotes off_remote)
                    o.remote;
              tagged = omega (arith, tag-pushed p top, o.tagged, small);
              balance = λ a. omega (arith, o.balance a, count-erase p a s.held h);
              total = omega (arith, o.total, length-erase p s.held h);
            },
            omega (arith, o.tagged, o.total, o.local.len, o.fits, length-erase p s.held h),
          )
