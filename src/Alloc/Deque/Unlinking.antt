-- ===== src/Alloc/Deque/Unlinking.antt =====
-- src/deque.h: what Remove does to the links.
use scalloc.Common.{
  ℕ, ◌≡◌, ◌≢◌, refl, sym, subst, ◌∙◌, Bool, false, not, ◌&&◌, List, ◌∷◌, ◌++◌, arith, ◌==◌,
  if◌then◌else◌,
}
use scalloc.Alloc.Memory.{Mem, write, null, write_other}
use scalloc.Alloc.Deque.Pushing.{IsDeque, own_test, other_test}
use scalloc.Alloc.Deque.{Deque, remove}
use scalloc.Alloc.Deque.Ring.{
  Seg-frame, All-write, last-ne, first-ne, NotIn-left, NotIn-right, Seg-split, prev-last,
  next-first, NotIn-insert, cut, IsDistinct-mid, NotIn-mid,
}

write_kept : (m : Mem) (a b : ℕ) → write m a (m b) b ≡ m b
unfolding write
write_kept m a b = ground arith

write-null : (m : Mem) (p a : ℕ) → (a ≢ p → m a ≡ null) → write m p null a ≡ null
unfolding write
write-null m p a h = ground (arith, h)

module _ (d : Deque) where
  -- A node in the middle is unlinked and cleared.
  pub unlinked :
      (ys : List ℕ) (x : ℕ) (zs : List ℕ)
      → IsDeque d (ys ++ x ∷ zs)
      → IsDeque
          (record d {
            next = write (write d.next (d.prev x) (d.next x)) x null;
            prev = write (write d.prev (d.next x) (d.prev x)) x null;
          })
          (ys ++ zs)
  unlinked ys x zs q =
      let s = d.sentinel in
      let (l, r) = Seg-split d.next d.prev s ys x zs s q.ring in
      let (distinct, off) = IsDistinct-mid (s ∷ ys) x zs q.distinct in
      let joined = cut d.next d.prev s ys x zs s distinct distinct.0 l r in
      record {
        ring =
            Seg-frame _ _ _ _ s (ys ++ zs) s (All-write _ x null (s ∷ ys ++ zs) off)
              (All-write _ x null (s ∷ ys ++ zs) off) joined;
        distinct = distinct;
        not_null = (NotIn-mid null (s ∷ ys) x zs q.not_null).1;
        clear = λ a out. (
          write-null _ x a (λ other.
              write_other d.next (d.prev x) (d.next x) a (λ e.
                last-ne a s ys out.0 (NotIn-left a ys zs out.1)
                  (e ∙ prev-last d.next d.prev s ys x l))
              ∙ (q.clear a (NotIn-insert a (s ∷ ys) x zs out other)).0),
          write-null _ x a (λ other.
              write_other d.prev (d.next x) (d.prev x) a (λ e.
                first-ne a zs s (NotIn-right a ys zs out.1) out.0
                  (e ∙ next-first d.next d.prev x zs s r))
              ∙ (q.clear a (NotIn-insert a (s ∷ ys) x zs out other)).1),
        );
      }

  abbrev pub without : ℕ → Deque
  without x = record d {
    next = write (write d.next (d.prev x) (d.next x)) x null;
    prev = write (write d.prev (d.next x) (d.prev x)) x null;
  }

  -- Remove, as a function of its tests.
  abbrev unlink : ℕ → Bool → ℕ → Deque
  unlink node last prev =
      let back = (if last then d.prev else write d.prev (d.next node) (d.prev node)) in
      let forth = (if prev == null then d.next else write d.next prev (d.next node)) in
      record d { next = write forth node null; prev = write back node null }

  pub remove-linked :
      (owner x : ℕ)
      → owner ≡ d.owner
      → d.next x ≢ null
      → d.prev x ≢ null
      → remove owner x d ≡ without x
  unfolding remove
  remove-linked owner x own some_next some_prev =
      subst
        (λ t.
          (if t && (d.next x == null)
            then d
            else if not (owner == d.owner)
            then d
            else unlink x (d.next x == null)
                ((if d.next x == null then d.prev else write d.prev (d.next x) (d.prev x)) x))
          ≡ without x)
        (sym (other_test (d.prev x) null some_prev))
        (subst
          (λ t.
            (if t
              then d
              else unlink x (d.next x == null)
                  ((if d.next x == null then d.prev else write d.prev (d.next x) (d.prev x)) x))
            ≡ without x)
          (sym (own_test owner d.owner own))
          (subst
            (λ t.
              unlink x t ((if t then d.prev else write d.prev (d.next x) (d.prev x)) x) ≡ without x)
            (sym (other_test (d.next x) null some_next))
            (subst (λ p. unlink x false p ≡ without x) (sym (write_kept d.prev (d.next x) x))
              (subst
                (λ t.
                  record d {
                    next = write (if t then d.next else write d.next (d.prev x) (d.next x)) x null;
                    prev = write (write d.prev (d.next x) (d.prev x)) x null;
                  }
                  ≡ without x)
                (sym (other_test (d.prev x) null some_prev)) refl))))

  pub remove_lem :
      (owner : ℕ) (ys : List ℕ) (x : ℕ) (zs : List ℕ)
      → owner ≡ d.owner
      → IsDeque d (ys ++ x ∷ zs)
      → IsDeque (remove owner x d) (ys ++ zs)
  remove_lem owner ys x zs own q =
      let s = d.sentinel in
      let (l, r) = Seg-split d.next d.prev s ys x zs s q.ring in
      let (some_x, rest) = NotIn-mid null (s ∷ ys) x zs q.not_null in
      let some_first = first-ne null zs s (NotIn-right null ys zs rest.1) q.not_null.0 in
      let some_last = last-ne null s ys q.not_null.0 (NotIn-left null ys zs rest.1) in
      subst (λ e. IsDeque e (ys ++ zs))
        (sym (
          remove-linked owner x own (λ e. some_first (sym e ∙ next-first d.next d.prev x zs s r))
            (λ e. some_last (sym e ∙ prev-last d.next d.prev s ys x l))))
        (unlinked ys x zs q)
