-- ===== src/Alloc/Deque/Removing.antt =====
-- src/deque.h: what RemoveFront and RemoveBack do to the links.
use scalloc.Common.{
  ℕ, ◌≡◌, ◌≢◌, refl, sym, ap, subst, ◌∙◌, List, [], ◌∷◌, ◌++◌, ◌==◌, if◌then◌else◌, if-true,
  if-false,
}
use scalloc.Alloc.Memory.{write, null, write_self, write_other}
use scalloc.Alloc.Deque.Pushing.{IsDeque, other_test, same_test}
use scalloc.Alloc.Deque.{Deque, remove_front, remove_back}
use scalloc.Alloc.Deque.Ring.{Seg-split, NotIn-mid}
use scalloc.Alloc.Deque.Unlinking.{without, unlinked}

append_nil : (xs : List ℕ) → xs ++ [] ≡ xs
append_nil [] = refl
append_nil (x ∷ xs) = ap (λ ys. x ∷ ys) (append_nil xs)

module _ (d : Deque) where
  -- RemoveFront and RemoveBack, as functions of the node and of what they read
  -- behind it.
  abbrev from_front : ℕ → ℕ → ℕ → ℕ × Deque
  from_front node next after =
      if node == d.sentinel
      then (
        null,
        record d { next = write d.next d.sentinel after; prev = write d.prev next d.sentinel },
      )
      else (
        node,
        record d {
          next = write (write d.next d.sentinel after) node null;
          prev = write (write d.prev next d.sentinel) node null;
        },
      )

  abbrev from_back : ℕ → ℕ → ℕ → ℕ × Deque
  from_back node prev after =
      if node == d.sentinel
      then (
        null,
        record d { next = write d.next prev d.sentinel; prev = write d.prev d.sentinel after },
      )
      else (
        node,
        record d {
          next = write (write d.next prev d.sentinel) node null;
          prev = write (write d.prev d.sentinel after) node null;
        },
      )

  abbrev pub alone : Deque
  alone = record d {
    next = write d.next d.sentinel d.sentinel;
    prev = write d.prev d.sentinel d.sentinel;
  }

  pub remove_front-first :
      (x : ℕ)
      → d.next d.sentinel ≡ x
      → x ≢ d.sentinel
      → d.prev x ≡ d.sentinel
      → remove_front d ≡ (x, without d x)
  unfolding remove_front
  remove_front-first x at other back =
      subst (λ n. from_front n (write d.next d.sentinel (d.next n) n) (d.next n) ≡ (x, without d x))
        (sym at)
        (subst (λ m. from_front x m (d.next x) ≡ (x, without d x))
          (sym (write_other d.next d.sentinel (d.next x) x other))
          (subst
            (λ s. from_front x (d.next x) (d.next x) ≡ (
              x,
              record d {
                next = write (write d.next s (d.next x)) x null;
                prev = write (write d.prev (d.next x) s) x null;
              },
            ))
            (sym back) (if-false _ _ (other_test x d.sentinel other))))

  pub remove_back-last :
      (x : ℕ)
      → d.prev d.sentinel ≡ x
      → x ≢ d.sentinel
      → d.next x ≡ d.sentinel
      → remove_back d ≡ (x, without d x)
  unfolding remove_back
  remove_back-last x at other forth =
      subst (λ n. from_back n (write d.prev d.sentinel (d.prev n) n) (d.prev n) ≡ (x, without d x))
        (sym at)
        (subst (λ m. from_back x m (d.prev x) ≡ (x, without d x))
          (sym (write_other d.prev d.sentinel (d.prev x) x other))
          (subst
            (λ s. from_back x (d.prev x) (d.prev x) ≡ (
              x,
              record d {
                next = write (write d.next (d.prev x) s) x null;
                prev = write (write d.prev s (d.prev x)) x null;
              },
            ))
            (sym forth) (if-false _ _ (other_test x d.sentinel other))))

  pub remove_front_lem :
      (x : ℕ) (xs : List ℕ)
      → IsDeque d (x ∷ xs)
      → ((remove_front d).0 ≡ x) × IsDeque (remove_front d).1 xs
  remove_front_lem x xs q =
      subst (λ r. (r.0 ≡ x) × IsDeque r.1 xs)
        (sym (remove_front-first x q.ring.0 (λ e. q.distinct.0.0 (sym e)) q.ring.1))
        (refl, unlinked d [] x xs q)

  pub remove_front-sentinel : d.next d.sentinel ≡ d.sentinel → remove_front d ≡ (null, alone)
  unfolding remove_front
  remove_front-sentinel at =
      let s = d.sentinel in
      subst (λ n. from_front n (write d.next s (d.next n) n) (d.next n) ≡ (null, alone)) (sym at)
        (subst (λ m. from_front s m (d.next s) ≡ (null, alone))
          (sym (write_self d.next s (d.next s) ∙ at))
          (subst (λ m. from_front s s m ≡ (null, alone)) (sym at) (if-true _ _ (same_test s))))

  pub remove_back-sentinel : d.prev d.sentinel ≡ d.sentinel → remove_back d ≡ (null, alone)
  unfolding remove_back
  remove_back-sentinel at =
      let s = d.sentinel in
      subst (λ n. from_back n (write d.prev s (d.prev n) n) (d.prev n) ≡ (null, alone)) (sym at)
        (subst (λ m. from_back s m (d.prev s) ≡ (null, alone))
          (sym (write_self d.prev s (d.prev s) ∙ at))
          (subst (λ m. from_back s s m ≡ (null, alone)) (sym at) (if-true _ _ (same_test s))))

  pub alone_lem : IsDeque d [] → IsDeque alone []
  alone_lem q = record {
    ring = (write_self d.next d.sentinel d.sentinel, write_self d.prev d.sentinel d.sentinel);
    distinct = q.distinct;
    not_null = q.not_null;
    clear = λ a out. (
      write_other d.next d.sentinel d.sentinel a out.0 ∙ (q.clear a out).0,
      write_other d.prev d.sentinel d.sentinel a out.0 ∙ (q.clear a out).1,
    );
  }

  pub remove_front_empty :
      IsDeque d [] → ((remove_front d).0 ≡ null) × IsDeque (remove_front d).1 []
  remove_front_empty q =
      subst (λ r. (r.0 ≡ null) × IsDeque r.1 []) (sym (remove_front-sentinel q.ring.0))
        (refl, alone_lem q)

  pub remove_back_empty : IsDeque d [] → ((remove_back d).0 ≡ null) × IsDeque (remove_back d).1 []
  remove_back_empty q =
      subst (λ r. (r.0 ≡ null) × IsDeque r.1 []) (sym (remove_back-sentinel q.ring.1))
        (refl, alone_lem q)

  pub remove_back_lem :
      (xs : List ℕ) (x : ℕ)
      → IsDeque d (xs ++ x ∷ [])
      → ((remove_back d).0 ≡ x) × IsDeque (remove_back d).1 xs
  remove_back_lem xs x q =
      let s = d.sentinel in
      let (l, r) = Seg-split d.next d.prev s xs x [] s q.ring in
      subst (λ r. (r.0 ≡ x) × IsDeque r.1 xs)
        (sym (remove_back-last x r.1 (λ e. (NotIn-mid s xs x [] q.distinct.0).0 (sym e)) r.0))
        (refl, subst (IsDeque (without d x)) (append_nil xs) (unlinked d xs x [] q))
