-- ===== src/Alloc/Deque/Pushing.antt =====
-- src/deque.h: what pushing does to the links.
use scalloc.Common.{
  ℕ, ◌≡◌, ◌≢◌, sym, subst, ◌∙◌, true, false, not, List, [], ◌∷◌, ◌++◌, arith, ◌==◌,
}
use scalloc.Alloc.Memory.{Mem, write, null, NotIn, IsDistinct, write_self, write_other}
use scalloc.Alloc.Deque.{Deque, push_front, push_back}
use scalloc.Alloc.Deque.Ring.{
  Seg, Seg-frame, All-write, All-writes, All-refl, last-ne, first-ne, NotIn-left, NotIn-right,
  Seg-snoc, prev-last, next-first, retarget, NotIn-snoc, IsDistinct-snoc,
}

pub record IsDeque (d : Deque) (xs : List ℕ) : Type 0 where
  pub ring : Seg d.next d.prev d.sentinel xs d.sentinel
  pub distinct : IsDistinct (d.sentinel ∷ xs)
  pub not_null : NotIn null (d.sentinel ∷ xs)
  -- A node that is not linked has no links.
  pub clear : (a : ℕ) → NotIn a (d.sentinel ∷ xs) → (d.next a ≡ null) × (d.prev a ≡ null)

module _ (next prev : Mem) (s node : ℕ) (other : node ≢ s) where
  push_front-Seg :
      (xs : List ℕ)
      → IsDistinct (s ∷ xs)
      → NotIn node xs
      → Seg next prev s xs s
      → Seg
          (write (write next node (next s)) s node)
          (write (write prev node s) (write next node (next s) s) node)
          s
          (node ∷ xs)
          s
  push_front-Seg [] d out (e, f) =
      subst
        (λ n.
          Seg (write (write next node (next s)) s node) (write (write prev node s) n node) s
            (node ∷ []) s)
        (sym (write_other next node (next s) s (λ q. other (sym q)) ∙ e))
        (
          write_self _ s node,
          write_other _ s node node other ∙ write_self prev node s,
          (
            write_other _ s node node other ∙ write_self next node (next s) ∙ e,
            write_self _ s node,
          ),
        )
  push_front-Seg (x ∷ xs) (apart, (apart', d)) (out, outs) (e, f, ring) =
      subst
        (λ n.
          Seg (write (write next node (next s)) s node) (write (write prev node s) n node) s
            (node ∷ x ∷ xs) s)
        (sym (write_other next node (next s) s (λ q. other (sym q)) ∙ e))
        (
          write_self _ s node,
          write_other _ x node node out ∙ write_self prev node s,
          (
            write_other _ s node node other ∙ write_self next node (next s) ∙ e,
            write_self _ x node,
            Seg-frame next _ prev _ x xs s
                (All-writes next node (next s) s node (x ∷ xs) (out, outs) apart)
                (All-writes prev node s x node (s ∷ xs) (other, outs)
                  ((λ q. apart.0 (sym q)), apart'))
                ring,
          ),
        )

  push_back-Seg :
      (xs : List ℕ)
      → IsDistinct (s ∷ xs)
      → NotIn node xs
      → Seg next prev s xs s
      → Seg
          (write (write next node s) (write prev node (prev s) s) node)
          (write (write prev node (prev s)) s node)
          s
          (xs ++ node ∷ [])
          s
  push_back-Seg xs d out ring =
      let back = prev-last next prev s xs s ring in
      let moved = retarget (write next node s) prev s xs s node d out (
        Seg-frame next (write next node s) prev prev s xs s
          (All-write next node s (s ∷ xs) (other, out)) (All-refl prev (s ∷ xs)) ring) in
      let kept = write_other prev node (prev s) s (λ q. other (sym q)) in
      subst
        (λ l.
          Seg (write (write next node s) l node) (write (write prev node (prev s)) s node) s
            (xs ++ node ∷ []) s)
        (sym kept)
        (Seg-snoc _ _ s xs node s
          (Seg-frame _ _ _ _ s xs node (All-refl _ (s ∷ xs))
            (All-write _ s node (node ∷ xs) ((λ q. other (sym q)), d.0)) moved)
          (write_other _ (prev s) node node (λ q. last-ne node s xs other out (q ∙ back))
            ∙ write_self next node s)
          (write_self _ s node))

  push_front-clear :
      (xs : List ℕ)
      → Seg next prev s xs s
      → ((a : ℕ) → NotIn a (s ∷ xs) → (next a ≡ null) × (prev a ≡ null))
      → (a : ℕ) → NotIn a (s ∷ node ∷ xs)
      → (write (write next node (next s)) s node a ≡ null)
        × (write (write prev node s) (write next node (next s) s) node a ≡ null)
  push_front-clear xs ring clear a (off_s, (off_node, off)) =
      let first =
        write_other next node (next s) s (λ q. other (sym q)) ∙ next-first next prev s xs s ring in
      let (e, f) = clear a (off_s, off) in
      (
        write_other _ s node a off_s ∙ write_other next node (next s) a off_node ∙ e,
        write_other _ _ node a (λ q. first-ne a xs s off off_s (q ∙ first))
            ∙ write_other prev node s a off_node
            ∙ f,
      )

  push_back-clear :
      (xs : List ℕ)
      → Seg next prev s xs s
      → ((a : ℕ) → NotIn a (s ∷ xs) → (next a ≡ null) × (prev a ≡ null))
      → (a : ℕ) → NotIn a (s ∷ xs ++ node ∷ [])
      → (write (write next node s) (write prev node (prev s) s) node a ≡ null)
        × (write (write prev node (prev s)) s node a ≡ null)
  push_back-clear xs ring clear a (off_s, outs) =
      let off = NotIn-left a xs (node ∷ []) outs in
      let off_node = (NotIn-right a xs (node ∷ []) outs).0 in
      let last =
        write_other prev node (prev s) s (λ q. other (sym q)) ∙ prev-last next prev s xs s ring in
      let (e, f) = clear a (off_s, off) in
      (
        write_other _ _ node a (λ q. last-ne a s xs off_s off (q ∙ last))
            ∙ write_other next node s a off_node
            ∙ e,
        write_other _ s node a off_s ∙ write_other prev node (prev s) a off_node ∙ f,
      )

pub own_test : (a b : ℕ) → a ≡ b → not (a == b) ≡ false
own_test a b e = ground arith

pub other_test : (a b : ℕ) → a ≢ b → (a == b) ≡ false
other_test a b e = ground arith

pub same_test : (a : ℕ) → (a == a) ≡ true
same_test a = ground arith

module _ (d : Deque) where
  pub push_front_lem :
      (owner node : ℕ) (xs : List ℕ)
      → owner ≡ d.owner
      → NotIn node (d.sentinel ∷ xs)
      → node ≢ null
      → IsDeque d xs
      → IsDeque (push_front owner node d) (node ∷ xs)
  unfolding push_front
  push_front_lem owner node xs own (other, out) some_node q =
      rw (own_test owner d.owner own) (record {
        ring = push_front-Seg d.next d.prev d.sentinel node other xs q.distinct out q.ring;
        distinct = (((λ e. other (sym e)), q.distinct.0), (out, q.distinct.1));
        not_null = (q.not_null.0, ((λ e. some_node (sym e)), q.not_null.1));
        clear = push_front-clear d.next d.prev d.sentinel node other xs q.ring q.clear;
      })

  pub push_back_lem :
      (owner node : ℕ) (xs : List ℕ)
      → owner ≡ d.owner
      → NotIn node (d.sentinel ∷ xs)
      → node ≢ null
      → IsDeque d xs
      → IsDeque (push_back owner node d) (xs ++ node ∷ [])
  unfolding push_back
  push_back_lem owner node xs own (other, out) some_node q =
      rw (own_test owner d.owner own) (record {
        ring = push_back-Seg d.next d.prev d.sentinel node other xs q.distinct out q.ring;
        distinct = IsDistinct-snoc (d.sentinel ∷ xs) node q.distinct (other, out);
        not_null = NotIn-snoc null (d.sentinel ∷ xs) node q.not_null (λ e. some_node (sym e));
        clear = push_back-clear d.next d.prev d.sentinel node other xs q.ring q.clear;
      })
