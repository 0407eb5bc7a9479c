-- ===== src/Alloc/Deque/Refines.antt =====
-- src/deque.h: the deque behaves as a list of nodes with an owner, in every sequence of operations.
use scalloc.Common.{
  ℕ, zero, suc, ◌<◌, ◌≡◌, ◌≢◌, inl, inr, refl, sym, ap, subst, ◌∙◌, true, List, [], ◌∷◌, arith,
  ◌==◌, if◌then◌else◌, if-true, if-false, length,
}
use scalloc.Alloc.Memory.{Mem, null, NotIn, erase, write_self, write_other}
use scalloc.Alloc.Deque.{
  Deque, new_deque, open_for, close, remove_front, remove_back, remove, remove_all,
}
use scalloc.Alloc.Deque.Pushing.{IsDeque, same_test, other_test, push_front_lem, push_back_lem}
use scalloc.Alloc.Deque.Removing.{
  remove_front_lem, remove_front_empty, remove_back_lem, remove_back_empty,
}
use scalloc.Alloc.Deque.Unlinking.{remove_lem}
use scalloc.Alloc.Deque.Operations.{
  DequeOp, open_op, close_op, push_front_op, push_back_op, remove_op, remove_front_op,
  remove_back_op, step, Nodes, take_first, take_last, promise, IsReady, run, promises, AreReady,
}
use scalloc.Alloc.Deque.Owners.{
  same_or_other, take_last-snoc, snoc_cases, erase-out, member_cases, Keeps, push_front-Keeps,
  push_back-Keeps, remove-Keeps, remove_front-Keeps, remove_back-Keeps, push_front_foreign,
  push_back_foreign, remove_foreign, remove_unlinked,
}

pub record Represents (s : ℕ) (n : Nodes) (d : Deque) : Type 0 where
  pub same_sentinel : d.sentinel ≡ s
  pub same_owner : d.owner ≡ n.owner
  pub linked : IsDeque d n.nodes

remove_own :
    (owner node : ℕ) (d : Deque) (xs : List ℕ)
    → node ≢ d.sentinel
    → IsDeque d xs
    → owner ≡ d.owner
    → IsDeque (remove owner node d) (erase node xs)
remove_own owner node d xs other q own = elim (member_cases node xs) [
  | inl out ↦
      (let (no_next, no_prev) = q.clear node (other, out) in
        subst (λ l. IsDeque (remove owner node d) l) (sym (erase-out node xs out))
          (subst (λ e. IsDeque e xs) (sym (remove_unlinked owner node d no_next no_prev)) q))
  | inr (ys, zs, e, f) ↦
      subst (λ l. IsDeque (remove owner node d) l) (sym f)
        (remove_lem d owner ys node zs own (subst (λ l. IsDeque d l) e q))
]

remove_front_first :
    (d : Deque) (xs : List ℕ)
    → IsDeque d xs
    → ((remove_front d).0 ≡ (take_first xs).0) × IsDeque (remove_front d).1 (take_first xs).1
remove_front_first d [] q = remove_front_empty d q
remove_front_first d (x ∷ xs) q = remove_front_lem d x xs q

remove_back_last :
    (d : Deque) (xs : List ℕ)
    → IsDeque d xs
    → ((remove_back d).0 ≡ (take_last xs).0) × IsDeque (remove_back d).1 (take_last xs).1
remove_back_last d xs q = elim (snoc_cases xs) [
  | inl e ↦
      subst (λ l. ((remove_back d).0 ≡ (take_last l).0) × IsDeque (remove_back d).1 (take_last l).1)
        (sym e) (remove_back_empty d (subst (λ l. IsDeque d l) e q))
  | inr (ys, y, e) ↦
      subst (λ r. ((remove_back d).0 ≡ r.0) × IsDeque (remove_back d).1 r.1)
        (sym (ap take_last e ∙ take_last-snoc ys y))
        (remove_back_lem d ys y (subst (λ l. IsDeque d l) e q))
]

module _ (s : ℕ) (n : Nodes) (d : Deque) (r : Represents s n d) where
  -- An operation of the owner that changes the nodes, and none of any other core.
  owned :
      (e : Deque) (owner : ℕ) (xs : List ℕ)
      → Keeps d e
      → (owner ≡ d.owner → IsDeque e xs)
      → (owner ≢ d.owner → e ≡ d)
      → Represents s (record n { nodes = if owner == n.owner then xs else n.nodes }) e
  owned e owner xs kept own foreign = record {
    same_sentinel = kept.same_sentinel ∙ r.same_sentinel;
    same_owner = kept.same_owner ∙ r.same_owner;
    linked = elim (same_or_other owner n.owner) [
      | inl h ↦
          subst (λ l. IsDeque e l)
            (sym (if-true _ _ (subst (λ o. (owner == o) ≡ true) h (same_test owner))))
            (own (h ∙ sym r.same_owner))
      | inr h ↦
          subst (λ l. IsDeque e l) (sym (if-false _ _ (other_test owner n.owner h)))
            (subst (λ e. IsDeque e n.nodes) (sym (foreign (λ k. h (k ∙ r.same_owner)))) r.linked)
    ];
  }

  removed :
      (xs : List ℕ) (e : Deque)
      → Keeps d e
      → IsDeque e xs
      → Represents s (record n { nodes = xs }) e
  removed xs e kept q = record {
    same_sentinel = kept.same_sentinel ∙ r.same_sentinel;
    same_owner = kept.same_owner ∙ r.same_owner;
    linked = q;
  }

  reowned : (owner : ℕ) → Represents s (record n { owner = owner }) (record d { owner = owner })
  reowned owner = record {
    same_sentinel = r.same_sentinel;
    same_owner = refl;
    linked = record {
      ring = r.linked.ring;
      distinct = r.linked.distinct;
      not_null = r.linked.not_null;
      clear = r.linked.clear;
    };
  }

  local : (node : ℕ) → NotIn node (s ∷ n.nodes) → NotIn node (d.sentinel ∷ n.nodes)
  local node h = subst (λ s. NotIn node (s ∷ n.nodes)) (sym r.same_sentinel) h

-- Every operation returns what it promises.
step-Represents :
    (s : ℕ) (op : DequeOp) (n : Nodes) (d : Deque)
    → IsReady s op n
    → Represents s n d
    → ((step op d).0 ≡ (promise op n).0) × Represents s (promise op n).1 (step op d).1
unfolding step open_for close
step-Represents s (open_op owner) n d h r = (refl, reowned s n d r owner)
step-Represents s close_op n d h r = (refl, reowned s n d r null)
step-Represents s (push_front_op owner node) n d (some_node, out) r = (
  refl,
  owned s n d r _ owner _ (push_front-Keeps owner node d)
      (λ own. push_front_lem d owner node n.nodes own (local s n d r node out) some_node r.linked)
      (push_front_foreign owner node d),
)
step-Represents s (push_back_op owner node) n d (some_node, out) r = (
  refl,
  owned s n d r _ owner _ (push_back-Keeps owner node d)
      (λ own. push_back_lem d owner node n.nodes own (local s n d r node out) some_node r.linked)
      (push_back_foreign owner node d),
)
step-Represents s (remove_op owner node) n d other r = (
  refl,
  owned s n d r _ owner _ (remove-Keeps owner node d)
      (remove_own owner node d n.nodes (λ e. other (e ∙ r.same_sentinel)) r.linked)
      (remove_foreign owner node d),
)
step-Represents s remove_front_op n d h r =
    let (e, q) = remove_front_first d n.nodes r.linked in
    (e, removed s n d r _ _ (remove_front-Keeps d) q)
step-Represents s remove_back_op n d h r =
    let (e, q) = remove_back_last d n.nodes r.linked in
    (e, removed s n d r _ _ (remove_back-Keeps d) q)

-- Any sequence of operations by any cores, in which no node that is pushed is linked, NULL or the
-- sentinel and the sentinel is not removed, returns the nodes that the list with an owner promises,
-- and leaves the links of its nodes.
pub run-Represents :
    (s : ℕ) (ops : List DequeOp) (n : Nodes) (d : Deque)
    → AreReady s ops n
    → Represents s n d
    → ((run ops d).0 ≡ (promises ops n).0) × Represents s (promises ops n).1 (run ops d).1
unfolding run
run-Represents s [] n d h r = (refl, r)
run-Represents s (op ∷ ops) n d (h, hs) r =
    let (e, q) = step-Represents s op n d h r in
    let (es, p) = run-Represents s ops (promise op n).1 (step op d).1 hs q in (rw (e, es) refl, p)

-- RemoveAll ends within more rounds than the deque has nodes, and leaves it empty.
pub remove_all_lem :
    (xs : List ℕ) (d : Deque) (rounds : ℕ)
    → IsDeque d xs
    → length xs < rounds
    → IsDeque (remove_all rounds d) []
unfolding remove_all
remove_all_lem xs d zero q h = absurd (omega (arith, h))
remove_all_lem [] d (suc rounds) q h =
    let (e, p) = remove_front_empty d q in
    subst (λ f. IsDeque f [])
      (sym (if-true _ _ (subst (λ a. (a == null) ≡ true) (sym e) (same_test null)))) p
remove_all_lem (x ∷ xs) d (suc rounds) q h =
    let (e, p) = remove_front_lem d x xs q in
    subst (λ f. IsDeque f [])
      (sym (if-false _ _ (other_test (remove_front d).0 null (λ k. q.not_null.1.0 (sym k ∙ e)))))
      (remove_all_lem xs (remove_front d).1 rounds p (omega (arith, h)))

-- The constructor makes the empty deque, of nodes that the constructor of a node has cleared.
pub new_deque-Represents :
    (owner s : ℕ) (next prev : Mem)
    → s ≢ null
    → ((a : ℕ) → (next a ≡ null) × (prev a ≡ null))
    → Represents s (record { owner = owner; nodes = [] }) (new_deque owner s next prev)
unfolding new_deque
new_deque-Represents owner s next prev some_s cleared = record {
  same_sentinel = refl;
  same_owner = refl;
  linked = record {
    ring = (write_self next s s, write_self prev s s);
    distinct = (tt, tt);
    not_null = ((λ e. some_s (sym e)), tt);
    clear = λ a out. (
      write_other next s s a out.0 ∙ (cleared a).0,
      write_other prev s s a out.0 ∙ (cleared a).1,
    );
  };
}
