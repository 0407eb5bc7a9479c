-- ===== src/Alloc/Deque/Owners.antt =====
-- src/deque.h: what no operation changes, and the calls that change nothing.
use scalloc.Common.{
  ℕ, ◌≡◌, ◌≢◌, ◌⊎◌, inl, inr, refl, sym, ap, subst, ◌∙◌, Bool, true, false, not, ◌&&◌, List, [],
  ◌∷◌, ◌++◌, arith, ◌==◌, if◌then◌else◌, Bool-cases, if-true, if-false,
}
use scalloc.Alloc.Memory.{Mem, null, NotIn, erase}
use scalloc.Alloc.Deque.{Deque, push_front, push_back, remove_front, remove_back, remove}
use scalloc.Alloc.Deque.Pushing.{same_test, other_test}
use scalloc.Alloc.Deque.Operations.{take_last}

pub take_last-snoc : (xs : List ℕ) (y : ℕ) → take_last (xs ++ y ∷ []) ≡ (y, xs)
take_last-snoc [] y = refl
take_last-snoc (x ∷ []) y = refl
take_last-snoc (x ∷ z ∷ xs) y = ap (λ r. (r.0, x ∷ r.1)) (take_last-snoc (z ∷ xs) y)

pub snoc_cases : (xs : List ℕ) → (xs ≡ []) ⊎ ((ys : List ℕ) × (y : ℕ) × (xs ≡ ys ++ y ∷ []))
snoc_cases [] = inl refl
snoc_cases (x ∷ xs) = elim (snoc_cases xs) [
  | inl e ↦ inr ([], x, ap (λ t. x ∷ t) e)
  | inr (ys, y, e) ↦ inr (x ∷ ys, y, ap (λ t. x ∷ t) e)
]

pub same_or_other : (a b : ℕ) → (a ≡ b) ⊎ (a ≢ b)
same_or_other a b = elim (Bool-cases (a == b)) [
  | inl e ↦ inl (ground (arith, e))
  | inr e ↦ inr (λ h. absurd (ground (arith, e, h)))
]

pub foreign_test : (a b : ℕ) → a ≢ b → not (a == b) ≡ true
foreign_test a b h = ground arith

pub both_null : (a b : ℕ) → a ≡ null → b ≡ null → ((a == null) && (b == null)) ≡ true
both_null a b h k = ground arith

pub erase-out : (a : ℕ) (xs : List ℕ) → NotIn a xs → erase a xs ≡ xs
unfolding erase
erase-out a [] h = refl
erase-out a (x ∷ xs) (h, hs) = if-false _ _ (other_test a x h) ∙ ap (λ t. x ∷ t) (erase-out a xs hs)

-- A list holds a node at one place, which `erase` takes out, or not at all.
pub member_cases :
    (a : ℕ) (xs : List ℕ)
    → NotIn a xs ⊎ ((ys : List ℕ) × (zs : List ℕ) × (xs ≡ ys ++ a ∷ zs) × (erase a xs ≡ ys ++ zs))
unfolding erase
member_cases a [] = inl tt
member_cases a (x ∷ xs) = elim (same_or_other a x) [
  | inl here ↦ inr (
    [],
    xs,
    ap (λ y. y ∷ xs) (sym here),
    if-true _ _ (subst (λ y. (a == y) ≡ true) here (same_test a)),
  )
  | inr other ↦ elim (member_cases a xs) [
    | inl out ↦ inl (other, out)
    | inr (ys, zs, e, f) ↦
        inr (x ∷ ys, zs, ap (λ t. x ∷ t) e, if-false _ _ (other_test a x other) ∙ ap (λ t. x ∷ t) f)
  ]
]

-- No operation but Open and Close changes the owner, and none the sentinel.
pub record Keeps (d e : Deque) : Type 0 where
  pub same_sentinel : e.sentinel ≡ d.sentinel
  pub same_owner : e.owner ≡ d.owner

pub Keeps-refl : (d : Deque) → Keeps d d
Keeps-refl d = record { same_sentinel = refl; same_owner = refl }

pub links-Keeps : (d : Deque) (next prev : Mem) → Keeps d (record d { next = next; prev = prev })
links-Keeps d next prev = record { same_sentinel = refl; same_owner = refl }

pub if-Keeps :
    (d : Deque) (b : Bool) (e f : Deque) → Keeps d e → Keeps d f → Keeps d (if b then e else f)
if-Keeps d true e f h k = h
if-Keeps d false e f h k = k

pub if-Keeps_pair :
    (d : Deque) (b : Bool) (e f : ℕ × Deque)
    → Keeps d e.1
    → Keeps d f.1
    → Keeps d (if b then e else f).1
if-Keeps_pair d true e f h k = h
if-Keeps_pair d false e f h k = k

pub push_front-Keeps : (owner node : ℕ) (d : Deque) → Keeps d (push_front owner node d)
unfolding push_front
push_front-Keeps owner node d = if-Keeps d _ _ _ (Keeps-refl d) (links-Keeps d _ _)

pub push_back-Keeps : (owner node : ℕ) (d : Deque) → Keeps d (push_back owner node d)
unfolding push_back
push_back-Keeps owner node d = if-Keeps d _ _ _ (Keeps-refl d) (links-Keeps d _ _)

pub remove-Keeps : (owner node : ℕ) (d : Deque) → Keeps d (remove owner node d)
unfolding remove
remove-Keeps owner node d =
    if-Keeps d _ _ _ (Keeps-refl d) (if-Keeps d _ _ _ (Keeps-refl d) (links-Keeps d _ _))

pub remove_front-Keeps : (d : Deque) → Keeps d (remove_front d).1
unfolding remove_front
remove_front-Keeps d = if-Keeps_pair d _ _ _ (links-Keeps d _ _) (links-Keeps d _ _)

pub remove_back-Keeps : (d : Deque) → Keeps d (remove_back d).1
unfolding remove_back
remove_back-Keeps d = if-Keeps_pair d _ _ _ (links-Keeps d _ _) (links-Keeps d _ _)

-- Another core's operation is none.
pub push_front_foreign :
    (owner node : ℕ) (d : Deque) → owner ≢ d.owner → push_front owner node d ≡ d
unfolding push_front
push_front_foreign owner node d h = if-true _ _ (foreign_test owner d.owner h)

pub push_back_foreign : (owner node : ℕ) (d : Deque) → owner ≢ d.owner → push_back owner node d ≡ d
unfolding push_back
push_back_foreign owner node d h = if-true _ _ (foreign_test owner d.owner h)

pub if_either : (b : Bool) (d e : Deque) → e ≡ d → (if b then d else e) ≡ d
if_either true d e h = refl
if_either false d e h = h

pub remove_foreign : (owner node : ℕ) (d : Deque) → owner ≢ d.owner → remove owner node d ≡ d
unfolding remove
remove_foreign owner node d h = if_either _ d _ (if-true _ _ (foreign_test owner d.owner h))

-- And so is the removal of a node that is not linked.
pub remove_unlinked :
    (owner node : ℕ) (d : Deque) → d.next node ≡ null → d.prev node ≡ null → remove owner node d ≡ d
unfolding remove
remove_unlinked owner node d no_next no_prev =
    if-true _ _ (both_null (d.prev node) (d.next node) no_prev no_next)
