-- ===== src/Common/Regex/Shrink.antt =====
-- A match never moves back: what a pattern hands on has no more text behind it than it was given.
use Prim.Native.Nat.{ℕ, zero, suc, ◌≤◌, ◌<◌}
use mathlib.Core.Bool.{Bool, true, false}
use mathlib.Core.List.{[], ◌∷◌}
use mathlib.Core.Logic.{◌⊎◌, inl, inr}
use mathlib.Core.Option.{Option, none, some}
use mathlib.Core.Path.{◌≡◌, refl, ap, sym, ◌∙◌}
use native.Mathlib.Omega.{arith}
use scalloc.Common.Lists.{length, take}
use scalloc.Common.Text.{Text}
use scalloc.Common.Regex.{
  Regex, eps, one, seq, alt, star, few, group, bol, eol, boundary, ahead, Cursor, Groups, Found,
  Cont, run, star_loop, few_loop, step_one, at_end, between, group_of, dot, seqs, match, match_at,
}

-- The continuation of a successful run is reached, at a place that is no earlier.
abbrev pub Reaches : Cont → Cursor → Found → Type 0
Reaches k c f = (d : Cursor) × (h : Groups) × (k d h ≡ some f) × (length d.after ≤ length c.after)

abbrev Forward : (Cont → Cont) → Type 0
Forward m = (k : Cont) (c : Cursor) (g : Groups) (f : Found) → m k c g ≡ some f → Reaches k c f

when :
    (b : Bool) (o : Option Found) (f : Found)
    → (elim b as (λ x. Option Found) [ true ↦ o | false ↦ none ]) ≡ some f
    → o ≡ some f
when true o f e = e
when false o f e = absurd cc

either :
    (o n : Option Found) (f : Found)
    → (elim o as (λ x. Option Found) [ some g ↦ some g | none ↦ n ]) ≡ some f
    → (o ≡ some f) ⊎ (n ≡ some f)
either (some g) n f e = inl e
either none n f e = inr e

later_than :
    (k : Cont) (c d : Cursor) (f : Found)
    → length d.after ≤ length c.after
    → Reaches k d f
    → Reaches k c f
later_than k c d f l (e, h, x, m) = (e, h, x, omega arith)

star-Forward : (m : Cont → Cont) → Forward m → (n : ℕ) → Forward (star_loop m n)
unfolding star_loop
star-Forward m fwd zero k c g f e = (c, g, e, omega arith)
star-Forward m fwd (suc n) k c g f e = elim (either _ (k c g) f e) [
  | inl x ↦
      let (d, h, y, l) = fwd _ c g f x in
      later_than k c d f l (star-Forward m fwd n k d h f (when _ _ f y))
  | inr x ↦ (c, g, x, omega arith)
]

few-Forward : (m : Cont → Cont) → Forward m → (n : ℕ) → Forward (few_loop m n)
unfolding few_loop
few-Forward m fwd zero k c g f e = (c, g, e, omega arith)
few-Forward m fwd (suc n) k c g f e = elim (either (k c g) _ f e) [
  | inl x ↦ (c, g, x, omega arith)
  | inr x ↦
      let (d, h, y, l) = fwd _ c g f x in
      later_than k c d f l (few-Forward m fwd n k d h f (when _ _ f y))
]

step_one-reaches :
    (p : ℕ → Bool) (k : Cont) (before after : Text) (g : Groups) (f : Found)
    → step_one p k before after g ≡ some f
    → (d : Cursor) × (k d g ≡ some f) × (suc (length d.after) ≡ length after)
step_one-reaches p k before [] g f e = absurd cc
step_one-reaches p k before (x ∷ s) g f e =
    (record { before = x ∷ before; after = s }, when (p x) _ f e, refl)

pub run-one_reaches :
    (p : ℕ → Bool) (k : Cont) (c : Cursor) (g : Groups) (f : Found)
    → run (one p) k c g ≡ some f
    → (d : Cursor) × (k d g ≡ some f) × (suc (length d.after) ≡ length c.after)
unfolding run
run-one_reaches p k c g f e = step_one-reaches p k c.before c.after g f e

bol-reaches :
    (t : Text) (o : Option Found) (f : Found)
    → (elim t as (λ x. Option Found) [ [] ↦ o | x ∷ s ↦ none ]) ≡ some f
    → o ≡ some f
bol-reaches [] o f e = e
bol-reaches (x ∷ s) o f e = absurd cc

ahead-reaches :
    (o n : Option Found) (f : Found)
    → (elim o as (λ x. Option Found) [ some g ↦ n | none ↦ none ]) ≡ some f
    → n ≡ some f
ahead-reaches (some g) n f e = e
ahead-reaches none n f e = absurd cc

pub run-Forward : (r : Regex) → Forward (run r)
unfolding run
run-Forward eps k c g f e = (c, g, e, omega arith)
run-Forward (one p) k c g f e =
    let (d, x, l) = step_one-reaches p k c.before c.after g f e in (d, g, x, omega arith)
run-Forward (seq r s) k c g f e =
    let (d, h, x, l) = run-Forward r _ c g f e in later_than k c d f l (run-Forward s k d h f x)
run-Forward (alt r s) k c g f e = elim (either _ _ f e) [
  | inl x ↦ run-Forward r k c g f x
  | inr x ↦ run-Forward s k c g f x
]
run-Forward (star r) k c g f e = star-Forward (run r) (run-Forward r) (length c.after) k c g f e
run-Forward (few r) k c g f e = few-Forward (run r) (run-Forward r) (length c.after) k c g f e
run-Forward (group n r) k c g f e =
    let (d, h, x, l) = run-Forward r _ c g f e in (d, (n, between c d) ∷ h, x, l)
run-Forward bol k c g f e = (c, g, bol-reaches c.before _ f e, omega arith)
run-Forward eol k c g f e = (c, g, when (at_end c.after) _ f e, omega arith)
run-Forward boundary k c g f e = (c, g, when _ _ f e, omega arith)
run-Forward (ahead r) k c g f e = (c, g, ahead-reaches _ _ f e, omega arith)

length-take : (n : ℕ) (s : Text) → length (take n s) ≤ length s
length-take zero s = omega arith
length-take (suc n) [] = omega arith
length-take (suc n) (x ∷ s) = let h = length-take n s in omega arith

found-injective : (a b : Found) → some a ≡ some b → a ≡ b
found-injective a b e = cc

captured :
    (n : ℕ) (t : Text) (h : Groups) (d : Cursor) (f : Found)
    → some (record { end = d; groups = (n, t) ∷ h }) ≡ some f
    → group_of n f.groups ≡ some t
unfolding group_of
captured n t h d f e = ap (λ x. group_of n x.groups) (sym (found-injective _ f e)) ∙ ground arith

abbrev pub accept : Cont
accept d h = some (record { end = d; groups = h })

-- A pattern that ends in `(.*)$` captures no more than was left.
pub run-tail_group :
    (n : ℕ) (c : Cursor) (g : Groups) (f : Found)
    → run (seqs (group n (star dot) ∷ eol ∷ [])) accept c g ≡ some f
    → (t : Text) × (group_of n f.groups ≡ some t) × (length t ≤ length c.after)
unfolding run group_of
run-tail_group n c g f e =
    let (d, h, x, l) = run-Forward (star dot) _ c g f e in
    let y : accept d ((n, between c d) ∷ h) ≡ some f = when (at_end d.after) _ f x in
    (between c d, captured n _ h d f y, length-take _ c.after)

-- The same for the first part of a sequence.
module _ (s : Regex) (k : Cont) (c : Cursor) (g : Groups) (f : Found) where
  pub seq-reaches :
      (r : Regex)
      → run (seq r s) k c g ≡ some f
      → (d : Cursor) × (h : Groups) × (run s k d h ≡ some f) × (length d.after ≤ length c.after)
  unfolding run
  seq-reaches r e = run-Forward r _ c g f e

  pub seq-one_reaches :
      (p : ℕ → Bool)
      → run (seq (one p) s) k c g ≡ some f
      → (d : Cursor) × (h : Groups) × (run s k d h ≡ some f) × (length d.after < length c.after)
  unfolding run
  seq-one_reaches p e =
      let (d, x, l) = run-one_reaches p (run s k) c g f e in (d, g, x, omega arith)

  pub seq-group_one_reaches :
      (n : ℕ) (p : ℕ → Bool)
      → run (seq (group n (one p)) s) k c g ≡ some f
      → (d : Cursor) × (h : Groups) × (run s k d h ≡ some f) × (length d.after < length c.after)
  unfolding run
  seq-group_one_reaches n p e =
      let (d, x, l) = run-one_reaches p (λ d h. run s k d ((n, between c d) ∷ h)) c g f e in
      (d, (n, between c d) ∷ g, x, omega arith)

  pub seq-seq :
      (a b : Regex) → run (seq (seq a b) s) k c g ≡ some f → run (seq a (seq b s)) k c g ≡ some f
  unfolding run
  seq-seq a b e = e

abbrev pub start : Text → Cursor
start s = record { before = []; after = s }

pub match-run :
    (r : Regex) (s : Text) (f : Found) → match r s ≡ some f → run r accept (start s) [] ≡ some f
unfolding match match_at
match-run r s f e = e
