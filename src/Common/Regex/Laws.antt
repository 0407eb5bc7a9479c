-- ===== src/Common/Regex/Laws.antt =====
-- How the matcher runs over literals, over a loop on a class, and over a prefix with no match.
use scalloc.Common.Lists.{length, length-append, All}
use scalloc.Common.Tests.{ltb, ◌==◌, ==_iff}
use scalloc.Common.Text.{Text}
use scalloc.Common.Regex.{
  Regex, one, star, lit, Cursor, Groups, Found, Cont, run, star_loop, match_at, search_from,
}
use Prim.Native.Nat.{ℕ, zero, suc, ◌≤◌}
use mathlib.Core.Bool.{Bool, true, false}
use mathlib.Core.List.{[], ◌∷◌, ◌++◌}
use mathlib.Core.Option.{Option, none, some}
use mathlib.Core.Path.{◌≡◌, refl, ◌∙◌}
use native.Mathlib.Omega.{arith}

-- The text before a position after a text has been read.
abbrev pub push : Text → Text → Text
push [] before = before
push (c ∷ s) before = push s (c ∷ before)

abbrev pub at : Text → Text → Cursor
at before after = record { before = before; after = after }

eq_self : (c : ℕ) → (c == c) ≡ true
eq_self c = (==_iff c c).1 refl

abbrev pub guarded : Bool → Option Found → Option Found
guarded b x = elim b [ true ↦ x | false ↦ none ]

pub guarded-true : (b : Bool) (x : Option Found) → b ≡ true → guarded b x ≡ x
guarded-true true x h = refl
guarded-true false x h = cc

pub guarded-false : (b : Bool) (x : Option Found) → b ≡ false → guarded b x ≡ none
guarded-false true x h = cc
guarded-false false x h = refl

pub guarded-none : (b : Bool) (x : Option Found) → x ≡ none → guarded b x ≡ none
guarded-none true x h = h
guarded-none false x h = refl

abbrev pub first : Option Found → Option Found → Option Found
first o p = elim o [ some f ↦ some f | none ↦ p ]

pub first-some : (o p : Option Found) {f : Found} → o ≡ some f → first o p ≡ some f
first-some (some g) p e = e
first-some none p e = absurd (ground (arith, e))

pub run-lit :
    (s before after : Text) (k : Cont) (g : Groups)
    → run (lit s) k (at before (s ++ after)) g ≡ k (at (push s before) after) g
unfolding run
run-lit [] before after k g = refl
run-lit (c ∷ s) before after k g =
    guarded-true (c == c) _ (eq_self c) ∙ run-lit s (c ∷ before) after k g

-- The text stops at a character outside the class, or ends.
abbrev pub Stops : (ℕ → Bool) → Text → Type 0
Stops p [] = Unit
Stops p (c ∷ s) = p c ≡ false

abbrev pub AllIn : (ℕ → Bool) → Text → Type 0
AllIn p = All (λ c. p c ≡ true)

ltb-suc : (n : ℕ) → ltb n (suc n) ≡ true
ltb-suc n = ground arith

star_loop-class :
    (p : ℕ → Bool) (s before after : Text) (k : Cont) (g : Groups) (n : ℕ) (f : Found)
    → length s ≤ n
    → AllIn p s
    → Stops p after
    → k (at (push s before) after) g ≡ some f
    → star_loop (run (one p)) n k (at before (s ++ after)) g ≡ some f
unfolding star_loop run
star_loop-class p [] before after k g zero f h a st e = e
star_loop-class p [] before [] k g (suc n) f h a st e = e
star_loop-class p [] before (c ∷ after) k g (suc n) f h a st e = rw st e
star_loop-class p (c ∷ s) before after k g zero f h a st e = absurd (omega arith)
star_loop-class p (c ∷ s) before after k g (suc n) f h (a, as') st e = rw (
  a,
  ltb-suc (length (s ++ after)),
  star_loop-class p s (c ∷ before) after k g n f (omega arith) as' st e,
)

-- A greedy loop on a class reads all of a text in the class, where the rest then matches.
pub run-star_class :
    (p : ℕ → Bool) (s before after : Text) (k : Cont) (g : Groups) {f : Found}
    → AllIn p s
    → Stops p after
    → k (at (push s before) after) g ≡ some f
    → run (star (one p)) k (at before (s ++ after)) g ≡ some f
unfolding run
run-star_class p s before after k g {f} a st e =
    star_loop-class p s before after k g (length (s ++ after)) f
      (omega (arith, length-append s after)) a st e

-- A pattern that matches at no position of `s` is looked for behind `s`.
pub search_from-skip :
    (r : Regex) (q : ℕ → Type 0) (s before after : Text)
    → ((c : ℕ) (b t : Text) → q c → match_at r (at b (c ∷ t)) ≡ none)
    → All q s
    → search_from r before (s ++ after) ≡ search_from r (push s before) after
unfolding search_from
search_from-skip r q [] before after fails h = refl
search_from-skip r q (c ∷ s) before after fails (hc, h) =
    rw (fails c before (s ++ after) hc, search_from)
      (search_from-skip r q s (c ∷ before) after fails h)

pub search_from-hit :
    (r : Regex) (before after : Text) {f : Found}
    → match_at r (at before after) ≡ some f
    → search_from r before after ≡ some f
unfolding search_from
search_from-hit r before [] e = e
search_from-hit r before (c ∷ s) e = rw (e, search_from) refl
