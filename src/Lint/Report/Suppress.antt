-- ===== src/Lint/Report/Suppress.antt =====
-- NOLINT comments: what `ParseNolintSuppressions` suppresses, and that `Error` then stays silent.
use mathlib.Core.List.{append_assoc, reverse-append}
pub mod Silence
use scalloc.Common.{
  ℕ, List, [], ◌∷◌, ◌++◌, Option, none, some, Bool, true, false, not, ◌||◌, ◌&&◌, ◌==◌, ◌≡◌, ◌≢◌,
  refl, sym, ap, subst, ◌∙◌, arith, Bool-cases, inl, inr, if◌then◌else◌, All, drop, length, every,
  every-All, take_before, ==_iff,
}
use scalloc.Common.Text.{
  Text, codes, text_eq, text_eq_iff, mem_text, mem_text-every, drop_last, starts_with, ends_with,
}
use scalloc.Common.Dict.{get, get-put, put, option_key, add_nat, mem_nat, mem_nat-add_nat}
use scalloc.Common.Regex.{
  Regex, Cursor, Groups, Found, match_at, run, search_re, search_from, group_of, none_of, star, mem,
  between,
}
use scalloc.Common.Regex.Laws.{
  at, push, run-lit, run-star_class, search_from-skip, search_from-hit, guarded-none, guarded-false,
  first-some,
}
use scalloc.Lint.World.{Outcome, ok, ok-injective, raised, ◌>>=◌, World, ErrorFn}
use scalloc.Lint.Tables.{error_categories}
use scalloc.Lint.Filters.{is_error_suppressed_by_nolint, has_line, should_print_error}
use scalloc.Lint.Report.{
  re_suppression, suppress, lines_of, suppress_category, parse_nolint_suppressions, log_error,
  error,
}

has_line-lines_of : (m : ℕ) (o : Option (List ℕ)) → has_line m o ≡ mem_nat m (lines_of o)
unfolding mem_nat
has_line-lines_of m none = refl
has_line-lines_of m (some ls) = refl

-- Whether an entry for a key is about a category; the key None is about all.
abbrev pub speaks_of : Option Text → Text → Bool
speaks_of none category = true
speaks_of (some k) category = text_eq k category

-- What is suppressed after an entry is added.
pub suppress_lem :
    (key : Option Text) (n : ℕ) (category : Text) (m : ℕ) (w : World)
    → is_error_suppressed_by_nolint category m (suppress key n w)
      ≡ (is_error_suppressed_by_nolint category m w || (m == n && speaks_of key category))
unfolding is_error_suppressed_by_nolint suppress
suppress_lem none n category m w =
    let d = w.suppressions in
    simp (get-put {V = List ℕ} ⦃e = option_key⦄) (
      ground (arith, mem_nat-add_nat n m (lines_of (get none d)), has_line-lines_of m (get none d)))
suppress_lem (some k) n category m w =
    let d = w.suppressions in
    simp (get-put {V = List ℕ} ⦃e = option_key⦄) (
      ground (
        arith,
        mem_nat-add_nat n m (lines_of (get (some k) d)),
        has_line-lines_of m (get (some k) d),
        text_eq_iff k category,
      ))

-- Not the first letter of NOLINT.
abbrev pub NotN : ℕ → Type 0
NotN c = not (c == b'N') ≡ true

abbrev not_paren : ℕ → Bool
not_paren c = not (mem c (codes ")"))

re_suppression_fails : (c : ℕ) (b t : Text) → NotN c → match_at re_suppression (at b (c ∷ t)) ≡ none
unfolding match_at
re_suppression_fails c b t h = guarded-none _ _ (guarded-false (c == b'N') _ (ground (arith, h)))

-- NOLINT(category), after a space and with any text behind it
abbrev pub marker : Text → Text → Text
marker category post = codes "NOLINT(" ++ (category ++ b')' ∷ post)

abbrev from_paren : Text → Text → Text
from_paren category post = b'(' ∷ (category ++ b')' ∷ post)

abbrev marked : Text → Text → Text → Found
marked b category post =
    let here = push (codes "NOLINT") (b' ' ∷ b) in
    let there = at (b')' ∷ push category (b'(' ∷ here)) post in
    record { end = there; groups = (1, between (at here (from_paren category post)) there) ∷ [] }

re_suppression_matches :
    (b category post : Text)
    → All (λ c. not_paren c ≡ true) category
    → match_at re_suppression (at (b' ' ∷ b) (marker category post)) ≡ some (marked b category post)
unfolding match_at
re_suppression_matches b category post h =
    first-some _ _ (run-star_class not_paren category _ _ _ _ h refl refl)

between-marked :
    (b category post : Text)
    → group_of 1 (marked b category post).groups ≡ some (b'(' ∷ (category ++ b')' ∷ []))
unfolding group_of
between-marked b category post = ap some (
    rw (← append_assoc category (b')' ∷ []) post)
      (take_before (b'(' ∷ (category ++ b')' ∷ [])) post))

abbrev is_plain : Text → Bool
is_plain category = every not_paren category && not (text_eq category (codes "*"))

categories-is_plain : every is_plain error_categories ≡ true
unfolding text_eq error_categories
categories-is_plain = refl

starts-paren : (t : Text) → starts_with (b'(' ∷ t) (codes "(") ≡ true
unfolding starts_with
starts-paren t = refl

ends-paren : (category : Text) → ends_with (b'(' ∷ (category ++ b')' ∷ [])) (codes ")") ≡ true
unfolding ends_with
ends-paren category = rw (reverse-append (b'(' ∷ category) (b')' ∷ [])) refl

inner-category : (category : Text) → drop_last 1 (category ++ b')' ∷ []) ≡ category
unfolding drop_last
inner-category category = take_before category (b')' ∷ [])

known-is_plain :
    (category : Text) → mem_text category error_categories ≡ true → is_plain category ≡ true
known-is_plain category h = mem_text-every is_plain category error_categories h categories-is_plain

text_eq-star :
    (category : Text)
    → text_eq category (codes "*") ≡ false
    → text_eq (b'(' ∷ (category ++ b')' ∷ [])) (codes "(*)") ≡ false
unfolding text_eq
text_eq-star [] h = refl
text_eq-star (c ∷ []) h = ground (arith, h)
text_eq-star (c ∷ d ∷ []) h = ground (arith, h)
text_eq-star (c ∷ d ∷ e ∷ s) h = ground (arith, h)

suppress_category-known :
    (report : ErrorFn) (filename : Text) (linenum : ℕ) (category : Text) (w : World)
    → mem_text category error_categories ≡ true
    → suppress_category report filename linenum (some (b'(' ∷ (category ++ b')' ∷ []))) w
      ≡ ok (suppress (some category) linenum w)
unfolding suppress_category
suppress_category-known report filename linenum category w h =
    let plain = known-is_plain category h in
    let not_star : text_eq category (codes "*") ≡ false = ground (arith, plain) in
    rw (text_eq-star category not_star, starts-paren, ends-paren, inner-category, h) refl

search_re-marker :
    (pre category post : Text)
    → All NotN pre
    → All (λ c. not_paren c ≡ true) category
    → search_re re_suppression (pre ++ b' ' ∷ marker category post)
      ≡ some (marked (push pre []) category post)
unfolding search_re
search_re-marker pre category post hp hc =
    search_from-skip re_suppression NotN pre [] _ re_suppression_fails hp
    ∙ search_from-skip re_suppression NotN (b' ' ∷ []) (push pre []) (marker category post)
        re_suppression_fails (refl, tt)
    ∙ search_from-hit re_suppression (b' ' ∷ push pre []) (marker category post)
        (re_suppression_matches (push pre []) category post hc)

-- A comment NOLINT(category) behind a space, in a line with no `N` in front of it, adds exactly the
-- suppression of that category on that line, if the category is one of `_ERROR_CATEGORIES`.
pub nolint_suppresses :
    (report : ErrorFn) (filename pre category post : Text) (linenum : ℕ) (w : World)
    → All NotN pre
    → mem_text category error_categories ≡ true
    → parse_nolint_suppressions report filename (pre ++ b' ' ∷ marker category post) linenum w
      ≡ ok (suppress (some category) linenum w)
unfolding parse_nolint_suppressions
nolint_suppresses report filename pre category post linenum w hp known =
    let plain = known-is_plain category known in
    let no_paren = every-All not_paren category (ground (arith, plain)) in
    rw
      (
        search_re-marker pre category post hp no_paren,
        between-marked (push pre []) category post,
        parse_nolint_suppressions,
      )
      (suppress_category-known report filename linenum category w known)
