-- ===== src/Lint/Report/Suppress/Silence.antt =====
-- What NOLINT comments of tools/cpplint.py silence, and what they leave alone.
use scalloc.Common.{
  ℕ, ◌∷◌, ◌++◌, Option, none, some, Bool, true, false, ◌&&◌, ◌≡◌, ◌≢◌, refl, sym, ap, subst, ◌∙◌,
  arith, Bool-cases, inl, inr, if◌then◌else◌, All, drop,
}
use scalloc.Common.Text.{
  Text, codes, text_eq, text_eq_iff, mem_text, drop_last, starts_with, ends_with,
}
use scalloc.Common.Dict.{option_key}
use scalloc.Common.Regex.{Found, search_re, group_of}
use scalloc.Lint.World.{Outcome, ok, ok-injective, raised, ◌>>=◌, World, ErrorFn}
use scalloc.Lint.Tables.{error_categories}
use scalloc.Lint.Filters.{is_error_suppressed_by_nolint, should_print_error}
use scalloc.Lint.Report.{
  re_suppression, suppress, suppress_category, parse_nolint_suppressions, log_error, error,
}
use scalloc.Lint.Report.Suppress.{marker, NotN, suppress_lem, nolint_suppresses}

-- A category that is suppressed on a line: `Error` does nothing there.
error-suppressed :
    (filename : Text) (linenum : ℕ) (category : Text) (confidence : ℕ) (message : Text) (w : World)
    → is_error_suppressed_by_nolint category linenum w ≡ true
    → error filename linenum category confidence message w ≡ ok w
unfolding error should_print_error
error-suppressed filename linenum category confidence message w h = rw h refl

-- A comment NOLINT(category) of a known category, behind a space in a line with no `N` in front of
-- it, silences the line: `ParseNolintSuppressions` returns, and behind it `Error` neither writes nor
-- counts a report of that category on that line, whatever its confidence and message.
pub nolint_silences :
    (report : ErrorFn) (filename pre category post : Text) (linenum : ℕ) (w : World)
    → All NotN pre
    → mem_text category error_categories ≡ true
    → (w' : World) × (parse_nolint_suppressions report filename
          (pre ++ b' ' ∷ marker category post)
          linenum
          w
        ≡ ok w')
      × ((confidence : ℕ) (message : Text)
          → error filename linenum category confidence message w' ≡ ok w')
nolint_silences report filename pre category post linenum w hp known =
    let w' = suppress (some category) linenum w in
    (
      w',
      nolint_suppresses report filename pre category post linenum w hp known,
      λ confidence message. error-suppressed filename linenum category confidence message w' (
          suppress_lem (some category) linenum category linenum w
          ∙ ground (arith, text_eq_iff category category)),
    )

-- No suppression is lost, and none is added on another line.
abbrev pub Framed : ℕ → World → World → Type 0
Framed linenum w w' =
    (category : Text) (m : ℕ)
    → (is_error_suppressed_by_nolint category m w ≡ true
        → is_error_suppressed_by_nolint category m w' ≡ true)
      × (m ≢ linenum
          → is_error_suppressed_by_nolint category m w'
            ≡ is_error_suppressed_by_nolint category m w)

suppress-Framed :
    (key : Option Text) (linenum : ℕ) (w : World) → Framed linenum w (suppress key linenum w)
suppress-Framed key linenum w category m = (
  ground (arith, suppress_lem key linenum category m w),
  ground (arith, suppress_lem key linenum category m w),
)

suppressions-Framed :
    (linenum : ℕ) (w w' : World) → w'.suppressions ≡ w.suppressions → Framed linenum w w'
unfolding is_error_suppressed_by_nolint
suppressions-Framed linenum w w' e category m = (rw e (λ h. h), λ _. rw e refl)

-- The callback leaves the suppressions alone.
abbrev pub KeepsSuppressions : ErrorFn → Type 0
KeepsSuppressions report =
    (f : Text) (n : ℕ) (c : Text) (k : ℕ) (m : Text) (u u' : World)
    → report f n c k m u ≡ ok u'
    → u'.suppressions ≡ u.suppressions

abbrev FramedOutcome : ℕ → World → Outcome World → Type 0
FramedOutcome linenum w o = (w' : World) → o ≡ ok w' → Framed linenum w w'

Framed-ok : (linenum : ℕ) (w u : World) → Framed linenum w u → FramedOutcome linenum w (ok u)
Framed-ok linenum w u f w' e = subst (Framed linenum w) (ok-injective e) f

module _ (report : ErrorFn) (keeps : KeepsSuppressions report) (filename : Text) (linenum : ℕ)
    (w : World) where
  suppress_category-Framed :
      (category : Option Text)
      → FramedOutcome linenum w (suppress_category report filename linenum category w)
  unfolding suppress_category
  suppress_category-Framed none = Framed-ok linenum w _ (suppress-Framed none linenum w)
  suppress_category-Framed (some c) = elim (Bool-cases (text_eq c (codes "(*)"))) [
    | inl all ↦ rw all (Framed-ok linenum w _ (suppress-Framed none linenum w))
    | inr one ↦ elim (Bool-cases (starts_with c (codes "(") && ends_with c (codes ")"))) [
      | inl parens ↦ elim (Bool-cases (mem_text (drop_last 1 (drop 1 c)) error_categories)) [
        | inl known ↦
            rw (one, parens, known)
              (Framed-ok linenum w _ (suppress-Framed (some (drop_last 1 (drop 1 c))) linenum w))
        | inr unknown ↦
            rw (one, parens, unknown)
              λ w' e. suppressions-Framed linenum w w' (keeps _ _ _ _ _ w w' e)
      ]
      | inr bare ↦ rw (one, bare) (Framed-ok linenum w w (suppressions-Framed linenum w w refl))
    ]
  ]

-- After `ParseNolintSuppressions`, with a callback that leaves the suppressions alone, what was
-- suppressed still is, and on every other line nothing has changed.
pub parse_nolint_frame :
    (report : ErrorFn) (filename raw_line : Text) (linenum : ℕ) (w w' : World)
    → KeepsSuppressions report
    → parse_nolint_suppressions report filename raw_line linenum w ≡ ok w'
    → Framed linenum w w'
unfolding parse_nolint_suppressions
parse_nolint_frame report filename raw_line linenum w w' keeps =
    on_match (search_re re_suppression raw_line)
  where
    on_match :
        (o : Option Found)
        → (let r : Outcome World = elim o [
          | none ↦ ok w
          | some found ↦ suppress_category report filename linenum (group_of 1 found.groups) w
        ] in
            r ≡ ok w' → Framed linenum w w')
    on_match none = Framed-ok linenum w w (suppressions-Framed linenum w w refl) w'
    on_match (some found) =
        suppress_category-Framed report keeps filename linenum w (group_of 1 found.groups) w'

pub error-KeepsSuppressions : KeepsSuppressions error
unfolding error log_error
error-KeepsSuppressions f n c k m u u' e = from_outcome (should_print_error c k n u) e
  where
    from_outcome :
        (o : Outcome Bool)
        → (o >>= λ printed. ok (if printed then log_error f n c k m u else u)) ≡ ok u'
        → u'.suppressions ≡ u.suppressions
    from_outcome (ok true) h = ap (λ (x : World). x.suppressions) (sym (ok-injective h))
    from_outcome (ok false) h = ap (λ (x : World). x.suppressions) (sym (ok-injective h))
    from_outcome (raised x) h = cc
