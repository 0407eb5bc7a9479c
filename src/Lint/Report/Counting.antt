-- ===== src/Lint/Report/Counting.antt =====
-- What a sequence of calls of `Error` prints and counts.
use mathlib.Core.List.{append-nil, append_assoc}
use scalloc.Common.{
  ℕ, ◌+◌, List, [], ◌∷◌, ◌++◌, map, Bool, true, false, ◌≡◌, refl, sym, ◌∙◌, arith, if◌then◌else◌,
  All, length,
}
use scalloc.Common.Text.{Text}
use scalloc.Common.Dict.{get, or_zero, total, total-put, text_key}
use scalloc.Lint.World.{Outcome, ok, raised, ◌>>=◌, LintState, World}
use scalloc.Lint.Filters.{should_print_error}
use scalloc.Lint.Filters.LastWins.{IsSigned}
use scalloc.Lint.Filters.Valid.{should_print_error-total}
use scalloc.Lint.Report.{
  by_category, counted_as, increment_error_count, error_line, log_error, error, reset_error_counts,
}

pub record Report : Type 0 where
  pub linenum : ℕ
  pub category : Text
  pub confidence : ℕ
  pub message : Text

-- Calls of `Error` one after the other.
unfoldable pub report_all : Text → List Report → World → Outcome World
report_all filename [] w = ok w
report_all filename (r ∷ rs) w = do
  w' ← error filename r.linenum r.category r.confidence r.message w
  report_all filename rs w'

abbrev truth : Outcome Bool → Bool
truth (ok b) = b
truth (raised e) = false

-- Whether `_ShouldPrintError` passes a report.
abbrev pub shown : World → Report → Bool
shown w r = truth (should_print_error r.category r.confidence r.linenum w)

abbrev pub select {ℓ} : {A : Type ℓ} → (A → Bool) → List A → List A
select p [] = []
select p (x ∷ xs) = let rest = select p xs in if p x then x ∷ rest else rest

abbrev pub line_of : World → Text → Report → Text
line_of w filename r =
    error_line w.lint.output_format filename r.linenum r.category r.confidence r.message

-- What decides on printing, and the form of a line.
pub record SameRules (v w : World) : Type 0 where
  pub suppressions : w.suppressions ≡ v.suppressions
  pub verbose_level : w.lint.verbose_level ≡ v.lint.verbose_level
  pub filters : w.lint.filters ≡ v.lint.filters
  pub output_format : w.lint.output_format ≡ v.lint.output_format
  pub counting : w.lint.counting ≡ v.lint.counting

should_print_error-SameRules :
    (category : Text) (confidence linenum : ℕ) (v w : World)
    → SameRules v w
    → should_print_error category confidence linenum w
      ≡ should_print_error category confidence linenum v
unfolding should_print_error
should_print_error-SameRules category confidence linenum v w s =
    rw (s.suppressions, s.verbose_level, s.filters) refl

-- The sum over the categories is the number of errors, in the two styles that count by category.
abbrev pub IsBalanced : LintState → Type 0
IsBalanced s = by_category s ≡ true → total s.errors_by_category ≡ s.error_count

increment_error_count-IsBalanced :
    (category : Text) (s : LintState) → IsBalanced s → IsBalanced (increment_error_count category s)
unfolding increment_error_count
increment_error_count-IsBalanced category s h =
    let key = counted_as s.counting category in
    ground (arith, total-put key (or_zero (get key s.errors_by_category) + 1) s.errors_by_category)

error_count-increment_error_count :
    (category : Text) (s : LintState)
    → (increment_error_count category s).error_count ≡ s.error_count + 1
unfolding increment_error_count
error_count-increment_error_count category s = ground arith

log_error-SameRules :
    (filename : Text) (linenum : ℕ) (category : Text) (confidence : ℕ) (message : Text)
    (v w : World)
    → SameRules v w
    → SameRules v (log_error filename linenum category confidence message w)
unfolding log_error increment_error_count
log_error-SameRules filename linenum category confidence message v w s = ground arith

module _ (filename : Text) (r : Report) (v w : World) where
  abbrev logged : World
  logged = log_error filename r.linenum r.category r.confidence r.message w

  logged-stderr : SameRules v w → logged.stderr ≡ w.stderr ++ line_of v filename r ∷ []
  unfolding log_error
  logged-stderr s = rw (← s.output_format) refl

  logged-error_count : logged.lint.error_count ≡ w.lint.error_count + 1
  unfolding log_error
  logged-error_count = error_count-increment_error_count r.category w.lint

  logged-IsBalanced : IsBalanced w.lint → IsBalanced logged.lint
  unfolding log_error
  logged-IsBalanced h = increment_error_count-IsBalanced r.category w.lint h

module _ (filename : Text) (v : World) (signed : All IsSigned v.lint.filters) where
  abbrev printed : List Report → List Report
  printed rs = select (shown v) rs

  -- The state after a sequence of reports, with its counters.
  record Logged (w : World) (rs : List Report) (w' : World) : Type 0 where
    reached : report_all filename rs w ≡ ok w'
    rules : SameRules v w'
    lines : w'.stderr ≡ w.stderr ++ map (line_of v filename) (printed rs)
    counted : w'.lint.error_count ≡ w.lint.error_count + length (printed rs)
    balanced : IsBalanced w.lint → IsBalanced w'.lint

  report_one :
      (r : Report) (w : World) (b : Bool)
      → SameRules v w
      → should_print_error r.category r.confidence r.linenum v ≡ ok b
      → error filename r.linenum r.category r.confidence r.message w
        ≡ ok (if b then log_error filename r.linenum r.category r.confidence r.message w else w)
  unfolding error
  report_one r w b s e =
      rw (should_print_error-SameRules r.category r.confidence r.linenum v w s, e) refl

  Logged-cons :
      (r : Report) (rs : List Report) (w : World) (b : Bool)
      → SameRules v w
      → should_print_error r.category r.confidence r.linenum v ≡ ok b
      → ((u : World) → SameRules v u → (w' : World) × Logged u rs w')
      → (w' : World) × Logged w (r ∷ rs) w'
  unfolding report_all
  Logged-cons r rs w true s e rest =
      let u = log_error filename r.linenum r.category r.confidence r.message w in
      let keeps = log_error-SameRules filename r.linenum r.category r.confidence r.message v w s in
      let (w', l) = rest u keeps in
      (
        w',
        record {
          reached = rw (report_one r w true s e) l.reached;
          rules = l.rules;
          lines = rw e (l.lines ∙ rw (logged-stderr filename r v w s) (append_assoc w.stderr _ _));
          counted = rw e (omega (arith, l.counted, logged-error_count filename r v w));
          balanced = λ h. l.balanced (logged-IsBalanced filename r v w h);
        },
      )
  Logged-cons r rs w false s e rest =
      let (w', l) = rest w s in
      (
        w',
        record {
          reached = rw (report_one r w false s e) l.reached;
          rules = l.rules;
          lines = rw e l.lines;
          counted = rw e l.counted;
          balanced = l.balanced;
        },
      )

  report_all-Logged : (rs : List Report) (w : World) → SameRules v w → (w' : World) × Logged w rs w'
  unfolding report_all
  report_all-Logged [] w s = (
    w,
    record {
      reached = refl;
      rules = s;
      lines = sym (append-nil w.stderr);
      counted = omega arith;
      balanced = λ h. h;
    },
  )
  report_all-Logged (r ∷ rs) w s =
      let (b, e) = should_print_error-total r.category r.confidence r.linenum v signed in
      Logged-cons r rs w b s e (report_all-Logged rs)

SameRules-refl : (v : World) → SameRules v v
SameRules-refl v = record {
  suppressions = refl;
  verbose_level = refl;
  filters = refl;
  output_format = refl;
  counting = refl;
}

-- With signed filters, a sequence of calls of `Error` returns. It writes one line for each report
-- that passes `_ShouldPrintError` in the first state, in order, and counts as many errors.
pub errors_logged :
    (filename : Text) (v : World) (rs : List Report)
    → All IsSigned v.lint.filters
    → (w' : World) × (report_all filename rs v ≡ ok w')
      × (w'.stderr ≡ v.stderr ++ map (line_of v filename) (select (shown v) rs))
      × (w'.lint.error_count ≡ v.lint.error_count + length (select (shown v) rs))
errors_logged filename v rs signed =
    let (w', l) = report_all-Logged filename v signed rs v (SameRules-refl v) in
    (w', l.reached, l.lines, l.counted)

-- With signed filters and a counting style by category, after `ResetErrorCounts` and any calls of
-- `Error` the counts of the categories add up to the number of errors.
pub category_counts_add_up :
    (filename : Text) (v : World) (rs : List Report)
    → All IsSigned v.lint.filters
    → by_category v.lint ≡ true
    → (w' : World) × (report_all filename rs (record v { lint = reset_error_counts v.lint })
        ≡ ok w')
      × (total w'.lint.errors_by_category ≡ w'.lint.error_count)
unfolding reset_error_counts
category_counts_add_up filename v rs signed style =
    let start = record v { lint = reset_error_counts v.lint } in
    let (w', l) = report_all-Logged filename start signed rs start (SameRules-refl start) in
    (w', l.reached, l.balanced (λ h. unfold total in refl) (rw l.rules.counting style))
