-- ===== src/Lint/Tests/Reporting.antt =====
-- Filters, counters and NOLINT comments of tools/cpplint.py, on small inputs.
use scalloc.Common.{
  ℕ, [], ◌∷◌, ◌++◌, map, none, Bool, false, ◌≡◌, refl, length, every-All, not, ◌==◌, ◌+◌,
}
use scalloc.Common.Text.{Text, codes, text_eq, mem_text, split_on, strip}
use scalloc.Common.Dict.{total}
use scalloc.Common.Regex.{match_at, search_re, group_of, run, search_from}
use scalloc.Lint.World.{ok, raised, World}
use scalloc.Lint.Tables.{error_categories}
use scalloc.Lint.Filters.{is_signed, apply_filters, set_filters, should_print_error}
use scalloc.Lint.Filters.LastWins.{hides, last_filter_wins}
use scalloc.Lint.Filters.Valid.{should_print_error-total}
use scalloc.Lint.Report.{
  new_lint_state, error, log_error, increment_error_count, suppress, suppress_category,
  parse_nolint_suppressions, reset_error_counts,
}
use scalloc.Lint.Report.Counting.{
  Report, report_all, errors_logged, category_counts_add_up, line_of, select, shown,
}
use scalloc.Lint.Report.Suppress.{marker}
use scalloc.Lint.Report.Suppress.Silence.{nolint_silences}
use scalloc.Common.{All, ◌⊎◌}
use scalloc.Lint.Filters.LastWins.{IsSigned}
use scalloc.Lint.Filters.Valid.{non_empty, Unsigned, set_filters_outcomes}
use scalloc.Lint.Filters.{unsigned_error}
use scalloc.Lint.Tables.{default_filters}

abbrev start : World
start = record {
  suppressions = [];
  lint = new_lint_state;
  stderr = [];
  root = none;
  line_length = 80;
  valid_extensions = map codes ("cc" ∷ "h" ∷ "cpp" ∷ "cu" ∷ "cuh" ∷ []);
}

abbrev tabs : Report
tabs = record {
  linenum = 7;
  category = codes "whitespace/tab";
  confidence = 1;
  message = codes "Tab found; better to use spaces";
}

abbrev alpha : Report
alpha = record {
  linenum = 9;
  category = codes "build/include_alpha";
  confidence = 4;
  message = codes "not in order";
}

-- The default filter hides include_alpha.
two_reports :
    report_all (codes "a.cc") (tabs ∷ alpha ∷ []) start
    ≡ ok (record start {
      lint = record new_lint_state { error_count = 1 };
      stderr = codes "a.cc:7:  Tab found; better to use spaces  [whitespace/tab] [1]\n" ∷ [];
    })
unfolding report_all error should_print_error log_error increment_error_count
two_reports = refl

last_filter_wins_example :
    apply_filters
      (codes "whitespace/tab")
      (codes "-whitespace" ∷ codes "+whitespace/tab" ∷ codes "-build" ∷ [])
      false
    ≡ ok (hides (codes "+whitespace/tab"))
unfolding is_signed
last_filter_wins_example =
    last_filter_wins (codes "whitespace/tab") (codes "+whitespace/tab") (codes "-whitespace" ∷ [])
      (codes "-build" ∷ []) false (refl, tt) refl refl ((refl, refl), tt)

should_print_error-total_example :
    (b : Bool) × (should_print_error (codes "whitespace/tab") 1 7 start ≡ ok b)
unfolding is_signed
should_print_error-total_example =
    should_print_error-total (codes "whitespace/tab") 1 7 start (refl, tt)

errors_logged_example :
    (w' : World) × (report_all (codes "a.cc") (tabs ∷ alpha ∷ []) start ≡ ok w')
    × (w'.stderr
        ≡ start.stderr
          ++ map (line_of start (codes "a.cc")) (select (shown start) (tabs ∷ alpha ∷ [])))
    × (w'.lint.error_count
        ≡ start.lint.error_count + length (select (shown start) (tabs ∷ alpha ∷ [])))
unfolding is_signed
errors_logged_example = errors_logged (codes "a.cc") start (tabs ∷ alpha ∷ []) (refl, tt)

abbrev detailed : World
detailed = record start { lint = record new_lint_state { counting = codes "detailed" } }

category_counts_add_up_example :
    (w' : World) × (report_all
        (codes "a.cc")
        (tabs ∷ tabs ∷ [])
        (record detailed { lint = reset_error_counts detailed.lint })
      ≡ ok w')
    × (total w'.lint.errors_by_category ≡ w'.lint.error_count)
unfolding is_signed text_eq
category_counts_add_up_example =
    category_counts_add_up (codes "a.cc") detailed (tabs ∷ tabs ∷ []) (refl, tt) refl

nolint_silences_example :
    (w' : World) × (parse_nolint_suppressions error
        (codes "a.cc")
        (codes "int x; //" ++ b' ' ∷ marker (codes "build/class") [])
        3
        start
      ≡ ok w')
    × ((confidence : ℕ) (message : Text)
        → error (codes "a.cc") 3 (codes "build/class") confidence message w' ≡ ok w')
unfolding mem_text error_categories
nolint_silences_example =
    nolint_silences error (codes "a.cc") (codes "int x; //") (codes "build/class") [] 3 start
      (every-All (λ c. not (c == b'N')) (codes "int x; //") refl) refl

set_filters_outcomes_example :
    (All IsSigned (default_filters ++ non_empty (map strip (split_on b',' (codes "+build,tab"))))
      × (set_filters (codes "+build,tab") new_lint_state
          ≡ ok (record new_lint_state {
            filters = default_filters ++ non_empty (map strip (split_on b',' (codes "+build,tab")));
          })))
    ⊎ ((f : Text) × Unsigned (non_empty (map strip (split_on b',' (codes "+build,tab")))) f
        × (set_filters (codes "+build,tab") new_lint_state ≡ raised (unsigned_error f)))
set_filters_outcomes_example = set_filters_outcomes (codes "+build,tab") new_lint_state

abbrev quiet : World
quiet = record start { suppressions = (none, 7 ∷ []) ∷ [] }

-- NOLINT with no category suppresses every category on its line.
bare_nolint :
    parse_nolint_suppressions error (codes "a.cc") (codes "x = y;  // NOLINT") 7 start ≡ ok quiet
unfolding parse_nolint_suppressions suppress_category search_re search_from match_at run group_of
    suppress
bare_nolint = refl
