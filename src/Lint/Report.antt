-- ===== src/Lint/Report.antt =====
-- Error reporting in tools/cpplint.py: `Error`, the counters of `_CppLintState`, its setters, and the
-- NOLINT comments of a line.
pub mod Counting
pub mod Suppress
use scalloc.Common.{
  ℕ, suc, ◌+◌, List, [], ◌∷◌, ◌++◌, Option, none, some, Bool, true, false, not, ◌||◌, ◌&&◌,
  if◌then◌else◌, drop,
}
use scalloc.Common.Text.{
  Text, codes, text_eq, mem_text, starts_with, ends_with, split_on, drop_last, show,
}
use scalloc.Common.Regex.{
  Regex, group, boundary, star, none_of, chr, lit, opt, seqs, search_re, group_of, Found,
}
use scalloc.Common.Dict.{Dict, get, put, or_zero, option_key, text_key, add_nat}
use scalloc.Lint.Tables.{error_categories, default_filters}
use scalloc.Lint.World.{Outcome, ok, raised, ◌>>=◌, LintState, World, Act, ErrorFn}
use scalloc.Lint.Filters.{should_print_error}

-- _CppLintState.__init__
abbrev pub new_lint_state : LintState
new_lint_state = record {
  verbose_level = 1;
  error_count = 0;
  filters = default_filters;
  counting = codes "total";
  errors_by_category = [];
  output_format = codes "emacs";
}

unfoldable pub reset_error_counts : LintState → LintState
reset_error_counts s = record s { error_count = 0; errors_by_category = [] }

-- _CppLintState.SetVerboseLevel, with the previous setting
unfoldable pub set_verbose_level : ℕ → LintState → LintState × ℕ
set_verbose_level level s = (record s { verbose_level = level }, s.verbose_level)

unfoldable pub set_counting_style : Text → LintState → LintState
set_counting_style style s = record s { counting = style }

unfoldable pub set_output_format : Text → LintState → LintState
set_output_format format s = record s { output_format = format }

-- category.split('/')[0]
abbrev pub first_part : List Text → Text
first_part [] = []
first_part (p ∷ ps) = p

-- The key under which a category is counted.
unfoldable pub counted_as : Text → Text → Text
unfolding text_eq split_on
counted_as counting category =
    if text_eq counting (codes "detailed") then category else first_part (split_on b'/' category)

-- self.counting in ('toplevel', 'detailed')
abbrev pub by_category : LintState → Bool
by_category s = text_eq s.counting (codes "toplevel") || text_eq s.counting (codes "detailed")

-- _CppLintState.IncrementErrorCount
unfoldable pub increment_error_count : Text → LintState → LintState
unfolding counted_as
increment_error_count category s =
    let s' = record s { error_count = s.error_count + 1 } in
    if by_category s
    then (let key = counted_as s.counting category in
        record s' {
          errors_by_category =
              put key (or_zero (get key s.errors_by_category) + 1) s.errors_by_category;
        })
    else s'

unfoldable pub count_lines : Dict Text ℕ → List Text
count_lines [] = []
count_lines ((category, n) ∷ d) =
    (codes "Category '" ++ (category ++ (codes "' errors found: " ++ (show n ++ codes "\n"))))
    ∷ count_lines d

-- _CppLintState.PrintErrorCounts
unfoldable pub print_error_counts : World → World
unfolding count_lines show
print_error_counts w = record w {
  stderr =
      (w.stderr ++ count_lines w.lint.errors_by_category)
      ++ (codes "Total errors found: " ++ (show w.lint.error_count ++ codes "\n")) ∷ [];
}

-- The line that `Error` writes, in the format of the flag --output.
unfoldable pub error_line : Text → Text → ℕ → Text → ℕ → Text → Text
unfolding text_eq show
error_line format filename linenum category confidence message =
    let place =
      if text_eq format (codes "vs7")
      then codes "(" ++ (show linenum ++ codes "):  ")
      else if text_eq format (codes "eclipse")
      then codes ":" ++ (show linenum ++ codes ": warning: ")
      else codes ":" ++ (show linenum ++ codes ":  ") in
    filename
    ++ (place
        ++ (message
            ++ (codes "  [" ++ (category ++ (codes "] [" ++ (show confidence ++ codes "]\n"))))))

unfoldable pub log_error : Text → ℕ → Text → ℕ → Text → World → World
unfolding increment_error_count error_line
log_error filename linenum category confidence message w = record w {
  lint = increment_error_count category w.lint;
  stderr =
      w.stderr ++ error_line w.lint.output_format filename linenum category confidence message ∷ [];
}

-- Error
unfoldable pub error : ErrorFn
unfolding should_print_error log_error
error filename linenum category confidence message w = do
  printed ← should_print_error category confidence linenum w
  ok (if printed then log_error filename linenum category confidence message w else w)

-- _RE_SUPPRESSION, \bNOLINT\b(\([^)]*\))?
abbrev pub re_suppression : Regex
re_suppression = seqs (
    boundary
    ∷ lit (codes "NOLINT")
    ∷ boundary
    ∷ opt (group 1 (seqs (chr b'(' ∷ star (none_of (codes ")")) ∷ chr b')' ∷ [])))
    ∷ [])

abbrev lines_of : Option (List ℕ) → List ℕ
lines_of none = []
lines_of (some lines) = lines

-- _error_suppressions.setdefault(category, set()).add(linenum)
unfoldable pub suppress : Option Text → ℕ → World → World
unfolding get put add_nat
suppress category linenum w = record w {
  suppressions =
      put category (add_nat linenum (lines_of (get category w.suppressions))) w.suppressions;
}

-- The branches on `matched.group(1)` in `ParseNolintSuppressions`.
unfoldable pub suppress_category : ErrorFn → Text → ℕ → Option Text → Act
suppress_category report filename linenum none w = ok (suppress none linenum w)
suppress_category report filename linenum (some category) w =
    if text_eq category (codes "(*)")
    then ok (suppress none linenum w)
    else if starts_with category (codes "(") && ends_with category (codes ")")
    then (let inner = drop_last 1 (drop 1 category) in
        if mem_text inner error_categories
        then ok (suppress (some inner) linenum w)
        else report filename linenum (codes "readability/nolint") 5
            (codes "Unknown NOLINT error category: " ++ inner) w)
    else ok w

-- ParseNolintSuppressions
unfoldable pub parse_nolint_suppressions : ErrorFn → Text → Text → ℕ → Act
parse_nolint_suppressions report filename raw_line linenum w =
    elim (search_re re_suppression raw_line) [
      | none ↦ ok w
      | some found ↦ suppress_category report filename linenum (group_of 1 found.groups) w
    ]

-- ResetNolintSuppressions
unfoldable pub reset_nolint_suppressions : World → World
reset_nolint_suppressions w = record w { suppressions = [] }
