-- ===== src/Lint/Filters.antt =====
-- The category filters of tools/cpplint.py: `_CppLintState.SetFilters`, the loop over `_Filters()` in
-- `_ShouldPrintError`, and the NOLINT suppressions that it asks first.
pub mod LastWins
pub mod Valid
use scalloc.Common.{
  ℕ, List, [], ◌∷◌, ◌++◌, Option, none, some, Bool, true, false, not, ◌||◌, if◌then◌else◌, ltb,
  drop,
}
use scalloc.Common.Text.{Text, codes, starts_with, split_on, strip, is_empty}
use scalloc.Common.Dict.{get, option_key, mem_nat}
use scalloc.Lint.Tables.{default_filters}
use scalloc.Lint.World.{
  Outcome, ok, raised, ◌>>=◌, Exn, assertion_error, value_error, LintState, World,
}

-- The filters of a flag, stripped, without the empty ones.
unfoldable pub clean_filters : List Text → List Text
unfolding strip
clean_filters [] = []
clean_filters (f ∷ fs) =
    let clean = strip f in
    let rest = clean_filters fs in if is_empty clean then rest else clean ∷ rest

unfoldable pub is_signed : Text → Bool
unfolding starts_with
is_signed f = starts_with f (codes "+") || starts_with f (codes "-")

abbrev pub unsigned_error : Text → Exn
unsigned_error f =
    value_error
      (codes "Every filter in --filters must start with + or - (" ++ (f ++ codes " does not)"))

-- The loop that raises at the first filter without a sign.
unfoldable pub check_filters : List Text → Outcome (Unit {0})
unfolding is_signed
check_filters [] = ok tt
check_filters (f ∷ fs) =
    let rest = check_filters fs in if is_signed f then rest else raised (unsigned_error f)

-- _CppLintState.SetFilters. Nothing catches its ValueError, which ends the run: the filters that are
-- stored by then are not kept.
unfoldable pub set_filters : Text → LintState → Outcome LintState
unfolding clean_filters check_filters split_on
set_filters flag s = do
  let filters = default_filters ++ clean_filters (split_on b',' flag)
  _ ← check_filters filters
  ok (record s { filters = filters })

-- One round of the loop in `_ShouldPrintError`; `assert False` where the filter has no sign.
unfoldable pub apply_filter : Text → Text → Bool → Outcome Bool
unfolding starts_with
apply_filter category filter is_filtered =
    if starts_with filter (codes "-")
    then ok (if starts_with category (drop 1 filter) then true else is_filtered)
    else if starts_with filter (codes "+")
    then ok (if starts_with category (drop 1 filter) then false else is_filtered)
    else raised assertion_error

unfoldable pub apply_filters : Text → List Text → Bool → Outcome Bool
unfolding apply_filter
apply_filters category [] is_filtered = ok is_filtered
apply_filters category (f ∷ fs) is_filtered = do
  is_filtered' ← apply_filter category f is_filtered
  apply_filters category fs is_filtered'

abbrev pub has_line : ℕ → Option (List ℕ) → Bool
has_line linenum none = false
has_line linenum (some lines) = mem_nat linenum lines

-- IsErrorSuppressedByNolint
unfoldable pub is_error_suppressed_by_nolint : Text → ℕ → World → Bool
unfolding get mem_nat
is_error_suppressed_by_nolint category linenum w =
    has_line linenum (get (some category) w.suppressions)
    || has_line linenum (get none w.suppressions)

-- _ShouldPrintError
unfoldable pub should_print_error : Text → ℕ → ℕ → World → Outcome Bool
unfolding is_error_suppressed_by_nolint apply_filters
should_print_error category confidence linenum w =
    if is_error_suppressed_by_nolint category linenum w
    then ok false
    else if ltb confidence w.lint.verbose_level
    then ok false
    else (do is_filtered ← apply_filters category w.lint.filters false; ok (not is_filtered))
