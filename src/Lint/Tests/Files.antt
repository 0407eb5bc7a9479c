-- ===== src/Lint/Tests/Files.antt =====
-- File names, includes and header guards of tools/cpplint.py, on small inputs.
use mathlib.Core.List.{reverse-append}
use scalloc.Common.{
  Bool-cases, inl, inr, ◌||◌, [], ◌∷◌, ◌++◌, none, some, true, false, ◌≡◌, refl, arith,
}
use scalloc.Common.Text.{
  Text, is_empty, codes, text_eq, is_space, starts_with, ends_with, drop_last, words,
}
use scalloc.Common.Dict.{text_key}
use scalloc.Lint.World.{ok, World}
use scalloc.Lint.Report.{
  error, new_lint_state, set_output_format, set_verbose_level, set_counting_style,
}
use scalloc.Lint.Filters.{set_filters, clean_filters, check_filters, is_signed}
use scalloc.Lint.Arguments.{
  parse_arguments, read_options, read_option, read_verbosity, apply_options,
}
use scalloc.Lint.Arguments.Valid.{Settled, parse_arguments-Settled}
use scalloc.Common.Text.{strip, lstrip, rstrip, mem_text, split_on}
use scalloc.Common.{Option, some, none, ℕ, List, ◌++◌, if◌then◌else◌}
use scalloc.Lint.Cleanse.{CleansedLines}
use scalloc.Lint.Paths.{
  has, svn_root, repository_root, repository_name, full_name, drop_common_suffixes, drop_suffixes,
  common_suffixes,
}
use scalloc.Lint.OsPath.{Host, dirname, after_last, strip_slashes, join_path, splitext}
use scalloc.Lint.Paths.Walk.{
  RootIsFree, IsRest, NearestTop, repository_name-IsRest, repository_root-NearestTop,
  svn_root_diverges,
}
use scalloc.Lint.Include.{IncludeState, new_include_state}
use scalloc.Lint.IncludeLine.{check_include, report_again}
use scalloc.Lint.IncludeLine.Records.{Recorded, check_include-Recorded}
use scalloc.Lint.HeaderGuard.{check_with_variable}
use scalloc.Lint.HeaderGuard.Accepted.{guarded, guarded_header_accepted}

abbrev here : World
here = record {
  suppressions = [];
  lint = new_lint_state;
  stderr = [];
  root = none;
  line_length = 80;
  valid_extensions = [];
}

-- A machine on which the names that end in `t` exist.
abbrev git_everywhere : Host
git_everywhere = record { cwd = codes "/w"; exists = λ p. ends_with p (codes "t") }

no_svn : (dir : Text) → ends_with (dir ++ codes ".svn") (codes "t") ≡ false
unfolding ends_with starts_with
no_svn dir = rw (reverse-append dir (codes ".svn")) refl

no_svn_below : (dir : Text) → ends_with (dir ++ b'/' ∷ codes ".svn") (codes "t") ≡ false
unfolding ends_with starts_with
no_svn_below dir = rw (reverse-append dir (b'/' ∷ codes ".svn")) refl

root_is_free : RootIsFree git_everywhere
unfolding has join_path
root_is_free dir e = elim (Bool-cases (is_empty dir || ends_with dir (codes "/"))) [
  | inl b ↦ rw b (no_svn dir)
  | inr b ↦ rw b (no_svn_below dir)
]

abbrev svn_everywhere : Host
svn_everywhere = record { cwd = codes "/"; exists = λ p. ends_with p (codes "/.svn") }

repository_name-IsRest_example :
    IsRest
      (full_name git_everywhere (codes "a/b.t"))
      (repository_name git_everywhere (codes "a/b.t"))
repository_name-IsRest_example = repository_name-IsRest git_everywhere (codes "a/b.t") root_is_free

repository_root-NearestTop_example :
    (top : Text) × (repository_root git_everywhere 9 (codes "/w/a") ≡ some top)
    × NearestTop git_everywhere (codes "/w/a") top
repository_root-NearestTop_example =
    repository_root-NearestTop git_everywhere 9 (codes "/w/a") (omega arith)

svn_root_diverges_example : svn_root svn_everywhere 100 (codes "/") (codes "/") ≡ none
unfolding dirname after_last strip_slashes has join_path ends_with starts_with
svn_root_diverges_example = svn_root_diverges svn_everywhere 100 (codes "/") (codes "/") refl refl

without_suffix : drop_common_suffixes (codes "foo/foo-inl.h") ≡ codes "foo/foo"
unfolding drop_common_suffixes drop_suffixes common_suffixes ends_with starts_with drop_last
    splitext after_last
without_suffix = refl

abbrev no_text : CleansedLines
no_text = record {
  elided = [];
  lines = [];
  raw_lines = [];
  num_lines = 0;
  lines_without_raw_strings = [];
}

abbrev once : IncludeState
once = record new_include_state { lines = (codes "vector", 3) ∷ [] }

check_include-Recorded_example : Recorded (codes "vector") 8 once once
unfolding check_include report_again text_eq
check_include-Recorded_example =
    check_include-Recorded (λ _ _ _ _ _ w. ok w) (codes "a.cc") (codes "a.cc") no_text 8
      (codes "vector") true once once here here refl

guarded_header_accepted_example :
    check_with_variable error
      (codes "a.h")
      (codes "A_H_")
      (guarded (codes "A_H_") (codes "// marker" ∷ []) (codes "int x;" ∷ []) (codes "" ∷ []))
      here
    ≡ ok here
unfolding is_space words starts_with text_eq
guarded_header_accepted_example =
    guarded_header_accepted error (codes "a.h") b'A' (codes "_H_") (codes "// marker" ∷ [])
      (codes "int x;" ∷ []) (codes "" ∷ []) here (refl, (refl, (refl, (refl, tt)))) (refl, tt)
      (refl, tt)

-- int, of a text of digits at hand
abbrev read_int : Text → Option ℕ
read_int t = if text_eq t (codes "3") then some 3 else none

abbrev vs7_arguments : Option (List (Text × Text) × List Text)
vs7_arguments = some (
  (codes "--output", codes "vs7")
      ∷ (codes "--verbose", codes "3")
      ∷ (codes "--filter", codes "-build")
      ∷ [],
  codes "a.cc" ∷ [],
)

abbrev settled : World
settled = record here {
  lint = record new_lint_state {
    verbose_level = 3;
    output_format = codes "vs7";
    filters = codes "-build/include_alpha" ∷ codes "-build" ∷ [];
    counting = [];
  };
}

parsed : parse_arguments read_int vs7_arguments here ≡ ok (settled, codes "a.cc" ∷ [])
unfolding parse_arguments read_options read_option read_verbosity apply_options set_output_format
    set_verbose_level set_counting_style set_filters clean_filters check_filters is_signed split_on
    strip lstrip rstrip is_space starts_with text_eq mem_text
parsed = refl

parse_arguments-Settled_example : Settled settled × (is_empty (codes "a.cc" ∷ []) ≡ false)
unfolding mem_text text_eq
parse_arguments-Settled_example =
    parse_arguments-Settled read_int vs7_arguments here settled (codes "a.cc" ∷ []) refl parsed
