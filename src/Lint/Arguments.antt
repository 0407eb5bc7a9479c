-- ===== src/Lint/Arguments.antt =====
-- `PrintUsage`, `PrintCategories` and `ParseArguments` in tools/cpplint.py. The result of
-- `getopt.getopt` is the argument `parsed`, `none` for a GetoptError; what `int` makes of a text is
-- `int`, `none` for a ValueError. A call that exits keeps its message and not what it wrote before.
pub mod Valid
use scalloc.Common.{
  ℕ, List, [], ◌∷◌, ◌++◌, Option, none, some, Bool, true, false, not, if◌then◌else◌,
}
use scalloc.Common.Text.{Text, codes, text_eq, mem_text, is_empty, split_on}
use scalloc.Lint.World.{
  Outcome, ok, raised, ◌>>=◌, Exn, exit_message, exit_code, value_error, LintState, World,
}
use scalloc.Lint.Filters.{set_filters}
use scalloc.Lint.Report.{set_output_format, set_verbose_level, set_counting_style}

-- PrintUsage
unfoldable pub print_usage {ℓ} : {A : Type ℓ} → Option Text → Outcome A
print_usage none = raised (exit_code 1)
print_usage (some message) = raised (exit_message (codes "\nFATAL ERROR: " ++ message))

-- PrintCategories
unfoldable pub print_categories {ℓ} : {A : Type ℓ} → Outcome A
print_categories = raised (exit_code 0)

abbrev pub output_formats : List Text
output_formats = codes "emacs" ∷ codes "vs7" ∷ codes "eclipse" ∷ []

abbrev pub counting_styles : List Text
counting_styles = codes "total" ∷ codes "toplevel" ∷ codes "detailed" ∷ []

-- The local variables of `ParseArguments`, and the module state that its loop sets.
pub record Options : Type 0 where
  pub verbosity : ℕ
  pub output_format : Text
  pub filters : Text
  pub counting_style : Text
  pub world : World

-- The settings behind the loop.
unfoldable pub apply_options : Options → Outcome World
unfolding set_output_format set_verbose_level set_counting_style set_filters
apply_options o = do
  let s = (set_verbose_level o.verbosity (set_output_format o.output_format o.world.lint)).0
  s' ← set_filters o.filters s
  ok (record o.world { lint = set_counting_style o.counting_style s' })

module _ (int : Text → Option ℕ) where
  unfoldable pub read_verbosity : Text → Options → Outcome Options
  read_verbosity val o = elim (int val) [
    | none ↦ raised (value_error val)
    | some n ↦ ok (record o { verbosity = n })
  ]

  unfoldable pub read_line_length : Text → Options → Outcome Options
  unfolding print_usage
  read_line_length val o = elim (int val) [
    | none ↦ print_usage (some (codes "Line length must be digits."))
    | some n ↦ ok (record o { world = record o.world { line_length = n } })
  ]

  -- One round of the loop over the options.
  unfoldable pub read_option : Text → Text → Options → Outcome Options
  unfolding text_eq mem_text split_on print_usage print_categories read_verbosity read_line_length
  read_option opt val o =
      if text_eq opt (codes "--help")
      then print_usage none
      else if text_eq opt (codes "--output")
      then (if mem_text val output_formats
          then ok (record o { output_format = val })
          else print_usage
              (some (codes "The only allowed output formats are emacs, vs7 and eclipse.")))
      else if text_eq opt (codes "--verbose")
      then read_verbosity val o
      else if text_eq opt (codes "--filter")
      then (if is_empty val then print_categories else ok (record o { filters = val }))
      else if text_eq opt (codes "--counting")
      then (if mem_text val counting_styles
          then ok (record o { counting_style = val })
          else print_usage
              (some (codes "Valid counting options are total, toplevel, and detailed")))
      else if text_eq opt (codes "--root")
      then ok (record o { world = record o.world { root = some val } })
      else if text_eq opt (codes "--linelength")
      then read_line_length val o
      else if text_eq opt (codes "--extensions")
      then ok (record o { world = record o.world { valid_extensions = split_on b',' val } })
      else ok o

  unfoldable pub read_options : List (Text × Text) → Options → Outcome Options
  unfolding read_option
  read_options [] o = ok o
  read_options ((opt, val) ∷ opts) o = do o' ← read_option opt val o; read_options opts o'

  -- ParseArguments
  unfoldable pub parse_arguments :
      Option (List (Text × Text) × List Text) → World → Outcome (World × List Text)
  unfolding read_options apply_options print_usage
  parse_arguments none w = print_usage (some (codes "Invalid arguments."))
  parse_arguments (some (opts, filenames)) w = do
    o ← read_options opts (record {
      verbosity = w.lint.verbose_level;
      output_format = w.lint.output_format;
      filters = [];
      counting_style = [];
      world = w;
    })
    w' ←
        (if is_empty filenames
          then print_usage (some (codes "No files were specified."))
          else apply_options o)
    ok (w', filenames)
