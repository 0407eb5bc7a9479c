-- ===== src/Lint/Tests/Blocks.antt =====
-- Functions, blocks and single checks of tools/cpplint.py, on small inputs.
use scalloc.Common.{
  ℕ, ◌≤◌, ◌*◌, ◌^◌, [], ◌∷◌, ◌++◌, none, true, ◌≡◌, ◌⊎◌, refl, length, if◌then◌else◌, ◌==◌, arith,
}
use scalloc.Common.Text.{Text, codes, split_on}
use scalloc.Common.Depth.{pos}
use scalloc.Common.Regex.{match, match_at, run}
use scalloc.Lint.World.{ok, World}
use scalloc.Lint.Report.{error, new_lint_state}
use scalloc.Lint.Cleanse.{CleansedLines}
use scalloc.Lint.Functions.{FunctionState, check}
use scalloc.Lint.Functions.Level.{test_or_normal, Reported, check_lem}
use scalloc.Lint.Nesting.{Asm, plain, new_nesting_state}
use scalloc.Lint.Nesting.Preprocessor.{directive}
use scalloc.Lint.Nesting.Preprocessor.Conditionals.{
  Code, Kind, Effect, read, first_branches, read-first_branches,
}
use scalloc.Lint.Nesting.Heads.{re_namespace, consume_namespaces}
use scalloc.Lint.Nesting.Update.Fuel.{consume_namespaces_exits}
use scalloc.Lint.Checks.{check_for_newline_at_eof}
use scalloc.Lint.Checks.FinalNewline.{marked_lines, complaint, check_for_newline_at_eof_lem}
use Code.{done, plain_line, section, branch}

abbrev idle : World
idle = record {
  suppressions = [];
  lint = new_lint_state;
  stderr = [];
  root = none;
  line_length = 80;
  valid_extensions = [];
}

abbrev long_function : FunctionState
long_function = record {
  in_a_function = true;
  lines_in_function = 1100;
  current_function = codes "f()";
}

check_lem_example :
    ((1100 ≤ test_or_normal long_function * 2 ^ 1)
      × (check error (codes "a.cc") 9 long_function idle ≡ ok idle))
    ⊎ ((level : ℕ) × Reported error (codes "a.cc") 9 long_function idle level)
check_lem_example = check_lem error (codes "a.cc") 9 long_function idle

abbrev push_plain : Effect
push_plain stack =
    record {
      seen_open_brace = true;
      open_parentheses = pos 0;
      inline_asm = Asm.no_asm;
      info = plain;
    }
    ∷ stack

abbrev keep : Effect
keep stack = stack

-- Both branches open a brace.
swig_section : Code Kind.body
unfolding directive match match_at run
swig_section =
    section (codes "#ifdef SWIG") refl keep (plain_line (codes "struct A {") refl push_plain done)
      (branch (codes "#else") refl keep (plain_line (codes "struct A : B {") refl push_plain done)
        done)
      (codes "#endif") refl keep done

read-first_branches_example :
    read swig_section new_nesting_state
    ≡ record { stack = first_branches swig_section []; pp_stack = [] }
read-first_branches_example = read-first_branches swig_section new_nesting_state

consume_namespaces_exits_example :
    match re_namespace ((consume_namespaces 30 1 (codes "namespace a { namespace b {") []).1) ≡ none
consume_namespaces_exits_example =
    consume_namespaces_exits 30 1 (codes "namespace a { namespace b {") [] (omega arith)

abbrev no_lines : CleansedLines
no_lines = record {
  elided = [];
  lines = [];
  raw_lines = [];
  num_lines = 0;
  lines_without_raw_strings = [];
}

check_for_newline_at_eof_lem_example :
    (check_for_newline_at_eof error (codes "a.cc") (marked_lines (codes "//") (codes "//") []) idle
      ≡ ok idle)
    × ((t : Text) (x : ℕ)
        → check_for_newline_at_eof error
            (codes "a.cc")
            (marked_lines (codes "//") (codes "//") (t ++ x ∷ []))
            idle
          ≡ (if x == b'\n'
              then ok idle
              else complaint error (codes "a.cc") (length (split_on b'\n' (t ++ x ∷ []))) idle))
check_for_newline_at_eof_lem_example =
    check_for_newline_at_eof_lem error (codes "a.cc") (codes "//") (codes "//") idle
