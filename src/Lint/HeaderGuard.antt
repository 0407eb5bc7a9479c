-- ===== src/Lint/HeaderGuard.antt =====
-- `GetHeaderGuardCPPVariable` and `CheckForHeaderGuard` in tools/cpplint.py. What Python's `re` makes of
-- the flag --root is the argument `compile`.
pub mod Accepted
use mathlib.Core.Option
use scalloc.Common.{
  ℕ, suc, ◌+◌, ◌-◌, List, [], ◌∷◌, ◌++◌, map, Option, none, some, Bool, true, false, not, ◌||◌,
  ◌&&◌, if◌then◌else◌, get_or, ◌==◌, leb, take, length,
}
use scalloc.Common.Text.{Text, codes, text_eq, words, starts_with, is_empty, to_upper}
use scalloc.Common.Regex.{
  Regex, seq, bol, eol, group, star, none_of, lit, chr, seqs, sub, search_re, group_of, is_blank,
}
use scalloc.Lint.World.{Outcome, ok, raised, ◌>>=◌, World, Act, ErrorFn}
use scalloc.Lint.Cleanse.{text_of}
use scalloc.Lint.Report.{parse_nolint_suppressions}
use scalloc.Lint.Paths.{repository_name}
use scalloc.Lint.OsPath.{Host}

-- /\.flymake/([^/]*)$
abbrev re_flymake : Regex
re_flymake = seqs (lit (codes "/.flymake/") ∷ group 1 (star (none_of (codes "/"))) ∷ eol ∷ [])

-- The two substitutions for Emacs's flymake; the second one can only match the end of the name.
unfoldable pub restored_filename : Text → Text
unfolding sub search_re group_of
restored_filename filename =
    let name = sub (seqs (lit (codes "_flymake.h") ∷ eol ∷ [])) (codes ".h") filename in
    elim (search_re re_flymake name) [
      | none ↦ name
      | some found ↦
          let base = text_of (group_of 1 found.groups) in
          take (length name - (length base + 10)) name ++ b'/' ∷ base
    ]

abbrev guard_character : ℕ → ℕ
guard_character c = to_upper (if c == b'-' || c == b'.' || c == b'/' || is_blank c then b'_' else c)

-- The variable, from the name that `RepositoryName` returns.
unfoldable pub guard_variable : (Text → Regex) → Option Text → Text → Text
unfolding sub
guard_variable compile root repository =
    let path =
      if is_empty (text_of root)
      then repository
      else sub (seq bol (seq (compile (text_of root)) (chr b'/'))) [] repository in
    map guard_character path ++ codes "_"

-- GetHeaderGuardCPPVariable
unfoldable pub get_header_guard_cpp_variable :
    (Text → Regex) → Host → Option Text → Text → Option Text
unfolding restored_filename guard_variable
get_header_guard_cpp_variable compile h root filename =
    Option.map (guard_variable compile root) (repository_name h (restored_filename filename))

pub record Guards : Type 0 where
  pub ifndef : Option Text
  pub ifndef_linenum : ℕ
  pub define : Option Text
  pub endif : Option Text
  pub endif_linenum : ℕ

abbrev no_guards : Guards
no_guards = record {
  ifndef = none;
  ifndef_linenum = 0;
  define = none;
  endif = none;
  endif_linenum = 0;
}

-- The first #ifndef and the first #define of a line of at least two words.
unfoldable pub see_words : ℕ → List Text → Guards → Guards
unfolding text_eq
see_words linenum (directive ∷ name ∷ rest) g =
    let g' = elim g.ifndef as (λ _. Guards) [
      | some v ↦ g
      | none ↦
          if text_eq directive (codes "#ifndef")
          then record g { ifndef = some name; ifndef_linenum = linenum }
          else g
    ] in
    elim g'.define [
      | some v ↦ g'
      | none ↦ if text_eq directive (codes "#define") then record g' { define = some name } else g'
    ]
see_words linenum _ g = g

unfoldable pub see_line : ℕ → Text → Guards → Guards
unfolding words starts_with
see_line linenum line g =
    let g' = see_words linenum (words line) g in
    if starts_with line (codes "#endif")
    then record g' { endif = some line; endif_linenum = linenum }
    else g'

-- The loop over the lines.
unfoldable pub see_lines : ℕ → List Text → Guards → Guards
unfolding see_line
see_lines linenum [] g = g
see_lines linenum (line ∷ lines) g = see_lines (suc linenum) lines (see_line linenum line g)

-- A report on a line, at level 0 for the form that is still accepted, behind the NOLINT of the line.
unfoldable pub report_style : ErrorFn → Text → List Text → ℕ → Bool → Text → Act
report_style report filename lines linenum tolerated message w = do
  w' ← parse_nolint_suppressions report filename (get_or lines linenum []) linenum w
  report filename linenum (codes "build/header_guard") (if tolerated then 0 else 5) message w'

unfoldable pub endif_line : Text → Text
endif_line cppvar = codes "#endif  // " ++ cppvar

abbrev is_line : Option Text → Text → Bool
is_line none line = false
is_line (some endif) line = text_eq endif line

unfoldable pub check_endif : ErrorFn → Text → Text → List Text → Guards → Act
unfolding endif_line report_style text_eq
check_endif report filename cppvar lines g w =
    if is_line g.endif (endif_line cppvar)
    then ok w
    else report_style report filename lines g.endif_linenum
        (is_line g.endif (endif_line (cppvar ++ codes "_")))
        (codes "#endif line should be \"#endif  // " ++ (cppvar ++ codes "\"")) w

unfoldable pub check_ifndef : ErrorFn → Text → Text → List Text → Guards → Text → Act
unfolding report_style text_eq
check_ifndef report filename cppvar lines g ifndef w =
    if text_eq ifndef cppvar
    then ok w
    else report_style report filename lines g.ifndef_linenum (text_eq ifndef (cppvar ++ codes "_"))
        (codes "#ifndef header guard has wrong style, please use: " ++ cppvar) w

abbrev complain : ErrorFn → Text → Text → Text → Act
complain report filename message cppvar w =
    report filename 0 (codes "build/header_guard") 5
      (message ++ (codes ", suggested CPP variable is: " ++ cppvar)) w

-- What follows the loop, given what it has seen.
unfoldable pub check_guards : ErrorFn → Text → Text → List Text → Guards → Act
unfolding check_ifndef check_endif text_eq
check_guards report filename cppvar lines g w = elim g.ifndef [
  | none ↦ complain report filename (codes "No #ifndef header guard found") cppvar w
  | some ifndef ↦ elim g.define [
    | none ↦ complain report filename (codes "No #define header guard found") cppvar w
    | some define ↦ (do
      w' ← check_ifndef report filename cppvar lines g ifndef w
      (if text_eq define ifndef
          then check_endif report filename cppvar lines g w'
          else complain report filename (codes "#ifndef and #define don't match") cppvar w'))
  ]
]

-- CheckForHeaderGuard, given the variable
unfoldable pub check_with_variable : ErrorFn → Text → Text → List Text → Act
unfolding see_lines check_guards
check_with_variable report filename cppvar lines w =
    check_guards report filename cppvar lines (see_lines 0 lines no_guards) w

-- CheckForHeaderGuard; `none` where `RepositoryName` does not return
unfoldable pub check_for_header_guard :
    (Text → Regex) → Host → ErrorFn → Text → List Text → World → Option (Outcome World)
unfolding get_header_guard_cpp_variable check_with_variable
check_for_header_guard compile h report filename lines w =
    Option.map (λ cppvar. check_with_variable report filename cppvar lines w)
      (get_header_guard_cpp_variable compile h w.root filename)
