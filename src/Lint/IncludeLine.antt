-- ===== src/Lint/IncludeLine.antt =====
-- `_ClassifyInclude` and `CheckIncludeLine` in tools/cpplint.py. The name that `RepositoryName` returns
-- for the file is the argument `repository`.
pub mod Records
use scalloc.Common.{
  ℕ, List, [], ◌∷◌, ◌++◌, Option, none, some, Bool, true, false, not, ◌||◌, ◌&&◌, if◌then◌else◌,
  get_or, ◌==◌,
}
use scalloc.Common.Text.{Text, codes, text_eq, mem_text, is_empty, show}
use scalloc.Common.Dict.{get, put, text_key}
use scalloc.Common.Regex.{
  Regex, eps, alts, group, star, plus, lit, chr, none_of, seqs, eol, opt, match, matches, search_re,
  searches, group_of, Groups,
}
use scalloc.Lint.World.{Outcome, ok, raised, ◌>>=◌, World, Act, ErrorFn}
use scalloc.Lint.Tables.{cpp_headers}
use scalloc.Lint.Cleanse.{CleansedLines, text_of, re_include}
use scalloc.Lint.Include.{
  HeaderType, c_sys_header, cpp_sys_header, likely_my_header, possible_my_header, other_header,
  IncludeState, check_next_include_order, canonicalize_alphabetical_order, is_in_alphabetical_order,
  set_last_header,
}
use scalloc.Lint.Paths.{drop_common_suffixes, is_test_filename, base_name}
use scalloc.Lint.OsPath.{split_path, normpath}

-- _RE_FIRST_COMPONENT, ^[^-_.]+, of which the code uses the whole match; empty where it fails
unfoldable pub first_component : Text → Text
first_component [] = []
first_component (c ∷ s) =
    let rest = first_component s in if c == b'-' || c == b'_' || c == b'.' then [] else c ∷ rest

-- _ClassifyInclude
unfoldable pub classify_include : Text → Text → Bool → HeaderType
unfolding first_component drop_common_suffixes split_path normpath mem_text text_eq
classify_include repository include true =
    if mem_text include cpp_headers then cpp_sys_header else c_sys_header
classify_include repository include false =
    let target = split_path (drop_common_suffixes repository) in
    let header = split_path (drop_common_suffixes include) in
    let component = first_component (target.1) in
    if text_eq (target.1) (header.1)
      && (text_eq (header.0) (target.0)
          || text_eq (header.0) (normpath (target.0 ++ codes "/../public")))
    then likely_my_header
    else if not (is_empty component) && text_eq component (first_component (header.1))
    then possible_my_header
    else other_header

-- _RE_PATTERN_INCLUDE_NEW_STYLE, #include +"[^/]+\.h"
abbrev re_include_new_style : Regex
re_include_new_style = seqs (
    lit (codes "#include")
    ∷ plus (chr b' ')
    ∷ chr b'"'
    ∷ plus (none_of (codes "/"))
    ∷ lit (codes ".h\"")
    ∷ [])

-- (f|ind|io|i|o|parse|pf|stdio|str|)?stream$
abbrev re_stream : Regex
re_stream = seqs (
    opt (
      group 1 (
        alts (lit (codes "f")) (
          lit (codes "ind")
          ∷ lit (codes "io")
          ∷ lit (codes "i")
          ∷ lit (codes "o")
          ∷ lit (codes "parse")
          ∷ lit (codes "pf")
          ∷ lit (codes "stdio")
          ∷ lit (codes "str")
          ∷ eps
          ∷ [])))
    ∷ lit (codes "stream")
    ∷ eol
    ∷ [])

unfoldable pub order_message : Text → Text → Text
unfolding base_name
order_message message repository =
    message
    ++ (codes ". Should be: " ++ (base_name repository ++ codes ".h, c system, c++ system, other."))

unfoldable pub report_order : ErrorFn → Text → Text → ℕ → Text → Act
unfolding order_message
report_order report filename repository linenum message w =
    if is_empty message
    then ok w
    else report filename linenum (codes "build/include_order") 4 (order_message message repository)
        w

unfoldable pub report_alpha : ErrorFn → Text → CleansedLines → ℕ → Text → IncludeState → Act
report_alpha report filename clean_lines linenum include s w =
    if is_in_alphabetical_order clean_lines.elided linenum (canonicalize_alphabetical_order include)
      s
    then ok w
    else report filename linenum (codes "build/include_alpha") 4
        (codes "Include \"" ++ (include ++ codes "\" not in alphabetical order")) w

-- The state and the message of the order check, the include being recorded.
unfoldable pub enter_include : Text → ℕ → Text → Bool → IncludeState → IncludeState × Text
unfolding put
enter_include repository linenum include is_system s =
    check_next_include_order (classify_include repository include is_system)
      (record s { lines = put include linenum s.lines })

-- An include that the file has not had before.
unfoldable pub check_new_include :
    ErrorFn
    → Text
    → Text
    → CleansedLines
    → ℕ
    → Text
    → Bool
    → IncludeState
    → World
    → Outcome (World × IncludeState)
unfolding report_order report_alpha enter_include
check_new_include report filename repository clean_lines linenum include is_system s w = do
  let entered = enter_include repository linenum include is_system s
  w₁ ← report_order report filename repository linenum (entered.1) w
  w₂ ← report_alpha report filename clean_lines linenum include (entered.0) w₁
  ok (w₂, set_last_header (canonicalize_alphabetical_order include) (entered.0))

unfoldable pub report_again : ErrorFn → Text → ℕ → Text → ℕ → Act
unfolding show
report_again report filename linenum include line w =
    report filename linenum (codes "build/include") 4
      (b'"' ∷ include ++ (codes "\" already included at " ++ (filename ++ b':' ∷ show line))) w

-- The branches on `include in include_state`.
unfoldable pub check_include :
    ErrorFn
    → Text
    → Text
    → CleansedLines
    → ℕ
    → Text
    → Bool
    → IncludeState
    → World
    → Outcome (World × IncludeState)
unfolding get report_again
check_include report filename repository clean_lines linenum include is_system s w =
    elim (get include s.lines) [
      | some line ↦ (do w' ← report_again report filename linenum include line w; ok (w', s))
      | none ↦
          check_new_include report filename repository clean_lines linenum include is_system s w
    ]

unfoldable pub check_match :
    ErrorFn
    → Text
    → Text
    → CleansedLines
    → ℕ
    → Text
    → IncludeState
    → World
    → Outcome (World × IncludeState)
unfolding search_re group_of check_include text_eq
check_match report filename repository clean_lines linenum line s w =
    elim (search_re re_include line) [
      | none ↦ ok (w, s)
      | some found ↦
          check_include report filename repository clean_lines linenum
            (text_of (group_of 2 found.groups))
            (text_eq (text_of (group_of 1 found.groups)) (codes "<")) s w
    ]

unfoldable pub check_streams : ErrorFn → Text → ℕ → Text → Act
unfolding match group_of is_test_filename
check_streams report filename linenum line w = elim (match re_include line) [
  | none ↦ ok w
  | some found ↦
      if matches re_stream (text_of (group_of 2 found.groups)) && not (is_test_filename filename)
      then report filename linenum (codes "readability/streams") 3
          (codes "Streams are highly discouraged.") w
      else ok w
]

-- CheckIncludeLine
unfoldable pub check_include_line :
    ErrorFn
    → Text
    → Text
    → CleansedLines
    → ℕ
    → IncludeState
    → World
    → Outcome (World × IncludeState)
unfolding check_match check_streams
check_include_line report filename repository clean_lines linenum s w = do
  let line = get_or clean_lines.lines linenum []
  w₁ ←
      (if searches re_include_new_style line
        then report filename linenum (codes "build/include") 4
            (codes "Include the directory when naming .h files") w
        else ok w)
  (w₂, s') ← check_match report filename repository clean_lines linenum line s w₁
  w₃ ← check_streams report filename linenum line w₂
  ok (w₃, s')
