-- ===== src/Lint/Checks.antt =====
-- Checks of tools/cpplint.py that read a line or the whole file: the copyright line, bad characters,
-- the final newline, comments and strings over several lines, thread-unsafe calls, VLOG,
-- increments, make_pair, TODO comments and the DISALLOW macros.
pub mod FinalNewline
use scalloc.Common.{
  ℕ, suc, ◌+◌, ◌-◌, ◌%◌, List, [], ◌∷◌, ◌++◌, Option, none, some, Bool, true, false, not, ◌||◌,
  ◌&&◌, if◌then◌else◌, ltb, ◌==◌, drop, take, get_or, length, any,
}
use scalloc.Common.Text.{Text, codes, text_eq, count, find, replace, is_empty, to_lower}
use scalloc.Common.Regex.{
  Regex, one, eps, seq, alt, alts, star, few, group, eol, bol, boundary, lit, chr, seqs, plus, dot,
  blank, word, match, searches, matches, group_of, opt, mem, Groups,
}
use scalloc.Lint.World.{Outcome, ok, raised, ◌>>=◌, World, Act, ErrorFn}
use scalloc.Lint.Cleanse.{CleansedLines, text_of}
use scalloc.Lint.Nesting.{ClassInfo, Info, plain, class_info, namespace_info, Block, NestingState}

-- A literal under re.I
abbrev any_case : Text → Regex
any_case [] = eps
any_case (c ∷ s) = seq (one (λ d. to_lower d == to_lower c)) (any_case s)

-- CheckForCopyright: the lines 1 to 10
unfoldable pub check_for_copyright : ErrorFn → Text → List Text → Act
check_for_copyright report filename lines w =
    if any (searches (any_case (codes "Copyright"))) (take 10 (drop 1 lines))
    then ok w
    else report filename 0 (codes "legal/copyright") 5
        (codes
          "No copyright message found.  You should have a line: \"Copyright [year] <Copyright Owner>\"")
        w

-- The reports on one line.
unfoldable pub check_line_characters : ErrorFn → Text → ℕ → Text → Act
check_line_characters report filename linenum line w = do
  w' ←
      (if mem 0xfffd line
        then report filename linenum (codes "readability/utf8") 5
            (codes "Line contains invalid UTF-8 (or Unicode replacement character).") w
        else ok w)
  (if mem 0 line
      then report filename linenum (codes "readability/nul") 5 (codes "Line contains NUL byte.") w'
      else ok w')

-- The loop of `CheckForBadCharacters` from line `linenum` on.
unfoldable pub check_characters_from : ErrorFn → Text → ℕ → List Text → Act
unfolding check_line_characters
check_characters_from report filename linenum [] w = ok w
check_characters_from report filename linenum (line ∷ lines) w = do
  w' ← check_line_characters report filename linenum line w
  check_characters_from report filename (suc linenum) lines w'

-- CheckForBadCharacters
unfoldable pub check_for_bad_characters : ErrorFn → Text → List Text → Act
unfolding check_characters_from
check_for_bad_characters report filename lines w = check_characters_from report filename 0 lines w

-- CheckForNewlineAtEOF, of at least two lines
unfoldable pub check_for_newline_at_eof : ErrorFn → Text → List Text → Act
check_for_newline_at_eof report filename lines w =
    if ltb (length lines) 3 || not (is_empty (get_or lines (length lines - 2) []))
    then report filename (length lines - 2) (codes "whitespace/ending_newline") 5
        (codes "Could not find a newline character at the end of the file.") w
    else ok w

-- CheckForMultilineCommentsAndStrings
unfoldable pub check_for_multiline_comments_and_strings : ErrorFn → Text → CleansedLines → ℕ → Act
unfolding count replace
check_for_multiline_comments_and_strings report filename clean_lines linenum w = do
  let line = replace (get_or clean_lines.elided linenum []) (codes "\\\\") []
  w' ←
      (if ltb (count line (codes "*/")) (count line (codes "/*"))
        then report filename linenum (codes "readability/multiline_comment") 5
            (codes "Complex multi-line /*...*/-style comment found. "
              ++ (codes
                    "Lint may give bogus warnings.  Consider replacing these with //-style comments, "
                  ++ codes
                      "with #if 0...#endif, or with more clearly structured multi-line comments."))
            w
        else ok w)
  (if (count line (codes "\"") - count line (codes "\\\"")) % 2 == 1
      then report filename linenum (codes "readability/multiline_string") 5
          (codes "Multi-line string (\"...\") found.  This lint script doesn't "
            ++ (codes "do well with such strings, and may give bogus warnings.  "
                ++ codes "Use C++11 raw strings or concatenation instead."))
          w'
      else ok w')

unfoldable pub threading_list : List (Text × Text)
threading_list =
    (codes "asctime(", codes "asctime_r(")
    ∷ (codes "ctime(", codes "ctime_r(")
    ∷ (codes "getgrgid(", codes "getgrgid_r(")
    ∷ (codes "getgrnam(", codes "getgrnam_r(")
    ∷ (codes "getlogin(", codes "getlogin_r(")
    ∷ (codes "getpwnam(", codes "getpwnam_r(")
    ∷ (codes "getpwuid(", codes "getpwuid_r(")
    ∷ (codes "gmtime(", codes "gmtime_r(")
    ∷ (codes "localtime(", codes "localtime_r(")
    ∷ (codes "rand(", codes "rand_r(")
    ∷ (codes "strtok(", codes "strtok_r(")
    ∷ (codes "ttyname(", codes "ttyname_r(")
    ∷ []

-- The character before the call; the test of letters and digits, `isalnum`, is Unicode's.
unfoldable pub is_call : (ℕ → Bool) → Text → Text → Bool
unfolding find
is_call isalnum line function = elim (find line function) [
  | none ↦ false
  | some ix ↦
      ix == 0
      || (let c = get_or line (ix - 1) 0 in
          not (isalnum c) && not (c == b'_' || c == b'.' || c == b'>'))
]

unfoldable pub check_calls : (ℕ → Bool) → ErrorFn → Text → ℕ → Text → List (Text × Text) → Act
unfolding is_call
check_calls isalnum report filename linenum line [] w = ok w
check_calls isalnum report filename linenum line ((single, safe) ∷ calls) w = do
  w' ←
      (if is_call isalnum line single
        then report filename linenum (codes "runtime/threadsafe_fn") 2
            (codes "Consider using "
              ++ (safe
                  ++ (codes "...) instead of "
                      ++ (single ++ codes "...) for improved thread safety."))))
            w
        else ok w)
  check_calls isalnum report filename linenum line calls w'

-- CheckPosixThreading
unfoldable pub check_posix_threading : (ℕ → Bool) → ErrorFn → Text → CleansedLines → ℕ → Act
unfolding check_calls threading_list
check_posix_threading isalnum report filename clean_lines linenum w =
    check_calls isalnum report filename linenum (get_or clean_lines.elided linenum [])
      threading_list w

-- \bVLOG\((INFO|ERROR|WARNING|DFATAL|FATAL)\)
abbrev re_vlog : Regex
re_vlog = seqs (
    boundary
    ∷ lit (codes "VLOG(")
    ∷ group 1 (
        alts (lit (codes "INFO")) (
          lit (codes "ERROR")
          ∷ lit (codes "WARNING")
          ∷ lit (codes "DFATAL")
          ∷ lit (codes "FATAL")
          ∷ []))
    ∷ chr b')'
    ∷ [])

-- CheckVlogArguments
unfoldable pub check_vlog_arguments : ErrorFn → Text → CleansedLines → ℕ → Act
check_vlog_arguments report filename clean_lines linenum w =
    if searches re_vlog (get_or clean_lines.elided linenum [])
    then report filename linenum (codes "runtime/vlog") 5
        (codes
          "VLOG() should be used with numeric verbosity level.  Use LOG() if you want symbolic severity levels.")
        w
    else ok w

-- _RE_PATTERN_INVALID_INCREMENT, ^\s*\*\w+(\+\+|--);
abbrev re_invalid_increment : Regex
re_invalid_increment = seqs (
    bol
    ∷ star blank
    ∷ chr b'*'
    ∷ plus word
    ∷ group 1 (alt (lit (codes "++")) (lit (codes "--")))
    ∷ chr b';'
    ∷ [])

-- CheckInvalidIncrement
unfoldable pub check_invalid_increment : ErrorFn → Text → CleansedLines → ℕ → Act
check_invalid_increment report filename clean_lines linenum w =
    if matches re_invalid_increment (get_or clean_lines.elided linenum [])
    then report filename linenum (codes "runtime/invalid_increment") 5
        (codes "Changing pointer instead of value (or unused value of operator*).") w
    else ok w

-- _RE_PATTERN_EXPLICIT_MAKEPAIR, \bmake_pair\s*<
abbrev re_explicit_makepair : Regex
re_explicit_makepair = seqs (boundary ∷ lit (codes "make_pair") ∷ star blank ∷ chr b'<' ∷ [])

-- CheckMakePairUsesDeduction
unfoldable pub check_make_pair_uses_deduction : ErrorFn → Text → CleansedLines → ℕ → Act
check_make_pair_uses_deduction report filename clean_lines linenum w =
    if searches re_explicit_makepair (get_or clean_lines.elided linenum [])
    then report filename linenum (codes "build/explicit_make_pair") 4
        (codes "For C++11-compatibility, omit template arguments from make_pair"
          ++ codes " OR use pair directly OR if appropriate, construct a pair directly")
        w
    else ok w

-- _RE_PATTERN_TODO, ^//(\s*)TODO(\(.+?\))?:?(\s|$)?
abbrev re_todo : Regex
re_todo = seqs (
    bol
    ∷ lit (codes "//")
    ∷ group 1 (star blank)
    ∷ lit (codes "TODO")
    ∷ opt (group 2 (seqs (chr b'(' ∷ dot ∷ few dot ∷ chr b')' ∷ [])))
    ∷ opt (chr b':')
    ∷ opt (group 3 (alt blank eol))
    ∷ [])

abbrev is_none {ℓ} : {A : Type ℓ} → Option A → Bool
is_none none = true
is_none (some a) = false

-- middle_whitespace != ' ' and middle_whitespace != ''
abbrev bad_middle : Option Text → Bool
bad_middle none = true
bad_middle (some t) = not (text_eq t (codes " ")) && not (is_empty t)

unfoldable pub check_todo : ErrorFn → Text → ℕ → Groups → Act
unfolding group_of text_eq
check_todo report filename linenum groups w = do
  w₁ ←
      (if ltb 1 (length (text_of (group_of 1 groups)))
        then report filename linenum (codes "whitespace/todo") 2
            (codes "Too many spaces before TODO") w
        else ok w)
  w₂ ←
      (if is_none (group_of 2 groups)
        then report filename linenum (codes "readability/todo") 2
            (codes "Missing username in TODO; it should look like \"// TODO(my_username): Stuff.\"")
            w₁
        else ok w₁)
  (if bad_middle (group_of 3 groups)
      then report filename linenum (codes "whitespace/todo") 2
          (codes "TODO(my_username) should be followed by a space") w₂
      else ok w₂)

-- CheckComment
unfoldable pub check_comment : ErrorFn → Text → Text → ℕ → Act
unfolding match check_todo
check_comment report comment filename linenum w = elim (match re_todo comment) [
  | none ↦ ok w
  | some found ↦ check_todo report filename linenum found.groups w
]

abbrev re_disallow : Regex
re_disallow = seqs (
    star blank
    ∷ group 1 (
        alts (lit (codes "DISALLOW_COPY_AND_ASSIGN")) (
          lit (codes "DISALLOW_EVIL_CONSTRUCTORS")
          ∷ lit (codes "DISALLOW_IMPLICIT_CONSTRUCTORS")
          ∷ []))
    ∷ [])

unfoldable pub check_macro_access : ErrorFn → Text → ℕ → Text → List Block → Act
unfolding text_eq
check_macro_access report filename linenum macro [] w = ok w
check_macro_access report filename linenum macro (b ∷ bs) w = elim b.info [
  | class_info c ↦
      if text_eq c.access (codes "private")
      then ok w
      else report filename linenum (codes "readability/constructors") 3
          (macro ++ codes " must be in the private: section") w
  | _ ↦ ok w
]

-- CheckAccess
unfoldable pub check_access : ErrorFn → Text → CleansedLines → ℕ → NestingState → Act
unfolding match group_of check_macro_access
check_access report filename clean_lines linenum s w =
    elim (match re_disallow (get_or clean_lines.elided linenum [])) [
      | none ↦ ok w
      | some found ↦
          check_macro_access report filename linenum (text_of (group_of 1 found.groups)) s.stack w
    ]
