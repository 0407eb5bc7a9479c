-- ===== src/Lint/Nesting/Update.antt =====
-- `_NestingState.Update` in tools/cpplint.py: the access keywords of a line, and how
-- the parts of the update follow each other.
pub mod Fuel
use scalloc.Common.{
  ℕ, zero, suc, ◌+◌, List, [], ◌∷◌, ◌++◌, Option, none, some, Bool, true, false, not, ◌||◌, ◌&&◌,
  if◌then◌else◌, leb, ◌==◌, drop, get_or, length, every,
}
use scalloc.Common.Depth.{ℤ, pos, up, down, dec, is_zero}
use scalloc.Common.Text.{Text, codes, text_eq, count, find, is_empty}
use scalloc.Common.Regex.{
  Regex, one, alt, alts, star, group, eol, bol, boundary, lit, chr, seqs, plus, dot, blank, none_of,
  one_of, word, is_word, is_blank, match, matches, group_of, opt, Groups,
}
use scalloc.Lint.World.{Outcome, ok, raised, ◌>>=◌, World, Act, ErrorFn}
use scalloc.Lint.Cleanse.{CleansedLines, text_of}
use scalloc.Lint.Nesting.{
  Asm, no_asm, inside_asm, end_asm, block_asm, ClassInfo, Info, plain, class_info, namespace_info,
  Block, new_block, new_class, new_namespace, check_begin, check_end, parent, NestingState,
  seen_open_brace, group_length,
}
use scalloc.Lint.Nesting.Preprocessor.{update_preprocessor}
use scalloc.Lint.Nesting.Tokens.{count_parentheses, consume_braces}
use scalloc.Lint.Nesting.Heads.{consume_namespaces, consume_class, begin_block}

-- ^(.*)\b(public|private|protected|signals)(\s+(?:slots\s*)?)?:(?:[^:]|$)
abbrev re_access : Regex
re_access = seqs (
    bol
    ∷ group 1 (star dot)
    ∷ boundary
    ∷ group 2 (
        alts (lit (codes "public"))
          (lit (codes "private") ∷ lit (codes "protected") ∷ lit (codes "signals") ∷ []))
    ∷ opt (group 3 (seqs (plus blank ∷ opt (seqs (lit (codes "slots") ∷ star blank ∷ [])) ∷ [])))
    ∷ chr b':'
    ∷ alt (none_of (codes ":")) eol
    ∷ [])

-- The report on an access keyword with the wrong indentation, `^\s*$` of the text before it.
unfoldable pub check_access_indent : ErrorFn → Text → ℕ → ClassInfo → Groups → Act
unfolding group_of
check_access_indent report filename linenum c groups w =
    let indent = text_of (group_of 1 groups) in
    if not (length indent == c.class_indent + 1) && every is_blank indent
    then report filename linenum (codes "whitespace/indent") 3
        (text_of (group_of 2 groups)
          ++ (text_of (group_of 3 groups)
              ++ (codes ": should be indented +1 space inside " ++ parent c)))
        w
    else ok w

abbrev with_class : Block → ClassInfo → Block
with_class b c = record b { info = class_info c }

unfoldable pub update_access :
    ErrorFn → Text → ℕ → Text → List Block → World → Outcome (World × List Block)
unfolding match group_of
update_access report filename linenum line [] w = ok (w, [])
update_access report filename linenum line (b ∷ bs) w = elim b.info [
  | class_info c ↦ elim (match re_access line) [
    | none ↦ ok (w, b ∷ bs)
    | some found ↦ (do
      w' ← check_access_indent report filename linenum c found.groups w
      ok (w', with_class b (record c { access = text_of (group_of 2 found.groups) }) ∷ bs))
  ]
  | _ ↦ ok (w, b ∷ bs)
]

-- Update behind the preprocessor: what a line does to the stack.
unfoldable pub update_stack :
    ErrorFn → Text → CleansedLines → ℕ → List Block → World → Outcome (World × List Block)
update_stack report filename clean_lines linenum stack w = do
  let line = get_or clean_lines.elided linenum []
  let (stack₁, line₁) = consume_namespaces (length line) linenum line (count_parentheses line stack)
  let (stack₂, line₂) = consume_class clean_lines linenum stack₁ line₁
  (w', stack₃) ←
      update_access report filename linenum line₂ (begin_block clean_lines linenum stack₂) w
  consume_braces (length line₂) report filename clean_lines linenum line₂ stack₃ w'

-- Update
unfoldable pub update :
    ErrorFn → Text → CleansedLines → ℕ → NestingState → World → Outcome (World × NestingState)
unfolding update_stack
update report filename clean_lines linenum s w = do
  let s' = update_preprocessor (get_or clean_lines.elided linenum []) s
  (w', stack') ← update_stack report filename clean_lines linenum s'.stack w
  ok (w', record s' { stack = stack' })
