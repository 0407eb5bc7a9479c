-- ===== src/Lint/Nesting/Heads.antt =====
-- The namespaces and the class at the head of a line in `_NestingState.Update` of tools/cpplint.py.
use scalloc.Common.{
  ℕ, zero, suc, List, [], ◌∷◌, none, some, Bool, true, ◌||◌, ◌&&◌, if◌then◌else◌, leb, ◌==◌, drop,
}
use scalloc.Common.Depth.{is_zero}
use scalloc.Common.Text.{Text, codes, find}
use scalloc.Common.Regex.{
  Regex, one, alt, alts, star, group, eol, bol, boundary, lit, chr, seqs, plus, dot, blank, none_of,
  word, is_word, is_blank, match, group_of, opt, Groups,
}
use scalloc.Lint.Cleanse.{CleansedLines, text_of}
use scalloc.Lint.Nesting.{Block, new_class, new_namespace, check_begin}
use scalloc.Lint.Nesting.Tokens.{with_brace}

-- ^\s*namespace\b\s*([:\w]+)?(.*)$
abbrev pub re_namespace : Regex
re_namespace = seqs (
    bol
    ∷ star blank
    ∷ lit (codes "namespace")
    ∷ boundary
    ∷ star blank
    ∷ opt (group 1 (plus (one (λ c. c == b':' || is_word c))))
    ∷ group 2 (star dot)
    ∷ eol
    ∷ [])

-- One namespace declaration, and the text behind it or behind its brace.
unfoldable pub push_namespace : ℕ → Groups → List Block → List Block × Text
unfolding group_of find
push_namespace linenum groups stack =
    let block = new_namespace (group_of 1 groups) linenum in
    let rest = text_of (group_of 2 groups) in
    elim (find rest (codes "{")) [
      | none ↦ (block ∷ stack, rest)
      | some i ↦ (with_brace block ∷ stack, drop (suc i) rest)
    ]

-- The loop over the namespaces of a line; a round reads at least the word, so there are no more
-- rounds than characters.
unfoldable pub consume_namespaces : ℕ → ℕ → Text → List Block → List Block × Text
unfolding match
consume_namespaces zero linenum line stack = (stack, line)
consume_namespaces (suc fuel) linenum line stack = elim (match re_namespace line) [
  | none ↦ (stack, line)
  | some found ↦
      consume_namespaces fuel linenum ((push_namespace linenum found.groups stack).1)
        ((push_namespace linenum found.groups stack).0)
]

-- [A-Z_]
abbrev is_upper : ℕ → Bool
is_upper c = (leb b'A' c && leb c b'Z') || c == b'_'

abbrev not_angle : Regex
not_angle = none_of (codes "<>")

-- \s*(template\s*<[\w\s<>,:]*>\s*)?(class|struct)\s+([A-Z_]+\s+)*(\w+(?:::\w+)*)
-- (([^=>]|<[^<>]*>|<[^<>]*<[^<>]*>\s*>)*)$
abbrev re_class : Regex
re_class = seqs (
    star blank
    ∷ opt (
        group 1 (
          seqs (
            lit (codes "template")
            ∷ star blank
            ∷ chr b'<'
            ∷ star (
                one (λ c.
                  is_word c || is_blank c || c == b'<' || c == b'>' || c == b',' || c == b':'))
            ∷ chr b'>'
            ∷ star blank
            ∷ [])))
    ∷ group 2 (alt (lit (codes "class")) (lit (codes "struct")))
    ∷ plus blank
    ∷ star (group 3 (seqs (plus (one is_upper) ∷ plus blank ∷ [])))
    ∷ group 4 (seqs (plus word ∷ star (seqs (lit (codes "::") ∷ plus word ∷ [])) ∷ []))
    ∷ group 5 (
        star (
          group 6 (
            alts (none_of (codes "=>")) (
              seqs (chr b'<' ∷ star not_angle ∷ chr b'>' ∷ [])
              ∷ seqs (
                  chr b'<'
                  ∷ star not_angle
                  ∷ chr b'<'
                  ∷ star not_angle
                  ∷ chr b'>'
                  ∷ star blank
                  ∷ chr b'>'
                  ∷ [])
              ∷ []))))
    ∷ eol
    ∷ [])

abbrev no_open_parentheses : List Block → Bool
no_open_parentheses [] = true
no_open_parentheses (b ∷ bs) = is_zero b.open_parentheses

-- The class or struct at the head of what is left of the line.
unfoldable pub consume_class : CleansedLines → ℕ → List Block → Text → List Block × Text
unfolding match group_of
consume_class clean_lines linenum stack line = elim (match re_class line) [
  | none ↦ (stack, line)
  | some found ↦
      if no_open_parentheses stack
      then (
        new_class (text_of (group_of 4 found.groups)) (text_of (group_of 2 found.groups))
              clean_lines linenum
            ∷ stack,
        text_of (group_of 5 found.groups),
      )
      else (stack, line)
]

-- if not self.SeenOpenBrace(): self.stack[-1].CheckBegin(...)
unfoldable pub begin_block : CleansedLines → ℕ → List Block → List Block
begin_block clean_lines linenum [] = []
begin_block clean_lines linenum (b ∷ bs) =
    if b.seen_open_brace then b ∷ bs else check_begin clean_lines linenum b ∷ bs
