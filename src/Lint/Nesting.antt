-- ===== src/Lint/Nesting.antt =====
-- The blocks that tools/cpplint.py tracks: `_BlockInfo`, `_ClassInfo`, `_NamespaceInfo`,
-- `_PreprocessorInfo`, and the queries of `_NestingState`.
pub mod Preprocessor
pub mod Tokens
pub mod Heads
pub mod Update
use scalloc.Common.{
  ℕ, zero, suc, ◌+◌, ◌-◌, List, [], ◌∷◌, ◌++◌, Option, none, some, Bool, true, false, not, ◌||◌,
  ◌&&◌, if◌then◌else◌, ltb, ◌==◌, drop, get_or, length,
}
use scalloc.Common.Depth.{ℤ, pos, up, down, is_zero}
use scalloc.Common.Text.{Text, codes, text_eq, count, is_empty}
use scalloc.Common.Regex.{
  Regex, one, alt, star, group, eol, bol, boundary, lit, chr, seqs, plus, dot, blank, not_blank,
  none_of, one_of, is_blank, match, matches, searches, group_of, opt,
}
use scalloc.Lint.World.{Outcome, ok, raised, ◌>>=◌, World, Act, ErrorFn}
use scalloc.Lint.Cleanse.{CleansedLines, text_of}

-- _NO_ASM, _INSIDE_ASM, _END_ASM, _BLOCK_ASM
pub data Asm : Type 0 where
  no_asm : Asm
  inside_asm : Asm
  end_asm : Asm
  block_asm : Asm

pub record ClassInfo : Type 0 where
  pub name : Text
  pub starting_linenum : ℕ
  pub is_derived : Bool
  pub access : Text
  pub is_struct : Bool
  pub class_indent : ℕ
  pub last_line : ℕ

pub record NamespaceInfo : Type 0 where
  pub name : Text
  pub starting_linenum : ℕ

-- What a subclass of `_BlockInfo` adds.
pub data Info : Type 0 where
  plain : Info
  class_info : ClassInfo → Info
  namespace_info : NamespaceInfo → Info

pub record Block : Type 0 where
  pub seen_open_brace : Bool
  pub open_parentheses : ℤ
  pub inline_asm : Asm
  pub info : Info

-- _BlockInfo.__init__
unfoldable pub new_block : Bool → Info → Block
new_block seen_open_brace info = record {
  seen_open_brace = seen_open_brace;
  open_parentheses = pos 0;
  inline_asm = no_asm;
  info = info;
}

-- The search for the line on which the braces from the head of the class on are balanced.
unfoldable pub class_last_line : ℕ → ℤ → List Text → ℕ
unfolding count
class_last_line i depth [] = 0
class_last_line i depth (line ∷ lines) =
    let depth' = down (count line (codes "}")) (up (count line (codes "{")) depth) in
    let rest = class_last_line (suc i) depth' lines in if is_zero depth' then i else rest

-- ^( *)\S
abbrev re_indent : Regex
re_indent = seqs (bol ∷ group 1 (star (chr b' ')) ∷ not_blank ∷ [])

abbrev pub group_length : Option Text → ℕ
group_length none = 0
group_length (some t) = length t

unfoldable pub indent_of : Text → ℕ
unfolding match group_of
indent_of line = elim (match re_indent line) [
  | none ↦ 0
  | some found ↦ group_length (group_of 1 found.groups)
]

-- _ClassInfo.__init__
unfoldable pub new_class : Text → Text → CleansedLines → ℕ → Block
unfolding text_eq new_block class_last_line indent_of
new_class name class_or_struct clean_lines linenum =
    let is_struct = text_eq class_or_struct (codes "struct") in
    new_block false (
      class_info (record {
        name = name;
        starting_linenum = linenum;
        is_derived = false;
        access = if is_struct then codes "public" else codes "private";
        is_struct = is_struct;
        class_indent = indent_of (get_or clean_lines.raw_lines linenum []);
        last_line = class_last_line linenum (pos 0) (drop linenum clean_lines.elided);
      }))

-- _NamespaceInfo.__init__
unfoldable pub new_namespace : Option Text → ℕ → Block
unfolding new_block
new_namespace name linenum =
    new_block false (namespace_info (record { name = text_of name; starting_linenum = linenum }))

-- (^|[^:]):($|[^:])
abbrev re_bare_colon : Regex
re_bare_colon = seqs (
    group 1 (alt bol (none_of (codes ":")))
    ∷ chr b':'
    ∷ group 2 (alt eol (none_of (codes ":")))
    ∷ [])

-- CheckBegin, of a class; that of the other blocks does nothing
unfoldable pub check_begin : CleansedLines → ℕ → Block → Block
check_begin clean_lines linenum b = elim b.info [
  | plain ↦ b
  | class_info c ↦
      if searches re_bare_colon (get_or clean_lines.elided linenum [])
      then record b { info = class_info (record c { is_derived = true }) }
      else b
  | namespace_info n ↦ b
]

-- 'struct ' + name or 'class ' + name
abbrev pub parent : ClassInfo → Text
parent c = (if c.is_struct then codes "struct " else codes "class ") ++ c.name

-- ^( *)\}
abbrev re_closing_brace : Regex
re_closing_brace = seqs (bol ∷ group 1 (star (chr b' ')) ∷ chr b'}' ∷ [])

-- _ClassInfo.CheckEnd
unfoldable pub check_class_end : ErrorFn → Text → CleansedLines → ℕ → ClassInfo → Act
unfolding match group_of
check_class_end report filename clean_lines linenum c w =
    elim (match re_closing_brace (get_or clean_lines.elided linenum [])) [
      | none ↦ ok w
      | some found ↦
          if group_length (group_of 1 found.groups) == c.class_indent
          then ok w
          else report filename linenum (codes "whitespace/indent") 3
              (codes "Closing brace should be aligned with beginning of " ++ parent c) w
    ]

-- };*\s*(//|/\*).*\bnamespace
abbrev re_namespace_comment : List Regex → Regex
re_namespace_comment rest = seqs (
    chr b'}'
    ∷ star (chr b';')
    ∷ star blank
    ∷ group 1 (alt (lit (codes "//")) (lit (codes "/*")))
    ∷ star dot
    ∷ boundary
    ∷ lit (codes "namespace")
    ∷ rest)

-- [\*/\.\\\s]*$
abbrev comment_tail : List Regex
comment_tail =
    star (one (λ c. c == b'*' || c == b'/' || c == b'.' || c == b'\\' || is_blank c)) ∷ eol ∷ []

-- _NamespaceInfo.CheckEnd
unfoldable pub check_namespace_end : ErrorFn → Text → CleansedLines → ℕ → NamespaceInfo → Act
check_namespace_end report filename clean_lines linenum n w =
    let line = get_or clean_lines.raw_lines linenum [] in
    if ltb (linenum - n.starting_linenum) 10
      && not (matches (re_namespace_comment (boundary ∷ [])) line)
    then ok w
    else if not (is_empty n.name)
    then (if matches (re_namespace_comment (plus blank ∷ lit n.name ∷ comment_tail)) line
        then ok w
        else report filename linenum (codes "readability/namespace") 5
            (codes "Namespace should be terminated with \"// namespace " ++ (n.name ++ codes "\""))
            w)
    else if matches (re_namespace_comment comment_tail) line
    then ok w
    else report filename linenum (codes "readability/namespace") 5
        (codes "Namespace should be terminated with \"// namespace\"") w

unfoldable pub check_end : ErrorFn → Text → CleansedLines → ℕ → Block → Act
check_end report filename clean_lines linenum b w = elim b.info [
  | plain ↦ ok w
  | class_info c ↦ check_class_end report filename clean_lines linenum c w
  | namespace_info n ↦ check_namespace_end report filename clean_lines linenum n w
]

-- The stack that `#if` saves, and the one that the first `#else` saves.
pub record PreprocessorInfo : Type 0 where
  pub stack_before_if : List Block
  pub stack_before_else : List Block
  pub seen_else : Bool

-- Both stacks have the innermost entry first.
pub record NestingState : Type 0 where
  pub stack : List Block
  pub pp_stack : List PreprocessorInfo

-- _NestingState.__init__
abbrev pub new_nesting_state : NestingState
new_nesting_state = record { stack = []; pp_stack = [] }

unfoldable pub seen_open_brace : List Block → Bool
seen_open_brace [] = true
seen_open_brace (b ∷ bs) = b.seen_open_brace

unfoldable pub in_namespace_body : NestingState → Bool
in_namespace_body s = elim s.stack [
  | [] ↦ false
  | b ∷ bs ↦ elim b.info [ namespace_info n ↦ true | _ ↦ false ]
]

-- InnermostClass
unfoldable pub innermost_class : List Block → Option ClassInfo
innermost_class [] = none
innermost_class (b ∷ bs) = elim b.info [ class_info c ↦ some c | _ ↦ innermost_class bs ]

abbrev incomplete : ErrorFn → Text → Block → Act
incomplete report filename b w = elim b.info [
  | plain ↦ ok w
  | class_info c ↦
      report filename c.starting_linenum (codes "build/class") 5
        (codes "Failed to find complete declaration of class " ++ c.name) w
  | namespace_info n ↦
      report filename n.starting_linenum (codes "build/namespaces") 5
        (codes "Failed to find complete declaration of namespace " ++ n.name) w
]

-- CheckCompletedBlocks: the outermost block is the first that is reported
unfoldable pub check_completed_blocks : ErrorFn → Text → List Block → Act
check_completed_blocks report filename [] w = ok w
check_completed_blocks report filename (b ∷ bs) w = do
  w' ← check_completed_blocks report filename bs w
  incomplete report filename b w'
