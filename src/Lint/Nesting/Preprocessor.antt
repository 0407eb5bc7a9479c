-- ===== src/Lint/Nesting/Preprocessor.antt =====
-- `_NestingState.UpdatePreprocessor` in tools/cpplint.py.
pub mod Conditionals
use scalloc.Common.{ℕ, List, [], ◌∷◌, Bool, true, false, if◌then◌else◌, Option, none, some}
use scalloc.Common.Text.{Text, codes}
use scalloc.Common.Regex.{
  Regex, alt, alts, star, group, bol, boundary, lit, chr, seqs, blank, matches,
}
use scalloc.Lint.Nesting.{Block, PreprocessorInfo, NestingState}

-- ^\s*#\s*(…)\b
abbrev re_directive : Regex → Regex
re_directive r = seqs (bol ∷ star blank ∷ chr b'#' ∷ star blank ∷ group 1 r ∷ boundary ∷ [])

abbrev pub re_if : Regex
re_if = re_directive (alts (lit (codes "if")) (lit (codes "ifdef") ∷ lit (codes "ifndef") ∷ []))

abbrev pub re_else : Regex
re_else = re_directive (alt (lit (codes "else")) (lit (codes "elif")))

-- ^\s*#\s*endif\b
abbrev pub re_endif : Regex
re_endif = seqs (bol ∷ star blank ∷ chr b'#' ∷ star blank ∷ lit (codes "endif") ∷ boundary ∷ [])

pub data Directive : Type 0 where
  if_directive : Directive
  else_directive : Directive
  endif_directive : Directive
  no_directive : Directive

-- The tests of the line, in the order of the code.
unfoldable pub directive : Text → Directive
directive line =
    if matches re_if line
    then if_directive
    else if matches re_else line
    then else_directive
    else if matches re_endif line
    then endif_directive
    else no_directive

unfoldable pub push_if : NestingState → NestingState
push_if s = record s {
  pp_stack =
      record { stack_before_if = s.stack; stack_before_else = []; seen_else = false } ∷ s.pp_stack;
}

unfoldable pub swap_else : NestingState → NestingState
swap_else s = elim s.pp_stack [
  | [] ↦ s
  | p ∷ ps ↦
      let p' =
        if p.seen_else then p else record p { seen_else = true; stack_before_else = s.stack } in
      record { stack = p.stack_before_if; pp_stack = p' ∷ ps }
]

unfoldable pub pop_endif : NestingState → NestingState
pop_endif s = elim s.pp_stack [
  | [] ↦ s
  | p ∷ ps ↦ record { stack = if p.seen_else then p.stack_before_else else s.stack; pp_stack = ps }
]

abbrev by_directive : Directive → NestingState → NestingState
by_directive if_directive s = push_if s
by_directive else_directive s = swap_else s
by_directive endif_directive s = pop_endif s
by_directive no_directive s = s

-- UpdatePreprocessor
unfoldable pub update_preprocessor : Text → NestingState → NestingState
unfolding directive push_if swap_else pop_endif
update_preprocessor line s = by_directive (directive line) s
