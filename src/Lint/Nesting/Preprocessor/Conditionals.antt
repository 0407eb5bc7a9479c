-- ===== src/Lint/Nesting/Preprocessor/Conditionals.antt =====
-- What the stack of `_NestingState` in tools/cpplint.py becomes over whole #if ... #endif sections.
use scalloc.Common.{List, ◌∷◌, Bool, true, false, ◌≡◌, refl, ap, ◌∙◌}
use scalloc.Common.Text.{Text}
use scalloc.Lint.Nesting.{Block, PreprocessorInfo, NestingState}
use scalloc.Lint.Nesting.Preprocessor.{
  Directive, if_directive, else_directive, endif_directive, no_directive, directive,
  update_preprocessor, swap_else, pop_endif, by_directive,
}

-- What the rest of `Update` does to the stack on a line.
abbrev pub Effect : Type 0
Effect = List Block → List Block

-- One line: the directive first, then the effect of the line.
unfoldable pub read_line : Text → Effect → NestingState → NestingState
unfolding update_preprocessor
read_line line f s = let s' = update_preprocessor line s in record s' { stack = f s'.stack }

pub data Kind : Type 0 where
  body : Kind
  elses : Kind

-- Lines with their effects, the conditional sections closed: a section is its #if line, the lines
-- up to the first #else, #elif or #endif, the branches that follow, and its #endif line.
pub data Code : Kind → Type 0 where
  done : {k : Kind} → Code k
  plain_line : (l : Text) → directive l ≡ no_directive → Effect → Code body → Code body
  section :
      (l : Text)
      → directive l ≡ if_directive
      → Effect
      → Code body
      → Code elses
      → (m : Text) → directive m ≡ endif_directive
      → Effect
      → Code body
      → Code body
  branch : (l : Text) → directive l ≡ else_directive → Effect → Code body → Code elses → Code elses

unfoldable pub read : {k : Kind} → Code k → NestingState → NestingState
unfolding read_line
read done s = s
read (plain_line l h f c) s = read c (read_line l f s)
read (section l h f c e m j g d) s = read d (read_line m g (read e (read c (read_line l f s))))
read (branch l h f c e) s = read e (read c (read_line l f s))

-- The effect of the lines that the compiler is taken to see: of a section, those up to its first
-- #else or #elif, and the #if and #endif lines themselves.
unfoldable pub first_branches : {k : Kind} → Code k → Effect
first_branches done t = t
first_branches (plain_line l h f c) t = first_branches c (f t)
first_branches (section l h f c e m j g d) t = first_branches d (g (first_branches c (f t)))
first_branches (branch l h f c e) t = t

abbrev saved : List Block → List Block → Bool → PreprocessorInfo
saved b a seen = record { stack_before_if = b; stack_before_else = a; seen_else = seen }

abbrev state : List Block → List PreprocessorInfo → NestingState
state t ps = record { stack = t; pp_stack = ps }

-- Of a list of further branches: once an #else was seen, the saved stacks stay; and the #endif gives
-- back the stack from before the first of them.
record Branches (e : Code elses) : Type 0 where
  kept :
      (t b a : List Block) (ps : List PreprocessorInfo)
      → (u : List Block) × (read e (state t (saved b a true ∷ ps)) ≡ state u (saved b a true ∷ ps))
  closed :
      (t b a : List Block) (ps : List PreprocessorInfo)
      → pop_endif (read e (state t (saved b a false ∷ ps))) ≡ state t ps

abbrev Meaning : (k : Kind) → Code k → Type 0
Meaning body c = (s : NestingState) → read c s ≡ state (first_branches c s.stack) s.pp_stack
Meaning elses e = Branches e

abbrev changed : Effect → NestingState → NestingState
changed f s = state (f s.stack) s.pp_stack

read_line-by :
    (l : Text) (d : Directive) (f : Effect) (s : NestingState)
    → directive l ≡ d
    → read_line l f s ≡ changed f (by_directive d s)
unfolding read_line update_preprocessor
read_line-by l d f s h = ap (λ x. changed f (by_directive x s)) h

Branches-done : Branches done
unfolding read pop_endif
Branches-done = record { kept = λ t b a ps. (t, refl); closed = λ t b a ps. refl }

Branches-branch :
    (l : Text) (h : directive l ≡ else_directive) (f : Effect) (c : Code body) (e : Code elses)
    → Meaning body c
    → Branches e
    → Branches (branch l h f c e)
unfolding read swap_else
Branches-branch l h f c e m r = record {
  kept = λ t b a ps.
      let s = state t (saved b a true ∷ ps) in
      let (u, k) = r.kept (first_branches c (f b)) b a ps in
      (
        u,
        ap (λ x. read e (read c x)) (read_line-by l else_directive f s h) ∙ (ap (read e) (m _) ∙ k),
      );
  closed = λ t b a ps.
      let s = state t (saved b a false ∷ ps) in
      let (u, k) = r.kept (first_branches c (f b)) b t ps in
      ap (λ x. pop_endif (read e (read c x))) (read_line-by l else_directive f s h)
      ∙ (ap (λ x. pop_endif (read e x)) (m _) ∙ (ap pop_endif k ∙ endif u b t ps));
}
  where
    endif :
        (u b t : List Block) (ps : List PreprocessorInfo)
        → pop_endif (state u (saved b t true ∷ ps)) ≡ state t ps
    endif u b t ps = refl

meaning : (k : Kind) (c : Code k) → Meaning k c
unfolding read first_branches
meaning body done = λ s. refl
meaning body (plain_line l h f c) =
    λ s. ap (read c) (read_line-by l no_directive f s h) ∙ meaning body c _
meaning body (section l h f c e m j g d) = λ s.
    let r = meaning elses e in
    ap (λ x. read d (read_line m g (read e (read c x)))) (read_line-by l if_directive f s h)
    ∙ (ap (λ x. read d (read_line m g (read e x))) (meaning body c _)
        ∙ (ap (read d) (read_line-by m endif_directive g _ j ∙ ap (changed g) (r.closed _ _ _ _))
            ∙ meaning body d _))
meaning elses done = Branches-done
meaning elses (branch l h f c e) = Branches-branch l h f c e (meaning body c) (meaning elses e)

-- Over lines whose conditional sections are closed, whatever each line does to the stack, the stack
-- becomes what the lines outside the #else and #elif branches make of it, and the stack of saved
-- states is as before.
pub read-first_branches :
    (c : Code body) (s : NestingState)
    → read c s ≡ record { stack = first_branches c s.stack; pp_stack = s.pp_stack }
read-first_branches c s = meaning body c s
