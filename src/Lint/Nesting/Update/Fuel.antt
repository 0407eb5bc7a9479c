-- ===== src/Lint/Nesting/Update/Fuel.antt =====
-- The loops of `_NestingState.Update` in tools/cpplint.py end: each round shortens the line.
use scalloc.Common.{
  ℕ, zero, suc, ◌≤◌, ◌<◌, List, [], ◌∷◌, none, some, ◌≡◌, refl, sym, ◌∙◌, arith, length,
  Option-cases, inl, inr, length-drop,
}
use scalloc.Common.Text.{Text, codes, find}
use scalloc.Common.Regex.{Found, Groups, match, match_at, run, group_of}
use scalloc.Common.Regex.Shrink.{
  seq-reaches, seq-one_reaches, seq-group_one_reaches, seq-seq, run-tail_group, accept, start,
  match-run,
}
use scalloc.Lint.World.{Outcome, ok, World, ErrorFn, ◌>>=◌}
use scalloc.Lint.Cleanse.{CleansedLines, text_of}
use scalloc.Lint.Nesting.{Block}
use scalloc.Lint.Nesting.Heads.{re_namespace, consume_namespaces, push_namespace}
use scalloc.Lint.Nesting.Tokens.{re_token, consume_braces, take_token}

-- The rest of a line behind its first token is shorter than the line.
token_shrinks :
    (line : Text) (f : Found)
    → match re_token line ≡ some f
    → length (text_of (group_of 2 f.groups)) < length line
token_shrinks line f e =
    let c = start line in
    let (d₁, h₁, e₁, l₁) = seq-reaches _ accept c [] f _ (match-run _ line f e) in
    let (d₂, h₂, e₂, l₂) = seq-reaches _ accept d₁ h₁ f _ e₁ in
    let (d₃, h₃, e₃, l₃) = seq-group_one_reaches _ accept d₂ h₂ f _ _ e₂ in
    let (t, e₄, l₄) = run-tail_group 2 d₃ h₃ f e₃ in rw e₄ (omega arith)

-- The rest of a line behind a namespace is shorter than the line.
namespace_shrinks :
    (line : Text) (f : Found)
    → match re_namespace line ≡ some f
    → length (text_of (group_of 2 f.groups)) < length line
namespace_shrinks line f e =
    let c = start line in
    let (d₁, h₁, e₁, l₁) = seq-reaches _ accept c [] f _ (match-run _ line f e) in
    let (d₂, h₂, e₂, l₂) = seq-reaches _ accept d₁ h₁ f _ e₁ in
    let (d₃, h₃, e₃, l₃) = seq-one_reaches _ accept d₂ h₂ f _ (seq-seq _ accept d₂ h₂ f _ _ e₂) in
    let (d₄, h₄, e₄, l₄) = seq-reaches _ accept d₃ h₃ f _ e₃ in
    let (d₅, h₅, e₅, l₅) = seq-reaches _ accept d₄ h₄ f _ e₄ in
    let (d₆, h₆, e₆, l₆) = seq-reaches _ accept d₅ h₅ f _ e₅ in
    let (d₇, h₇, e₇, l₇) = seq-reaches _ accept d₆ h₆ f _ e₆ in
    let (t, e₈, l₈) = run-tail_group 2 d₇ h₇ f e₇ in rw e₈ (omega arith)

push_namespace-shrinks :
    (linenum : ℕ) (g : Groups) (stack : List Block)
    → length ((push_namespace linenum g stack).1) ≤ length (text_of (group_of 2 g))
unfolding push_namespace
push_namespace-shrinks linenum g stack =
    elim (Option-cases (find (text_of (group_of 2 g)) (codes "{"))) [
      | inl e ↦ rw (push_namespace, e) (omega arith)
      | inr (i, e) ↦
          rw (push_namespace, e) (omega (arith, length-drop (suc i) (text_of (group_of 2 g))))
    ]

namespaces-round :
    (n linenum : ℕ) (line : Text) (stack : List Block) (f : Found)
    → match re_namespace line ≡ some f
    → consume_namespaces (suc n) linenum line stack
      ≡ consume_namespaces n linenum
          ((push_namespace linenum f.groups stack).1)
          ((push_namespace linenum f.groups stack).0)
unfolding consume_namespaces
namespaces-round n linenum line stack f e = rw (consume_namespaces, e) refl

namespaces-exit :
    (n linenum : ℕ) (line : Text) (stack : List Block)
    → match re_namespace line ≡ none
    → consume_namespaces (suc n) linenum line stack ≡ (stack, line)
unfolding consume_namespaces
namespaces-exit n linenum line stack e = rw (consume_namespaces, e) refl

namespaces-zero :
    (linenum : ℕ) (line : Text) (stack : List Block)
    → length line ≤ 0
    → match re_namespace ((consume_namespaces 0 linenum line stack).1) ≡ none
unfolding consume_namespaces match match_at run
namespaces-zero linenum [] stack h = refl
namespaces-zero linenum (x ∷ line) stack h = absurd (omega arith)

-- With at least as many rounds as the line has characters, the loop over the namespaces of a line
-- stops for the reason that the code gives: what is left of the line begins with no namespace.
pub consume_namespaces_exits :
    (n linenum : ℕ) (line : Text) (stack : List Block)
    → length line ≤ n
    → match re_namespace ((consume_namespaces n linenum line stack).1) ≡ none
consume_namespaces_exits zero linenum line stack h = namespaces-zero linenum line stack h
consume_namespaces_exits (suc n) linenum line stack h =
    elim (Option-cases (match re_namespace line)) [
      | inl e ↦ rw (namespaces-exit n linenum line stack e, e) refl
      | inr (f, e) ↦
          let a = namespace_shrinks line f e in
          let b = push_namespace-shrinks linenum f.groups stack in
          rw (namespaces-round n linenum line stack f e)
            (consume_namespaces_exits n linenum _ _ (omega arith))
    ]

module _ (report : ErrorFn) (filename : Text) (clean_lines : CleansedLines) (linenum : ℕ) where
  braces-exit :
      (n : ℕ) (line : Text) (stack : List Block) (w : World)
      → match re_token line ≡ none
      → consume_braces n report filename clean_lines linenum line stack w ≡ ok (w, stack)
  unfolding consume_braces
  braces-exit zero line stack w e = refl
  braces-exit (suc n) line stack w e = rw (consume_braces, e) refl

  braces-round :
      (n : ℕ) (line : Text) (stack : List Block) (w : World) (f : Found)
      → match re_token line ≡ some f
      → consume_braces (suc n) report filename clean_lines linenum line stack w ≡ (
          take_token report filename clean_lines linenum
            (text_of (group_of 1 f.groups))
            line
            stack
            w
          >>= λ r.
              consume_braces n report filename clean_lines linenum
                (text_of (group_of 2 f.groups))
                (r.1)
                (r.0))
  unfolding consume_braces
  braces-round n line stack w f e = rw (consume_braces, e) refl

  bind-same :
      (o : Outcome (World × List Block)) (k l : World × List Block → Outcome (World × List Block))
      → ((r : World × List Block) → k r ≡ l r)
      → (o >>= k) ≡ (o >>= l)
  bind-same (ok r) k l h = h r
  bind-same (Outcome.raised x) k l h = refl

  rounds :
      (n m : ℕ) (line : Text) (stack : List Block) (w : World) (f : Found)
      → match re_token line ≡ some f
      → length line ≤ n
      → length line ≤ m
      → consume_braces n report filename clean_lines linenum line stack w
        ≡ consume_braces m report filename clean_lines linenum line stack w
  rounds zero m line stack w f e h k = let a = token_shrinks line f e in absurd (omega arith)
  rounds (suc n) zero line stack w f e h k = let a = token_shrinks line f e in absurd (omega arith)
  rounds (suc n) (suc m) line stack w f e h k =
      let a = token_shrinks line f e in
      let rest = text_of (group_of 2 f.groups) in
      braces-round n line stack w f e
      ∙ (bind-same
            (take_token report filename clean_lines linenum (text_of (group_of 1 f.groups)) line
              stack w)
            _ _
            (λ r. elim (Option-cases (match re_token rest)) [
              | inl x ↦ braces-exit n rest (r.1) (r.0) x ∙ sym (braces-exit m rest (r.1) (r.0) x)
              | inr (g, x) ↦ rounds n m rest (r.1) (r.0) g x (omega arith) (omega arith)
            ])
          ∙ sym (braces-round m line stack w f e))

  -- With at least as many rounds as the line has characters, the loop over the braces of a line does
  -- not stop for want of rounds: more of them change nothing.
  pub consume_braces_enough :
      (n m : ℕ) (line : Text) (stack : List Block) (w : World)
      → length line ≤ n
      → length line ≤ m
      → consume_braces n report filename clean_lines linenum line stack w
        ≡ consume_braces m report filename clean_lines linenum line stack w
  consume_braces_enough n m line stack w h k = elim (Option-cases (match re_token line)) [
    | inl e ↦ braces-exit n line stack w e ∙ sym (braces-exit m line stack w e)
    | inr (f, e) ↦ rounds n m line stack w f e h k
  ]
