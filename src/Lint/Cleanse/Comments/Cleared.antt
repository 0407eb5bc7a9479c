-- ===== src/Lint/Cleanse/Comments/Cleared.antt =====
-- The lines that `RemoveMultiLineComments` leaves behind.
use scalloc.Common.{
  ℕ, zero, suc, ◌+◌, ◌-◌, ◌≤◌, ◌<◌, List, [], ◌∷◌, none, some, Bool, false, ◌≡◌, ◌⊎◌, inl, inr,
  refl, ap, subst, ◌∙◌, arith, Bool-cases, Option-cases, leb, leb→le, length, drop, get_elem?,
  get_elem?-drop, get_elem?-lt,
}
use scalloc.Common.Text.{Text, codes, strip, starts_with}
use scalloc.Lint.World.{Outcome, ok, raised, assertion_error, ◌>>=◌, World, ErrorFn}
use scalloc.Lint.Cleanse.Comments.{
  starts_comment, first_index, find_next_multi_line_comment_start, dummy, remove_from_range, stop,
  remove_round, remove_multi_line_comments,
}
use scalloc.Lint.Cleanse.Comments.Removal.{Advances, rounds_rule}

-- Line by line, each text is the old one or the dummy comment.
abbrev pub Cleared : List Text → List Text → Type 0
Cleared [] [] = Unit
Cleared (l ∷ ls) (m ∷ ms) = ((m ≡ l) ⊎ (m ≡ dummy)) × Cleared ls ms
Cleared _ _ = ⊥

Cleared-refl : (ls : List Text) → Cleared ls ls
Cleared-refl [] = tt
Cleared-refl (l ∷ ls) = (inl refl, Cleared-refl ls)

Cleared-remove_from_range :
    (ls ms : List Text) (begin end : ℕ)
    → Cleared ls ms
    → Cleared ls (remove_from_range ms begin end)
unfolding remove_from_range
Cleared-remove_from_range [] [] begin end h = tt
Cleared-remove_from_range [] (m ∷ ms) begin end h = absurd h
Cleared-remove_from_range (l ∷ ls) [] begin end h = absurd h
Cleared-remove_from_range (l ∷ ls) (m ∷ ms) begin zero h = h
Cleared-remove_from_range (l ∷ ls) (m ∷ ms) zero (suc end) (a, h) =
    (inr refl, Cleared-remove_from_range ls ms zero end h)
Cleared-remove_from_range (l ∷ ls) (m ∷ ms) (suc begin) (suc end) (a, h) =
    (a, Cleared-remove_from_range ls ms begin end h)

-- The only report that a round makes.
abbrev pub final_report : ErrorFn → Text → List Text → ℕ → World → Outcome World
final_report report filename ls i w =
    report filename (find_next_multi_line_comment_start ls i + 1)
      (codes "readability/multiline_comment") 5 (codes "Could not find end of multi-line comment") w

abbrev pub unfinished : ErrorFn → Text → List Text → ℕ → World → Outcome (List Text × World)
unfinished report filename ls i w = final_report report filename ls i w >>= λ w'. ok (ls, w')

-- What a round that ends the loop returns.
stop_cases :
    (report : ErrorFn) (filename : Text) (ls : List Text) (i : ℕ) (w : World)
    (o : Outcome (List Text × World))
    → remove_round report filename ls i w ≡ stop o
    → ((o ≡ ok (ls, w)) × ((length ls ≤ i) ⊎ (length ls ≤ find_next_multi_line_comment_start ls i)))
      ⊎ (o ≡ unfinished report filename ls i w)
unfolding remove_round
stop_cases report filename ls i w o e = elim (Bool-cases (leb (length ls) i)) [
  | inl d ↦ inl (ground (arith, d), inl (leb→le _ _ d))
  | inr d ↦ elim (Bool-cases (leb (length ls) (find_next_multi_line_comment_start ls i))) [
    | inl b ↦ inl (ground (arith, d, b), inr (leb→le _ _ b))
    | inr b ↦ inr (ground (arith, d, b))
  ]
]

abbrev ClearedOutcome : List Text → Outcome (List Text × World) → Type 0
ClearedOutcome ls (ok (ms, w')) = Cleared ls ms
ClearedOutcome ls (raised e) = Unit

Cleared-bind :
    (ls ms : List Text) (r : Outcome World)
    → Cleared ls ms
    → ClearedOutcome ls (r >>= λ w'. ok (ms, w'))
Cleared-bind ls ms (ok w) h = h
Cleared-bind ls ms (raised e) h = tt

remove-Cleared :
    (report : ErrorFn) (filename : Text) (ls : List Text) (w : World)
    → ClearedOutcome ls (remove_multi_line_comments report filename ls w)
unfolding remove_multi_line_comments
remove-Cleared report filename ls w =
    rounds_rule report filename w (λ ms i. Cleared ls ms) (ClearedOutcome ls)
      (λ ms i o h e. elim (stop_cases report filename ms i w o e) [
        | inl (p, q) ↦ rw p h
        | inr p ↦ rw p (Cleared-bind ls ms (final_report report filename ms i w) h)
      ])
      (λ ms i ms' i' h a. rw a.lines_are (Cleared-remove_from_range ls ms a.begin i' h)) (length ls)
      ls 0 (omega arith) (Cleared-refl ls)

-- `RemoveMultiLineComments` keeps the number of lines, and each line is kept or becomes the dummy
-- comment.
pub remove_multi_line_comments-Cleared :
    (report : ErrorFn) (filename : Text) (ls ms : List Text) (w w' : World)
    → remove_multi_line_comments report filename ls w ≡ ok (ms, w')
    → Cleared ls ms
remove_multi_line_comments-Cleared report filename ls ms w w' e =
    subst (ClearedOutcome ls) e (remove-Cleared report filename ls w)

-- No line below an index begins a comment that goes beyond it.
abbrev NoneBelow : ℕ → List Text → Type 0
NoneBelow k ls = (j : ℕ) (t : Text) → j < k → get_elem? ls j ≡ some t → starts_comment t ≡ false

first_index-least :
    (p : Text → Bool) (ls : List Text) (i b k : ℕ) (t : Text)
    → first_index p ls i ≡ some b
    → i + k < b
    → get_elem? ls k ≡ some t
    → p t ≡ false
unfolding first_index
first_index-least p [] i b k t e h g = cc
first_index-least p (l ∷ ls) i b zero t e h g = elim (Bool-cases (p l)) [
  | inl hit ↦ ground (arith, hit)
  | inr miss ↦ ground (arith, miss)
]
first_index-least p (l ∷ ls) i b (suc k) t e h g = elim (Bool-cases (p l)) [
  | inl hit ↦ ground (arith, hit)
  | inr miss ↦ first_index-least p ls (suc i) b k t (rw miss at e) (omega arith) g
]

first_index-none :
    (p : Text → Bool) (ls : List Text) (i k : ℕ) (t : Text)
    → first_index p ls i ≡ none
    → get_elem? ls k ≡ some t
    → p t ≡ false
unfolding first_index
first_index-none p [] i k t e g = cc
first_index-none p (l ∷ ls) i zero t e g = elim (Bool-cases (p l)) [
  | inl hit ↦ ground (arith, hit)
  | inr miss ↦ ground (arith, miss)
]
first_index-none p (l ∷ ls) i (suc k) t e g = elim (Bool-cases (p l)) [
  | inl hit ↦ ground (arith, hit)
  | inr miss ↦ first_index-none p ls (suc i) k t (rw miss at e) g
]

-- Between the start of a search and what it finds, no line begins a comment.
search_misses :
    (ls : List Text) (i j : ℕ) (t : Text)
    → i ≤ j
    → j < find_next_multi_line_comment_start ls i
    → get_elem? ls j ≡ some t
    → starts_comment t ≡ false
unfolding find_next_multi_line_comment_start
search_misses ls i j t h k g =
    let split : i + (j - i) ≡ j = omega arith in
    let at_k : get_elem? (drop i ls) (j - i) ≡ some t =
      get_elem?-drop i (j - i) ls ∙ ap (get_elem? ls) split ∙ g in
    elim (Option-cases (first_index starts_comment (drop i ls) i)) [
      | inl e ↦ first_index-none starts_comment (drop i ls) i (j - i) t e at_k
      | inr (b, e) ↦
          first_index-least starts_comment (drop i ls) i b (j - i) t e
            (let q : j < b = rw e at k in omega arith) at_k
    ]

-- A line that a range leaves there stands outside of it, or is the dummy comment.
removed-get :
    (ls : List Text) (begin end j : ℕ) (t : Text)
    → get_elem? (remove_from_range ls begin end) j ≡ some t
    → (t ≡ dummy) ⊎ (((j < begin) ⊎ (end ≤ j)) × (get_elem? ls j ≡ some t))
unfolding remove_from_range
removed-get [] begin end j t g = cc
removed-get (l ∷ ls) begin zero j t g = inr (inr (omega arith), g)
removed-get (l ∷ ls) zero (suc end) zero t g = inl (ground (arith, g))
removed-get (l ∷ ls) zero (suc end) (suc j) t g = elim (removed-get ls zero end j t g) [
  | inl d ↦ inl d
  | inr (inl h, e) ↦ absurd (omega arith)
  | inr (inr h, e) ↦ inr (inr (omega arith), e)
]
removed-get (l ∷ ls) (suc begin) (suc end) zero t g = inr (inl (omega arith), g)
removed-get (l ∷ ls) (suc begin) (suc end) (suc j) t g = elim (removed-get ls begin end j t g) [
  | inl d ↦ inl d
  | inr (inl h, e) ↦ inr (inl (omega arith), e)
  | inr (inr h, e) ↦ inr (inr (omega arith), e)
]

dummy-starts : starts_comment dummy ≡ false
unfolding starts_comment strip starts_with
dummy-starts = refl

NoneBelow-search :
    (ls : List Text) (i : ℕ)
    → NoneBelow i ls
    → NoneBelow (find_next_multi_line_comment_start ls i) ls
NoneBelow-search ls i h j t k g = elim (Bool-cases (leb i j)) [
  | inl late ↦ search_misses ls i j t (leb→le i j late) k g
  | inr early ↦ h j t (ground (arith, early)) g
]

NoneBelow-Advances :
    (ls ms : List Text) (i i' : ℕ) → NoneBelow i ls → Advances ls i ms i' → NoneBelow i' ms
NoneBelow-Advances ls ms i i' h a j t k g =
    elim (removed-get ls a.begin i' j t (rw a.lines_are at g)) [
      | inl d ↦ rw d dummy-starts
      | inr (inl low, e) ↦
          let before = NoneBelow-search ls i h in before j t (rw (← a.begin_is) low) e
      | inr (inr high, e) ↦ absurd (omega arith)
    ]

-- A callback that ends the program, so that a normal result shows that it was not called.
abbrev pub refuse : ErrorFn
refuse filename linenum category confidence message w = raised assertion_error

abbrev NoneOutcome : Outcome (List Text × World) → Type 0
NoneOutcome (ok (ms, w')) = NoneBelow (length ms) ms
NoneOutcome (raised e) = Unit

remove-NoneBelow :
    (filename : Text) (ls : List Text) (w : World)
    → NoneOutcome (remove_multi_line_comments refuse filename ls w)
unfolding remove_multi_line_comments
remove-NoneBelow filename ls w =
    rounds_rule refuse filename w (λ ms i. NoneBelow i ms) NoneOutcome
      (λ ms i o h e. elim (stop_cases refuse filename ms i w o e) [
        | inl (p, inl q) ↦ rw p (λ j t k g. h j t (omega arith) g)
        | inl (p, inr q) ↦ rw p (λ j t k g. NoneBelow-search ms i h j t (omega arith) g)
        | inr p ↦ rw p tt
      ])
      (λ ms i ms' i' h a. NoneBelow-Advances ms ms' i i' h a) (length ls) ls 0 (omega arith)
      (λ j t k g. absurd (omega arith))

-- Unless `RemoveMultiLineComments` reports an unfinished comment, no line that it leaves begins a
-- comment which goes beyond the line.
pub remove_multi_line_comments-none_left :
    (filename : Text) (ls ms : List Text) (w w' : World) (j : ℕ) (t : Text)
    → remove_multi_line_comments refuse filename ls w ≡ ok (ms, w')
    → get_elem? ms j ≡ some t
    → starts_comment t ≡ false
remove_multi_line_comments-none_left filename ls ms w w' j t e g =
    subst NoneOutcome e (remove-NoneBelow filename ls w) j t (get_elem?-lt ms j g) g
