-- ===== src/Lint/Arguments/Valid.antt =====
-- What `ParseArguments` of tools/cpplint.py guarantees of the settings.
use scalloc.Common.{
  ℕ, List, [], ◌∷◌, Option, none, some, true, false, ◌≡◌, ◌⊎◌, inl, inr, refl, ap, ◌∙◌, subst,
  arith, All, if◌then◌else◌,
}
use scalloc.Common.Text.{Text, codes, mem_text, is_empty}
use scalloc.Lint.World.{Outcome, ok, raised, ◌>>=◌, World, LintState}
use scalloc.Lint.Filters.LastWins.{IsSigned}
use scalloc.Lint.Filters.Valid.{set_filters_outcomes}
use scalloc.Lint.Filters.{set_filters}
use scalloc.Lint.Report.{set_output_format, set_verbose_level, set_counting_style}
use scalloc.Lint.Arguments.{
  output_formats, counting_styles, Options, read_option, read_options, read_verbosity,
  read_line_length, apply_options, parse_arguments, print_usage, print_categories,
}

-- A property of what a call returns, if it returns.
abbrev After {ℓ} : {A : Type ℓ} → (A → Type 0) → Outcome A → Type 0
After P (ok a) = P a
After P (raised e) = Unit

After-bind {ℓ κ} :
    {A : Type ℓ} {B : Type κ} (P : A → Type 0) (Q : B → Type 0) (o : Outcome A) (k : A → Outcome B)
    → After P o
    → ((a : A) → P a → After Q (k a))
    → After Q (o >>= k)
After-bind P Q (ok a) k h f = f a h
After-bind P Q (raised e) k h f = tt

-- The format and the counting style are among those that the code knows; '' is the style of a run
-- without the flag.
abbrev Chosen : Options → Type 0
Chosen o =
    (mem_text o.output_format output_formats ≡ true)
    × ((o.counting_style ≡ []) ⊎ (mem_text o.counting_style counting_styles ≡ true))

verbosity-Chosen :
    (int : Text → Option ℕ) (val : Text) (o : Options)
    → Chosen o
    → After Chosen (read_verbosity int val o)
unfolding read_verbosity
verbosity-Chosen int val o (a, b) = ground arith

line_length-Chosen :
    (int : Text → Option ℕ) (val : Text) (o : Options)
    → Chosen o
    → After Chosen (read_line_length int val o)
unfolding read_line_length print_usage
line_length-Chosen int val o (a, b) = ground arith

read_option-Chosen :
    (int : Text → Option ℕ) (opt val : Text) (o : Options)
    → Chosen o
    → After Chosen (read_option int opt val o)
unfolding read_option print_usage print_categories
read_option-Chosen int opt val o (a, b) =
    let k = verbosity-Chosen int val o (a, b) in
    let l = line_length-Chosen int val o (a, b) in ground (arith, k, l)

read_options-Chosen :
    (int : Text → Option ℕ) (opts : List (Text × Text)) (o : Options)
    → Chosen o
    → After Chosen (read_options int opts o)
unfolding read_options
read_options-Chosen int [] o h = h
read_options-Chosen int ((opt, val) ∷ opts) o h =
    After-bind Chosen Chosen (read_option int opt val o) (read_options int opts)
      (read_option-Chosen int opt val o h) (read_options-Chosen int opts)

-- Settings under which every later call of `Error` is defined and prints in a known format.
abbrev pub Settled : World → Type 0
Settled w =
    All IsSigned w.lint.filters
    × (mem_text w.lint.output_format output_formats ≡ true)
    × ((w.lint.counting ≡ []) ⊎ (mem_text w.lint.counting counting_styles ≡ true))

set_filters-After :
    (flag : Text) (s : LintState)
    → After
        (λ s'. All IsSigned s'.filters × (s'.output_format ≡ s.output_format))
        (set_filters flag s)
set_filters-After flag s = elim (set_filters_outcomes flag s) [
  | inl (h, e) ↦ rw e (h, refl)
  | inr (f, u, e) ↦ rw e tt
]

apply_options-Settled : (o : Options) → Chosen o → After Settled (apply_options o)
unfolding apply_options set_output_format set_verbose_level set_counting_style
apply_options-Settled o (a, b) =
    let s = record o.world.lint { output_format = o.output_format; verbose_level = o.verbosity } in
    After-bind (λ s'. All IsSigned s'.filters × (s'.output_format ≡ s.output_format)) Settled
      (set_filters o.filters s) _ (set_filters-After o.filters s)
      (λ s' (f, e). (f, ap (λ t. mem_text t output_formats) e ∙ a, b))

abbrev Result : World × List Text → Type 0
Result (w, filenames) = Settled w × (is_empty filenames ≡ false)

finish :
    (o : Options) (filenames : List Text)
    → Chosen o
    → After Result (
        (if is_empty filenames
          then print_usage (some (codes "No files were specified."))
          else apply_options o)
        >>= λ w'. ok (w', filenames))
unfolding print_usage
finish o [] c = tt
finish o (f ∷ fs) c =
    After-bind Settled Result (apply_options o) (λ w'. ok (w', f ∷ fs)) (apply_options-Settled o c)
      (λ w' s. (s, refl))

parse_arguments-After :
    (int : Text → Option ℕ) (parsed : Option (List (Text × Text) × List Text)) (w : World)
    → mem_text w.lint.output_format output_formats ≡ true
    → After Result (parse_arguments int parsed w)
unfolding parse_arguments print_usage
parse_arguments-After int none w h = tt
parse_arguments-After int (some (opts, filenames)) w h =
    After-bind Chosen Result (read_options int opts _) _
      (read_options-Chosen int opts _ (h, inl refl)) (λ o c. finish o filenames c)

-- When `ParseArguments` returns, from a state with a known output format: there is a file, every
-- filter has a sign, the output format is one of the three, and the counting style is one of the
-- three or, without the flag, empty. So `Error` never fails its assertion afterwards.
pub parse_arguments-Settled :
    (int : Text → Option ℕ) (parsed : Option (List (Text × Text) × List Text)) (w w' : World)
    (filenames : List Text)
    → mem_text w.lint.output_format output_formats ≡ true
    → parse_arguments int parsed w ≡ ok (w', filenames)
    → Settled w' × (is_empty filenames ≡ false)
parse_arguments-Settled int parsed w w' filenames h e =
    subst (After Result) e (parse_arguments-After int parsed w h)
