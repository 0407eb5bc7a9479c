-- ===== src/Lint/Filters/LastWins.antt =====
-- The filter loop as a rule: the last filter whose prefix the category has decides.
use scalloc.Common.{
  List, [], ◌∷◌, ◌++◌, Bool, true, false, ◌≡◌, refl, arith, Bool-cases, inl, inr, if◌then◌else◌,
  drop, All,
}
use scalloc.Common.Text.{Text, codes, starts_with}
use scalloc.Lint.World.{ok}
use scalloc.Lint.Filters.{is_signed, apply_filter, apply_filters}

-- What a filter says, behind its sign: the prefix of the categories that it is about.
abbrev pub covers : Text → Text → Bool
covers category f = starts_with category (drop 1 f)

abbrev pub IsSigned : Text → Type 0
IsSigned f = is_signed f ≡ true

abbrev pub Skips : Text → Text → Type 0
Skips category f = IsSigned f × (covers category f ≡ false)

abbrev pub hides : Text → Bool
hides f = starts_with f (codes "-")

-- A signed filter that covers the category sets the flag to its sign; another keeps it.
pub apply_filter_lem :
    (category f : Text) (b : Bool)
    → IsSigned f
    → apply_filter category f b ≡ ok (if covers category f then hides f else b)
unfolding apply_filter is_signed
apply_filter_lem category f b h = elim (Bool-cases (starts_with f (codes "-"))) [
  | inl minus ↦ rw minus (ground (arith, minus))
  | inr plain ↦ rw plain (ground (arith, plain))
]

pub apply_filters-Skips :
    (category : Text) (fs : List Text) (b : Bool)
    → All (Skips category) fs
    → apply_filters category fs b ≡ ok b
unfolding apply_filters
apply_filters-Skips category [] b h = refl
apply_filters-Skips category (f ∷ fs) b ((s, c), h) =
    rw (apply_filter_lem category f b s) (rw c (apply_filters-Skips category fs b h))

-- With every filter signed the loop never reaches its assertion.
pub apply_filters-total :
    (category : Text) (fs : List Text) (b : Bool)
    → All IsSigned fs
    → (c : Bool) × (apply_filters category fs b ≡ ok c)
unfolding apply_filters
apply_filters-total category [] b h = (b, refl)
apply_filters-total category (f ∷ fs) b (s, h) =
    rw (apply_filter_lem category f b s)
      (apply_filters-total category fs (if covers category f then hides f else b) h)

-- If the filters are signed and `f` is the last that covers the category, then the category is
-- filtered out exactly when `f` is a `-` filter, whatever stands before `f`.
pub last_filter_wins :
    (category f : Text) (before after : List Text) (b : Bool)
    → All IsSigned before
    → IsSigned f
    → covers category f ≡ true
    → All (Skips category) after
    → apply_filters category (before ++ f ∷ after) b ≡ ok (hides f)
unfolding apply_filters
last_filter_wins category f [] after b hb s c ha =
    rw (apply_filter_lem category f b s) (rw c (apply_filters-Skips category after (hides f) ha))
last_filter_wins category f (g ∷ before) after b (sg, hb) s c ha =
    rw (apply_filter_lem category g b sg) (
      last_filter_wins category f before after (if covers category g then hides g else b) hb s c ha)
