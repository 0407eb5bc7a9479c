-- ===== src/Alloc/Arena/Apart.antt =====
-- Objects of an arena do not overlap, whichever threads allocate them: their calls are ordered by the
-- fetch_add.
use scalloc.Common.{
  ℕ, ◌+◌, ◌^◌, ◌≤◌, ◌<◌, ◌≡◌, refl, subst, List, [], ◌∷◌, Option, none, some, leb, arith,
  Bool-cases, inl, inr,
}
use scalloc.Alloc.Globals.{u64}
use scalloc.Alloc.Arena.{Arena, allocate}

abbrev add_object : Option ℕ → ℕ → List (ℕ × ℕ) → List (ℕ × ℕ)
add_object none size os = os
add_object (some p) size os = (p, size) ∷ os

-- The objects of a sequence of calls of Allocate, with their sizes; a failed call gives none.
pub allocate_all : List ℕ → Arena → List (ℕ × ℕ)
allocate_all [] a = []
allocate_all (size ∷ sizes) a =
    add_object (allocate size a).0 size (allocate_all sizes (allocate size a).1)

abbrev sum : List ℕ → ℕ
sum [] = 0
sum (n ∷ ns) = n + sum ns

-- Each object begins at `lo` or behind it, ends before the end, and the next ones lie behind it.
abbrev pub AreApart : ℕ → ℕ → List (ℕ × ℕ) → Type 0
AreApart lo end [] = Unit
AreApart lo end ((p, size) ∷ os) = (lo ≤ p) × (p + size < end) × AreApart (p + size) end os

AreApart-mono :
    (lo lo' end : ℕ) (os : List (ℕ × ℕ)) → lo ≤ lo' → AreApart lo' end os → AreApart lo end os
AreApart-mono lo lo' end [] h k = tt
AreApart-mono lo lo' end ((p, size) ∷ os) h (a, b, c) = (omega arith, b, c)

allocate_moves :
    (size : ℕ) (a : Arena)
    → a.current + size < 2 ^ 64
    → ((allocate size a).1.current ≡ a.current + size) × ((allocate size a).1.end ≡ a.end)
unfolding allocate
allocate_moves size a h = (omega arith, refl)

add_object-AreApart :
    (size : ℕ) (a : Arena) (os : List (ℕ × ℕ))
    → a.current + size < 2 ^ 64
    → AreApart (a.current + size) a.end os
    → AreApart a.current a.end (add_object (allocate size a).0 size os)
unfolding allocate
add_object-AreApart size a os h rest = elim (Bool-cases (leb a.end (u64 (a.current + size)))) [
  | inl full ↦ rw full (AreApart-mono a.current (a.current + size) a.end os (omega arith) rest)
  | inr fits ↦ rw fits (omega arith, ground (arith, fits), rest)
]

-- As long as the pointer does not wrap around, the objects of any calls are in the arena, behind what
-- was allocated before, and apart.
pub allocate_all-AreApart :
    (sizes : List ℕ) (a : Arena)
    → a.current + sum sizes < 2 ^ 64
    → AreApart a.current a.end (allocate_all sizes a)
unfolding allocate_all
allocate_all-AreApart [] a h = tt
allocate_all-AreApart (size ∷ sizes) a h =
    let (behind, same) = allocate_moves size a (omega arith) in
    let os = allocate_all sizes (allocate size a).1 in
    let rest = allocate_all-AreApart sizes (allocate size a).1 (omega (arith, behind)) in
    add_object-AreApart size a os (omega arith) (
      subst (λ end. AreApart (a.current + size) end os) same
        (subst (λ lo. AreApart lo (allocate size a).1.end os) behind rest))
