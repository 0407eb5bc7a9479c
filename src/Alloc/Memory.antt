-- ===== src/Alloc/Memory.antt =====
-- The words of memory that free objects are linked through, and lists of objects in it.
use mathlib.Core.List.{reverse_aux}
use scalloc.Common.{
  ℕ, ◌≡◌, ◌≢◌, refl, sym, List, [], ◌∷◌, arith, ◌==◌, ◌+◌, ◌<◌, length, if◌then◌else◌, All,
}

abbrev pub Mem : Type 0
Mem = ℕ → ℕ

-- *(reinterpret_cast<void**>(p)) = v
unfoldable pub write : Mem → ℕ → ℕ → Mem
write m p v a = if a == p then v else m a

-- NULL is 0.
abbrev pub null : ℕ
null = 0

abbrev pub NotIn : ℕ → List ℕ → Type 0
NotIn a xs = All (λ x. a ≢ x) xs

abbrev pub IsDistinct : List ℕ → Type 0
IsDistinct [] = Unit
IsDistinct (x ∷ xs) = NotIn x xs × IsDistinct xs

-- The objects from `p` on, each linked to the next by its first word, the last one to NULL.
abbrev pub Chain : Mem → ℕ → List ℕ → Type 0
Chain m p [] = p ≡ null
Chain m p (x ∷ xs) = (p ≡ x) × (x ≢ null) × Chain m (m x) xs

pub write_self : (m : Mem) (p v : ℕ) → write m p v p ≡ v
unfolding write
write_self m p v = ground arith

pub write_other : (m : Mem) (p v a : ℕ) → a ≢ p → write m p v a ≡ m a
unfolding write
write_other m p v a h = ground arith

-- A write outside of the list leaves it.
pub Chain-write :
    (m : Mem) (a v p : ℕ) (xs : List ℕ) → NotIn a xs → Chain m p xs → Chain (write m a v) p xs
Chain-write m a v p [] out c = c
Chain-write m a v p (x ∷ xs) out (e, some_x, c) =
    (e, some_x, rw (write_other m a v x (λ h. out.0 (sym h))) (Chain-write m a v (m x) xs out.1 c))

-- What NULL leads to is the empty list, and nothing else is.
pub Chain-null : (m : Mem) (xs : List ℕ) → Chain m null xs → xs ≡ []
Chain-null m [] c = refl
Chain-null m (x ∷ xs) (e, some_x, c) = absurd (some_x (sym e))

abbrev pub count : ℕ → List ℕ → ℕ
count a [] = 0
count a (x ∷ xs) = (if a == x then 1 else 0) + count a xs

-- The list without the first occurrence.
unfoldable pub erase : ℕ → List ℕ → List ℕ
erase a [] = []
erase a (x ∷ xs) = if a == x then xs else x ∷ erase a xs

pub count-erase :
    (a b : ℕ) (xs : List ℕ)
    → 0 < count a xs
    → count b (erase a xs) + (if b == a then 1 else 0) ≡ count b xs
unfolding erase
count-erase a b [] h = absurd (omega arith)
count-erase a b (x ∷ xs) h = ground (arith, count-erase a b xs)

pub length-erase : (a : ℕ) (xs : List ℕ) → 0 < count a xs → length (erase a xs) + 1 ≡ length xs
unfolding erase
length-erase a [] h = absurd (omega arith)
length-erase a (x ∷ xs) h = ground (arith, length-erase a xs)

pub NotIn-count : (a : ℕ) (xs : List ℕ) → count a xs ≡ 0 → NotIn a xs
NotIn-count a [] h = tt
NotIn-count a (x ∷ xs) h = ((λ e. absurd (ground (arith, e))), NotIn-count a xs (ground arith))

pub count-reverse_aux :
    (a : ℕ) (xs ys : List ℕ) → count a (reverse_aux xs ys) ≡ count a xs + count a ys
count-reverse_aux a [] ys = omega arith
count-reverse_aux a (x ∷ xs) ys = omega (arith, count-reverse_aux a xs (x ∷ ys))

pub length-reverse_aux : (xs ys : List ℕ) → length (reverse_aux xs ys) ≡ length xs + length ys
length-reverse_aux [] ys = omega arith
length-reverse_aux (x ∷ xs) ys = omega (arith, length-reverse_aux xs (x ∷ ys))
