-- ===== src/Common/Dict.antt =====
-- Python's `dict` as an association list that keeps the order of insertion, and sets of line
-- numbers. The key type's equality is an instance.
use scalloc.Common.Tests.{◌==◌ as nat_eq, if◌then◌else◌, Bool-cases}
use scalloc.Common.Text.{Text, text_eq, text_eq_iff}
use Prim.Native.Nat.{ℕ, ◌+◌}
use mathlib.Core.Bool.{Bool, true, false, ◌||◌}
use mathlib.Core.List.{List, [], ◌∷◌}
use mathlib.Core.Logic.{◌↔◌, inl, inr}
use mathlib.Core.Option.{Option, none, some}
use mathlib.Core.Path.{◌≡◌, refl}
use native.Mathlib.Omega.{arith}

pub record Eq {ℓ} (A : Type ℓ) : Type ℓ where
  pub beq : A → A → Bool
  pub beq_iff : (a b : A) → (beq a b ≡ true) ↔ (a ≡ b)

instance abbrev pub text_key : Eq Text
text_key = record { beq = text_eq; beq_iff = text_eq_iff }

abbrev option_eq : Option Text → Option Text → Bool
option_eq none none = true
option_eq (some s) (some t) = text_eq s t
option_eq _ _ = false

pub option_eq_iff : (a b : Option Text) → (option_eq a b ≡ true) ↔ (a ≡ b)
option_eq_iff (some s) (some t) = ground (arith, text_eq_iff s t)
option_eq_iff _ _ = ground arith

instance abbrev pub option_key : Eq (Option Text)
option_key = record { beq = option_eq; beq_iff = option_eq_iff }

abbrev pub Dict {ℓ κ} : Type ℓ → Type κ → Type (ℓ ⊔ κ)
Dict K V = List (K × V)

module _ {ℓ κ} {K : Type ℓ} {V : Type κ} ⦃e : Eq K⦄ where
  -- d.get(k)
  unfoldable pub get : K → Dict K V → Option V
  get k [] = none
  get k ((j, v) ∷ d) = if e.beq j k then some v else get k d

  -- d[k] = v
  unfoldable pub put : K → V → Dict K V → Dict K V
  put k v [] = (k, v) ∷ []
  put k v ((j, w) ∷ d) = if e.beq j k then (j, v) ∷ d else (j, w) ∷ put k v d

  pub get-put :
      (k j : K) (v : V) (d : Dict K V) → get j (put k v d) ≡ (if e.beq k j then some v else get j d)
  unfolding get put
  get-put k j v [] = refl
  get-put k j v ((i, w) ∷ d) =
      ground (arith, e.beq_iff k j, e.beq_iff i k, e.beq_iff i j, get-put k j v d)

-- The sum of the values of a dict of counters.
unfoldable pub total {ℓ} : {K : Type ℓ} → Dict K ℕ → ℕ
total [] = 0
total ((k, n) ∷ d) = n + total d

abbrev pub or_zero : Option ℕ → ℕ
or_zero none = 0
or_zero (some n) = n

-- A write replaces the old value in the sum.
pub total-put {ℓ} :
    {K : Type ℓ} ⦃e : Eq K⦄ (k : K) (v : ℕ) (d : Dict K ℕ)
    → or_zero (get k d) + total (put k v d) ≡ total d + v
unfolding total put get
total-put k v [] = omega arith
total-put ⦃e⦄ k v ((j, n) ∷ d) = ground (arith, total-put k v d)

unfoldable pub mem_nat : ℕ → List ℕ → Bool
mem_nat n [] = false
mem_nat n (m ∷ ms) = nat_eq n m || mem_nat n ms

-- s.add(n)
unfoldable pub add_nat : ℕ → List ℕ → List ℕ
unfolding mem_nat
add_nat n ms = if mem_nat n ms then ms else n ∷ ms

pub mem_nat-add_nat :
    (n m : ℕ) (ms : List ℕ) → mem_nat m (add_nat n ms) ≡ (nat_eq m n || mem_nat m ms)
unfolding add_nat mem_nat
mem_nat-add_nat n m ms = elim (Bool-cases (mem_nat n ms)) [
  | inl old ↦ rw old (ground (arith, lem n m ms old))
  | inr new ↦ rw new refl
]
  where
    lem : (n m : ℕ) (ms : List ℕ) → mem_nat n ms ≡ true → m ≡ n → mem_nat m ms ≡ true
    lem n m ms h p = rw p h
