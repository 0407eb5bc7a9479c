-- ===== src/Alloc/Bits.antt =====
-- Powers of two, checks over a small range, and the bits of a word.
use Prim.Native.Nat.{
  ℕ, zero, suc, ◌+◌, ◌*◌, ◌/◌, ◌%◌, ◌^◌, ◌≤◌, ◌<◌, digits, differ, bit_xor, bit_xor-bitwise,
}
use mathlib.Core.Bool.{Bool, true, ◌&&◌}
use mathlib.Core.Path.{◌≡◌, refl, ap}
use native.Mathlib.Nat.{pow-suc}
use native.Mathlib.Omega.{arith}

-- Over a small range, check every value by evaluation.
unfoldable pub all_below : ℕ → (ℕ → Bool) → Bool
all_below zero p = true
all_below (suc n) p = p n && all_below n p

pub all_below_lem : (n : ℕ) (p : ℕ → Bool) (x : ℕ) → all_below n p ≡ true → x < n → p x ≡ true
unfolding all_below
all_below_lem zero p x h lt = absurd (omega arith)
all_below_lem (suc n) p x h lt = ground (arith, all_below_lem n p x)

pub pow-add : (k n : ℕ) → 2 ^ (k + n) ≡ 2 ^ k * 2 ^ n
pow-add zero n = let e : 0 + n ≡ n = omega arith in omega (arith, ap (λ (k : ℕ). 2 ^ k) e)
pow-add (suc k) n =
    let e : suc k + n ≡ suc (k + n) = omega arith in
    grind (arith, ap (λ (k : ℕ). 2 ^ k) e, pow-suc 2 (k + n), pow-suc 2 k, pow-add k n)

-- `^` with a number whose lowest k bits are 0 keeps those of the other one.
xor_fuel :
    (n m a b : ℕ) → a ≤ n → a ≤ m → digits (λ y. y) differ n a b ≡ digits (λ y. y) differ m a b
xor_fuel zero zero a b p q = refl
xor_fuel zero (suc m) zero b p q = refl
xor_fuel (suc n) zero zero b p q = refl
xor_fuel (suc n) (suc m) zero b p q = refl
xor_fuel zero (suc m) (suc a) b p q = absurd (omega arith)
xor_fuel (suc n) zero (suc a) b p q = absurd (omega arith)
xor_fuel (suc n) (suc m) (suc a) b p q =
    omega (arith, xor_fuel n m (suc a / 2) (b / 2) (omega arith) (omega arith))

pub bit_xor_step : (a b : ℕ) → bit_xor a b ≡ bit_xor (a / 2) (b / 2) * 2 + differ (a % 2) (b % 2)
bit_xor_step zero b = omega (arith, bit_xor-bitwise 0 b, bit_xor-bitwise 0 (b / 2))
bit_xor_step (suc a) b = omega (
  arith,
  bit_xor-bitwise (suc a) b,
  bit_xor-bitwise (suc a / 2) (b / 2),
  xor_fuel a (suc a / 2) (suc a / 2) (b / 2) (omega arith) (omega arith),
)

differ-zero : (x : ℕ) → differ x 0 ≡ x
differ-zero zero = refl
differ-zero (suc x) = refl

twice : (q k : ℕ) → q * 2 ^ suc k ≡ q * 2 ^ k * 2
twice q k = grind (arith, ap (λ (t : ℕ). q * t) (pow-suc 2 k))

pub bit_xor_high :
    (k q c r : ℕ) → r < 2 ^ k → bit_xor (q * 2 ^ k + r) (c * 2 ^ k) ≡ bit_xor q c * 2 ^ k + r
bit_xor_high zero q c r h =
    let e : q * 1 + r ≡ q = omega arith in
    let f : c * 1 ≡ c = omega arith in
    omega (arith, ap (λ (x : ℕ). bit_xor x (c * 1)) e, ap (bit_xor q) f)
bit_xor_high (suc k) q c r h =
    let qk = twice q k in
    let ck = twice c k in
    let xk = twice (bit_xor q c) k in
    let a : (q * 2 ^ suc k + r) / 2 ≡ q * 2 ^ k + r / 2 = omega (arith, qk) in
    let b : c * 2 ^ suc k / 2 ≡ c * 2 ^ k = omega (arith, ck) in
    let a' : (q * 2 ^ suc k + r) % 2 ≡ r % 2 = omega (arith, qk) in
    let b' : c * 2 ^ suc k % 2 ≡ 0 = omega (arith, ck) in
    let high : bit_xor ((q * 2 ^ suc k + r) / 2) (c * 2 ^ suc k / 2) ≡ bit_xor q c * 2 ^ k + r / 2 =
      rw (a, b) (bit_xor_high k q c (r / 2) (omega (arith, pow-suc 2 k))) in
    let low : differ ((q * 2 ^ suc k + r) % 2) (c * 2 ^ suc k % 2) ≡ r % 2 =
      rw (a', b') (differ-zero (r % 2)) in
    omega (arith, bit_xor_step (q * 2 ^ suc k + r) (c * 2 ^ suc k), high, low, xk)
