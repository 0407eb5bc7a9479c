-- ===== src/Alloc/Arena/Aligned.antt =====
-- The place of an arena in the memory that was mapped for it.
use native.Mathlib.Nat.{mod-lt, mod_self, div-add-mod', add-mod_right, mul-mod_left}
use scalloc.Common.{
  ℕ, ◌+◌, ◌-◌, ◌*◌, ◌%◌, ◌^◌, ◌≤◌, ◌<◌, ◌≡◌, ◌≢◌, ◌⊎◌, some, ◌==◌, arith, Bool-cases, inl, inr, ◌∙◌,
  ◌/◌,
}
use scalloc.Alloc.Arena.{Arena, init}

-- The next multiple of an alignment behind an address; one further where it is aligned already.
pub align_up :
    (m al : ℕ)
    → 0 < al
    → ((m + (al - m % al)) % al ≡ 0) × (m < m + (al - m % al)) × (m + (al - m % al) ≤ m + al)
align_up m al pos =
    let e : m + (al - m % al) ≡ m / al * al + al = omega (arith, mod-lt m pos, div-add-mod' m al) in
    (
      rw e (add-mod_right (m / al * al) al ∙ mul-mod_left (m / al) al),
      omega (arith, mod-lt m pos),
      omega (arith, mod-lt m pos),
    )

-- When Init returns, and no address wraps around, the arena begins at a multiple of the alignment,
-- and lies in the memory that the guided map gave at the hint, or in that of the plain one, which is
-- longer by the alignment; nothing of it is in use.
pub init-IsAligned :
    (size alignment guided mapped : ℕ) (a : Arena)
    → 0 < alignment
    → (guided ≡ 0) ⊎ (guided ≡ alignment)
    → mapped + size + alignment < 2 ^ 64
    → guided + size < 2 ^ 64
    → init size alignment guided mapped ≡ some a
    → (a.start % alignment ≡ 0)
      × (a.end ≡ a.start + size)
      × (a.len ≡ size)
      × (a.current ≡ a.start)
      × ((guided ≢ 0) × (a.start ≡ guided)
          ⊎ (mapped ≤ a.start) × (a.end ≤ mapped + (size + alignment)))
unfolding init
init-IsAligned size alignment guided mapped a pos hint fits fits' e =
    elim (Bool-cases (guided == 0)) [
      | inl plain ↦ elim (Bool-cases (mapped == 0)) [
        | inl failed ↦ absurd (ground (arith, e, plain, failed))
        | inr ok ↦ ground (arith, align_up mapped alignment, plain, ok, e)
      ]
      | inr at_hint ↦ ground (arith, mod_self alignment, at_hint, e)
    ]
