-- ===== src/Alloc/SpanPool/Spans/Places.antt =====
-- Each address is at one place: nowhere yet, with the program, or on one backend of the pool.
use scalloc.Common.{
  ℕ, ◌+◌, ◌<◌, ◌≡◌, ◌≢◌, refl, sym, ap, subst, ◌∙◌, Bool, true, false, ◌&&◌, ◌==◌, if◌then◌else◌,
  if-true, if-false, Bool-cases, inl, inr, List, ◌∷◌, arith,
}
use scalloc.Alloc.Memory.{count, erase, count-erase}

pub data Place : Type 0 where
  nowhere : Place
  with_program : Place
  on_backend : ℕ → ℕ → Place

abbrev pub same_backend : ℕ → ℕ → ℕ → ℕ → Bool
same_backend slot b slot' b' = (slot == slot') && (b == b')

abbrev pub on : Place → ℕ → ℕ → ℕ
on (on_backend slot b) slot' b' = if same_backend slot b slot' b' then 1 else 0
on _ slot' b' = 0

abbrev pub with : Place → ℕ
with with_program = 1
with _ = 0

abbrev pub put : ℕ → Place → (ℕ → Place) → ℕ → Place
put a place places x = if x == a then place else places x

abbrev pub set_list : ℕ → ℕ → List ℕ → (ℕ → ℕ → List ℕ) → ℕ → ℕ → List ℕ
set_list slot b xs lists slot' b' = if same_backend slot b slot' b' then xs else lists slot' b'

-- An address on one backend is on no other and not with the program.
pub on_one :
    (place : Place) (slot b slot' b' : ℕ)
    → 0 < on place slot b
    → on place slot' b' ≡ on (on_backend slot b) slot' b'
on_one nowhere slot b slot' b' h = absurd (omega (arith, h))
on_one with_program slot b slot' b' h = absurd (omega (arith, h))
on_one (on_backend i j) slot b slot' b' h = ground (arith, h)

pub on-with : (place : Place) (slot b : ℕ) → 0 < on place slot b → with place ≡ 0
on-with nowhere slot b h = refl
on-with with_program slot b h = absurd (omega (arith, h))
on-with (on_backend i j) slot b h = refl

pub with-on : (place : Place) (slot b : ℕ) → 0 < with place → on place slot b ≡ 0
with-on nowhere slot b h = refl
with-on with_program slot b h = refl
with-on (on_backend i j) slot b h = absurd (omega (arith, h))

pub with-one : (place : Place) → 0 < with place → with place ≡ 1
with-one nowhere h = absurd (omega (arith, h))
with-one with_program h = refl
with-one (on_backend i j) h = absurd (omega (arith, h))

pub on_somewhere : (place : Place) (slot b : ℕ) → 0 < on place slot b → place ≢ nowhere
on_somewhere nowhere slot b h e = absurd (omega (arith, h))
on_somewhere with_program slot b h e = absurd (omega (arith, h))
on_somewhere (on_backend i j) slot b h e = ground (arith, e)

pub with_somewhere : (place : Place) → 0 < with place → place ≢ nowhere
with_somewhere nowhere h e = absurd (omega (arith, h))
with_somewhere with_program h e = ground (arith, e)
with_somewhere (on_backend i j) h e = absurd (omega (arith, h))

count-if :
    (a : ℕ) (t : Bool) (xs ys : List ℕ)
    → count a (if t then xs else ys) ≡ (if t then count a xs else count a ys)
count-if a true xs ys = refl
count-if a false xs ys = refl

same_backend_eq :
    (slot b slot' b' : ℕ) → same_backend slot b slot' b' ≡ true → (slot ≡ slot') × (b ≡ b')
same_backend_eq slot b slot' b' h = ground (arith, h)

-- The lists and the program have what the places say, each once.
pub record IsPlaced (lists : ℕ → ℕ → List ℕ) (held : List ℕ) (places : ℕ → Place) : Type 0 where
  pub pooled : (a slot b : ℕ) → count a (lists slot b) ≡ on (places a) slot b
  pub holding : (a : ℕ) → count a held ≡ with (places a)

module _ (lists : ℕ → ℕ → List ℕ) (held : List ℕ) (places : ℕ → Place)
    (q : IsPlaced lists held places) where
  -- The list of one backend changes, and the place of one address.
  set_pooled :
      (slot b x : ℕ) (xs : List ℕ) (place : Place)
      → ((a : ℕ) → a ≢ x → count a xs ≡ count a (lists slot b))
      → (count x xs ≡ on place slot b)
      → ((slot' b' : ℕ)
          → same_backend slot b slot' b' ≡ false
          → on (places x) slot' b' ≡ on place slot' b')
      → (a slot' b' : ℕ)
      → count a (set_list slot b xs lists slot' b') ≡ on (put x place places a) slot' b'
  set_pooled slot b x xs place others own elsewhere a slot' b' =
      count-if a (same_backend slot b slot' b') xs (lists slot' b')
      ∙ elim (Bool-cases (same_backend slot b slot' b')) [
        | inl here ↦
            (let (e, f) = same_backend_eq slot b slot' b' here in
              if-true _ _ here
              ∙ subst (λ s. count a xs ≡ on (put x place places a) s b') e
                  (subst (λ c. count a xs ≡ on (put x place places a) slot c) f
                    (elim (Bool-cases (a == x)) [
                      | inl same ↦
                          rw same
                            (subst (λ y. count y xs ≡ on place slot b) (ground (arith, same)) own)
                      | inr other ↦ rw other (others a (ground (arith, other)) ∙ q.pooled a slot b)
                    ])))
        | inr there ↦ if-false _ _ there ∙ (elim (Bool-cases (a == x)) [
          | inl same ↦ rw same (
              q.pooled a slot' b'
              ∙ subst (λ y. on (places y) slot' b' ≡ on place slot' b') (ground (arith, same))
                  (elsewhere slot' b' there))
          | inr other ↦ rw other (q.pooled a slot' b')
        ])
      ]

  pub take-IsPlaced :
      (slot b x : ℕ) (xs : List ℕ)
      → lists slot b ≡ x ∷ xs
      → IsPlaced (set_list slot b xs lists) (x ∷ held) (put x with_program places)
  take-IsPlaced slot b x xs e =
      let here = sym (q.pooled x slot b) ∙ ap (count x) e in
      let one = on_one (places x) slot b in
      record {
        pooled =
            set_pooled slot b x xs with_program
              (λ a h. subst (λ l. count a xs ≡ count a l) (sym e) (ground (arith, h)))
              (ground (arith, here, one slot b))
              (λ slot' b' h. ground (arith, here, one slot' b', h));
        holding = λ a. ground (arith, here, q.holding a, on-with (places x) slot b);
      }

  pub give-IsPlaced :
      (slot b x : ℕ)
      → 0 < count x held
      → IsPlaced
          (set_list slot b (x ∷ lists slot b) lists)
          (erase x held)
          (put x (on_backend slot b) places)
  give-IsPlaced slot b x h =
      let have = q.holding x in
      record {
        pooled =
            set_pooled slot b x (x ∷ lists slot b) (on_backend slot b) (λ a k. ground (arith, k))
              (ground (arith, have, h, q.pooled x slot b, with-on (places x) slot b))
              (λ slot' b' k. ground (arith, have, h, k, with-on (places x) slot' b'));
        holding =
            λ a. ground (arith, have, h, q.holding a, count-erase x a held h, with-one (places x));
      }

  pub fresh-IsPlaced :
      (x : ℕ) → places x ≡ nowhere → IsPlaced lists (x ∷ held) (put x with_program places)
  fresh-IsPlaced x e = record {
    pooled = λ a slot b. elim (Bool-cases (a == x)) [
      | inl same ↦ rw same (
          q.pooled a slot b
          ∙ subst (λ y. on (places y) slot b ≡ 0) (ground (arith, same)) (ap (λ p. on p slot b) e))
      | inr other ↦ rw other (q.pooled a slot b)
    ];
    holding = λ a. elim (Bool-cases (a == x)) [
      | inl same ↦ rw same (
          ap (λ n. 1 + n)
            (q.holding a ∙ subst (λ y. with (places y) ≡ 0) (ground (arith, same)) (ap with e)))
      | inr other ↦ rw other (omega (arith, q.holding a))
    ];
  }
