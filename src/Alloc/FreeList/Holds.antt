-- ===== src/Alloc/FreeList/Holds.antt =====
-- A free list as the objects on it and the number of objects that it has not carved yet.
use scalloc.Common.{
  ℕ, suc, ◌+◌, ◌-◌, ◌%◌, ◌^◌, ◌<◌, ◌≡◌, ◌≢◌, refl, sym, subst, ◌∙◌, List, [], ◌∷◌, arith, length,
}
use scalloc.Alloc.Memory.{Mem, write, null, NotIn, Chain, Chain-write, write_self}
use scalloc.Alloc.FreeList.{IncrementalFreeList, push, pop}

pub record Holds (m : Mem) (f : IncrementalFreeList) (xs : List ℕ) (uncarved : ℕ) : Type 0 where
  pub chain : Chain m f.list xs
  pub len : f.len ≡ length xs + uncarved
  pub small : f.len < 2 ^ 31

-- A write outside of the list leaves it.
pub Holds-write :
    (m : Mem) (a v : ℕ) (f : IncrementalFreeList) (xs : List ℕ) (k : ℕ)
    → NotIn a xs
    → Holds m f xs k
    → Holds (write m a v) f xs k
Holds-write m a v f xs k out h = record {
  chain = Chain-write m a v f.list xs out h.chain;
  len = h.len;
  small = h.small;
}

pub push-Holds :
    (m : Mem) (f : IncrementalFreeList) (xs : List ℕ) (k p : ℕ)
    → Holds m f xs k
    → p ≢ null
    → NotIn p xs
    → f.len + 1 < 2 ^ 31
    → ((push p m f).0 ≡ f.len + 1) × Holds (push p m f).1 (push p m f).2 (p ∷ xs) k
unfolding push
push-Holds m f xs k p h some_p out small = (
  omega arith,
  record {
    chain =
        (refl, some_p, rw (write_self m p f.list) (Chain-write m p f.list f.list xs out h.chain));
    len = omega (arith, h.len);
    small = omega arith;
  },
)

-- What Push writes, and what it leaves.
pub push_frame :
    (p : ℕ) (m : Mem) (f : IncrementalFreeList)
    → ((push p m f).1 ≡ write m p f.list)
      × ((push p m f).2.bump_pointer ≡ f.bump_pointer)
      × ((push p m f).2.increment ≡ f.increment)
unfolding push
push_frame p m f = (refl, refl, refl)

module _ (m : Mem) (f : IncrementalFreeList) where
  pop_list :
      f.list ≢ null
      → pop m f ≡ (f.list, record f { list = m f.list; len = (f.len + 2 ^ 32 - 1) % 2 ^ 32 })
  unfolding pop
  pop_list h = ground arith

  pop_bump :
      f.list ≡ null
      → f.len ≢ 0
      → pop m f ≡ (
        f.bump_pointer,
        record f {
          bump_pointer = f.bump_pointer + f.increment;
          len = (f.len + 2 ^ 32 - 1) % 2 ^ 32;
        },
      )
  unfolding pop
  pop_bump h k = ground arith

  -- An object of the list is taken first.
  pub pop_listed :
      (x : ℕ) (xs : List ℕ) (k : ℕ)
      → Holds m f (x ∷ xs) k
      → ((pop m f).0 ≡ x)
        × Holds m (pop m f).1 xs k
        × ((pop m f).1.bump_pointer ≡ f.bump_pointer)
        × ((pop m f).1.increment ≡ f.increment)
  pop_listed x xs k h =
      let (e, some_x, rest) = h.chain in
      rw (pop_list (λ n. some_x (sym e ∙ n))) (
        e,
        record {
          chain = subst (λ y. Chain m (m y) xs) (sym e) rest;
          len = omega (arith, h.len, h.small);
          small = omega (arith, h.len, h.small);
        },
        refl,
        refl,
      )

  -- Behind them an object is carved.
  pub pop_carved :
      (k : ℕ)
      → Holds m f [] (suc k)
      → ((pop m f).0 ≡ f.bump_pointer)
        × Holds m (pop m f).1 [] k
        × ((pop m f).1.bump_pointer ≡ f.bump_pointer + f.increment)
        × ((pop m f).1.increment ≡ f.increment)
  pop_carved k h = rw (pop_bump h.chain (omega (arith, h.len))) (
    refl,
    record {
      chain = h.chain;
      len = omega (arith, h.len, h.small);
      small = omega (arith, h.len, h.small);
    },
    refl,
    refl,
  )

  pub pop_none : Holds m f [] 0 → pop m f ≡ (null, f)
  unfolding pop
  pop_none h = ground (arith, h.chain, h.len)
