-- ===== src/Alloc/Glue/Realloc.antt =====
-- src/glue.h: free and realloc, over the allocators that they choose between.
use scalloc.Common.{
  ℕ, ◌+◌, ◌-◌, ◌<◌, ◌≤◌, ◌≡◌, ◌≢◌, ◌⊎◌, inl, inr, refl, sym, ap, subst, ◌∙◌, true, false, ◌&&◌,
  ◌==◌, leb, ltb, if◌then◌else◌, if-true, if-false, Bool-cases, arith,
}
use scalloc.Alloc.Memory.{null}
use scalloc.Alloc.Bytes.{Bytes}
use scalloc.Alloc.SizeClasses.{class_to_size}
use scalloc.Alloc.Arena.{Arena, contains}
use scalloc.Alloc.Glue.{Heap}

-- memmove(dst, src, n)
unfoldable pub memmove : ℕ → ℕ → ℕ → Bytes → Bytes
memmove dst src n m a = if leb dst a && ltb a (dst + n) then m (src + (a - dst)) else m a

-- The allocators behind the entry points: those of the cores and of large objects, with the size class
-- of the span of an object and the payload of a large object.
pub record Allocators (A : Type 0) : Type 0 where
  pub malloc : ℕ → Heap A → ℕ × Heap A
  pub core_free : ℕ → Heap A → Heap A
  pub large_free : ℕ → Heap A → Heap A
  pub span_class : ℕ → Heap A → ℕ
  pub payload_size : ℕ → Heap A → ℕ

module _ {A : Type 0} (object_space : Arena) (allocators : Allocators A) where
  unfoldable pub free : ℕ → Heap A → Heap A
  free p h =
      if contains object_space p
      then allocators.core_free p h
      else if p == null
      then h
      else allocators.large_free p h

  -- The size that realloc takes for that of the old object.
  unfoldable pub old_size : ℕ → Heap A → ℕ
  old_size ptr h =
      if contains object_space ptr
      then class_to_size (allocators.span_class ptr h)
      else allocators.payload_size ptr h

  -- What realloc does with the new object of `malloc`.
  abbrev pub moved : ℕ → ℕ → ℕ × Heap A → ℕ × Heap A
  moved ptr old (new_obj, h) =
      if new_obj == null
      then (null, h)
      else (new_obj, free ptr (record h { bytes = memmove new_obj ptr old h.bytes }))

  -- realloc: both branches behind the test for NULL differ in the old size only.
  unfoldable pub realloc : (ptr size : ℕ) → Heap A → ℕ × Heap A
  realloc ptr size h =
      if ptr == null
      then allocators.malloc size h
      else if leb size (old_size ptr h)
      then (ptr, h)
      else moved ptr (old_size ptr h) (allocators.malloc size h)

  memmove_at : (dst src n k : ℕ) (m : Bytes) → k < n → memmove dst src n m (dst + k) ≡ m (src + k)
  unfolding memmove
  memmove_at dst src n k m h =
      if-true {b = leb dst (dst + k) && ltb (dst + k) (dst + n)} _ _ (ground (arith, h))
      ∙ ap (λ j. m (src + j)) (omega arith)

  -- An object in the arena has the size of the class of its span and goes back to the cores; another
  -- one has its payload and goes back as a large object.
  abbrev pub IsOwned : ℕ → Heap A → ℕ → (Heap A → Heap A) → Type 0
  IsOwned ptr h old release =
      ((contains object_space ptr ≡ true)
        × (old ≡ class_to_size (allocators.span_class ptr h))
        × (release ≡ allocators.core_free ptr))
      ⊎ ((contains object_space ptr ≡ false)
          × (old ≡ allocators.payload_size ptr h)
          × (release ≡ allocators.large_free ptr))

  -- What is released is what malloc left, but for the bytes of the old object in the new one.
  pub record IsCopied (ptr old new_obj : ℕ) (before copied : Heap A) : Type 0 where
    pub same_state : copied.state ≡ before.state
    pub same_flag : copied.seen_memalign ≡ before.seen_memalign
    pub moved_bytes : (k : ℕ) → k < old → copied.bytes (new_obj + k) ≡ before.bytes (ptr + k)
    pub below : (a : ℕ) → a < new_obj → copied.bytes a ≡ before.bytes a
    pub behind : (a : ℕ) → new_obj + old ≤ a → copied.bytes a ≡ before.bytes a

  copied_lem :
      (ptr old new_obj : ℕ) (h : Heap A)
      → IsCopied ptr old new_obj h (record h { bytes = memmove new_obj ptr old h.bytes })
  unfolding memmove
  copied_lem ptr old new_obj h = record {
    same_state = refl;
    same_flag = refl;
    moved_bytes = λ k l. memmove_at new_obj ptr old k h.bytes l;
    below = λ a l. if-false {b = leb new_obj a && ltb a (new_obj + old)} _ _ (ground (arith, l));
    behind = λ a l. if-false {b = leb new_obj a && ltb a (new_obj + old)} _ _ (ground (arith, l));
  }

  old_size-owned :
      (ptr old : ℕ) (h : Heap A) (release : Heap A → Heap A)
      → IsOwned ptr h old release
      → old_size ptr h ≡ old
  unfolding old_size
  old_size-owned ptr old h release (inl (inside, e, f)) = if-true _ _ inside ∙ sym e
  old_size-owned ptr old h release (inr (outside, e, f)) = if-false _ _ outside ∙ sym e

  free-owned :
      (ptr old : ℕ) (h : Heap A) (release : Heap A → Heap A)
      → ptr ≢ null
      → IsOwned ptr h old release
      → (h' : Heap A) → free ptr h' ≡ release h'
  unfolding free
  free-owned ptr old h release some_ptr (inl (inside, e, f)) h' =
      if-true _ _ inside ∙ sym (ap (λ g. g h') f)
  free-owned ptr old h release some_ptr (inr (outside, e, f)) h' =
      if-false _ _ outside
      ∙ if-false {b = ptr == null} _ _ (ground (arith, some_ptr))
      ∙ sym (ap (λ g. g h') f)

  abbrev at_address : ℕ → Heap A → ℕ × Heap A
  at_address new_obj h = (new_obj, h)

  -- The four outcomes, by ptr, the old size and what malloc returned.
  abbrev pub OfNew : ℕ → ℕ → ℕ → (Heap A → Heap A) → Heap A → ℕ × Heap A → ℕ × Heap A → Type 0
  OfNew ptr size old release h new r =
      ((ptr ≢ null) × (old < size) × (new.0 ≡ null) × (r ≡ (null, new.1)))
      ⊎ ((ptr ≢ null)
          × (old < size)
          × (new.0 ≢ null)
          × (r.0 ≡ new.0)
          × ((copied : Heap A) × IsCopied ptr old new.0 new.1 copied × (r.1 ≡ release copied))
          × ((k : ℕ) → k < old → r.1.bytes (r.0 + k) ≡ h.bytes (ptr + k)))

  abbrev pub OfObject : ℕ → ℕ → ℕ → (Heap A → Heap A) → Heap A → ℕ × Heap A → ℕ × Heap A → Type 0
  OfObject ptr size old release h new r =
      ((ptr ≢ null) × (size ≤ old) × (r ≡ (ptr, h))) ⊎ OfNew ptr size old release h new r

  abbrev pub IsReallocated :
      ℕ → ℕ → ℕ → (Heap A → Heap A) → Heap A → ℕ × Heap A → ℕ × Heap A → Type 0
  IsReallocated ptr size old release h new r =
      ((ptr ≡ null) × (r ≡ new)) ⊎ OfObject ptr size old release h new r

  of_new :
      (ptr size old : ℕ) (release : Heap A → Heap A) (h : Heap A) (new : ℕ × Heap A)
      → ptr ≢ null
      → old < size
      → IsOwned ptr h old release
      → ((k : ℕ) → k < old → new.1.bytes (ptr + k) ≡ h.bytes (ptr + k))
      → ((h' : Heap A) (k : ℕ) → k < old → (release h').bytes (new.0 + k) ≡ h'.bytes (new.0 + k))
      → OfNew ptr size old release h new (moved ptr old new)
  of_new ptr size old release h (new_obj, after) some_ptr short owned keeps releases =
      let copied : Heap A = record after { bytes = memmove new_obj ptr old after.bytes } in
      elim (Bool-cases (new_obj == null)) [
        | inl failed ↦
            inl (some_ptr, short, ground (arith, failed), if-true {b = new_obj == null} _ _ failed)
        | inr given ↦ inr (
            subst
              (λ r.
                (ptr ≢ null)
                × (old < size)
                × (new_obj ≢ null)
                × (r.0 ≡ new_obj)
                × ((copied : Heap A) × IsCopied ptr old new_obj after copied
                    × (r.1 ≡ release copied))
                × ((k : ℕ) → k < old → r.1.bytes (r.0 + k) ≡ h.bytes (ptr + k)))
              (sym (
                if-false {b = new_obj == null} (null, after) (new_obj, free ptr copied) given
                ∙ ap (at_address new_obj) (free-owned ptr old h release some_ptr owned copied)))
              (
                some_ptr,
                short,
                (λ e. absurd (ground (arith, given, e))),
                refl,
                (copied, copied_lem ptr old new_obj after, refl),
                λ k l. releases copied k l ∙ memmove_at new_obj ptr old k after.bytes l ∙ keeps k l,
              ))
      ]

  of_object :
      (ptr size old : ℕ) (release : Heap A → Heap A) (h : Heap A)
      → ptr ≢ null
      → IsOwned ptr h old release
      → ((k : ℕ) → k < old → (allocators.malloc size h).1.bytes (ptr + k) ≡ h.bytes (ptr + k))
      → ((h' : Heap A) (k : ℕ)
          → k < old
          → (release h').bytes ((allocators.malloc size h).0 + k)
            ≡ h'.bytes ((allocators.malloc size h).0 + k))
      → OfObject ptr size old release h
          (allocators.malloc size h)
          (if leb size old then (ptr, h) else moved ptr old (allocators.malloc size h))
  of_object ptr size old release h some_ptr owned keeps releases =
      elim (Bool-cases (leb size old)) [
        | inl enough ↦ inl (some_ptr, ground (arith, enough), if-true _ _ enough)
        | inr short ↦
            subst (λ r. OfObject ptr size old release h (allocators.malloc size h) r)
              (sym (if-false (ptr, h) (moved ptr old (allocators.malloc size h)) short))
              (inr (
                of_new ptr size old release h (allocators.malloc size h) some_ptr
                  (ground (arith, short)) owned keeps releases))
      ]

  -- realloc of NULL is malloc. Of an object of `old` bytes, when malloc leaves those bytes and the
  -- release of the object those of the new one, it returns the object and the heap as they are exactly
  -- when the new size is at most the old one; else NULL with what malloc left, when malloc returns
  -- NULL; else the new object of malloc, which begins with the bytes of the old one, and the heap
  -- behind the release of the old object: by the cores where the arena has it, else as a large one.
  pub realloc_lem :
      (ptr size old : ℕ) (release : Heap A → Heap A) (h : Heap A)
      → IsOwned ptr h old release
      → ((k : ℕ) → k < old → (allocators.malloc size h).1.bytes (ptr + k) ≡ h.bytes (ptr + k))
      → ((h' : Heap A) (k : ℕ)
          → k < old
          → (release h').bytes ((allocators.malloc size h).0 + k)
            ≡ h'.bytes ((allocators.malloc size h).0 + k))
      → IsReallocated ptr size old release h (allocators.malloc size h) (realloc ptr size h)
  unfolding realloc
  realloc_lem ptr size old release h owned keeps releases = elim (Bool-cases (ptr == null)) [
    | inl none_given ↦ inl (ground (arith, none_given), if-true {b = ptr == null} _ _ none_given)
    | inr given ↦
        (let some_ptr : ptr ≢ null = λ e. absurd (ground (arith, given, e)) in
          subst (λ r. IsReallocated ptr size old release h (allocators.malloc size h) r)
            (sym (
              if-false {b = ptr == null} _ _ given
              ∙ ap (λ o. if leb size o then (ptr, h) else moved ptr o (allocators.malloc size h))
                  (old_size-owned ptr old h release owned)))
            (inr (of_object ptr size old release h some_ptr owned keeps releases)))
  ]
