-- ===== src/Alloc/Span/Objects/Owned.antt =====
-- The lists of a span and the objects of the program, as an invariant.
use scalloc.Common.{ℕ, ◌+◌, ◌-◌, ◌^◌, ◌≤◌, ◌<◌, ◌≡◌, ◌≢◌, refl, List, length, arith}
use scalloc.Alloc.Globals.{num_classes}
use scalloc.Alloc.SizeClasses.{class_to_size, class_to_objects}
use scalloc.Alloc.SizeClasses.Fits.{spans_fit}
use scalloc.Alloc.TaggedValue.{tagged, value, tag}
use scalloc.Alloc.Memory.{null, count, Chain}
use scalloc.Alloc.FreeList.Holds.{Holds}
use scalloc.Alloc.Span.{nr_remote_objects, header_end}
use scalloc.Alloc.Stack.{is_empty, stack_length}
use scalloc.Alloc.Span.Objects.{System, object}
use scalloc.Alloc.Span.Objects.Carved.{carved, carved_range, carved-le}

-- A span whose objects have addresses of user space.
pub record IsPlaced (base sc : ℕ) : Type 0 where
  pub class : sc < num_classes
  pub some_class : 0 < sc
  pub low : object base sc (class_to_objects sc) < 2 ^ 47

-- The lists of a span, as far as the program's objects allow.
pub record Owned (base sc : ℕ) (s : System) (locals remotes : List ℕ) (n : ℕ) : Type 0 where
  pub fits : n ≤ class_to_objects sc
  pub local : Holds s.mem (s.span).local_free_list locals (class_to_objects sc - n)
  pub bump : ((s.span).local_free_list).bump_pointer ≡ object base sc n
  pub increment : ((s.span).local_free_list).increment ≡ class_to_size sc
  pub remote : Chain s.mem (value (s.span).remote_free_list) remotes
  pub tagged : tag (s.span).remote_free_list ≡ length remotes
  pub balance :
      (a : ℕ)
      → count a locals + count a remotes + count a s.held
        ≡ carved (header_end base) (class_to_size sc) n a
  pub total : length locals + length remotes + length s.held ≡ n

abbrev pub HasOwners : ℕ → ℕ → System → Type 0
HasOwners base sc s =
    (locals : List ℕ) × (remotes : List ℕ) × (n : ℕ) × Owned base sc s locals remotes n

pub empty_tag : tag (tagged null 0) ≡ 0
unfolding tag tagged
empty_tag = refl

pub empty_value : value (tagged null 0) ≡ null
unfolding value tagged
empty_value = refl

module _ (base sc : ℕ) (placed : IsPlaced base sc) where
  -- What counts as carved is an object of the span: not NULL, and of user space.
  pub carved_object :
      (n a : ℕ)
      → n ≤ class_to_objects sc
      → 0 < carved (header_end base) (class_to_size sc) n a
      → (a ≢ null) × (a < 2 ^ 47)
  unfolding header_end
  carved_object n a le h =
      let range = carved_range (base + 128) (class_to_size sc) n a h in
      (
        λ e. absurd (omega (arith, range, e)),
        grind (arith, range, placed.low, spans_fit sc placed.some_class placed.class),
      )

  module _ (s : System) (remotes : List ℕ) (n : ℕ) where
    -- An object that the program holds is on neither list.
    pub held_alone :
        (locals : List ℕ)
        → Owned base sc s locals remotes n
        → (p : ℕ) → 0 < count p s.held
        → (count p locals ≡ 0) × (count p remotes ≡ 0) × (p ≢ null) × (p < 2 ^ 47)
    held_alone locals o p h =
        let once =
          carved-le (header_end base) (class_to_size sc)
            (spans_fit sc placed.some_class placed.class).0 n p in
        let (some_p, low) = carved_object n p o.fits (omega (arith, o.balance p)) in
        (omega (arith, o.balance p), omega (arith, o.balance p), some_p, low)

    -- The number of remote objects is the length of their list.
    pub nr_remote_objects_lem :
        (locals : List ℕ)
        → Owned base sc s locals remotes n
        → nr_remote_objects s.span ≡ length remotes
    unfolding nr_remote_objects is_empty stack_length
    nr_remote_objects_lem locals o = ground (arith, o.tagged, empty_tag)
