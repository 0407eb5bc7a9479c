-- ===== src/Alloc/Stack/Pushed.antt =====
-- The swap of the top, and the word that a push puts there.
use scalloc.Common.{ℕ, ◌+◌, ◌%◌, ◌^◌, ◌<◌, ◌≡◌, ◌≢◌, true, false, List, ◌∷◌, arith}
use scalloc.Alloc.TaggedValue.{TaggedValue, tagged, value, tag, swap}
use scalloc.Alloc.Memory.{Mem, null, NotIn, Chain, Chain-write, write_self}
use scalloc.Alloc.Stack.{pushed, link}

pub swap_done :
    (old new top : TaggedValue)
    → (swap old new top).1 ≡ true
    → (top ≡ old) × ((swap old new top).0 ≡ new)
unfolding swap
swap_done old new top h = ground arith

pub swap_failed :
    (old new top : TaggedValue) → (swap old new top).1 ≡ false → (swap old new top).0 ≡ top
unfolding swap
swap_failed old new top h = ground arith

pub value-pushed : (p old : ℕ) → p < 2 ^ 47 → value (pushed p old) ≡ p
unfolding pushed tagged value
value-pushed p old h = ground arith

pub tag-pushed : (p old : ℕ) → tag (pushed p old) ≡ (tag old + 1) % 2 ^ 16
unfolding pushed tagged tag
tag-pushed p old = ground arith

pub swap_self : (old new : TaggedValue) → (swap old new old).0 ≡ new
unfolding swap
swap_self old new = ground arith

-- An object that is linked to the old top and swapped in stands in front of the list.
pub push-Chain :
    (m : Mem) (top p : ℕ) (xs : List ℕ)
    → p ≢ null
    → p < 2 ^ 47
    → NotIn p xs
    → Chain m (value top) xs
    → Chain (link p top m) (value (pushed p top)) (p ∷ xs)
unfolding link
push-Chain m top p xs some_p low out c = (
  value-pushed p top low,
  some_p,
  rw (write_self m p (value top)) (Chain-write m p (value top) (value top) xs out c),
)
