-- ===== src/Alloc/Stack/Threads.antt =====
-- Any number of threads in PushReturnTag (or Push) and PopAll of one stack, as the remote free list of
-- a span is used: what they do to the shared words, in any interleaving.
pub mod Refines
use scalloc.Common.{
  ℕ, ◌+◌, ◌^◌, ◌<◌, ◌≡◌, ◌≢◌, Bool, true, false, List, [], ◌∷◌, ◌==◌, if◌then◌else◌, Option, none,
  some,
}
use scalloc.Alloc.TaggedValue.{TaggedValue, tagged, value, swap}
use scalloc.Alloc.Memory.{Mem, write, null, NotIn}
use scalloc.Alloc.Stack.{empty_top, link, pushed}

-- Where a thread stands, with its live variables.
pub data Local : Type 0 where
  idle : Local
  pushing : (p : ℕ) → Local  -- before the load of a round of PushReturnTag
  loaded : (p : ℕ) (top_old : TaggedValue) → Local  -- before the write of the link
  linked : (p : ℕ) (top_old : TaggedValue) → Local  -- before the swap
  popping : Local  -- before the load of a round of PopAll
  claiming : (top_old : TaggedValue) → Local  -- before the swap of PopAll

-- The object that a thread is about to push.
abbrev pub pushes : Local → Option ℕ
pushes (pushing p) = some p
pushes (loaded p old) = some p
pushes (linked p old) = some p
pushes _ = none

pub record System : Type 0 where
  pub mem : Mem
  pub top : TaggedValue
  pub local : ℕ → Local

abbrev pub update : (ℕ → Local) → ℕ → Local → ℕ → Local
update f t l u = if t == u then l else f u

abbrev pub at : System → ℕ → Local → System
at s t l = record s { local = update s.local t l }

abbrev pub init : Mem → System
init m = record { mem = m; top = empty_top; local = λ _. idle }

-- An address of an object: not NULL, and a pointer of user space.
abbrev pub IsObject : ℕ → Type 0
IsObject p = (p ≢ null) × (p < 2 ^ 47)

-- Neither on the stack nor about to be pushed.
abbrev pub IsOutside : System → List ℕ → ℕ → Type 0
IsOutside s xs p = NotIn p xs × ((u : ℕ) → pushes (s.local u) ≢ some p)

-- One step of one thread. The list is the abstract stack: only a successful swap changes it.
pub data Step (s : System) (xs : List ℕ) : System → List ℕ → Type 0 where
  begin_push :
      (t p : ℕ)
      → s.local t ≡ idle
      → IsObject p
      → IsOutside s xs p
      → Step s xs (at s t (pushing p)) xs
  load_top : (t p : ℕ) → s.local t ≡ pushing p → Step s xs (at s t (loaded p s.top)) xs
  write_link :
      (t p : ℕ) (old : TaggedValue)
      → s.local t ≡ loaded p old
      → Step s xs (record (at s t (linked p old)) { mem = link p old s.mem }) xs
  push_done :
      (t p : ℕ) (old : TaggedValue)
      → s.local t ≡ linked p old
      → (swap old (pushed p old) s.top).1 ≡ true
      → Step s xs (record (at s t idle) { top = (swap old (pushed p old) s.top).0 }) (p ∷ xs)
  push_again :
      (t p : ℕ) (old : TaggedValue)
      → s.local t ≡ linked p old
      → (swap old (pushed p old) s.top).1 ≡ false
      → Step s xs (record (at s t (pushing p)) { top = (swap old (pushed p old) s.top).0 }) xs
  begin_pop_all : (t : ℕ) → s.local t ≡ idle → Step s xs (at s t popping) xs
  load_empty : (t : ℕ) → s.local t ≡ popping → value s.top ≡ null → Step s xs (at s t idle) xs
  load_all :
      (t : ℕ) → s.local t ≡ popping → value s.top ≢ null → Step s xs (at s t (claiming s.top)) xs
  claim :
      (t : ℕ) (old : TaggedValue)
      → s.local t ≡ claiming old
      → (swap old (tagged null 0) s.top).1 ≡ true
      → Step s xs (record (at s t idle) { top = (swap old (tagged null 0) s.top).0 }) []
  claim_again :
      (t : ℕ) (old : TaggedValue)
      → s.local t ≡ claiming old
      → (swap old (tagged null 0) s.top).1 ≡ false
      → Step s xs (record (at s t popping) { top = (swap old (tagged null 0) s.top).0 }) xs
  -- The program writes to memory that is not on the list.
  mutate : (a v : ℕ) → IsOutside s xs a → Step s xs (record s { mem = write s.mem a v }) xs

pub data Reach (m : Mem) : System → List ℕ → Type 0 where
  start : Reach m (init m) []
  later :
      {s : System} {xs : List ℕ} {s' : System} {xs' : List ℕ}
      → Reach m s xs
      → Step s xs s' xs'
      → Reach m s' xs'
