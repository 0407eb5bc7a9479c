-- ===== src/Alloc/SpanPool.antt =====
-- src/span_pool.h: the pool of free spans, one array of stacks for each slot of size classes. The
-- loads, swaps and counters of an operation follow one another here. The options of the build that
-- advise or protect the pages of a span change no state of the pool and are left out.
mod Outcome
pub mod Search
pub mod Limit
pub mod Spans
use scalloc.Common.{
  ℕ, zero, suc, ◌+◌, ◌-◌, ◌%◌, ◌^◌, Bool, not, ◌||◌, ◌&&◌, ◌==◌, ltb, leb, if◌then◌else◌, Option,
  some,
}
use scalloc.Alloc.Globals.{fine_classes, coarse_classes}
use scalloc.Alloc.TaggedValue.{TaggedValue}
use scalloc.Alloc.Memory.{Mem, null}
use scalloc.Alloc.Stack.{Stack, empty_top, push, pop}
use scalloc.Alloc.Arena.{Arena, allocate_virtual_span}

abbrev pub size_class_slots : ℕ
size_class_slots = coarse_classes + 1

abbrev pub hard_limit : ℕ
hard_limit = 16384

-- The tops of the backends by slot and index; what they are linked through is shared.
pub record SpanPool : Type 0 where
  pub current_threads : ℕ
  pub limit : ℕ
  pub backends : ℕ → ℕ → TaggedValue
  pub mem : Mem

-- Init: fresh pages make empty stacks.
unfoldable pub init : Mem → SpanPool
init mem = record { current_threads = 0; limit = 0; backends = λ slot b. empty_top; mem = mem }

-- Signed comparison of words of 32 bits.
unfoldable pub above32 : ℕ → ℕ → Bool
above32 a b = ltb ((b + 2 ^ 31) % 2 ^ 32) ((a + 2 ^ 31) % 2 ^ 32)

-- AnnounceNewThread: the loop ends with its first exchange that does not fail.
unfoldable pub announce_new_thread : ℕ → SpanPool → SpanPool
announce_new_thread cpus p =
    let new_limit = (p.current_threads + 1) % 2 ^ 32 in
    let announced = record p { current_threads = new_limit } in
    if above32 new_limit cpus || above32 new_limit hard_limit
    then announced
    else if not (above32 new_limit p.limit)
    then announced
    else record announced { limit = p.limit + 1 }

-- AnnounceLeavingThread
unfoldable pub announce_leaving_thread : SpanPool → SpanPool
announce_leaving_thread p = record p { current_threads = (p.current_threads + 2 ^ 32 - 1) % 2 ^ 32 }

abbrev pub set_top : ℕ → ℕ → TaggedValue → (ℕ → ℕ → TaggedValue) → ℕ → ℕ → TaggedValue
set_top slot b top tops slot' b' = if slot == slot' && (b == b') then top else tops slot' b'

-- spans_[slot][b].Pop() and spans_[slot][b].Push(s)
unfoldable pub pop_backend : ℕ → ℕ → SpanPool → ℕ × SpanPool
pop_backend slot b p =
    let r = pop (record { mem = p.mem; top = p.backends slot b }) in
    (r.0, record p { backends = set_top slot b r.1.top p.backends; mem = r.1.mem })

unfoldable pub push_backend : ℕ → ℕ → ℕ → SpanPool → SpanPool
push_backend slot b s p =
    let r = push s (record { mem = p.mem; top = p.backends slot b }) in
    record p { backends = set_top slot b r.top p.backends; mem = r.mem }

unfoldable pub size_class_slot : ℕ → ℕ
size_class_slot size_class = if leb size_class fine_classes then 0 else size_class - fine_classes

-- The slot of round `k`: a negative number comes back from the end.
unfoldable pub slot_of_round : ℕ → ℕ → ℕ
slot_of_round slot k = if ltb slot k then slot + size_class_slots - k else slot - k

-- The loop over the backends of a slot, with the rounds left and the rounds done.
unfoldable pub scan_backends : ℕ → ℕ → ℕ → ℕ → SpanPool → ℕ × SpanPool
scan_backends slot start zero j p = (null, p)
scan_backends slot start (suc rounds) j p =
    let r = pop_backend slot ((start + j) % p.limit) p in
    let rest = scan_backends slot start rounds (suc j) r.1 in if r.0 == null then rest else r

-- The loop over the slots; `rand k` is what hwrand returns in round `k`.
unfoldable pub scan_slots : (ℕ → ℕ) → ℕ → ℕ → ℕ → SpanPool → ℕ × SpanPool
scan_slots rand slot zero k p = (null, p)
scan_slots rand slot (suc rounds) k p =
    let r = scan_backends (slot_of_round slot k) (rand k % p.limit) p.limit 0 p in
    let rest = scan_slots rand slot rounds (suc k) r.1 in if r.0 == null then rest else r

-- Allocate: none where the arena stops the program.
unfoldable pub allocate : (ℕ → ℕ) → ℕ → ℕ → SpanPool → Arena → Option ℕ × SpanPool × Arena
allocate rand size_class id p a =
    let slot = size_class_slot size_class in
    let own = pop_backend slot (id % p.limit) p in
    let others = scan_slots rand slot size_class_slots 0 own.1 in
    let found = (if own.0 == null then others else own) in
    let fresh = allocate_virtual_span a in
    if found.0 == null then (fresh.0, found.1, fresh.1) else (some found.0, found.1, a)

-- Free
unfoldable pub free : ℕ → ℕ → ℕ → SpanPool → SpanPool
free size_class s id p = push_backend (size_class_slot size_class) (id % p.limit) s p
