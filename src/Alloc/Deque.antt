-- ===== src/Alloc/Deque.antt =====
-- src/deque.h: the doubly linked list of the reusable spans of a core. The operations on the links hold
-- the lock from their first to their last access, so that those of several threads follow one another;
-- Open and Close are single stores, and RemoveAll takes the lock in every round.
mod Ring
pub mod Operations
pub mod Pushing
mod Unlinking
mod Removing
mod Owners
pub mod Refines
use scalloc.Common.{ℕ, zero, suc, Bool, ◌&&◌, not, ◌==◌, if◌then◌else◌, ◌≡◌}
use scalloc.Alloc.TaggedValue.{TaggedValue}
use scalloc.Alloc.Memory.{Mem, write, null}

-- The members next_ and prev_ of all nodes by the address of the node, the sentinel's among them.
pub record Deque : Type 0 where
  pub owner : TaggedValue
  pub sentinel : ℕ
  pub next : Mem
  pub prev : Mem

-- The constructor, behind Open: the sentinel stands alone.
unfoldable pub new_deque : TaggedValue → ℕ → Mem → Mem → Deque
new_deque owner sentinel next prev = record {
  owner = owner;
  sentinel = sentinel;
  next = write next sentinel sentinel;
  prev = write prev sentinel sentinel;
}

unfoldable pub open_for : TaggedValue → Deque → Deque
open_for owner d = record d { owner = owner }

-- kTerminated: NULL with tag 0.
abbrev terminated : TaggedValue
terminated = 0

unfoldable pub close : Deque → Deque
close d = record d { owner = terminated }

-- PushFront
unfoldable pub push_front : TaggedValue → ℕ → Deque → Deque
push_front owner node d =
    if not (owner == d.owner)
    then d
    else (let s = d.sentinel in
        let prev = write d.prev node s in
        let next = write d.next node (d.next s) in
        let prev' = write prev (next s) node in record d { next = write next s node; prev = prev' })

-- PushBack
unfoldable pub push_back : TaggedValue → ℕ → Deque → Deque
push_back owner node d =
    if not (owner == d.owner)
    then d
    else (let s = d.sentinel in
        let prev = write d.prev node (d.prev s) in
        let next = write d.next node s in
        let next' = write next (prev s) node in record d { next = next'; prev = write prev s node })

-- RemoveFront: the node, or NULL.
unfoldable pub remove_front : Deque → ℕ × Deque
remove_front d =
    let s = d.sentinel in
    let node = d.next s in
    let next = write d.next s (d.next node) in
    let prev = write d.prev (next node) s in
    if node == s
    then (null, record d { next = next; prev = prev })
    else (node, record d { next = write next node null; prev = write prev node null })

-- RemoveBack
unfoldable pub remove_back : Deque → ℕ × Deque
remove_back d =
    let s = d.sentinel in
    let node = d.prev s in
    let prev = write d.prev s (d.prev node) in
    let next = write d.next (prev node) s in
    if node == s
    then (null, record d { next = next; prev = prev })
    else (node, record d { next = write next node null; prev = write prev node null })

-- Remove: the tests of next and prev guard the two writes.
unfoldable pub remove : TaggedValue → ℕ → Deque → Deque
remove owner node d =
    if (d.prev node == null) && (d.next node == null)
    then d
    else if not (owner == d.owner)
    then d
    else (let prev =
          (if d.next node == null then d.prev else write d.prev (d.next node) (d.prev node)) in
        let next = (if prev node == null then d.next else write d.next (prev node) (d.next node)) in
        record d { next = write next node null; prev = write prev node null })

-- RemoveAll: the number of rounds bounds the loop.
unfoldable pub remove_all : ℕ → Deque → Deque
remove_all zero d = d
remove_all (suc rounds) d =
    let rest = remove_all rounds (remove_front d).1 in
    if (remove_front d).0 == null then (remove_front d).1 else rest
