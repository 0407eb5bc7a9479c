-- ===== src/Alloc/Deque/Operations.antt =====
-- src/deque.h: the operations as values, and the list of nodes that they promise.
use scalloc.Common.{ℕ, ◌≢◌, List, [], ◌∷◌, ◌++◌, ◌==◌, if◌then◌else◌}
use scalloc.Alloc.Memory.{null, NotIn, erase}
use scalloc.Alloc.Deque.{
  Deque, open_for, close, push_front, push_back, remove_front, remove_back, remove,
}

-- The operations, with their arguments.
pub data DequeOp : Type 0 where
  open_op : ℕ → DequeOp
  close_op : DequeOp
  push_front_op : ℕ → ℕ → DequeOp
  push_back_op : ℕ → ℕ → DequeOp
  remove_op : ℕ → ℕ → DequeOp
  remove_front_op : DequeOp
  remove_back_op : DequeOp

-- An operation on the links: the node it returns, NULL where it returns none, and the deque.
unfoldable pub step : DequeOp → Deque → ℕ × Deque
step (open_op owner) d = (null, open_for owner d)
step close_op d = (null, close d)
step (push_front_op owner node) d = (null, push_front owner node d)
step (push_back_op owner node) d = (null, push_back owner node d)
step (remove_op owner node) d = (null, remove owner node d)
step remove_front_op d = remove_front d
step remove_back_op d = remove_back d

-- What the operations promise: a list of nodes from front to back, with an owner.
pub record Nodes : Type 0 where
  pub owner : ℕ
  pub nodes : List ℕ

abbrev pub take_first : List ℕ → ℕ × List ℕ
take_first [] = (null, [])
take_first (x ∷ xs) = (x, xs)

abbrev pub take_last : List ℕ → ℕ × List ℕ
take_last [] = (null, [])
take_last (x ∷ []) = (x, [])
take_last (x ∷ y ∷ ys) = ((take_last (y ∷ ys)).0, x ∷ (take_last (y ∷ ys)).1)

abbrev pub with_nodes : Nodes → ℕ × List ℕ → ℕ × Nodes
with_nodes n r = (r.0, record n { nodes = r.1 })

abbrev pub promise : DequeOp → Nodes → ℕ × Nodes
promise (open_op owner) n = (null, record n { owner = owner })
promise close_op n = (null, record n { owner = null })
promise (push_front_op owner node) n =
    with_nodes n (null, if owner == n.owner then node ∷ n.nodes else n.nodes)
promise (push_back_op owner node) n =
    with_nodes n (null, if owner == n.owner then n.nodes ++ node ∷ [] else n.nodes)
promise (remove_op owner node) n =
    with_nodes n (null, if owner == n.owner then erase node n.nodes else n.nodes)
promise remove_front_op n = with_nodes n (take_first n.nodes)
promise remove_back_op n = with_nodes n (take_last n.nodes)

-- What the callers keep to: a node that is pushed is not linked yet, and no node is NULL or the sentinel.
abbrev pub IsReady : ℕ → DequeOp → Nodes → Type 0
IsReady s (push_front_op owner node) n = (node ≢ null) × NotIn node (s ∷ n.nodes)
IsReady s (push_back_op owner node) n = (node ≢ null) × NotIn node (s ∷ n.nodes)
IsReady s (remove_op owner node) n = node ≢ s
IsReady s op n = Unit

-- A sequence of operations, with what each returns.
unfoldable pub run : List DequeOp → Deque → List ℕ × Deque
run [] d = ([], d)
run (op ∷ ops) d = let rest = run ops (step op d).1 in ((step op d).0 ∷ rest.0, rest.1)

abbrev pub promises : List DequeOp → Nodes → List ℕ × Nodes
promises [] n = ([], n)
promises (op ∷ ops) n =
    let rest = promises ops (promise op n).1 in ((promise op n).0 ∷ rest.0, rest.1)

abbrev pub AreReady : ℕ → List DequeOp → Nodes → Type 0
AreReady s [] n = Unit
AreReady s (op ∷ ops) n = IsReady s op n × AreReady s ops (promise op n).1
