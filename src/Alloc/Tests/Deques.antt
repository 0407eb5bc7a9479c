-- ===== src/Alloc/Tests/Deques.antt =====
-- A deque of two nodes.
use scalloc.Common.{◌≡◌, refl, List, [], ◌∷◌, arith}
use scalloc.Alloc.Memory.{Mem, erase}
use scalloc.Alloc.Deque.{Deque, new_deque}
use scalloc.Alloc.Deque.Operations.{
  DequeOp, open_op, close_op, push_front_op, push_back_op, remove_op, remove_front_op,
  remove_back_op, step, Nodes, promises, run, AreReady,
}
use scalloc.Alloc.Deque.Refines.{Represents, new_deque-Represents, run-Represents}

abbrev cleared : Mem
cleared a = 0

abbrev new : Deque
new = new_deque 0 1000 cleared cleared

abbrev unowned : Nodes
unowned = record { owner = 0; nodes = [] }

new-Represents : Represents 1000 unowned new
new-Represents = new_deque-Represents 0 1000 cleared cleared (omega arith) (λ a. (refl, refl))

-- The core 7 pushes two spans, the core 8 fails to, and both are removed.
abbrev calls : List DequeOp
calls =
    open_op 7
    ∷ push_front_op 7 16
    ∷ push_back_op 7 32
    ∷ push_back_op 8 48
    ∷ remove_op 7 16
    ∷ remove_back_op
    ∷ remove_front_op
    ∷ close_op
    ∷ []

calls-AreReady : AreReady 1000 calls unowned
calls-AreReady = (
  tt,
  (
    ((λ e. absurd (omega (arith, e))), ((λ e. absurd (omega (arith, e))), tt)),
    (
      (
        (λ e. absurd (omega (arith, e))),
        ((λ e. absurd (omega (arith, e))), ((λ e. absurd (omega (arith, e))), tt)),
      ),
      (
        (
          (λ e. absurd (omega (arith, e))),
          (
            (λ e. absurd (omega (arith, e))),
            ((λ e. absurd (omega (arith, e))), ((λ e. absurd (omega (arith, e))), tt)),
          ),
        ),
        ((λ e. absurd (omega (arith, e))), (tt, (tt, (tt, tt)))),
      ),
    ),
  ),
)

run-Represents_example :
    ((run calls new).0 ≡ (promises calls unowned).0)
    × Represents 1000 (promises calls unowned).1 (run calls new).1
run-Represents_example = run-Represents 1000 calls unowned new calls-AreReady new-Represents

returned : (run calls new).0 ≡ 0 ∷ 0 ∷ 0 ∷ 0 ∷ 0 ∷ 32 ∷ 0 ∷ 0 ∷ []
unfolding run step erase
returned = run-Represents_example.0
