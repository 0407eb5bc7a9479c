-- ===== src/Alloc/Stack/Threads/Refines.antt =====
-- Every interleaving leaves on the shared words the abstract stack.
use scalloc.Common.{
  ℕ, ◌%◌, ◌^◌, ◌<◌, ◌≡◌, ◌≢◌, refl, sym, ap, subst, ◌∙◌, true, List, [], ◌∷◌, ◌==◌, some, length,
  arith, Bool-cases, inl, inr,
}
use scalloc.Alloc.TaggedValue.{TaggedValue, tagged, value, tag, swap}
use scalloc.Alloc.Memory.{
  Mem, write, null, NotIn, IsDistinct, Chain, Chain-write, write_self, write_other,
}
use scalloc.Alloc.Stack.{link, pushed}
use scalloc.Alloc.Stack.Pushed.{swap_done, swap_failed, value-pushed, tag-pushed}
use scalloc.Alloc.Stack.Threads.{
  Local, idle, pushing, loaded, linked, popping, claiming, pushes, System, update, at, init,
  IsObject, Step, Reach, start, later,
}

abbrev IsFresh : List ℕ → ℕ → Type 0
IsFresh xs p = NotIn p xs × IsObject p

-- What holds of the variables of one thread.
abbrev IsOk : Mem → List ℕ → Local → Type 0
IsOk m xs (pushing p) = IsFresh xs p
IsOk m xs (loaded p old) = IsFresh xs p
IsOk m xs (linked p old) = IsFresh xs p × (m p ≡ value old)
IsOk m xs _ = Unit

IsOk-write :
    (m : Mem) (xs : List ℕ) (a v : ℕ) (l : Local)
    → pushes l ≢ some a
    → IsOk m xs l
    → IsOk (write m a v) xs l
IsOk-write m xs a v (linked p old) h (f, e) = (f, write_other m a v p (λ q. h (ap some q)) ∙ e)
IsOk-write m xs a v idle h k = tt
IsOk-write m xs a v (pushing p) h k = k
IsOk-write m xs a v (loaded p old) h k = k
IsOk-write m xs a v popping h k = tt
IsOk-write m xs a v (claiming old) h k = tt

IsOk-push :
    (m : Mem) (xs : List ℕ) (p : ℕ) (l : Local)
    → pushes l ≢ some p
    → IsOk m xs l
    → IsOk m (p ∷ xs) l
IsOk-push m xs p (linked q old) h ((f, o), e) = ((((λ r. h (ap some r)), f), o), e)
IsOk-push m xs p idle h k = tt
IsOk-push m xs p (pushing q) h (f, o) = (((λ r. h (ap some r)), f), o)
IsOk-push m xs p (loaded q old) h (f, o) = (((λ r. h (ap some r)), f), o)
IsOk-push m xs p popping h k = tt
IsOk-push m xs p (claiming old) h k = tt

IsOk-clear : (m : Mem) (xs : List ℕ) (l : Local) → IsOk m xs l → IsOk m [] l
IsOk-clear m xs (linked p old) ((f, o), e) = ((tt, o), e)
IsOk-clear m xs idle k = tt
IsOk-clear m xs (pushing p) (f, o) = (tt, o)
IsOk-clear m xs (loaded p old) (f, o) = (tt, o)
IsOk-clear m xs popping k = tt
IsOk-clear m xs (claiming old) k = tt

-- The shared words hold the abstract stack.
pub record IsStack (s : System) (xs : List ℕ) : Type 0 where
  pub chain : Chain s.mem (value s.top) xs
  pub counted : tag s.top ≡ length xs % 2 ^ 16
  pub distinct : IsDistinct xs

record Inv (s : System) (xs : List ℕ) : Type 0 where
  stack : IsStack s xs
  fine : (t : ℕ) → IsOk s.mem xs (s.local t)
  apart : (t u p : ℕ) → pushes (s.local t) ≡ some p → pushes (s.local u) ≡ some p → t ≡ u

-- The locals behind a step of thread `t`.
update_all :
    (P : Local → Type 0) (f : ℕ → Local) (t : ℕ) (l : Local)
    → P l
    → ((u : ℕ) → t ≢ u → P (f u))
    → (u : ℕ) → P (update f t l u)
update_all P f t l new old u = elim (Bool-cases (t == u)) [
  | inl same ↦ rw same new
  | inr other ↦ rw other (old u (ground arith))
]

update_apart :
    (f : ℕ → Local) (t : ℕ) (l : Local)
    → ((t u p : ℕ) → pushes (f t) ≡ some p → pushes (f u) ≡ some p → t ≡ u)
    → ((u p : ℕ) → pushes l ≡ some p → pushes (f u) ≡ some p → t ≡ u)
    → (u v p : ℕ) → pushes (update f t l u) ≡ some p
    → pushes (update f t l v) ≡ some p
    → u ≡ v
update_apart f t l old new u v p a b = ground (arith, old u v p, new u p, new v p)

-- Where thread `t` keeps the object that it pushes, or drops it.
update_apart_kept :
    (f : ℕ → Local) (t : ℕ) (l : Local)
    → ((t u p : ℕ) → pushes (f t) ≡ some p → pushes (f u) ≡ some p → t ≡ u)
    → ((p : ℕ) → pushes l ≡ some p → pushes (f t) ≡ some p)
    → (u v p : ℕ) → pushes (update f t l u) ≡ some p
    → pushes (update f t l v) ≡ some p
    → u ≡ v
update_apart_kept f t l old kept = update_apart f t l old (λ u p a b. old t u p (kept p a) b)

-- The stack that a successful swap of a push makes.
push-IsStack :
    (s : System) (xs : List ℕ) (p : ℕ)
    → IsStack s xs
    → IsFresh xs p
    → s.mem p ≡ value s.top
    → (Chain s.mem (value (pushed p s.top)) (p ∷ xs))
      × (tag (pushed p s.top) ≡ length (p ∷ xs) % 2 ^ 16)
push-IsStack s xs p st (out, (not_null, small)) e = (
  (value-pushed p s.top small, not_null, rw e st.chain),
  omega (arith, tag-pushed p s.top, st.counted),
)

-- A step that changes only where thread `t` stands.
at-Inv :
    (s : System) (xs : List ℕ) (t : ℕ) (l : Local)
    → Inv s xs
    → IsOk s.mem xs l
    → ((p : ℕ) → pushes l ≡ some p → pushes (s.local t) ≡ some p)
    → Inv (at s t l) xs
at-Inv s xs t l inv ok kept = record {
  stack = record {
    chain = inv.stack.chain;
    counted = inv.stack.counted;
    distinct = inv.stack.distinct;
  };
  fine = update_all (IsOk s.mem xs) s.local t l ok (λ u _. inv.fine u);
  apart = update_apart_kept s.local t l inv.apart kept;
}

module _ (s : System) (xs : List ℕ) (inv : Inv s xs) (t p : ℕ) (old : TaggedValue) where
  write_link-Inv :
      s.local t ≡ loaded p old → Inv (record (at s t (linked p old)) { mem = link p old s.mem }) xs
  unfolding link
  write_link-Inv here =
      let mine : IsFresh xs p = subst (IsOk s.mem xs) here (inv.fine t) in
      record {
        stack = record {
          chain = Chain-write s.mem p (value old) (value s.top) xs mine.0 inv.stack.chain;
          counted = inv.stack.counted;
          distinct = inv.stack.distinct;
        };
        fine =
            update_all (IsOk (link p old s.mem) xs) s.local t (linked p old)
              (mine, write_self s.mem p (value old))
              (λ u other.
                IsOk-write s.mem xs p (value old) (s.local u)
                  (λ e. other (inv.apart t u p (ap pushes here) e)) (inv.fine u));
        apart = update_apart_kept s.local t (linked p old) inv.apart (λ q a. ap pushes here ∙ a);
      }

  push_done-Inv :
      s.local t ≡ linked p old
      → s.top ≡ old
      → Inv (record (at s t idle) { top = pushed p s.top }) (p ∷ xs)
  push_done-Inv here same =
      let mine : IsFresh xs p × (s.mem p ≡ value old) = subst (IsOk s.mem xs) here (inv.fine t) in
      let made = push-IsStack s xs p inv.stack mine.0 (mine.1 ∙ ap value (sym same)) in
      record {
        stack = record {
          chain = made.0;
          counted = made.1;
          distinct = (mine.0.0, inv.stack.distinct);
        };
        fine = update_all (IsOk s.mem (p ∷ xs)) s.local t idle tt (λ u other.
            IsOk-push s.mem xs p (s.local u) (λ e. other (inv.apart t u p (ap pushes here) e))
              (inv.fine u));
        apart = update_apart_kept s.local t idle inv.apart (λ q a. cc);
      }

  claim-Inv : Inv (record (at s t idle) { top = tagged null 0 }) []
  unfolding tagged value tag
  claim-Inv = record {
    stack = record { chain = refl; counted = refl; distinct = tt };
    fine =
        update_all (IsOk s.mem []) s.local t idle tt
          (λ u _. IsOk-clear s.mem xs (s.local u) (inv.fine u));
    apart = update_apart_kept s.local t idle inv.apart (λ q a. cc);
  }

Step-Inv : {s s' : System} {xs xs' : List ℕ} → Step s xs s' xs' → Inv s xs → Inv s' xs'
Step-Inv {s} {xs = xs} (Step.begin_push t p here object outside) inv = record {
  stack = record {
    chain = inv.stack.chain;
    counted = inv.stack.counted;
    distinct = inv.stack.distinct;
  };
  fine = update_all (IsOk s.mem xs) s.local t (pushing p) (outside.0, object) (λ u _. inv.fine u);
  apart =
      update_apart s.local t (pushing p) inv.apart (λ u q a b. absurd (outside.1 u (b ∙ sym a)));
}
Step-Inv {s} {xs = xs} (Step.load_top t p here) inv =
    at-Inv s xs t (loaded p s.top) inv (subst (IsOk s.mem xs) here (inv.fine t))
      (λ q a. ap pushes here ∙ a)
Step-Inv {s} {xs = xs} (Step.write_link t p old here) inv = write_link-Inv s xs inv t p old here
Step-Inv {s} {xs = xs} (Step.push_done t p old here done) inv =
    let (same, new) = swap_done old (pushed p old) s.top done in
    rw (new, ← same) (push_done-Inv s xs inv t p old here same)
Step-Inv {s} {xs = xs} (Step.push_again t p old here failed) inv =
    let mine : IsFresh xs p × (s.mem p ≡ value old) = subst (IsOk s.mem xs) here (inv.fine t) in
    rw (swap_failed old (pushed p old) s.top failed)
      (at-Inv s xs t (pushing p) inv mine.0 (λ q a. ap pushes here ∙ a))
Step-Inv {s} {xs = xs} (Step.begin_pop_all t here) inv = at-Inv s xs t popping inv tt (λ q a. cc)
Step-Inv {s} {xs = xs} (Step.load_empty t here nothing) inv = at-Inv s xs t idle inv tt (λ q a. cc)
Step-Inv {s} {xs = xs} (Step.load_all t here some_top) inv =
    at-Inv s xs t (claiming s.top) inv tt (λ q a. cc)
Step-Inv {s} {xs = xs} (Step.claim t old here done) inv =
    rw (swap_done old (tagged null 0) s.top done).1 (claim-Inv s xs inv t null old)
Step-Inv {s} {xs = xs} (Step.claim_again t old here failed) inv =
    rw (swap_failed old (tagged null 0) s.top failed) (at-Inv s xs t popping inv tt (λ q a. cc))
Step-Inv {s} {xs = xs} (Step.mutate a v (out, unseen)) inv = record {
  stack = record {
    chain = Chain-write s.mem a v (value s.top) xs out inv.stack.chain;
    counted = inv.stack.counted;
    distinct = inv.stack.distinct;
  };
  fine = λ u. IsOk-write s.mem xs a v (s.local u) (unseen u) (inv.fine u);
  apart = inv.apart;
}

Inv-init : (m : Mem) → Inv (init m) []
unfolding tagged value tag
Inv-init m = record {
  stack = record { chain = refl; counted = refl; distinct = tt };
  fine = λ t. tt;
  apart = λ t u p a b. cc;
}

Reach-Inv : {m : Mem} {s : System} {xs : List ℕ} → Reach m s xs → Inv s xs
Reach-Inv {m} start = Inv-init m
Reach-Inv (later r st) = Step-Inv st (Reach-Inv r)

-- Behind any interleaving the memory from the top on links the objects of the abstract stack, each
-- once, and the tag is their number modulo 2 ^ 16.
pub Reach-IsStack : {m : Mem} {s : System} {xs : List ℕ} → Reach m s xs → IsStack s xs
Reach-IsStack r = (Reach-Inv r).stack

-- When the swap of a PopAll succeeds, behind any interleaving, what it returns are the objects of the
-- abstract stack, linked in memory, and their number, as long as there are fewer than 2 ^ 16.
pub pop_all-Chain :
    {m : Mem} {s : System} {xs : List ℕ} (r : Reach m s xs) (t : ℕ) (old : TaggedValue)
    → length xs < 2 ^ 16
    → s.local t ≡ claiming old
    → (swap old (tagged null 0) s.top).1 ≡ true
    → Chain s.mem (value old) xs × (tag old ≡ length xs)
pop_all-Chain {s = s} {xs} r t old few here done =
    let st = (Reach-Inv r).stack in
    let same = (swap_done old (tagged null 0) s.top done).0 in
    (
      subst (λ top. Chain s.mem (value top) xs) same st.chain,
      omega (arith, st.counted, ap tag same),
    )
