-- ===== src/Alloc/Lock.antt =====
-- src/lock.h: the spin lock and its guard, with any number of threads in any interleaving.
use scalloc.Common.{ℕ, ◌≡◌, ◌≢◌, ◌⊎◌, inl, inr, refl, Bool, ◌==◌, if◌then◌else◌, arith, Bool-cases}

-- TryLock: whether the word was 0, and the word behind the exchange.
unfoldable pub try_lock : ℕ → Bool × ℕ
try_lock lock = (lock == 0, 1)

-- Unlock
unfoldable pub unlock : ℕ → ℕ
unlock lock = 0

-- A thread is outside, in the loop of Lock, or holds a Guard.
pub data Local : Type 0 where
  outside : Local
  spinning : Local
  guarded : Local

pub record System : Type 0 where
  pub lock : ℕ
  pub local : ℕ → Local

abbrev pub update : (ℕ → Local) → ℕ → Local → ℕ → Local
update f t l u = if t == u then l else f u

abbrev pub init : System
init = record { lock = 0; local = λ _. outside }

pub data Step (s : System) : System → Type 0 where
  begin : (t : ℕ) → s.local t ≡ outside → Step s (record s { local = update s.local t spinning })
  try :
      (t : ℕ)
      → s.local t ≡ spinning
      → Step s (record {
        lock = (try_lock s.lock).1;
        local = update s.local t (if (try_lock s.lock).0 then guarded else spinning);
      })
  release :
      (t : ℕ)
      → s.local t ≡ guarded
      → Step s (record { lock = unlock s.lock; local = update s.local t outside })

pub data Reach : System → Type 0 where
  start : Reach init
  later : {s s' : System} → Reach s → Step s s' → Reach s'

-- The word says whether a thread holds a guard, and only one does.
pub record IsExclusive (s : System) : Type 0 where
  pub word : (s.lock ≡ 0) ⊎ (s.lock ≡ 1)
  pub free : s.lock ≡ 0 → (t : ℕ) → s.local t ≢ guarded
  pub one : (t u : ℕ) → s.local t ≡ guarded → s.local u ≡ guarded → t ≡ u

IsExclusive-step : (s s' : System) → Step s s' → IsExclusive s → IsExclusive s'
unfolding try_lock unlock
IsExclusive-step s _ (begin t e) x = record {
  word = x.word;
  free = λ z u. ground (arith, x.free z u);
  one = λ u v a b. ground (arith, x.one u v);
}
IsExclusive-step s _ (try t e) x = record {
  word = inr refl;
  free = λ z. absurd (omega (arith, z));
  one = λ u v a b. elim (Bool-cases (s.lock == 0)) [
    | inl free ↦
        (let none_held = x.free (ground (arith, free)) in ground (arith, none_held u, none_held v))
    | inr held ↦ ground (arith, held, x.one u v)
  ];
}
IsExclusive-step s _ (release t e) x = record {
  word = inl refl;
  free = λ z u. ground (arith, x.one u t);
  one = λ u v a b. ground (arith, x.one u v, x.one u t, x.one v t);
}

-- Under the spin lock, in any interleaving of any number of threads, at most one thread holds a
-- guard, and the word is 0 only when none does.
pub Reach-IsExclusive : {s : System} → Reach s → IsExclusive s
Reach-IsExclusive start = record {
  word = inl refl;
  free = λ z t. λ e. absurd (ground (arith, e));
  one = λ t u a b. absurd (ground (arith, a));
}
Reach-IsExclusive (later r st) = IsExclusive-step _ _ st (Reach-IsExclusive r)
