-- ===== src/Alloc/Deque/Ring.antt =====
-- The links of a deque as a segment of nodes between two ends.
use scalloc.Common.{ℕ, ◌≡◌, ◌≢◌, refl, sym, subst, ◌∙◌, List, [], ◌∷◌, ◌++◌, All}
use scalloc.Alloc.Memory.{Mem, write, NotIn, IsDistinct, write_self, write_other}

-- From `a` over the nodes to `b`, each linked to the next one and back.
abbrev pub Seg : Mem → Mem → ℕ → List ℕ → ℕ → Type 0
Seg next prev a [] b = (next a ≡ b) × (prev b ≡ a)
Seg next prev a (x ∷ xs) b = (next a ≡ x) × (prev x ≡ a) × Seg next prev x xs b

-- A segment reads `next` at its first end and its nodes, and `prev` at its nodes and its last end.
pub Seg-frame :
    (next next' prev prev' : Mem) (a : ℕ) (xs : List ℕ) (b : ℕ)
    → All (λ x. next' x ≡ next x) (a ∷ xs)
    → All (λ x. prev' x ≡ prev x) (b ∷ xs)
    → Seg next prev a xs b
    → Seg next' prev' a xs b
Seg-frame next next' prev prev' a [] b (p, _) (q, _) (e, f) = (p ∙ e, q ∙ f)
Seg-frame next next' prev prev' a (x ∷ xs) b (p, ps) (q, (qx, qs)) (e, f, s) =
    (p ∙ e, qx ∙ f, Seg-frame next next' prev prev' x xs b ps (q, qs) s)

-- Writes outside of a list leave what it reads.
pub All-write : (m : Mem) (a v : ℕ) (xs : List ℕ) → NotIn a xs → All (λ x. write m a v x ≡ m x) xs
All-write m a v [] h = tt
All-write m a v (x ∷ xs) (h, hs) = (write_other m a v x (λ e. h (sym e)), All-write m a v xs hs)

pub All-refl : (m : Mem) (xs : List ℕ) → All (λ x. m x ≡ m x) xs
All-refl m [] = tt
All-refl m (x ∷ xs) = (refl, All-refl m xs)

pub All-writes :
    (m : Mem) (a v b w : ℕ) (xs : List ℕ)
    → NotIn a xs
    → NotIn b xs
    → All (λ x. write (write m a v) b w x ≡ m x) xs
All-writes m a v b w [] h k = tt
All-writes m a v b w (x ∷ xs) (h, hs) (k, ks) = (
  write_other (write m a v) b w x (λ e. k (sym e)) ∙ write_other m a v x (λ e. h (sym e)),
  All-writes m a v b w xs hs ks,
)

-- A segment is followed by a node.
pub Seg-snoc :
    (next prev : Mem) (a : ℕ) (xs : List ℕ) (y b : ℕ)
    → Seg next prev a xs y
    → (next y ≡ b)
    → (prev b ≡ y)
    → Seg next prev a (xs ++ y ∷ []) b
Seg-snoc next prev a [] y b (e, f) p q = (e, f, (p, q))
Seg-snoc next prev a (x ∷ xs) y b (e, f, s) p q = (e, f, Seg-snoc next prev x xs y b s p q)

pub Seg-split :
    (next prev : Mem) (a : ℕ) (xs : List ℕ) (y : ℕ) (ys : List ℕ) (b : ℕ)
    → Seg next prev a (xs ++ y ∷ ys) b
    → Seg next prev a xs y × Seg next prev y ys b
Seg-split next prev a [] y ys b (e, f, s) = ((e, f), s)
Seg-split next prev a (x ∷ xs) y ys b (e, f, s) =
    let (l, r) = Seg-split next prev x xs y ys b s in ((e, f, l), r)

pub Seg-join :
    (next prev : Mem) (a : ℕ) (xs : List ℕ) (y : ℕ) (ys : List ℕ) (b : ℕ)
    → Seg next prev a xs y
    → Seg next prev y ys b
    → Seg next prev a (xs ++ y ∷ ys) b
Seg-join next prev a [] y ys b (e, f) s = (e, f, s)
Seg-join next prev a (x ∷ xs) y ys b (e, f, l) r = (e, f, Seg-join next prev x xs y ys b l r)

pub NotIn-left : (a : ℕ) (xs ys : List ℕ) → NotIn a (xs ++ ys) → NotIn a xs
NotIn-left a [] ys h = tt
NotIn-left a (x ∷ xs) ys (h, hs) = (h, NotIn-left a xs ys hs)

pub NotIn-right : (a : ℕ) (xs ys : List ℕ) → NotIn a (xs ++ ys) → NotIn a ys
NotIn-right a [] ys h = h
NotIn-right a (x ∷ xs) ys (h, hs) = NotIn-right a xs ys hs

-- The node in front of the last end, and the one behind the first.
abbrev pub last_node : ℕ → List ℕ → ℕ
last_node a [] = a
last_node a (x ∷ xs) = last_node x xs

abbrev pub first_node : List ℕ → ℕ → ℕ
first_node [] b = b
first_node (x ∷ xs) b = x

pub prev-last :
    (next prev : Mem) (a : ℕ) (xs : List ℕ) (b : ℕ) → Seg next prev a xs b → prev b ≡ last_node a xs
prev-last next prev a [] b (e, f) = f
prev-last next prev a (x ∷ xs) b (e, f, s) = prev-last next prev x xs b s

pub next-first :
    (next prev : Mem) (a : ℕ) (xs : List ℕ) (b : ℕ)
    → Seg next prev a xs b
    → next a ≡ first_node xs b
next-first next prev a [] b (e, f) = e
next-first next prev a (x ∷ xs) b (e, f, s) = e

pub last-ne : (a z : ℕ) (xs : List ℕ) → a ≢ z → NotIn a xs → a ≢ last_node z xs
last-ne a z [] h k = h
last-ne a z (x ∷ xs) h (k, ks) = last-ne a x xs k ks

pub first-ne : (z : ℕ) (xs : List ℕ) (b : ℕ) → NotIn z xs → z ≢ b → z ≢ first_node xs b
first-ne z [] b h k = k
first-ne z (x ∷ xs) b (h, hs) k = h

-- The last end of a segment is replaced by `c`.
pub retarget :
    (next prev : Mem) (a : ℕ) (xs : List ℕ) (b c : ℕ)
    → IsDistinct (a ∷ xs)
    → NotIn c xs
    → Seg next prev a xs b
    → Seg (write next (prev b) c) (write prev c (prev b)) a xs c
retarget next prev a [] b c d out (e, f) =
    (rw f (write_self next a c), write_self prev c (prev b) ∙ f)
retarget next prev a (x ∷ xs) b c (apart, d) (out, outs) (e, f, s) = (
  write_other next (prev b) c a
        (λ q. last-ne a x xs apart.0 apart.1 (q ∙ prev-last next prev x xs b s))
      ∙ e,
  write_other prev c (prev b) x (λ q. out (sym q)) ∙ f,
  retarget next prev x xs b c d outs s,
)

-- A node is taken out of a segment.
pub cut :
    (next prev : Mem) (a : ℕ) (xs : List ℕ) (x : ℕ) (ys : List ℕ) (b : ℕ)
    → IsDistinct (a ∷ xs ++ ys)
    → NotIn b (xs ++ ys)
    → Seg next prev a xs x
    → Seg next prev x ys b
    → Seg (write next (prev x) (next x)) (write prev (next x) (prev x)) a (xs ++ ys) b
cut next prev a [] x [] b d out (e, f) (g, h) =
    (rw (f, g) (write_self next a b), rw (f, g) (write_self prev b a))
cut next prev a [] x (y ∷ ys) b (apart, (apart', d)) (out, outs) (e, f) (g, h, s) =
    subst (λ p. Seg (write next p (next x)) (write prev (next x) p) a (y ∷ ys) b) (sym f)
      (subst (λ n. Seg (write next a n) (write prev n a) a (y ∷ ys) b) (sym g)
        (
          write_self next a y,
          write_self prev y a,
          Seg-frame next (write next a y) prev (write prev y a) y ys b
              (All-write next a y (y ∷ ys) apart)
              (All-write prev y a (b ∷ ys) ((λ q. out (sym q)), apart')) s,
        ))
cut next prev a (z ∷ zs) x ys b (apart, (apart', d)) (out, outs) (e, f, s) t = (
  write_other next (prev x) (next x) a (λ q.
        last-ne a z zs apart.0 (NotIn-left a zs ys apart.1) (q ∙ prev-last next prev z zs x s))
      ∙ e,
  write_other prev (next x) (prev x) z (λ q.
        first-ne z ys b (NotIn-right z zs ys apart') (λ r. out (sym r))
          (q ∙ next-first next prev x ys b t))
      ∙ f,
  cut next prev z zs x ys b (apart', d) outs s t,
)

-- Distinct nodes without one of them.
pub NotIn-mid :
    (a : ℕ) (xs : List ℕ) (y : ℕ) (ys : List ℕ)
    → NotIn a (xs ++ y ∷ ys)
    → (a ≢ y) × NotIn a (xs ++ ys)
NotIn-mid a [] y ys h = h
NotIn-mid a (x ∷ xs) y ys (h, hs) = let (p, q) = NotIn-mid a xs y ys hs in (p, (h, q))

pub NotIn-insert :
    (a : ℕ) (xs : List ℕ) (y : ℕ) (ys : List ℕ)
    → NotIn a (xs ++ ys)
    → a ≢ y
    → NotIn a (xs ++ y ∷ ys)
NotIn-insert a [] y ys h k = (k, h)
NotIn-insert a (x ∷ xs) y ys (h, hs) k = (h, NotIn-insert a xs y ys hs k)

pub IsDistinct-mid :
    (xs : List ℕ) (y : ℕ) (ys : List ℕ)
    → IsDistinct (xs ++ y ∷ ys)
    → IsDistinct (xs ++ ys) × NotIn y (xs ++ ys)
IsDistinct-mid [] y ys (h, d) = (d, h)
IsDistinct-mid (x ∷ xs) y ys (h, d) =
    let (p, q) = IsDistinct-mid xs y ys d in
    let (r, t) = NotIn-mid x xs y ys h in ((t, p), ((λ e. r (sym e)), q))

pub NotIn-snoc : (a : ℕ) (xs : List ℕ) (y : ℕ) → NotIn a xs → a ≢ y → NotIn a (xs ++ y ∷ [])
NotIn-snoc a [] y h k = (k, tt)
NotIn-snoc a (x ∷ xs) y (h, hs) k = (h, NotIn-snoc a xs y hs k)

pub IsDistinct-snoc : (xs : List ℕ) (y : ℕ) → IsDistinct xs → NotIn y xs → IsDistinct (xs ++ y ∷ [])
IsDistinct-snoc [] y d h = (tt, tt)
IsDistinct-snoc (x ∷ xs) y (a, d) (h, hs) =
    (NotIn-snoc x xs y a (λ e. h (sym e)), IsDistinct-snoc xs y d hs)
