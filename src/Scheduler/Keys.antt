-- ===== src/Scheduler/Keys.antt =====
-- The map of interval_scheduler.rs: its keys ascend, and a predicate of a state and its key holds
-- throughout.
use Prim.Native.Nat.{compare, Ordering}
use wavs.Prelude.{
  ℕ, suc, ◌≤◌, ◌≡◌, subst, ◌⊎◌, inl, inr, Option, none, some, List, [], ◌∷◌, ◌++◌, arith, All,
  All-append,
}
use wavs.Prelude.Map.{Map}
use wavs.Scheduler.Interval.{IntervalState, push_at, push_all, with_time, add_unadded}

-- The keys ascend from `lo`.
abbrev pub Ascending : {S : Type 0} → ℕ → Map ℕ (List S) → Type 0
Ascending lo [] = Unit
Ascending lo ((t, ss) ∷ m) = (lo ≤ t) × Ascending (suc t) m

-- Every state, under its key.
abbrev pub AllAt : {S : Type 0} → (ℕ → S → Type 0) → Map ℕ (List S) → Type 0
AllAt P [] = Unit
AllAt P ((t, ss) ∷ m) = All (P t) ss × AllAt P m

-- The states in the order of the keys.
abbrev pub states : {S : Type 0} → Map ℕ (List S) → List S
states [] = []
states ((t, ss) ∷ m) = ss ++ states m

abbrev pub IfSome : (ℕ → Type 0) → Option ℕ → Type 0
IfSome P none = Unit
IfSome P (some t) = P t

pub compare-cases :
    (t u : ℕ)
    → (compare t u ≡ Ordering.lt)
      ⊎ ((compare t u ≡ Ordering.eq) × (t ≡ u))
      ⊎ (compare t u ≡ Ordering.gt)
compare-cases t u = ground arith

module _ {S : Type 0} (P : ℕ → S → Type 0) where
  push_at-AllAt : (t : ℕ) (s : S) (m : Map ℕ (List S)) → P t s → AllAt P m → AllAt P (push_at t s m)
  unfolding push_at
  push_at-AllAt t s [] h a = ((h, tt), tt)
  push_at-AllAt t s ((u, ss) ∷ m) h a = elim (compare-cases t u) [
    | inl e ↦ rw (e, push_at) ((h, tt), a)
    | inr (inl (e, same)) ↦
        rw (e, push_at) (All-append (P u) ss (s ∷ []) a.0 (subst (λ x. P x s) same h, tt), a.1)
    | inr (inr e) ↦ rw (e, push_at) (a.0, push_at-AllAt t s m h a.1)
  ]

  pub push_all-AllAt :
      (l : List (ℕ × S)) (m : Map ℕ (List S))
      → All (λ p. P p.0 p.1) l
      → AllAt P m
      → AllAt P (push_all l m)
  unfolding push_all
  push_all-AllAt [] m h a = a
  push_all-AllAt ((t, s) ∷ l) m h a =
      push_all-AllAt l (push_at t s m) h.1 (push_at-AllAt t s m h.0 a)

pub push_at-Ascending :
    {S : Type 0} (lo t : ℕ) (s : S) (m : Map ℕ (List S))
    → lo ≤ t
    → Ascending lo m
    → Ascending lo (push_at t s m)
unfolding push_at
push_at-Ascending lo t s [] h a = (h, tt)
push_at-Ascending lo t s ((u, ss) ∷ m) h a = ground (arith, push_at-Ascending (suc u) t s m)

pub push_all-Ascending :
    {S : Type 0} (l : List (ℕ × S)) (m : Map ℕ (List S))
    → Ascending 0 m
    → Ascending 0 (push_all l m)
unfolding push_all
push_all-Ascending [] m a = a
push_all-Ascending ((t, s) ∷ l) m a =
    push_all-Ascending l _ (push_at-Ascending 0 t s m (omega arith) a)

pub add_unadded-Ascending :
    {S : Type 0} (I : IntervalState S) (now : ℕ) (ss : List S) (m : Map ℕ (List S))
    → Ascending 0 m
    → Ascending 0 (add_unadded I now ss m)
unfolding add_unadded
add_unadded-Ascending I now [] m a = a
add_unadded-Ascending I now (s ∷ ss) m a =
    add_unadded-Ascending I now ss _
      (push_all-Ascending (with_time (I.initialize s now).0 (I.initialize s now).1) m a)
