-- ===== src/Prelude/Sorted.antt =====
-- The key order `bytes_lt` of a `BTreeMap` whose keys are bytes, and its sorted entries.
use mathlib.Core.Path.{◌≡◌, refl, ap, ◌∙◌, sym, subst}
use mathlib.Core.Logic.{◌⊎◌, inl, inr}
use mathlib.Core.Bool.{Bool, true, false}
use mathlib.Core.Option.{none}
use mathlib.Core.List.{[], ◌∷◌}
use native.Mathlib.Omega.{arith}
use wavs.Prelude.Lists.{All, retain}
use wavs.Prelude.Tests.{
  Bytes, bytes_eq, bytes_lt, if◌then◌else◌, ◌==◌, eq_iff, eq_sym, if-both, Bool-cases,
}
use wavs.Prelude.Map.{Map, get, insert_by}

bytes_lt_irrefl : (a : Bytes) → bytes_lt a a ≡ false
unfolding bytes_lt
bytes_lt_irrefl [] = refl
bytes_lt_irrefl (x ∷ a) = ground (arith, bytes_lt_irrefl a)

bytes_lt_trans : (a b c : Bytes) → bytes_lt a b ≡ true → bytes_lt b c ≡ true → bytes_lt a c ≡ true
unfolding bytes_lt
bytes_lt_trans [] [] [] h k = h
bytes_lt_trans [] (y ∷ b) [] h k = k
bytes_lt_trans [] b (z ∷ c) h k = refl
bytes_lt_trans (x ∷ a) [] c h k = absurd (ground arith)
bytes_lt_trans (x ∷ a) (y ∷ b) [] h k = absurd (ground arith)
bytes_lt_trans (x ∷ a) (y ∷ b) (z ∷ c) h k = ground (arith, bytes_lt_trans a b c)

bytes_lt-total : (a b : Bytes) → (a ≡ b) ⊎ ((bytes_lt a b ≡ true) ⊎ (bytes_lt b a ≡ true))
unfolding bytes_lt
bytes_lt-total [] [] = inl refl
bytes_lt-total [] (y ∷ b) = inr (inl refl)
bytes_lt-total (x ∷ a) [] = inr (inr refl)
bytes_lt-total (x ∷ a) (y ∷ b) = ground (arith, bytes_lt-total a b)

pub apart : (k j : Bytes) → bytes_lt k j ≡ true → (j == k) ≡ false
apart k j lt = elim (Bool-cases (j == k)) [
  | inl same ↦ absurd (
      let e : j ≡ k = (eq_iff j k).0 same in
      let bad : bytes_lt k k ≡ true = subst (λ x. bytes_lt k x ≡ true) e lt in
      ground (arith, bytes_lt_irrefl k))
  | inr other ↦ other
]

asym : (k j : Bytes) → bytes_lt j k ≡ true → bytes_lt k j ≡ false
asym k j lt = elim (Bool-cases (bytes_lt k j)) [
  | inl gt ↦ absurd (ground (arith, bytes_lt_trans k j k gt lt, bytes_lt_irrefl k))
  | inr other ↦ other
]

module _ {V : Type 0} where
  -- The keys strictly increase.
  abbrev pub IsSorted : Map Bytes V → Type 0
  IsSorted [] = Unit
  IsSorted ((k, v) ∷ m) = All (λ (e : Bytes × V). bytes_lt k e.0 ≡ true) m × IsSorted m

  All-insert_by :
      (k j : Bytes) (v : V) (m : Map Bytes V)
      → bytes_lt k j ≡ true
      → All (λ (e : Bytes × V). bytes_lt k e.0 ≡ true) m
      → All (λ (e : Bytes × V). bytes_lt k e.0 ≡ true) (insert_by bytes_lt j v m)
  unfolding insert_by
  All-insert_by k j v [] lt h = (lt, tt)
  All-insert_by k j v ((i, w) ∷ m) lt h = ground (arith, All-insert_by k j v m lt h.1)

  All-below :
      (k j : Bytes) (m : Map Bytes V)
      → bytes_lt k j ≡ true
      → All (λ (e : Bytes × V). bytes_lt j e.0 ≡ true) m
      → All (λ (e : Bytes × V). bytes_lt k e.0 ≡ true) m
  All-below k j [] lt h = tt
  All-below k j ((i, w) ∷ m) lt h = (bytes_lt_trans k j i lt h.0, All-below k j m lt h.1)

  pub insert_by-IsSorted :
      (k : Bytes) (v : V) (m : Map Bytes V) → IsSorted m → IsSorted (insert_by bytes_lt k v m)
  unfolding insert_by
  insert_by-IsSorted k v [] h = (tt, tt)
  insert_by-IsSorted k v ((j, w) ∷ m) h = elim (bytes_lt-total k j) [
    | inl same ↦
        rw ((eq_iff j k).1 (sym same))
          (subst (λ x. All (λ (e : Bytes × V). bytes_lt x e.0 ≡ true) m) (sym same) h.0, h.1)
    | inr (inl lt) ↦ rw (apart k j lt, lt) ((lt, All-below k j m lt h.0), h)
    | inr (inr gt) ↦
        rw (eq_sym j k ∙ apart j k gt, asym k j gt)
          (All-insert_by j k v m gt h.0, insert_by-IsSorted k v m h.1)
  ]

  -- A test on the keys.
  All-retain_keys :
      (p : Bytes → Bool) (k : Bytes) (m : Map Bytes V)
      → All (λ (e : Bytes × V). bytes_lt k e.0 ≡ true) m
      → All (λ (e : Bytes × V). bytes_lt k e.0 ≡ true) (retain (λ e. p e.0) m)
  unfolding retain
  All-retain_keys p k [] h = tt
  All-retain_keys p k ((j, v) ∷ m) h = ground (arith, All-retain_keys p k m h.1)

  pub retain-IsSorted :
      (p : Bytes → Bool) (m : Map Bytes V) → IsSorted m → IsSorted (retain (λ e. p e.0) m)
  unfolding retain
  retain-IsSorted p [] h = tt
  retain-IsSorted p ((k, v) ∷ m) h =
      if-both IsSorted (p k) _ _ (All-retain_keys p k m h.0, retain-IsSorted p m h.1)
        (retain-IsSorted p m h.1)

  pub get-retain_keys :
      (p : Bytes → Bool) (m : Map Bytes V) (k : Bytes)
      → get (retain (λ e. p e.0) m) k ≡ (if p k then get m k else none)
  unfolding get retain
  get-retain_keys p [] k = ground arith
  get-retain_keys p ((j, v) ∷ m) k = elim (Bool-cases (j == k)) [
    | inl same ↦ ground (arith, ap p ((eq_iff j k).0 same), same, get-retain_keys p m k)
    | inr other ↦ ground (arith, other, get-retain_keys p m k)
  ]
