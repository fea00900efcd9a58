-- ===== src/Trigger/Pattern.antt =====
-- trigger.rs: `matches_collection_pattern`, and the specification of what it accepts.
use wavs.Prelude.{
  ℕ, ◌≡◌, refl, ap, ◌∙◌, Bool, true, false, Option, none, some, [], ◌∷◌, ◌++◌, Bytes, bytes_eq,
  bytes, ◌==◌, nat_eq, if◌then◌else◌, arith, ◌↔◌, ◌⊎◌, inl, inr, Bool-cases, eq_iff, eq_refl,
  length, length-append,
}

-- `str::strip_prefix`: the rest after a prefix.
unfoldable pub strip_prefix : Bytes → Bytes → Option Bytes
strip_prefix [] s = some s
strip_prefix (p ∷ ps) [] = none
strip_prefix (p ∷ ps) (c ∷ s) = if p == c then strip_prefix ps s else none

abbrev pub cons_some : ℕ → Option Bytes → Option Bytes
cons_some c none = none
cons_some c (some s) = some (c ∷ s)

-- `str::strip_suffix`: what stands before a suffix.
unfoldable pub strip_suffix : Bytes → Bytes → Option Bytes
strip_suffix suffix [] = if suffix == [] then some [] else none
strip_suffix suffix (c ∷ s) =
    if (c ∷ s) == suffix then some [] else cons_some c (strip_suffix suffix s)

-- `actual.starts_with(prefix) && actual.len() > prefix.len() && actual[prefix.len()..]
-- .starts_with('.')`, by what stands after the prefix.
abbrev pub dot_follows : Option Bytes → Bool
dot_follows none = false
dot_follows (some []) = false
dot_follows (some (c ∷ s)) = c == b'.'

abbrev pub under_prefix : Option Bytes → Bytes → Bool
unfolding strip_prefix
under_prefix none actual = false
under_prefix (some prefix) actual = dot_follows (strip_prefix prefix actual)

unfoldable pub matches_collection_pattern : Bytes → Bytes → Bool
unfolding strip_suffix
matches_collection_pattern pattern_of actual =
    if pattern_of == actual
    then true
    else under_prefix (strip_suffix (bytes ".*") pattern_of) actual

strip_prefix-append : (p s r : Bytes) → strip_prefix p s ≡ some r → s ≡ p ++ r
unfolding strip_prefix
strip_prefix-append [] s r h = ground arith
strip_prefix-append (p ∷ ps) [] r h = absurd (ground arith)
strip_prefix-append (p ∷ ps) (c ∷ s) r h = ground (arith, strip_prefix-append ps s r, eq_iff p c)

append-strip_prefix : (p r : Bytes) → strip_prefix p (p ++ r) ≡ some r
unfolding strip_prefix
append-strip_prefix [] r = refl
append-strip_prefix (p ∷ ps) r = ground (arith, append-strip_prefix ps r, eq_refl p)

cons_some-append :
    (c : ℕ) (suffix s : Bytes) (o : Option Bytes) (p : Bytes)
    → ((q : Bytes) → o ≡ some q → s ≡ q ++ suffix)
    → cons_some c o ≡ some p
    → c ∷ s ≡ p ++ suffix
cons_some-append c suffix s none p ih h = absurd (ground arith)
cons_some-append c suffix s (some q) p ih h = ground (arith, ih q refl)

strip_suffix-append : (suffix s p : Bytes) → strip_suffix suffix s ≡ some p → s ≡ p ++ suffix
unfolding strip_suffix
strip_suffix-append suffix [] p h = ground (arith, eq_iff suffix [])
strip_suffix-append suffix (c ∷ s) p h = elim (Bool-cases ((c ∷ s) == suffix)) [
  | inl same ↦ ground (arith, same, eq_iff (c ∷ s) suffix)
  | inr other ↦
      cons_some-append c suffix s (strip_suffix suffix s) p (strip_suffix-append suffix s)
        (ground (arith, h, other))
]

longer : (c : ℕ) (p suffix : Bytes) → (c ∷ p ++ suffix) == suffix ≡ false
longer c p suffix = elim (Bool-cases ((c ∷ p ++ suffix) == suffix)) [
  | inl same ↦
      absurd (
        omega (arith, ap length ((eq_iff (c ∷ p ++ suffix) suffix).0 same), length-append p suffix))
  | inr other ↦ other
]

append-strip_suffix : (p suffix : Bytes) → strip_suffix suffix (p ++ suffix) ≡ some p
unfolding strip_suffix
append-strip_suffix [] [] = ground (arith, eq_refl {A = Bytes} [])
append-strip_suffix [] (c ∷ s) = ground (arith, eq_refl (c ∷ s))
append-strip_suffix (c ∷ p) suffix = ground (arith, longer c p suffix, append-strip_suffix p suffix)

abbrev Extends : Bytes → Bytes → Type 0
Extends pattern_of actual =
    (stem : Bytes) × (rest : Bytes) × (pattern_of ≡ stem ++ bytes ".*")
    × (actual ≡ stem ++ b'.' ∷ rest)

dotted :
    (pattern_of actual stem : Bytes) (o : Option Bytes)
    → pattern_of ≡ stem ++ bytes ".*"
    → strip_prefix stem actual ≡ o
    → dot_follows o ≡ true
    → Extends pattern_of actual
dotted pattern_of actual stem none e h k = absurd (ground arith)
dotted pattern_of actual stem (some []) e h k = absurd (ground arith)
dotted pattern_of actual stem (some (c ∷ s)) e h k = (
  stem,
  s,
  e,
  strip_prefix-append stem actual (c ∷ s) h ∙ ap (λ (x : ℕ). stem ++ x ∷ s) ((eq_iff c b'.').0 k),
)

under-Extends :
    (pattern_of actual : Bytes) (o : Option Bytes)
    → strip_suffix (bytes ".*") pattern_of ≡ o
    → under_prefix o actual ≡ true
    → Extends pattern_of actual
unfolding under_prefix
under-Extends pattern_of actual none e h = absurd (ground arith)
under-Extends pattern_of actual (some stem) e h =
    dotted pattern_of actual stem (strip_prefix stem actual)
      (strip_suffix-append (bytes ".*") pattern_of stem e) refl h

Extends-under :
    (pattern_of actual : Bytes)
    → Extends pattern_of actual
    → under_prefix (strip_suffix (bytes ".*") pattern_of) actual ≡ true
unfolding under_prefix
Extends-under pattern_of actual (stem, rest, e, h) =
    ap (λ (o : Option Bytes). under_prefix o actual)
      (ap (strip_suffix (bytes ".*")) e ∙ append-strip_suffix stem (bytes ".*"))
    ∙ ap dot_follows (ap (strip_prefix stem) h ∙ append-strip_prefix stem (b'.' ∷ rest))
    ∙ eq_refl {A = ℕ} b'.'

-- `matches_collection_pattern` accepts exactly the collection that is the pattern, and, where the
-- pattern ends in `.*`, those that go on after its stem with a dot.
pub matches_collection_pattern_lem :
    (pattern_of actual : Bytes)
    → (matches_collection_pattern pattern_of actual ≡ true) ↔ (
        (pattern_of ≡ actual)
        ⊎ ((stem : Bytes) × (rest : Bytes) × (pattern_of ≡ stem ++ bytes ".*")
            × (actual ≡ stem ++ b'.' ∷ rest)))
unfolding matches_collection_pattern
matches_collection_pattern_lem pattern_of actual = elim (Bool-cases (pattern_of == actual)) [
  | inl same ↦ (λ h. inl ((eq_iff pattern_of actual).0 same), λ h. rw same refl)
  | inr other ↦ (
    λ h. inr (under-Extends pattern_of actual _ refl (ground (arith, h, other))),
    λ h. elim h [
      | inl e ↦ rw ((eq_iff pattern_of actual).1 e) refl
      | inr x ↦ rw other (Extends-under pattern_of actual x)
    ],
  )
]
