-- ===== src/Types/ChainText.antt =====
-- Parsing and printing of chain keys (packages/types/src/id/chain.rs) against each other.
use wavs.Prelude.{
  ◌≡◌, refl, sym, ap, ◌∙◌, subst, Bool, true, false, ◌&&◌, Option, none, some, [], ◌∷◌, ◌++◌, Bytes,
  arith, if◌then◌else◌, ◌==◌, nat_eq, Bool-cases, inl, inr, eq_iff,
}
use wavs.Prelude.Result.{Result, ok}
use wavs.Types.Chain.{
  ChainKey, ChainKeyError, namespace_char, all_chars, is_length, is_namespace, is_id, split_colon,
  captures, new_namespace, new_id, from_captures, new, of_captures, validate, to_string,
}

and-left : (a b : Bool) → (a && b) ≡ true → a ≡ true
and-left a b h = ground arith

and-right : (a b : Bool) → (a && b) ≡ true → b ≡ true
and-right a b h = ground arith

split_colon-append :
    (a b : Bytes) → all_chars namespace_char a ≡ true → split_colon (a ++ b':' ∷ b) ≡ some (a, b)
unfolding split_colon all_chars namespace_char
split_colon-append [] b h = ground arith
split_colon-append (c ∷ a) b h =
    ground
      (arith, split_colon-append a b (and-right (namespace_char c) (all_chars namespace_char a) h))

abbrev Joins : Option (Bytes × Bytes) → Bytes → Type 0
Joins none s = Unit
Joins (some (a, b)) s = a ++ b':' ∷ b ≡ s

split_colon-Joins : (s : Bytes) → Joins (split_colon s) s
unfolding split_colon
split_colon-Joins [] = tt
split_colon-Joins (c ∷ s) = by_head (c == b':') refl (split_colon s) (split_colon-Joins s)
  where
    by_head :
        (x : Bool)
        → (c == b':') ≡ x
        → (o : Option (Bytes × Bytes)) → Joins o s
        → Joins
            (if x then some ([], s) else elim o [ none ↦ none | some (a, b) ↦ some (c ∷ a, b) ])
            (c ∷ s)
    by_head true e o h = ap (λ d. d ∷ s) (sym ((eq_iff c b':').0 e))
    by_head false e none h = tt
    by_head false e (some (a, b)) h = ap (λ l. c ∷ l) h

captures-valid :
    (a b : Bytes) → is_namespace a ≡ true → is_id b ≡ true → captures (some (a, b)) ≡ some (a, b)
unfolding captures
captures-valid a b n i = ground arith

new_namespace-valid : (a : Bytes) → is_namespace a ≡ true → new_namespace a ≡ ok a
unfolding new_namespace
new_namespace-valid a n = rw n refl

new_id-valid : (b : Bytes) → is_id b ≡ true → new_id b ≡ ok b
unfolding new_id
new_id-valid b i = rw i refl

from_captures-valid :
    (a b : Bytes)
    → is_namespace a ≡ true
    → is_id b ≡ true
    → from_captures (some (a, b)) ≡ ok (record { namespace = a; id = b })
from_captures-valid a b n i = rw (new_namespace-valid a n, new_id-valid b i) refl

-- The text of a chain key whose namespace and id are valid parses as that key, and is valid.
pub new-to_string :
    (k : ChainKey)
    → is_namespace k.namespace ≡ true
    → is_id k.id ≡ true
    → (new (to_string k) ≡ ok k) × (validate (to_string k) ≡ ok tt)
unfolding new validate to_string is_namespace
new-to_string k n i =
    let split =
      split_colon-append k.namespace k.id
        (and-right (is_length k.namespace) (all_chars namespace_char k.namespace) n) in
    let caught = captures-valid k.namespace k.id n i in
    (
      ap (λ o. from_captures (captures o)) split
          ∙ ap from_captures caught
          ∙ from_captures-valid k.namespace k.id n i,
      ap (λ o. of_captures (captures o)) split ∙ ap of_captures caught,
    )

ok-injective : (x y : ChainKey) → Path (Result ChainKeyError ChainKey) (ok x) (ok y) → x ≡ y
ok-injective x y e = ground arith

parsed :
    (s : Bytes) (o : Option (Bytes × Bytes)) (k : ChainKey)
    → Joins o s
    → from_captures (captures o) ≡ ok k
    → (to_string k ≡ s) × (is_namespace k.namespace ≡ true) × (is_id k.id ≡ true)
unfolding to_string
parsed s none k h e = absurd (unfold captures in ground arith)
parsed s (some (a, b)) k h e = elim (Bool-cases (is_namespace a && is_id b)) [
  | inl fine ↦
      let n = and-left (is_namespace a) (is_id b) fine in
      let i = and-right (is_namespace a) (is_id b) fine in
      let same : Path (Result ChainKeyError ChainKey) (ok (record { namespace = a; id = b }))
          (ok k) =
        sym (ap from_captures (captures-valid a b n i) ∙ from_captures-valid a b n i) ∙ e in
      let is_k : Path ChainKey (record { namespace = a; id = b }) k = ok-injective _ k same in
      subst (λ x. (to_string x ≡ s) × (is_namespace x.namespace ≡ true) × (is_id x.id ≡ true)) is_k
        (h, n, i)
  | inr bad ↦ absurd (unfold captures in ground arith)
]

-- Text that parses is the text of its key, whose two parts are valid.
to_string-new :
    (s : Bytes) (k : ChainKey)
    → new s ≡ ok k
    → (to_string k ≡ s) × (is_namespace k.namespace ≡ true) × (is_id k.id ≡ true)
unfolding new
to_string-new s k e = parsed s (split_colon s) k (split_colon-Joins s) e
