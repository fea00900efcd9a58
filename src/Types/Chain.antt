-- ===== src/Types/Chain.antt =====
-- packages/types/src/id/chain.rs: `namespace:id` chain keys. The two regular expressions are the
-- tests `is_namespace` and `is_id`, over the bytes of the text.
use wavs.Prelude.{
  ℕ, Bool, true, ◌&&◌, ◌||◌, Option, none, some, [], ◌∷◌, ◌++◌, Bytes, Eq, leb, if◌then◌else◌,
  length, ◌==◌, nat_eq, bytes_eq, ℕ_discrete,
}
use wavs.Prelude.Result.{Result, ok, err, ◌>>=◌}

pub record ChainKey : Type 0 where
  pub namespace : Bytes
  pub id : Bytes

unfoldable pub ChainKey-discrete : Discrete ChainKey
ChainKey-discrete = hlevel ℕ_discrete

instance abbrev pub chain_key_eq : Eq ChainKey
chain_key_eq = record { dec = ChainKey-discrete }

pub data ChainKeyError : Type 0 where
  format_error invalid_namespace invalid_id : ChainKeyError

abbrev pub between : ℕ → ℕ → ℕ → Bool
between lo hi c = leb lo c && leb c hi

-- `[-a-z0-9]`.
unfoldable pub namespace_char : ℕ → Bool
namespace_char c = c == b'-' || between b'a' b'z' c || between b'0' b'9' c

-- `[-_a-zA-Z0-9]`.
unfoldable pub id_char : ℕ → Bool
id_char c =
    c == b'-' || c == b'_' || between b'a' b'z' c || between b'A' b'Z' c || between b'0' b'9' c

unfoldable pub all_chars : (ℕ → Bool) → Bytes → Bool
all_chars p [] = true
all_chars p (c ∷ s) = p c && all_chars p s

-- `{1,32}`.
abbrev pub is_length : Bytes → Bool
is_length s = leb 1 (length s) && leb (length s) 32

unfoldable pub is_namespace : Bytes → Bool
unfolding namespace_char all_chars
is_namespace s = is_length s && all_chars namespace_char s

unfoldable pub is_id : Bytes → Bool
unfolding id_char all_chars
is_id s = is_length s && all_chars id_char s

-- The split at the first `:`, which neither class contains.
unfoldable pub split_colon : Bytes → Option (Bytes × Bytes)
split_colon [] = none
split_colon (c ∷ s) =
    if c == b':'
    then some ([], s)
    else elim (split_colon s) [ none ↦ none | some (a, b) ↦ some (c ∷ a, b) ]

-- `CHAIN_KEY_REGEX.captures`.
unfoldable pub captures : Option (Bytes × Bytes) → Option (Bytes × Bytes)
unfolding is_namespace is_id
captures none = none
captures (some (a, b)) = if is_namespace a && is_id b then some (a, b) else none

unfoldable pub new_namespace : Bytes → Result ChainKeyError Bytes
unfolding is_namespace
new_namespace s = if is_namespace s then ok s else err invalid_namespace

unfoldable pub new_id : Bytes → Result ChainKeyError Bytes
unfolding is_id
new_id s = if is_id s then ok s else err invalid_id

abbrev pub from_captures : Option (Bytes × Bytes) → Result ChainKeyError ChainKey
from_captures none = err format_error
from_captures (some (a, b)) = do
  namespace ← new_namespace a
  id ← new_id b
  ok (record { namespace = namespace; id = id })

unfoldable pub new : Bytes → Result ChainKeyError ChainKey
unfolding split_colon captures new_namespace new_id
new s = from_captures (captures (split_colon s))

abbrev pub of_captures : Option (Bytes × Bytes) → Result ChainKeyError (Unit {0})
of_captures none = err format_error
of_captures (some _) = ok tt

unfoldable pub validate : Bytes → Result ChainKeyError (Unit {0})
unfolding split_colon captures
validate s = of_captures (captures (split_colon s))

-- `Display`.
unfoldable pub to_string : ChainKey → Bytes
to_string k = k.namespace ++ b':' ∷ k.id
