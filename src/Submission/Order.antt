-- ===== src/Submission/Order.antt =====
-- packages/types/src/signing.rs: `EventOrder`, a u64 in big-endian bytes and four zeros.
use wavs.Prelude.{
  ℕ, zero, suc, ◌+◌, ◌*◌, ◌/◌, ◌%◌, ◌^◌, ◌<◌, ◌≡◌, refl, ◌∙◌, [], ◌∷◌, ◌++◌, Bytes, length,
  length-append, arith, All, All-append,
}

-- `to_be_bytes` of a number of that many bytes.
unfoldable pub be_bytes : ℕ → ℕ → Bytes
be_bytes zero value = []
be_bytes (suc n) value = be_bytes n (value / 256) ++ value % 256 ∷ []

unfoldable pub new_u64 : ℕ → Bytes
unfolding be_bytes
new_u64 value = be_bytes 8 value ++ 0 ∷ 0 ∷ 0 ∷ 0 ∷ []

-- The number that big-endian bytes stand for.
unfoldable pub from_be : ℕ → Bytes → ℕ
from_be acc [] = acc
from_be acc (b ∷ s) = from_be (acc * 256 + b) s

from_be-append : (acc : ℕ) (s t : Bytes) → from_be acc (s ++ t) ≡ from_be (from_be acc s) t
unfolding from_be
from_be-append acc [] t = refl
from_be-append acc (b ∷ s) t = from_be-append (acc * 256 + b) s t

be_bytes-length : (n value : ℕ) → length (be_bytes n value) ≡ n
unfolding be_bytes
be_bytes-length zero value = refl
be_bytes-length (suc n) value = omega (
  arith,
  be_bytes-length n (value / 256),
  length-append (be_bytes n (value / 256)) (value % 256 ∷ []),
)

from_be-be_bytes : (n value : ℕ) → value < 256 ^ n → from_be 0 (be_bytes n value) ≡ value
unfolding from_be be_bytes
from_be-be_bytes zero value h = omega arith
from_be-be_bytes (suc n) value h =
    from_be-append 0 (be_bytes n (value / 256)) (value % 256 ∷ [])
    ∙ omega (arith, from_be-be_bytes n (value / 256) (omega arith))

be_bytes-All : (n value : ℕ) → All (λ b. b < 256) (be_bytes n value)
unfolding be_bytes
be_bytes-All zero value = tt
be_bytes-All (suc n) value =
    All-append (λ b. b < 256) (be_bytes n (value / 256)) (value % 256 ∷ [])
      (be_bytes-All n (value / 256)) (omega arith, tt)

-- `new_u64` of a u64 has twelve bytes, each below 256, which read as one big-endian number are the value
-- followed by four zero bytes.
pub new_u64_lem :
    (value : ℕ)
    → value < 2 ^ 64
    → (length (new_u64 value) ≡ 12)
      × All (λ b. b < 256) (new_u64 value)
      × (from_be 0 (new_u64 value) ≡ value * 2 ^ 32)
unfolding new_u64 from_be
new_u64_lem value h =
    let whole : from_be 0 (be_bytes 8 value) ≡ value = from_be-be_bytes 8 value (omega arith) in
    (
      omega (arith, length-append (be_bytes 8 value) (0 ∷ 0 ∷ 0 ∷ 0 ∷ []), be_bytes-length 8 value),
      All-append (λ b. b < 256) (be_bytes 8 value) (0 ∷ 0 ∷ 0 ∷ 0 ∷ []) (be_bytes-All 8 value)
          (omega arith),
      from_be-append 0 (be_bytes 8 value) (0 ∷ 0 ∷ 0 ∷ 0 ∷ []) ∙ omega (arith, whole),
    )
