-- ===== src/Leech/Streams.antt =====
-- leechVM-master/include/common/common.hh: numbers and strings in a byte stream. The host is
-- little-endian.
pub mod RoundTrip
use best_practices.Base.{ℕ, zero, suc, ◌+◌, ◌*◌, ◌/◌, ◌%◌, List, [], ◌∷◌, ◌++◌, Option, none, some}
use best_practices.Base.Lists.{length}
use best_practices.Leech.Values.{Name, Answer, value, fault, Error, runtime_error}

-- The bytes that an `std::ostream` takes, or what is thrown on the way.
abbrev pub Bytes : Type 0
Bytes = List ℕ

-- A function that takes bytes from an `std::istream`.
abbrev pub Reader {ℓ} : Type ℓ → Type ℓ
Reader A = Bytes → Answer (A × Bytes)

infixl 5 ◌>>=◌ ◌>>◌
abbrev pub ◌>>=◌ {ℓ κ} : {A : Type ℓ} {B : Type κ} → Reader A → (A → Reader B) → Reader B
◌>>=◌ m f input = elim (m input) [ value (a, rest) ↦ f a rest | fault e ↦ fault e ]

abbrev pub ◌>>◌ {ℓ κ} : {A : Type ℓ} {B : Type κ} → Reader A → Reader B → Reader B
m >> k = m >>= λ _. k

abbrev pub give {ℓ} : {A : Type ℓ} → A → Reader A
give a input = value (a, input)

abbrev pub reject {ℓ} : {A : Type ℓ} → Error → Reader A
reject e input = fault e

-- `serializeNum` of a number of `w` bytes
unfoldable pub serialize_num : ℕ → ℕ → Bytes
serialize_num zero n = []
serialize_num (suc w) n = n % 256 ∷ serialize_num w (n / 256)

-- `deserializeNum`
unfoldable pub deserialize_num : ℕ → Reader ℕ
deserialize_num zero input = value (0, input)
deserialize_num (suc w) [] = fault runtime_error
deserialize_num (suc w) (b ∷ rest) = elim (deserialize_num w rest) [
  | value (n, rest') ↦ value (b + 256 * n, rest')
  | fault e ↦ fault e
]

-- The `size` bytes that `deserializeString` reads.
unfoldable pub deserialize_string : ℕ → Reader Name
deserialize_string zero input = value ([], input)
deserialize_string (suc n) [] = fault runtime_error
deserialize_string (suc n) (b ∷ rest) = elim (deserialize_string n rest) [
  | value (s, rest') ↦ value (b ∷ s, rest')
  | fault e ↦ fault e
]

-- `serializeString`
unfoldable pub serialize_string : Name → Bytes
unfolding serialize_num
serialize_string s = serialize_num 8 (length s) ++ s

-- A loop of the readers, `n` times.
unfoldable pub deserialize_many {ℓ} : {A : Type ℓ} → Reader A → ℕ → Reader (List A)
deserialize_many read zero input = value ([], input)
deserialize_many read (suc n) input = elim (read input) [
  | value (a, rest) ↦ elim (deserialize_many read n rest) [
    | value (later, rest') ↦ value (a ∷ later, rest')
    | fault e ↦ fault e
  ]
  | fault e ↦ fault e
]

-- A loop of the writers.
unfoldable pub serialize_many {ℓ} : {A : Type ℓ} → (A → Answer Bytes) → List A → Answer Bytes
serialize_many write [] = value []
serialize_many write (x ∷ xs) = elim (write x) [
  | value bs ↦ elim (serialize_many write xs) [ value cs ↦ value (bs ++ cs) | fault e ↦ fault e ]
  | fault e ↦ fault e
]
