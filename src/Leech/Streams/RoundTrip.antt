-- ===== src/Leech/Streams/RoundTrip.antt =====
-- What the writers of numbers and strings write, the readers read.
use mathlib.Core.List.{append_assoc}
use native.Mathlib.Nat.{pow-suc}
use best_practices.Base.{
  ℕ, zero, suc, ◌+◌, ◌*◌, ◌/◌, ◌%◌, ◌^◌, ◌<◌, ◌≡◌, refl, ap, List, [], ◌∷◌, ◌++◌, arith,
}
use best_practices.Base.Lists.{length, All}
use best_practices.Leech.Values.{Name, Answer, value}
use best_practices.Leech.Streams.{
  Bytes, Reader, serialize_num, deserialize_num, deserialize_string, deserialize_many,
  serialize_many,
}

pub deserialize_num-serialize_num :
    (w n : ℕ) (rest : Bytes)
    → n < 256 ^ w
    → deserialize_num w (serialize_num w n ++ rest) ≡ value (n, rest)
unfolding deserialize_num serialize_num
deserialize_num-serialize_num zero n rest h =
    let same : 0 ≡ n = omega arith in ap (λ (t : ℕ). value (t, rest)) same
deserialize_num-serialize_num (suc w) n rest h =
    let later = deserialize_num-serialize_num w (n / 256) rest (omega (arith, pow-suc 256 w)) in
    let same : n % 256 + 256 * (n / 256) ≡ n = omega arith in
    rw later (ap (λ (t : ℕ). value (t, rest)) same)

pub deserialize_string-append :
    (s : Name) (rest : Bytes) → deserialize_string (length s) (s ++ rest) ≡ value (s, rest)
unfolding deserialize_string
deserialize_string-append [] rest = refl
deserialize_string-append (b ∷ s) rest = rw (deserialize_string-append s rest) refl

-- If what `write` writes of each element is read back by `read`, whatever follows, then the loops do
-- the same for a list.
module _ {ℓ κ} {A : Type ℓ} {P : A → Type κ} (write : A → Answer Bytes) (read : Reader A)
    (each : (a : A)
      → P a
      → (bs : Bytes) × (write a ≡ value bs)
        × ((rest : Bytes) → read (bs ++ rest) ≡ value (a, rest))) where
  pub deserialize_many-serialize_many :
      (xs : List A)
      → All P xs
      → (bs : Bytes) × (serialize_many write xs ≡ value bs)
        × ((rest : Bytes) → deserialize_many read (length xs) (bs ++ rest) ≡ value (xs, rest))
  unfolding serialize_many deserialize_many
  deserialize_many-serialize_many [] h = ([], refl, λ rest. refl)
  deserialize_many-serialize_many (x ∷ xs) h =
      let (bs, w, r) = each x h.0 in
      let (cs, ws, rs) = deserialize_many-serialize_many xs h.1 in
      (
        bs ++ cs,
        rw (serialize_many, w, ws) refl,
        λ rest. rw (append_assoc, deserialize_many, r, rs) refl,
      )
