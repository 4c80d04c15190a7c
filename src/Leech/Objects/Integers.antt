-- ===== src/Leech/Objects/Integers.antt =====
-- leechVM-master/include/leechobj/leechobj.hh: the arithmetic and the comparisons of IntObj, as
-- integers.
use best_practices.Base.{
  ℕ, ◌-◌, ◌^◌, ◌<◌, ◌≡◌, refl, ◌⊎◌, inl, inr, Bool, true, false, ◌==◌, ltb, not, ◌≢◌, Bool-cases,
  arith,
}
use best_practices.Base.Int.{ℤ, pos, negsuc, ◌+ℤ◌, ◌-ℤ◌, ◌≤ℤ◌, ◌<ℤ◌, ltb_ℤ, signed64}
use best_practices.Leech.Values.{Value, integer, FloatOps, Answer, value, fault, undefined, int64}
use best_practices.Leech.Objects.{checked, compare_values, add_values, sub_values}

-- The integers of 64 bits.
abbrev pub IsInt64 : ℤ → Type 0
IsInt64 (pos n) = n < 2 ^ 63
IsInt64 (negsuc n) = n < 2 ^ 63

-- The object is the integer `z`, if 64 bits hold it; otherwise the behaviour is undefined.
abbrev pub Computes : ℤ → Answer Value → Type 0
Computes z r =
    ((n : ℕ) × (r ≡ value (integer n)) × (n < 2 ^ 64) × (signed64 n ≡ z))
    ⊎ ((¬ IsInt64 z) × (r ≡ fault undefined))

Computes-checked : (z : ℤ) → Computes z (checked (int64 z))
unfolding checked int64
Computes-checked (pos n) = elim (Bool-cases (ltb n (2 ^ 63))) [
  | inl e ↦ inl (n, rw e refl, ground arith, rw e refl)
  | inr e ↦ inr (λ h. ground arith, rw e refl)
]
Computes-checked (negsuc n) = elim (Bool-cases (ltb n (2 ^ 63))) [
  | inl e ↦ inl (2 ^ 64 - 1 - n, rw e refl, ground arith, ground arith)
  | inr e ↦ inr (λ h. ground arith, rw e refl)
]

-- The answer says whether `P` holds.
abbrev pub Decides {ℓ} : Type ℓ → Answer Bool → Type ℓ
Decides P r = ((r ≡ value true) × P) ⊎ ((r ≡ value false) × (¬ P))

decides {ℓ} : (P : Type ℓ) (b : Bool) → (b ≡ true → P) → (b ≡ false → ¬ P) → Decides P (value b)
decides P true h k = inl (refl, h refl)
decides P false h k = inr (refl, k refl)

module _ (a b : ℕ) where
  compare_less : Decides (signed64 a <ℤ signed64 b) (compare_values 0 (integer a) (integer b))
  unfolding compare_values
  compare_less =
      decides (signed64 a <ℤ signed64 b) (ltb_ℤ (signed64 a) (signed64 b)) (λ e. ground arith)
        (λ e h. ground arith)

  compare_less_or_equal :
      Decides (signed64 a ≤ℤ signed64 b) (compare_values 1 (integer a) (integer b))
  unfolding compare_values
  compare_less_or_equal =
      decides (signed64 a ≤ℤ signed64 b) (not (ltb_ℤ (signed64 b) (signed64 a))) (λ e. ground arith)
        (λ e h. ground arith)

  compare_equal :
      a < 2 ^ 64
      → b < 2 ^ 64
      → Decides (signed64 a ≡ signed64 b) (compare_values 2 (integer a) (integer b))
  unfolding compare_values
  compare_equal h k =
      decides (signed64 a ≡ signed64 b) (a == b) (λ e. ground arith) (λ e p. ground arith)

  compare_not_equal :
      a < 2 ^ 64
      → b < 2 ^ 64
      → Decides (signed64 a ≢ signed64 b) (compare_values 3 (integer a) (integer b))
  unfolding compare_values
  compare_not_equal h k =
      decides (signed64 a ≢ signed64 b) (not (a == b)) (λ e p. ground arith)
        (λ e p. p (ground arith))

  compare_greater : Decides (signed64 b <ℤ signed64 a) (compare_values 4 (integer a) (integer b))
  unfolding compare_values
  compare_greater =
      decides (signed64 b <ℤ signed64 a) (ltb_ℤ (signed64 b) (signed64 a)) (λ e. ground arith)
        (λ e h. ground arith)

  compare_greater_or_equal :
      Decides (signed64 b ≤ℤ signed64 a) (compare_values 5 (integer a) (integer b))
  unfolding compare_values
  compare_greater_or_equal =
      decides (signed64 b ≤ℤ signed64 a) (not (ltb_ℤ (signed64 a) (signed64 b))) (λ e. ground arith)
        (λ e h. ground arith)

add_values-sub_values :
    (ops : FloatOps) (a b : ℕ)
    → Computes (signed64 a +ℤ signed64 b) (add_values ops (integer b) (integer a))
      × Computes (signed64 a -ℤ signed64 b) (sub_values ops (integer a) (integer b))
unfolding add_values sub_values
add_values-sub_values ops a b =
    (Computes-checked (signed64 a +ℤ signed64 b), Computes-checked (signed64 a -ℤ signed64 b))

-- On integers of 64 bits `add` and `sub` give the sum and the difference of the numbers that the bits
-- stand for, if `int64_t` holds it, and are undefined otherwise; and the six comparisons decide the
-- order and the equality of these numbers.
pub integer_objects_lem :
    (ops : FloatOps) (a b : ℕ)
    → a < 2 ^ 64
    → b < 2 ^ 64
    → Computes (signed64 a +ℤ signed64 b) (add_values ops (integer b) (integer a))
      × Computes (signed64 a -ℤ signed64 b) (sub_values ops (integer a) (integer b))
      × Decides (signed64 a <ℤ signed64 b) (compare_values 0 (integer a) (integer b))
      × Decides (signed64 a ≤ℤ signed64 b) (compare_values 1 (integer a) (integer b))
      × Decides (signed64 a ≡ signed64 b) (compare_values 2 (integer a) (integer b))
      × Decides (signed64 a ≢ signed64 b) (compare_values 3 (integer a) (integer b))
      × Decides (signed64 b <ℤ signed64 a) (compare_values 4 (integer a) (integer b))
      × Decides (signed64 b ≤ℤ signed64 a) (compare_values 5 (integer a) (integer b))
integer_objects_lem ops a b h k =
    let sums = add_values-sub_values ops a b in
    (
      sums.0,
      sums.1,
      compare_less a b,
      compare_less_or_equal a b,
      compare_equal a b h k,
      compare_not_equal a b h k,
      compare_greater a b,
      compare_greater_or_equal a b,
    )
