-- ===== src/Base/Exits.antt =====
-- A C++ member function that may throw: it ends normally, or an exception of type `E` leaves it.
-- Both keep the object as it stands at that point, since an exception undoes no assignment.
use mathlib.Core.Path.{◌≡◌, refl}
use mathlib.Core.Logic.{◌⊎◌, inl, inr}
use mathlib.Core.Option.{Option, none, some}

pub data Outcome {ℓ κ} (E : Type ℓ) (S : Type κ) : Type (ℓ ⊔ κ) where
  done : S → Outcome E S
  raise : E → S → Outcome E S

infixl 5 ◌>>=◌
abbrev pub ◌>>=◌ {ℓ κ} : {E : Type ℓ} {S : Type κ} → Outcome E S → (S → Outcome E S) → Outcome E S
done s >>= f = f s
raise e s >>= f = raise e s

-- A call of a member's function: `set` puts the member back into the object.
abbrev pub on_member {ℓ κ μ} :
    {E : Type ℓ} {S : Type κ} {T : Type μ} → Outcome E S → (S → T) → Outcome E T
on_member (done s) set = done (set s)
on_member (raise e s) set = raise e (set s)

-- The object, whichever way the function ended.
abbrev pub object {ℓ κ} : {E : Type ℓ} {S : Type κ} → Outcome E S → S
object (done s) = s
object (raise e s) = s

-- How a sequence of two steps came to raise, and how it came to end.
module _ {ℓ κ} {E : Type ℓ} {S : Type κ} where
  pub >>=-eq-raise :
      (m : Outcome E S) (f : S → Outcome E S) {e : E} {t : S}
      → (m >>= f) ≡ raise e t
      → (m ≡ raise e t) ⊎ ((s : S) × (m ≡ done s) × (f s ≡ raise e t))
  >>=-eq-raise (done s) f h = inr (s, refl, h)
  >>=-eq-raise (raise e s) f h = inl h

  pub >>=-eq-done :
      (m : Outcome E S) (f : S → Outcome E S) {t : S}
      → (m >>= f) ≡ done t
      → (s : S) × (m ≡ done s) × (f s ≡ done t)
  >>=-eq-done (done s) f h = (s, refl, h)
  >>=-eq-done (raise e s) f h = cc

-- A property of the object that two steps keep, however they end, is kept by both in sequence.
pub object->>= {ℓ κ μ} :
    {E : Type ℓ} {S : Type κ} (P : S → Type μ) (m : Outcome E S) (f : S → Outcome E S)
    → P (object m)
    → ((s : S) → P s → P (object (f s)))
    → P (object (m >>= f))
object->>= P (done s) f h k = k s h
object->>= P (raise e s) f h k = h

pub object-on_member {ℓ κ μ} :
    {E : Type ℓ} {S : Type κ} {T : Type μ} (m : Outcome E S) (set : S → T)
    → object (on_member m set) ≡ set (object m)
object-on_member (done s) set = refl
object-on_member (raise e s) set = refl

pub on_member-eq-raise {ℓ κ μ} :
    {E : Type ℓ} {S : Type κ} {T : Type μ} (m : Outcome E S) (set : S → T) {e : E} {t : T}
    → on_member m set ≡ raise e t
    → (s : S) × (m ≡ raise e s)
on_member-eq-raise (done s) set h = cc
on_member-eq-raise (raise e s) set h = (s, cc)

pub Outcome-cases {ℓ κ} :
    {E : Type ℓ} {S : Type κ} (o : Outcome E S)
    → ((s : S) × (o ≡ done s)) ⊎ ((e : E) × (s : S) × (o ≡ raise e s))
Outcome-cases (done s) = inl (s, refl)
Outcome-cases (raise e s) = inr (e, s, refl)

pub Option-cases {ℓ} : {A : Type ℓ} (o : Option A) → ((a : A) × (o ≡ some a)) ⊎ (o ≡ none)
Option-cases (some a) = inl (a, refl)
Option-cases none = inr refl
