-- ===== src/Translator/Buffer/Writes.antt =====
-- What is written to the buffer of BinaryTranslator-main/src/translation.cpp stays there: the code is
-- the bytes of the writes, one after the other, although each write stores eight bytes.
use native.Mathlib.Nat.{pow-suc, div-one, div-div-eq-div-mul}
use best_practices.Base.{
  ℕ, zero, suc, ◌+◌, ◌-◌, ◌/◌, ◌%◌, ◌^◌, ◌≤◌, ◌<◌, ◌≡◌, refl, ap, sym, ◌∙◌, subst, Bool, true,
  false, ltb, leb, leb→le, ◌&&◌, Option, none, some, List, [], ◌∷◌, ◌++◌, arith,
}
use best_practices.Base.Lists.{length}
use best_practices.Translator.Parser.Encoding.{little_endian}
use best_practices.Translator.Units.{Write, write_cmd, write_ptr, write_abs_ptr, write_double_num}
use best_practices.Translator.Buffer.{Buffer, capacity, stored, store, write, write_all}

-- The bytes of a write
unfoldable pub bytes_of : Write → List ℕ
unfolding little_endian
bytes_of (write_cmd code size) = little_endian size code
bytes_of (write_ptr ptr) = little_endian 4 ptr
bytes_of (write_abs_ptr ptr) = little_endian 8 ptr
bytes_of (write_double_num value) = little_endian 8 value

unfoldable pub bytes_of_all : List Write → List ℕ
unfolding bytes_of
bytes_of_all [] = []
bytes_of_all (w ∷ ws) = bytes_of w ++ bytes_of_all ws

-- No opcode is longer than the eight bytes that are stored.
abbrev pub fits_store : Write → Bool
fits_store (write_cmd code size) = leb size 8
fits_store (write_ptr ptr) = true
fits_store (write_abs_ptr ptr) = true
fits_store (write_double_num value) = true

abbrev pub all_fit : List Write → Bool
all_fit [] = true
all_fit (w ∷ ws) = fits_store w && all_fit ws

-- The bytes stand at an address.
abbrev pub Holds : ℕ → (ℕ → ℕ) → List ℕ → Type 0
Holds a content [] = Unit
Holds a content (x ∷ xs) = (content a ≡ x) × Holds (a + 1) content xs

-- Two contents agree below an address.
abbrev pub AgreeBelow : ℕ → (ℕ → ℕ) → (ℕ → ℕ) → Type 0
AgreeBelow n f g = (j : ℕ) → j < n → f j ≡ g j

pub length-append {ℓ} : {A : Type ℓ} (xs ys : List A) → length (xs ++ ys) ≡ length xs + length ys
length-append [] ys = omega arith
length-append (x ∷ xs) ys = omega (arith, length-append xs ys)

pub length-little_endian : (w n : ℕ) → length (little_endian w n) ≡ w
unfolding little_endian
length-little_endian zero n = refl
length-little_endian (suc w) n = ap (λ (t : ℕ). suc t) (length-little_endian w (n / 256))

-- What holds below a length still holds where the contents agree.
pub Holds-agree :
    (xs : List ℕ) (a n : ℕ) (f g : ℕ → ℕ)
    → a + length xs ≤ n
    → AgreeBelow n f g
    → Holds a f xs
    → Holds a g xs
Holds-agree [] a n f g h same holds = holds
Holds-agree (x ∷ xs) a n f g h same holds =
    (sym (same a (omega arith)) ∙ holds.0, Holds-agree xs (a + 1) n f g (omega arith) same holds.1)

pub Holds-append :
    (xs ys : List ℕ) (a : ℕ) (f : ℕ → ℕ)
    → Holds a f xs
    → Holds (a + length xs) f ys
    → Holds a f (xs ++ ys)
Holds-append [] ys a f h k = subst (λ (t : ℕ). Holds t f ys) (omega arith) k
Holds-append (x ∷ xs) ys a f h k =
    (h.0, Holds-append xs ys (a + 1) f h.1 (subst (λ (t : ℕ). Holds t f ys) (omega arith) k))

stored-within :
    (width n b j : ℕ) (f : ℕ → ℕ) → j < width → stored width n b f (b + j) ≡ n / 256 ^ j % 256
stored-within width n b j f h =
    let low : leb b (b + j) ≡ true = ground arith in
    let high : ltb (b + j) (b + width) ≡ true = ground arith in
    let back : b + j - b ≡ j = omega arith in rw (low, high, back) refl

stored-below : (width n b j : ℕ) (f : ℕ → ℕ) → j < b → stored width n b f j ≡ f j
stored-below width n b j f h = ground arith

-- The bytes of a number, from byte `j` on, stand where it is stored.
stored-Holds :
    (s width n b j : ℕ) (f : ℕ → ℕ)
    → j + s ≤ width
    → Holds (b + j) (stored width n b f) (little_endian s (n / 256 ^ j))
unfolding little_endian
stored-Holds zero width n b j f h = tt
stored-Holds (suc s) width n b j f h =
    let later = stored-Holds s width n b (suc j) f (omega arith) in
    let place : b + suc j ≡ b + j + 1 = omega arith in
    let shifted : n / 256 ^ suc j ≡ n / 256 ^ j / 256 = rw (pow-suc, div-div-eq-div-mul) refl in
    (
      stored-within width n b j f (omega arith),
      subst (λ (t : ℕ). Holds t (stored width n b f) (little_endian s (n / 256 ^ j / 256))) place
          (subst (λ (t : ℕ). Holds (b + suc j) (stored width n b f) (little_endian s t)) shifted
            later),
    )

-- What a step of writes that emits these bytes does to the buffer.
abbrev pub Emits : List ℕ → Buffer → Option Buffer → Type 0
Emits xs b r =
    (b' : Buffer) × (r ≡ some b')
    × (b'.len ≡ b.len + length xs)
    × Holds b.len b'.content xs
    × AgreeBelow b.len b.content b'.content

store-Emits :
    (width n size : ℕ) (b : Buffer)
    → size ≤ width
    → b.len + width ≤ capacity
    → Emits (little_endian size n) b (store width n size b)
unfolding store
store-Emits width n size b h k =
    let room : leb (b.len + width) capacity ≡ true = ground arith in
    let b' : Buffer = record { content = stored width n b.len b.content; len = b.len + size } in
    let holds = stored-Holds size width n b.len 0 b.content (omega arith) in
    (
      b',
      rw (store, room) refl,
      ap (λ (t : ℕ). b.len + t) (sym (length-little_endian size n)),
      subst (λ (t : ℕ). Holds t b'.content (little_endian size n)) (omega arith)
          (subst (λ (t : ℕ). Holds (b.len + 0) b'.content (little_endian size t)) (div-one n)
            holds),
      λ j p. sym (stored-below width n b.len j b.content p),
    )

write-Emits :
    (w : Write) (b : Buffer)
    → fits_store w ≡ true
    → b.len + 8 ≤ capacity
    → Emits (bytes_of w) b (write w b)
unfolding write bytes_of
write-Emits (write_cmd code size) b h k = store-Emits 8 code size b (leb→le size 8 h) k
write-Emits (write_ptr ptr) b h k = store-Emits 4 ptr 4 b (omega arith) (omega arith)
write-Emits (write_abs_ptr ptr) b h k = store-Emits 8 ptr 8 b (omega arith) k
write-Emits (write_double_num value) b h k = store-Emits 8 value 8 b (omega arith) k

-- Two steps in sequence emit the bytes of the first and then those of the second.
pub Emits-append :
    (xs ys : List ℕ) (b : Buffer) (r : Option Buffer) (next : Buffer → Option Buffer)
    → Emits xs b r
    → ((b' : Buffer) → b'.len ≡ b.len + length xs → Emits ys b' (next b'))
    → Emits (xs ++ ys) b (elim r [ none ↦ none | some b' ↦ next b' ])
Emits-append xs ys b r next (b1, e1, l1, h1, a1) step =
    let (b2, e2, l2, h2, a2) = step b1 l1 in
    (
      b2,
      rw e1 e2,
      omega (arith, l1, l2, length-append xs ys),
      Holds-append xs ys b.len b2.content
          (Holds-agree xs b.len b1.len b1.content b2.content (omega (arith, l1)) a2 h1)
          (subst (λ (t : ℕ). Holds t b2.content ys) l1 h2),
      λ j p. a1 j p ∙ a2 j (omega (arith, l1)),
    )

&&-eq-true : (a b : Bool) → (a && b) ≡ true → (a ≡ true) × (b ≡ true)
&&-eq-true true b h = (refl, h)
&&-eq-true false b h = absurd (cc)

pub write_all-Emits :
    (ws : List Write) (b : Buffer)
    → all_fit ws ≡ true
    → b.len + length (bytes_of_all ws) + 8 ≤ capacity
    → Emits (bytes_of_all ws) b (write_all ws b)
unfolding write_all bytes_of_all
write_all-Emits [] b h k = (b, refl, omega arith, tt, λ j p. refl)
write_all-Emits (w ∷ ws) b h k =
    let (first, later) = &&-eq-true (fits_store w) (all_fit ws) h in
    let total = length-append (bytes_of w) (bytes_of_all ws) in
    Emits-append (bytes_of w) (bytes_of_all ws) b (write w b) (write_all ws)
      (write-Emits w b first (omega arith))
      (λ b' l. write_all-Emits ws b' later (omega (arith, total, l)))
