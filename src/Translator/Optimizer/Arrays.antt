-- ===== src/Translator/Optimizer/Arrays.antt =====
-- The array of commands of BinaryTranslator-main/src/optimizer.cpp: what a write to it keeps.
use best_practices.Base.{
  ℕ, zero, suc, ◌+◌, ◌-◌, ◌≡◌, ◌≢◌, ◌<◌, refl, ap, subst, true, false, leb, some, [], ◌∷◌, arith,
}
use best_practices.Base.Lists.{length, All, get_elem?, set}
use best_practices.Translator.Commands.{Command}
use best_practices.Translator.Units.Sizes.{emitted_size}
use best_practices.Translator.Optimizer.{is_arithmetic, Commands, before}

-- The size of the command is that of the code that is emitted for it.
abbrev pub IsSized : Command → Type 0
IsSized c = c.x86_size ≡ emitted_size c.name c.checksum

-- The command at an index, if any, is no arithmetic.
unfoldable pub PlainAt : ℕ → Commands → Type 0
unfolding is_arithmetic
PlainAt j [] = Unit
PlainAt zero (c ∷ cs) = is_arithmetic c.name ≡ false
PlainAt (suc j) (c ∷ cs) = PlainAt j cs

pub get_elem?-lt :
    (cs : Commands) (i : ℕ) → i < length cs → (c : Command) × (get_elem? cs i ≡ some c)
get_elem?-lt [] i h = absurd (omega arith)
get_elem?-lt (c ∷ cs) zero h = (c, refl)
get_elem?-lt (c ∷ cs) (suc i) h = get_elem?-lt cs i (omega arith)

pub get_elem?-set_other :
    (cs : Commands) (i j : ℕ) (c : Command) → i ≢ j → get_elem? (set cs i c) j ≡ get_elem? cs j
get_elem?-set_other [] i j c h = refl
get_elem?-set_other (x ∷ cs) zero zero c h = absurd (h refl)
get_elem?-set_other (x ∷ cs) zero (suc j) c h = refl
get_elem?-set_other (x ∷ cs) (suc i) zero c h = refl
get_elem?-set_other (x ∷ cs) (suc i) (suc j) c h =
    get_elem?-set_other cs i j c (λ e. h (ap (λ (t : ℕ). suc t) e))

pub All-get_elem? :
    (cs : Commands) (i : ℕ) (c : Command) → All IsSized cs → get_elem? cs i ≡ some c → IsSized c
All-get_elem? [] i c h e = absurd (cc)
All-get_elem? (x ∷ cs) zero c h e = let same : x ≡ c = cc in subst IsSized same h.0
All-get_elem? (x ∷ cs) (suc i) c h e = All-get_elem? cs i c h.1 e

pub PlainAt-get_elem? :
    (cs : Commands) (i : ℕ) (c : Command)
    → PlainAt i cs
    → get_elem? cs i ≡ some c
    → is_arithmetic c.name ≡ false
unfolding PlainAt
PlainAt-get_elem? [] i c h e = absurd (cc)
PlainAt-get_elem? (x ∷ cs) zero c h e =
    let same : x ≡ c = cc in subst (λ (y : Command). is_arithmetic y.name ≡ false) same h
PlainAt-get_elem? (x ∷ cs) (suc i) c h e = PlainAt-get_elem? cs i c h e

pub All-set :
    (cs : Commands) (i : ℕ) (c : Command) → All IsSized cs → IsSized c → All IsSized (set cs i c)
All-set [] i c h k = h
All-set (x ∷ cs) zero c h k = (k, h.1)
All-set (x ∷ cs) (suc i) c h k = (h.0, All-set cs i c h.1 k)

pub length-set : (cs : Commands) (i : ℕ) (c : Command) → length (set cs i c) ≡ length cs
length-set [] i c = refl
length-set (x ∷ cs) zero c = refl
length-set (x ∷ cs) (suc i) c = ap (λ (t : ℕ). suc t) (length-set cs i c)

pub PlainAt-set :
    (j : ℕ) (cs : Commands) (i : ℕ) (old c : Command)
    → PlainAt j cs
    → get_elem? cs i ≡ some old
    → (is_arithmetic old.name ≡ false → is_arithmetic c.name ≡ false)
    → PlainAt j (set cs i c)
unfolding PlainAt
PlainAt-set j [] i old c h e k = h
PlainAt-set zero (x ∷ cs) zero old c h e k = k (PlainAt-get_elem? (x ∷ cs) 0 old h e)
PlainAt-set zero (x ∷ cs) (suc i) old c h e k = h
PlainAt-set (suc j) (x ∷ cs) zero old c h e k = h
PlainAt-set (suc j) (x ∷ cs) (suc i) old c h e k = PlainAt-set j cs i old c h e k

pub before_lem :
    (k i : ℕ) (cs : Commands) {c : Command} → get_elem? cs i ≡ some c → before k (k + i) cs ≡ some c
before_lem k i cs e =
    let inside : leb k (k + i) ≡ true = ground arith in
    let back : k + i - k ≡ i = omega arith in rw (inside, back) e
