-- ===== src/Translator/Optimizer/Preservation.antt =====
-- The optimizer of BinaryTranslator-main/src/optimizer.cpp returns, and keeps the sizes right.
use best_practices.Base.{
  ℕ, zero, suc, ◌+◌, ◌-◌, ◌≡◌, ◌<◌, refl, ◌∙◌, subst, Bool, true, false, ◌==◌, if◌then◌else◌, ◌&&◌,
  Option, some, [], ◌∷◌, arith,
}
use best_practices.Base.Lists.{length, All, get_elem?, set}
use best_practices.Translator.Commands.{Command, imm, reg}
use best_practices.Translator.Doubles.{Doubles}
use best_practices.Translator.Parser.{is_push, is_pop}
use best_practices.Translator.Units.Sizes.{emitted_size, variation_size}
use best_practices.Translator.Optimizer.{
  is_arithmetic, Commands, try, before, folded, handle_constant_calculation, optimize_mov_reg_num,
  handle_imm_storage, attempt_storage, attempt_arithmetic, optimize_from, optimize_cmd_flow,
}
use best_practices.Translator.Optimizer.Arrays.{
  IsSized, PlainAt, get_elem?-lt, get_elem?-set_other, All-get_elem?, PlainAt-get_elem?, All-set,
  length-set, PlainAt-set, before_lem,
}

-- What holds of the array between two steps of the loop
abbrev Optimizable : ℕ → Commands → Type 0
Optimizable n cs = (length cs ≡ n) × All IsSized cs × PlainAt 0 cs × PlainAt 1 cs

Optimizable-set :
    (n : ℕ) (cs : Commands) (i : ℕ) (old c : Command)
    → Optimizable n cs
    → get_elem? cs i ≡ some old
    → IsSized c
    → (is_arithmetic old.name ≡ false → is_arithmetic c.name ≡ false)
    → Optimizable n (set cs i c)
Optimizable-set n cs i old c (l, sized, p0, p1) e s k = (
  length-set cs i c ∙ l,
  All-set cs i c sized s,
  PlainAt-set 0 cs i old c p0 e k,
  PlainAt-set 1 cs i old c p1 e k,
)

-- The step returns an array of which the same holds.
abbrev Returns : ℕ → Option Commands → Type 0
Returns n r = (cs : Commands) × (r ≡ some cs) × Optimizable n cs

Returns-if :
    (n : ℕ) (b : Bool) (cs' cs : Commands)
    → Optimizable n cs'
    → Optimizable n cs
    → Returns n (if b then some cs' else some cs)
Returns-if n true cs' cs h k = (cs', refl, h)
Returns-if n false cs' cs h k = (cs, refl, k)

handle_imm_storage-Returns :
    (n i : ℕ) (cs : Commands) → suc i < n → Optimizable n cs → Returns n (handle_imm_storage i cs)
unfolding handle_imm_storage optimize_mov_reg_num is_arithmetic emitted_size
handle_imm_storage-Returns n i cs h good =
    let (stored, e) = get_elem?-lt cs i (omega (arith, good.0)) in
    let (storage, f) = get_elem?-lt cs (suc i) (omega (arith, good.0)) in
    let mov = optimize_mov_reg_num stored.value storage in
    let skipped = set cs i (record stored { is_skip = true }) in
    let first : Optimizable n skipped =
      Optimizable-set n cs i stored (record stored { is_skip = true }) good e
        (All-get_elem? cs i stored good.1 e) (λ p. p) in
    let there : get_elem? skipped (suc i) ≡ some storage =
      get_elem?-set_other cs i (suc i) (record stored { is_skip = true }) (λ p. omega arith) ∙ f in
    let merged : Command = record mov { native_size = storage.native_size + stored.native_size } in
    let second : Optimizable n (set skipped (suc i) merged) =
      Optimizable-set n skipped (suc i) storage merged first there refl (λ p. refl) in
    rw (handle_imm_storage, e, f)
      (Returns-if n (is_pop storage.name && (storage.checksum == reg)) (set skipped (suc i) merged)
        cs second good)

handle_constant_calculation-Returns :
    (D : Doubles) (n i : ℕ) (cs : Commands)
    → suc (suc i) < n
    → Optimizable n cs
    → Returns n (handle_constant_calculation D (suc (suc i)) cs)
unfolding handle_constant_calculation folded is_arithmetic emitted_size variation_size
handle_constant_calculation-Returns D n i cs h good =
    let at : ℕ = suc (suc i) in
    let up1 : 1 + suc i ≡ at = omega arith in
    let up2 : 2 + i ≡ at = omega arith in
    let (operation, e) = get_elem?-lt cs at (omega (arith, good.0)) in
    let (member1, e1) = get_elem?-lt cs (suc i) (omega (arith, good.0)) in
    let (member2, e2) = get_elem?-lt cs i (omega (arith, good.0)) in
    let push_c : Command = folded D operation member1 member2 in
    let skip1 : Command = record member1 { is_skip = true } in
    let skip2 : Command = record member2 { is_skip = true } in
    let cs1 = set cs at push_c in
    let cs2 = set cs1 (suc i) skip1 in
    let good1 : Optimizable n cs1 =
      Optimizable-set n cs at operation push_c good e refl (λ p. refl) in
    let there1 : get_elem? cs1 (suc i) ≡ some member1 =
      get_elem?-set_other cs at (suc i) push_c (λ p. omega arith) ∙ e1 in
    let good2 : Optimizable n cs2 =
      Optimizable-set n cs1 (suc i) member1 skip1 good1 there1
        (All-get_elem? cs (suc i) member1 good.1 e1) (λ p. p) in
    let there2 : get_elem? cs2 i ≡ some member2 =
      get_elem?-set_other cs1 (suc i) i skip1 (λ p. omega arith)
      ∙ get_elem?-set_other cs at i push_c (λ p. omega arith)
      ∙ e2 in
    let good3 : Optimizable n (set cs2 i skip2) =
      Optimizable-set n cs2 i member2 skip2 good2 there2 (All-get_elem? cs i member2 good.1 e2)
        (λ p. p) in
    let first : before 1 at cs ≡ some member1 =
      subst (λ (t : ℕ). before 1 t cs ≡ some member1) up1 (before_lem 1 (suc i) cs e1) in
    let second : before 2 at cs ≡ some member2 =
      subst (λ (t : ℕ). before 2 t cs ≡ some member2) up2 (before_lem 2 i cs e2) in
    let back1 : suc (suc i) - 1 ≡ suc i = omega arith in
    let back2 : suc (suc i) - 2 ≡ i = omega arith in
    rw (handle_constant_calculation, e, first, second, back1, back2)
      (Returns-if n ((member1.checksum == imm) && (member2.checksum == imm)) (set cs2 i skip2) cs
        good3 good)

Returns-or :
    (n : ℕ) (b : Bool) (r : Option Commands) (cs : Commands)
    → Returns n r
    → Optimizable n cs
    → Returns n (if b then r else some cs)
Returns-or n true r cs h k = h
Returns-or n false r cs h k = (cs, refl, k)

Returns-try {ℓ} :
    {A : Type ℓ} (n : ℕ) (o : Option A) (a : A) (f : A → Option Commands)
    → o ≡ some a
    → Returns n (f a)
    → Returns n (try o f)
Returns-try n o a f e h = rw e h

attempt_storage-Returns :
    (n i : ℕ) (cs : Commands) → suc i < n → Optimizable n cs → Returns n (attempt_storage i cs)
unfolding attempt_storage
attempt_storage-Returns n i cs h good =
    let (c, e) = get_elem?-lt cs i (omega (arith, good.0)) in
    Returns-try n (get_elem? cs i) c _ e (
      Returns-or n ((c.checksum == imm) && is_push c.name) (handle_imm_storage i cs) cs
        (handle_imm_storage-Returns n i cs h good) good)

-- The first two commands are no arithmetic, and the others have two before them.
attempt_arithmetic-Returns :
    (D : Doubles) (n i : ℕ) (cs : Commands)
    → i < n
    → Optimizable n cs
    → Returns n (attempt_arithmetic D i cs)
unfolding attempt_arithmetic
attempt_arithmetic-Returns D n zero cs h good =
    let (c, e) = get_elem?-lt cs 0 (omega (arith, good.0)) in
    rw (attempt_arithmetic, e, PlainAt-get_elem? cs 0 c good.2 e) (cs, refl, good)
attempt_arithmetic-Returns D n (suc zero) cs h good =
    let (c, e) = get_elem?-lt cs 1 (omega (arith, good.0)) in
    rw (attempt_arithmetic, e, PlainAt-get_elem? cs 1 c good.3 e) (cs, refl, good)
attempt_arithmetic-Returns D n (suc (suc i)) cs h good =
    let (c, e) = get_elem?-lt cs (suc (suc i)) (omega (arith, good.0)) in
    Returns-try n (get_elem? cs (suc (suc i))) c _ e (
      Returns-or n (is_arithmetic c.name) (handle_constant_calculation D (suc (suc i)) cs) cs
        (handle_constant_calculation-Returns D n i cs h good) good)

optimize_from-Returns :
    (D : Doubles) (n rounds i : ℕ) (cs : Commands)
    → rounds + i + 1 ≡ n
    → Optimizable n cs
    → Returns n (optimize_from D rounds i cs)
unfolding optimize_from
optimize_from-Returns D n zero i cs h good = (cs, refl, good)
optimize_from-Returns D n (suc rounds) i cs h good =
    let (cs1, e1, good1) = attempt_storage-Returns n i cs (omega arith) good in
    let (cs2, e2, good2) = attempt_arithmetic-Returns D n i cs1 (omega arith) good1 in
    rw (optimize_from, e1, e2) (optimize_from-Returns D n rounds (suc i) cs2 (omega arith) good2)

-- On an array whose first two commands are no arithmetic, and whose commands have the sizes of their
-- code, the optimizer returns an array of the same length whose commands have the sizes of their code.
pub optimize_cmd_flow-All :
    (D : Doubles) (cs : Commands)
    → All IsSized cs
    → PlainAt 0 cs
    → PlainAt 1 cs
    → (cs' : Commands) × (optimize_cmd_flow D cs ≡ some cs')
      × (length cs' ≡ length cs)
      × All IsSized cs'
unfolding optimize_cmd_flow optimize_from
optimize_cmd_flow-All D [] sized p0 p1 = ([], refl, refl, tt)
optimize_cmd_flow-All D (c ∷ cs) sized p0 p1 =
    let (cs', e, good) =
      optimize_from-Returns D (length (c ∷ cs)) (length cs) 0 (c ∷ cs) (omega arith)
        (refl, sized, p0, p1) in
    let rounds : length (c ∷ cs) - 1 ≡ length cs = omega arith in (cs', rw rounds e, good.0, good.1)
