-- ===== src/Translator/Optimizer/Rewrites.antt =====
-- What the two rewrites of BinaryTranslator-main/src/optimizer.cpp make of an array.
use best_practices.Base.{
  ℕ, suc, ◌+◌, ◌-◌, ◌≡◌, refl, ap, subst, ◌∙◌, Bool, true, ◌==◌, if◌then◌else◌, ◌&&◌, Option, some,
  [], ◌∷◌, ◌++◌, arith,
}
use best_practices.Base.Lists.{length, get_elem?, set}
use best_practices.Translator.Commands.{CommandName, pop, Command, mov_reg_num_cmd, imm, reg}
use best_practices.Translator.Doubles.{Doubles}
use best_practices.Translator.Parser.{is_pop}
use best_practices.Translator.Optimizer.{
  Commands, try, before, folded, handle_constant_calculation, optimize_mov_reg_num,
  handle_imm_storage,
}
use best_practices.Translator.Optimizer.Arrays.{before_lem}

get_elem?-append :
    (front : Commands) (n : ℕ) (rest : Commands)
    → get_elem? (front ++ rest) (length front + n) ≡ get_elem? rest n
get_elem?-append [] n rest = ap (get_elem? rest) (omega arith)
get_elem?-append (x ∷ front) n rest =
    let index : length (x ∷ front) + n ≡ suc (length front + n) = omega arith in
    ap (get_elem? (x ∷ (front ++ rest))) index ∙ get_elem?-append front n rest

set-append :
    (front : Commands) (n : ℕ) (rest : Commands) (c : Command)
    → set (front ++ rest) (length front + n) c ≡ front ++ set rest n c
set-append [] n rest c = ap (λ (t : ℕ). set rest t c) (omega arith)
set-append (x ∷ front) n rest c =
    let index : length (x ∷ front) + n ≡ suc (length front + n) = omega arith in
    ap (λ (t : ℕ). set (x ∷ (front ++ rest)) t c) index
    ∙ ap (λ (cs : Commands). x ∷ cs) (set-append front n rest c)

try-some {ℓ} :
    {A : Type ℓ} (o : Option A) (a : A) (f : A → Option Commands) → o ≡ some a → try o f ≡ f a
try-some {A = A} o a f e = ap (λ (t : Option A). try t f) e

if_true : (b : Bool) (x y : Option Commands) → b ≡ true → (if b then x else y) ≡ x
if_true b x y h = ap (λ (t : Bool). if t then x else y) h

both_imm : (m n : ℕ) → m ≡ imm → n ≡ imm → ((m == imm) && (n == imm)) ≡ true
both_imm m n h k = rw (h, k) refl

is_pop-reg :
    (name : CommandName) (n : ℕ) → name ≡ pop → n ≡ reg → (is_pop name && (n == reg)) ≡ true
unfolding is_pop
is_pop-reg name n h k = rw (h, k) refl

-- What the two rewrites make of the commands behind `front`.
module _ (D : Doubles) (front post : Commands) (member2 member1 operation : Command) where
  abbrev pub operands : Commands
  operands = front ++ (member2 ∷ member1 ∷ operation ∷ post)

  writes :
      (c2 c1 c : Command)
      → set
          (set (set operands (length front + 2) c) (length front + 2 - 1) c1)
          (length front + 2 - 2)
          c2
        ≡ front ++ (c2 ∷ c1 ∷ c ∷ post)
  writes c2 c1 c =
      let first = set-append front 2 (member2 ∷ member1 ∷ operation ∷ post) c in
      let second = set-append front 1 (member2 ∷ member1 ∷ c ∷ post) c1 in
      let third = set-append front 0 (member2 ∷ c1 ∷ c ∷ post) c2 in
      let back1 : length front + 2 - 1 ≡ length front + 1 = omega arith in
      let back2 : length front + 2 - 2 ≡ length front + 0 = omega arith in
      rw (back1, back2, first, second, third) refl

  pub handle_constant_calculation-append :
      member1.checksum ≡ imm
      → member2.checksum ≡ imm
      → handle_constant_calculation D (length front + 2) operands
        ≡ some (
            front
            ++ (record member2 { is_skip = true }
                ∷ record member1 { is_skip = true }
                ∷ folded D operation member1 member2
                ∷ post))
  unfolding handle_constant_calculation
  handle_constant_calculation-append k1 k2 =
      let at = length front + 2 in
      let here = get_elem?-append front 2 (member2 ∷ member1 ∷ operation ∷ post) in
      let first = get_elem?-append front 1 (member2 ∷ member1 ∷ operation ∷ post) in
      let second = get_elem?-append front 0 (member2 ∷ member1 ∷ operation ∷ post) in
      let up1 : 1 + (length front + 1) ≡ at = omega arith in
      let up2 : 2 + (length front + 0) ≡ at = omega arith in
      let before1 =
        subst (λ (t : ℕ). before 1 t operands ≡ some member1) up1
          (before_lem 1 (length front + 1) operands first) in
      let before2 =
        subst (λ (t : ℕ). before 2 t operands ≡ some member2) up2
          (before_lem 2 (length front + 0) operands second) in
      try-some (get_elem? operands at) operation _ here
      ∙ try-some (before 1 at operands) member1 _ before1
      ∙ try-some (before 2 at operands) member2 _ before2
      ∙ if_true ((member1.checksum == imm) && (member2.checksum == imm)) _ (some operands)
          (both_imm member1.checksum member2.checksum k1 k2)
      ∙ ap (λ (cs : Commands). some cs)
          (writes (record member2 { is_skip = true }) (record member1 { is_skip = true })
            (folded D operation member1 member2))

-- A push and the pop to a register behind it
module _ (front post : Commands) (stored storage : Command) where
  abbrev pub move : Commands
  move = front ++ (stored ∷ storage ∷ post)

  abbrev pub moved : Command
  moved = record storage {
    name = mov_reg_num_cmd;
    x86_size = 10;
    value = stored.value;
    native_size = storage.native_size + stored.native_size;
  }

  pub handle_imm_storage-append :
      storage.name ≡ pop
      → storage.checksum ≡ reg
      → handle_imm_storage (length front) move
        ≡ some (front ++ (record stored { is_skip = true } ∷ moved ∷ post))
  unfolding handle_imm_storage optimize_mov_reg_num
  handle_imm_storage-append n k =
      let at : length front + 0 ≡ length front = omega arith in
      let after_at : length front + 1 ≡ suc (length front) = omega arith in
      let skipped : Command = record stored { is_skip = true } in
      let here =
        subst (λ (t : ℕ). get_elem? move t ≡ some stored) at
          (get_elem?-append front 0 (stored ∷ storage ∷ post)) in
      let there =
        subst (λ (t : ℕ). get_elem? move t ≡ some storage) after_at
          (get_elem?-append front 1 (stored ∷ storage ∷ post)) in
      let first : set move (length front) skipped ≡ front ++ (skipped ∷ storage ∷ post) =
        subst (λ (t : ℕ). set move t skipped ≡ front ++ (skipped ∷ storage ∷ post)) at
          (set-append front 0 (stored ∷ storage ∷ post) skipped) in
      let second : set (front ++ (skipped ∷ storage ∷ post)) (suc (length front)) moved
          ≡ front ++ (skipped ∷ moved ∷ post) =
        subst
          (λ (t : ℕ).
            set (front ++ (skipped ∷ storage ∷ post)) t moved ≡ front ++ (skipped ∷ moved ∷ post))
          after_at (set-append front 1 (skipped ∷ storage ∷ post) moved) in
      try-some (get_elem? move (length front)) stored _ here
      ∙ try-some (get_elem? move (suc (length front))) storage _ there
      ∙ if_true (is_pop storage.name && (storage.checksum == reg)) _ (some move)
          (is_pop-reg storage.name storage.checksum n k)
      ∙ ap (λ (cs : Commands). some (set cs (suc (length front)) moved)) first
      ∙ ap (λ (cs : Commands). some cs) second
