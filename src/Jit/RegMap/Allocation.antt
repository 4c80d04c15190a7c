-- ===== src/Jit/RegMap/Allocation.antt =====
-- Acquiring takes the lowest free register, and releasing gives it back.
use Prim.Native.Nat.{min, max}
use native.Mathlib.Nat.{one-mul, pow-le-pow_right}
use best_practices.Base.{
  ℕ, zero, suc, ◌+◌, ◌-◌, ◌^◌, ◌≤◌, ◌<◌, ◌≡◌, inl, inr, refl, ◌∙◌, ap, bit_and, bit_or, Bool, true,
  false, ltb, ◌==◌, if◌then◌else◌, Option, none, some, Bool-cases, Option-cases, ==_iff, lt→ltb,
  sym, arith,
}
use best_practices.Base.Bits.{digit, digit-bit_and, digit-bit_or}
use best_practices.Base.Bits.Digits.{digit-shift_left, digit-complement, digit_above, digit-lt}
use best_practices.Jit.RegMap.{
  RegMap, max_regs_count, one_shifted, first_set, acquire_found, mark_acquired, acquire_reg,
  release_reg,
}

digit-one : (i : ℕ) → digit i 1 ≡ (if i == 0 then 1 else 0)
digit-one zero = refl
digit-one (suc i) = digit_above 1 (suc i) 1 (omega arith) (omega arith) ∙ ground arith

digit-power : (r i : ℕ) → digit i (2 ^ r) ≡ (if i == r then 1 else 0)
digit-power r i =
    ap (digit i) (sym (one-mul (2 ^ r)))
    ∙ digit-shift_left r i 1
    ∙ ground (arith, digit-one (i - r))

-- What `first_set` finds, and that it overlooks nothing.
first_set-found :
    (n i j map : ℕ) → first_set n i map ≡ some j → (digit j map ≡ 1) × (i ≤ j) × (j < i + n)
unfolding first_set
first_set-found zero i j map e = cc
first_set-found (suc n) i j map e = elim (Bool-cases (digit i map == 1)) [
  | inl here ↦ ground (arith, here)
  | inr past ↦
      let (one, le, lt) = first_set-found n (suc i) j map (rw (past, first_set) at e) in
      (one, omega (arith, le), omega (arith, lt))
]

first_set_below : (n i j k map : ℕ) → first_set n i map ≡ some j → i ≤ k → k < j → digit k map ≡ 0
unfolding first_set
first_set_below zero i j k map e le lt = cc
first_set_below (suc n) i j k map e le lt = elim (Bool-cases (digit i map == 1)) [
  | inl here ↦ absurd (ground (arith, here))
  | inr past ↦ elim (Bool-cases (i == k)) [
    | inl same ↦ ground (arith, same, past)
    | inr differ ↦
        first_set_below n (suc i) j k map (rw (past, first_set) at e) (ground (arith, differ, le))
          lt
  ]
]

-- At the registers that an `int` shift reaches, marking clears one bit and releasing sets one.
mark_acquired-map :
    (reg : ℕ) (m m' : RegMap)
    → reg < 31
    → mark_acquired reg m ≡ some m'
    → m'.map ≡ bit_and m.map (2 ^ 64 - 1 - 2 ^ reg)
unfolding mark_acquired one_shifted
mark_acquired-map reg m m' lt e = ground arith

release_reg-map :
    (reg : ℕ) (m m' : RegMap)
    → reg < 31
    → release_reg reg m ≡ some m'
    → m'.map ≡ bit_or m.map (2 ^ reg)
unfolding release_reg one_shifted
release_reg-map reg m m' lt e = ground arith

module _ (m m' : RegMap) (reg : ℕ) (got : acquire_reg m ≡ some (some reg, m'))
    (in_range : reg < m.regs_count) (few : m.regs_count ≤ 31) where
  acquire_found-inv :
      (small : Bool) (o : Option RegMap) (r : ℕ)
      → acquire_found small o r m ≡ some (some reg, m')
      → (r ≡ reg) × (small ≡ true → o ≡ some m')
  acquire_found-inv true (some q) r h = (cc, λ _. cc)
  acquire_found-inv true none r h = cc
  acquire_found-inv false o r h = (cc, λ x. absurd (cc x))

  acquire_reg-inv : (first_set max_regs_count 0 m.map ≡ some reg) × (mark_acquired reg m ≡ some m')
  unfolding acquire_reg
  acquire_reg-inv = elim (Option-cases (first_set max_regs_count 0 m.map)) [
    | inl (r, e) ↦
        let (same, marked) =
          acquire_found-inv (ltb r m.regs_count) (mark_acquired r m) r
            (rw (e, acquire_reg) at got) in
        (
          e ∙ ap some same,
          ap (λ t. mark_acquired t m) (sym same)
              ∙ marked (lt→ltb r m.regs_count (omega (arith, same, in_range))),
        )
    | inr e ↦ absurd (cc (rw (e, acquire_reg) at got))
  ]

  acquired_digit :
      (i : ℕ) → i < max_regs_count → digit i m'.map ≡ (if i == reg then 0 else digit i m.map)
  acquired_digit i bound =
      let same = mark_acquired-map reg m m' (omega arith) acquire_reg-inv.1 in
      let le : reg ≤ 31 = omega arith in
      let most : 2 ^ reg ≤ 2 ^ 31 = pow-le-pow_right (omega arith) le in
      let fits : 2 ^ reg < 2 ^ 64 = omega (arith, most) in
      ap (digit i) same
      ∙ digit-bit_and i m.map (2 ^ 64 - 1 - 2 ^ reg)
      ∙ ap (min (digit i m.map))
          (digit-complement 64 i (2 ^ reg) fits bound ∙ ap (λ (t : ℕ). 1 - t) (digit-power reg i))
      ∙ ground (arith, digit-lt i m.map)

  -- In a map of at most 31 registers: the register that is acquired, if it is one of them, was free, and every register below it
  -- was in use; afterwards it is in use, and every other register is as before.
  pub acquire_reg_lem :
      (k i : ℕ)
      → k ≤ reg
      → i < max_regs_count
      → (digit k m.map ≡ (if k == reg then 1 else 0))
        × (digit i m'.map ≡ (if i == reg then 0 else digit i m.map))
  acquire_reg_lem k i le bound = (
    elim (Bool-cases (k == reg)) [
      | inl here ↦ rw here (ap (λ (t : ℕ). digit t m.map) ((==_iff k reg).0 here) ∙ found.0)
      | inr apart ↦ rw apart (
          first_set_below max_regs_count 0 reg k m.map acquire_reg-inv.0 (omega arith)
            (ground (arith, apart, le)))
    ],
    acquired_digit i bound,
  )
    where
      found : (digit reg m.map ≡ 1) × (0 ≤ reg) × (reg < 0 + max_regs_count)
      found = first_set-found max_regs_count 0 reg m.map acquire_reg-inv.0

  -- In a map of at most 31 registers: releasing an acquired register of the map makes every register as free or used as it was before.
  pub release_reg-acquire_reg :
      (m'' : RegMap) (i : ℕ)
      → release_reg reg m' ≡ some m''
      → i < max_regs_count
      → digit i m''.map ≡ digit i m.map
  release_reg-acquire_reg m'' i freed bound =
      let free = (first_set-found max_regs_count 0 reg m.map acquire_reg-inv.0).0 in
      ap (digit i) (release_reg-map reg m' m'' (omega arith) freed)
      ∙ digit-bit_or i m'.map (2 ^ reg)
      ∙ ap (max (digit i m'.map)) (digit-power reg i)
      ∙ elim (Bool-cases (i == reg)) [
        | inl here ↦ ground (
          arith,
          here,
          acquired_digit i bound,
          ap (λ (t : ℕ). digit t m.map) ((==_iff i reg).0 here),
          free,
        )
        | inr apart ↦ ground (arith, apart, acquired_digit i bound)
      ]
