-- ===== src/Jit/RegMap.antt =====
-- JIT-AOT-Compilers-master/codegen/RegMap.h: the free registers as the 1-bits of a word of 64 bits.
pub mod Allocation
use best_practices.Base.{
  ℕ, zero, suc, ◌-◌, ◌^◌, bit_and, bit_or, Bool, true, false, ltb, leb, ◌==◌, if◌then◌else◌, Option,
  none, some,
}
use best_practices.Base.Bits.{digit}

-- `RegMap`
pub record RegMap : Type 0 where
  pub regs_count : ℕ
  pub map : ℕ
  pub full_map : ℕ

-- `MAX_REGS_COUNT`
abbrev pub max_regs_count : ℕ
max_regs_count = 64

-- `1 << reg` at `int`, extended to 64 bits: at 31 it is the least `int`, whose extension has all
-- upper bits, and from 32 on the shift is undefined.
unfoldable pub one_shifted : ℕ → Option ℕ
one_shifted reg =
    if ltb reg 31 then some (2 ^ reg) else if reg == 31 then some (2 ^ 64 - 2 ^ 31) else none

-- `RegMap::RegMap`; `none` where `ASSERT` aborts in a debug build, and where `(1 << regsCount) - 1`
-- overflows or the shift is undefined. The complement of an `int` is extended by its sign to 64 bits.
unfoldable pub reg_map_init : ℕ → Option RegMap
reg_map_init regs_count =
    if leb max_regs_count regs_count
    then (if leb regs_count max_regs_count
        then some (record { regs_count = regs_count; map = 2 ^ 64 - 1; full_map = 0 })
        else none)
    else if ltb regs_count 31
    then some (record {
      regs_count = regs_count;
      map = 2 ^ 64 - 1;
      full_map = 2 ^ 64 - 1 - (2 ^ regs_count - 1);
    })
    else none

-- `RegMap::IsFull`
unfoldable pub is_full : RegMap → Bool
is_full m = m.map == m.full_map

-- `__builtin_ffsll(map) - 1`: the lowest 1-bit of the `n` bits from bit `i` on, `none` for -1.
unfoldable pub first_set : ℕ → ℕ → ℕ → Option ℕ
first_set zero i map = none
first_set (suc n) i map =
    let rest = first_set n (suc i) map in if digit i map == 1 then some i else rest

-- `map &= ~(1 << reg)`
unfoldable pub mark_acquired : ℕ → RegMap → Option RegMap
unfolding one_shifted
mark_acquired reg m = elim (one_shifted reg) [
  | some bit ↦ some (record m { map = bit_and m.map (2 ^ 64 - 1 - bit) })
  | none ↦ none
]

-- The end of `AcquireReg` at the bit that it has found, by whether `reg < regsCount`.
abbrev pub acquire_found : Bool → Option RegMap → ℕ → RegMap → Option (Option ℕ × RegMap)
acquire_found true (some m') reg m = some (some reg, m')
acquire_found true none reg m = none
acquire_found false _ reg m = some (some reg, m)

-- `RegMap::AcquireReg`: the register that is returned, `none` for -1, and the map; `none` where the
-- shift is undefined. A register from `regsCount` on is returned, but not acquired.
unfoldable pub acquire_reg : RegMap → Option (Option ℕ × RegMap)
unfolding first_set mark_acquired
acquire_reg m = elim (first_set max_regs_count 0 m.map) [
  | some reg ↦ acquire_found (ltb reg m.regs_count) (mark_acquired reg m) reg m
  | none ↦ some (none, m)
]

-- `RegMap::ReleaseReg`
unfoldable pub release_reg : ℕ → RegMap → Option RegMap
unfolding one_shifted
release_reg reg m =
    if ltb reg m.regs_count
    then elim (one_shifted reg) [
      | some bit ↦ some (record m { map = bit_or m.map bit })
      | none ↦ none
    ]
    else none
