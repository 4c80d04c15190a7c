-- ===== src/Jit/Tests.antt =====
-- The theorems about markers and register maps at concrete inputs.
mod Sets
use best_practices.Base.{
  ℕ, ◌<◌, ◌≤◌, ◌≡◌, ◌≢◌, refl, true, false, ◌==◌, if◌then◌else◌, some, arith, ◌-◌, ◌^◌, none,
}
use best_practices.Base.Bits.{digit}
use best_practices.Jit.RegMap.{RegMap, reg_map_init, acquire_reg, release_reg}
use best_practices.Jit.RegMap.Allocation.{acquire_reg_lem, release_reg-acquire_reg}
use best_practices.Jit.Marker.{
  MarkerManager, Markable, max_markers, assign, get_new_marker, release_marker, slot_of, set_marker,
  is_marker_set, clear_marker,
}
use best_practices.Jit.Marker.Freshness.{
  release_marker-get_new_marker, set_marker-get_new_marker, is_marker_set_other,
  get_new_marker_succeeds,
}

-- A manager of which slot 0 is in use, and an object that carries its marker.
abbrev one_used : MarkerManager
one_used = record { current_index = 1; markers_slots = λ i. i == 0 }

abbrev marked : Markable
marked = record { markers = λ i. if i == 0 then 1 else 0 }

-- It hands out slot 1 with index 2.
abbrev two_used : MarkerManager
two_used = record { current_index = 2; markers_slots = assign (λ i. i == 0) 1 true }

given_example : get_new_marker one_used ≡ some (9, two_used)
unfolding get_new_marker
given_example = refl

release_marker-get_new_marker_example :
    (one_used.markers_slots (slot_of 9) ≡ false)
    × (slot_of 9 < max_markers)
    × ((j : ℕ)
        → two_used.markers_slots j ≡ (if j == slot_of 9 then true else one_used.markers_slots j))
    × ((j : ℕ) → (release_marker 9 two_used).markers_slots j ≡ one_used.markers_slots j)
release_marker-get_new_marker_example =
    release_marker-get_new_marker one_used two_used 9 given_example

marked-le : (j : ℕ) → marked.markers j ≤ one_used.current_index
marked-le j = ground arith

set_marker-get_new_marker_example :
    (is_marker_set 9 marked ≡ false)
    × ((set_marker 9 marked).0 ≡ true)
    × (is_marker_set 9 (set_marker 9 marked).1 ≡ true)
    × ((j : ℕ) → (set_marker 9 marked).1.markers j ≤ two_used.current_index)
set_marker-get_new_marker_example =
    set_marker-get_new_marker one_used two_used 9 given_example marked marked-le

slots_differ : slot_of 9 ≢ slot_of 4
unfolding slot_of
slots_differ = omega arith

get_new_marker_succeeds_example :
    (mark : ℕ) × (m' : MarkerManager) × (get_new_marker one_used ≡ some (mark, m'))
get_new_marker_succeeds_example =
    get_new_marker_succeeds one_used 1 (omega arith) (omega arith) refl

-- Four registers, of which register 0 is in use; then also register 1.
abbrev one_taken : RegMap
one_taken = record { regs_count = 4; map = 2 ^ 64 - 2; full_map = 2 ^ 64 - 16 }

abbrev two_taken : RegMap
two_taken = record { regs_count = 4; map = 2 ^ 64 - 4; full_map = 2 ^ 64 - 16 }

-- With 31 registers the subtraction of the constructor overflows.
too_many_registers : reg_map_init 31 ≡ none
unfolding reg_map_init
too_many_registers = refl

acquired_example : acquire_reg one_taken ≡ some (some 1, two_taken)
unfolding acquire_reg
acquired_example = refl

released_example : release_reg 1 two_taken ≡ some one_taken
unfolding release_reg
released_example = refl

acquire_reg_lem_example :
    (digit 1 one_taken.map ≡ (if 1 == 1 then 1 else 0))
    × (digit 5 two_taken.map ≡ (if 5 == 1 then 0 else digit 5 one_taken.map))
acquire_reg_lem_example =
    acquire_reg_lem one_taken two_taken 1 acquired_example (omega arith) (omega arith) 1 5
      (omega arith) (omega arith)

-- Of a map of 64 registers, acquiring register 31 takes all registers behind it as well.
abbrev lower_taken : RegMap
lower_taken = record { regs_count = 64; map = 2 ^ 64 - 2 ^ 31; full_map = 0 }

abbrev all_taken : RegMap
all_taken = record { regs_count = 64; map = 0; full_map = 0 }

register_31_takes_all : acquire_reg lower_taken ≡ some (some 31, all_taken)
unfolding acquire_reg
register_31_takes_all = refl
