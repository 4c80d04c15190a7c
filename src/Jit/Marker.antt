-- ===== src/Jit/Marker.antt =====
-- JIT-AOT-Compilers-master/ir/marker/marker.h: a manager hands out markers, each made of a slot and
-- an index, and a markable object has one cell for each slot.
pub mod Freshness
use best_practices.Base.{
  ℕ, zero, suc, ◌+◌, ◌*◌, ◌-◌, ◌%◌, ◌^◌, bit_and, bit_or, Bool, true, false, not, ltb, ◌==◌,
  if◌then◌else◌, Option, none, some, u32, ◌>>>◌,
}

-- `MarkersConstants`
abbrev pub bit_length : ℕ
bit_length = 2

abbrev pub max_markers : ℕ
max_markers = 4

abbrev pub index_mask : ℕ
index_mask = 3

abbrev pub max_value : ℕ
max_value = 2 ^ 30 - 1

abbrev pub undef_value : ℕ
undef_value = 0

-- `MarkerManager`
pub record MarkerManager : Type 0 where
  pub current_index : ℕ
  pub markers_slots : ℕ → Bool

-- `Markable`
pub record Markable : Type 0 where
  pub markers : ℕ → ℕ

-- `array[i] = v`
unfoldable pub assign {ℓ} : {A : Type ℓ} → (ℕ → A) → ℕ → A → ℕ → A
assign array i v j = if j == i then v else array j

-- The loop of `GetNewMarker` over the slots from `i` on, `n` of them left: the first free one.
unfoldable pub free_slot : ℕ → ℕ → (ℕ → Bool) → Option ℕ
free_slot zero i slots = none
free_slot (suc n) i slots = let rest = free_slot n (suc i) slots in if slots i then rest else some i

-- `MarkerManager::GetNewMarker`, with `ASSERT` as in a debug build: `none` where the program aborts.
-- The shift is at `size_t`, and the cast to `Marker` keeps 32 bits.
unfoldable pub get_new_marker : MarkerManager → Option (ℕ × MarkerManager)
unfolding free_slot assign
get_new_marker m =
    let index = (m.current_index + 1) % 2 ^ 64 in
    if ltb m.current_index max_value
    then elim (free_slot max_markers 0 m.markers_slots) [
      | some i ↦ some (
        u32 (bit_or (index * 2 ^ bit_length % 2 ^ 64) i),
        record { current_index = index; markers_slots = assign m.markers_slots i true },
      )
      | none ↦ none
    ]
    else none

-- `mark >> BIT_LENGTH` and `mark & INDEX_MASK`
unfoldable pub value_of : ℕ → ℕ
value_of mark = mark >>> bit_length

unfoldable pub slot_of : ℕ → ℕ
slot_of mark = bit_and mark index_mask

-- `MarkerManager::ReleaseMarker`
unfoldable pub release_marker : ℕ → MarkerManager → MarkerManager
unfolding slot_of assign
release_marker mark m = record m { markers_slots = assign m.markers_slots (slot_of mark) false }

-- `MarkerManager::SetMarkerIndex`
unfoldable pub set_marker_index : ℕ → MarkerManager → Option MarkerManager
set_marker_index index m =
    if ltb index max_value
    then some
        (record m { current_index = if ltb m.current_index index then index else m.current_index })
    else none

-- `Markable::SetMarker`: whether the marker was new to the object, and the object.
unfoldable pub set_marker : ℕ → Markable → Bool × Markable
unfolding value_of slot_of assign
set_marker mark k = (
  not (k.markers (slot_of mark) == value_of mark),
  record k { markers = assign k.markers (slot_of mark) (value_of mark) },
)

-- `Markable::IsMarkerSet`
unfoldable pub is_marker_set : ℕ → Markable → Bool
unfolding value_of slot_of
is_marker_set mark k = k.markers (slot_of mark) == value_of mark

-- `Markable::ClearMarker`
unfoldable pub clear_marker : ℕ → Markable → Markable
unfolding slot_of assign
clear_marker mark k = record k { markers = assign k.markers (slot_of mark) undef_value }
