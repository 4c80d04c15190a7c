-- ===== src/Jit/Marker/Freshness.antt =====
-- A new marker is on no object yet, and markers in different slots do not meet.
use best_practices.Base.{
  ℕ, zero, suc, ◌+◌, ◌*◌, ◌%◌, ◌^◌, ◌≤◌, ◌<◌, ◌≡◌, ◌≢◌, inl, inr, ◌∙◌, ap, bit_or, Bool, true,
  false, ◌==◌, if◌then◌else◌, none, some, Bool-cases, Option-cases, ==_iff, sym, arith, u32,
}
use best_practices.Base.Bits.{bit_and_mask, bit_or_high, bit_or_comm}
use best_practices.Jit.Marker.{
  MarkerManager, Markable, max_markers, max_value, free_slot, assign, get_new_marker, value_of,
  slot_of, release_marker, set_marker, is_marker_set, clear_marker,
}

-- The marker of a slot and an index.
abbrev pub packed : ℕ → ℕ → ℕ
packed index i = u32 (bit_or (index * 2 ^ 2 % 2 ^ 64) i)

packed_lem :
    (index i : ℕ) → index ≤ max_value → i < max_markers → packed index i ≡ index * 2 ^ 2 + i
packed_lem index i h lt =
    let same : index * 2 ^ 2 % 2 ^ 64 ≡ index * 2 ^ 2 = omega arith in
    ap (λ (t : ℕ). u32 (bit_or t i)) same
    ∙ omega (arith, bit_or_comm (index * 2 ^ 2) i, bit_or_high 2 index i lt)

slot_of-packed : (index i : ℕ) → index ≤ max_value → i < max_markers → slot_of (packed index i) ≡ i
unfolding slot_of
slot_of-packed index i h lt =
    omega (arith, bit_and_mask 2 (packed index i), packed_lem index i h lt)

value_of-packed :
    (index i : ℕ) → index ≤ max_value → i < max_markers → value_of (packed index i) ≡ index
unfolding value_of
value_of-packed index i h lt = omega (arith, packed_lem index i h lt)

-- The loop gives a free slot of those it looks at.
free_slot-eq :
    (n i j : ℕ) (slots : ℕ → Bool) → free_slot n i slots ≡ some j → (slots j ≡ false) × (j < i + n)
unfolding free_slot
free_slot-eq zero i j slots e = cc
free_slot-eq (suc n) i j slots e = elim (Bool-cases (slots i)) [
  | inl used ↦
      let (free, lt) = free_slot-eq n (suc i) j slots (rw (used, free_slot) at e) in
      (free, omega (arith, lt))
  | inr free ↦ ground (arith, free)
]

module _ (m m' : MarkerManager) (mark : ℕ) (given : get_new_marker m ≡ some (mark, m')) where
  -- What a call that does not abort has done.
  get_new_marker-inv :
      (i : ℕ) × (m.current_index < max_value)
      × (m.markers_slots i ≡ false)
      × (i < max_markers)
      × (mark ≡ packed (m.current_index + 1) i)
      × (m'.current_index ≡ m.current_index + 1)
      × (m'.markers_slots ≡ assign m.markers_slots i true)
  unfolding get_new_marker
  get_new_marker-inv = elim (Option-cases (free_slot max_markers 0 m.markers_slots)) [
    | inl (i, e) ↦
        let (free, lt) = free_slot-eq max_markers 0 i m.markers_slots e in
        (i, ground (arith, e), free, lt, ground (arith, e), ground (arith, e), ground (arith, e))
    | inr e ↦ absurd (ground (arith, e))
  ]

  slot_of-new :
      (slot_of mark < max_markers)
      × (m.markers_slots (slot_of mark) ≡ false)
      × (m'.markers_slots ≡ assign m.markers_slots (slot_of mark) true)
      × (value_of mark ≡ m.current_index + 1)
      × (m'.current_index ≡ m.current_index + 1)
  slot_of-new =
      let (i, room, free, lt, made, index, slots) = get_new_marker-inv in
      let here : slot_of mark ≡ i =
        ap slot_of made ∙ slot_of-packed (m.current_index + 1) i (omega (arith, room)) lt in
      let value : value_of mark ≡ m.current_index + 1 =
        ap value_of made ∙ value_of-packed (m.current_index + 1) i (omega (arith, room)) lt in
      (omega (arith, here, lt), rw here free, rw here slots, value, index)

  -- A marker that a manager hands out comes from a slot that was free and is used from then on,
  -- while the other slots stay; releasing it frees exactly that slot again.
  pub release_marker-get_new_marker :
      (m.markers_slots (slot_of mark) ≡ false)
      × (slot_of mark < max_markers)
      × ((j : ℕ) → m'.markers_slots j ≡ (if j == slot_of mark then true else m.markers_slots j))
      × ((j : ℕ) → (release_marker mark m').markers_slots j ≡ m.markers_slots j)
  unfolding release_marker assign
  release_marker-get_new_marker =
      let (lt, free, slots, value, index) = slot_of-new in
      let at : (j : ℕ) → m'.markers_slots j ≡ assign m.markers_slots (slot_of mark) true j =
        λ j. ap (λ (s : ℕ → Bool). s j) slots in
      (free, lt, at, λ j. ground (arith, at j, free))

  -- On an object whose cells hold no index above the manager's, a new marker is not set; setting it
  -- reports that it is new, sets it, and leaves no cell above the manager's new index.
  pub set_marker-get_new_marker :
      (k : Markable)
      → ((j : ℕ) → k.markers j ≤ m.current_index)
      → (is_marker_set mark k ≡ false)
        × ((set_marker mark k).0 ≡ true)
        × (is_marker_set mark (set_marker mark k).1 ≡ true)
        × ((j : ℕ) → (set_marker mark k).1.markers j ≤ m'.current_index)
  unfolding is_marker_set set_marker assign
  set_marker-get_new_marker k older =
      let (lt, free, slots, value, index) = slot_of-new in
      (
        ground (arith, value, older (slot_of mark)),
        ground (arith, value, older (slot_of mark)),
        ground (arith, value),
        λ j. ground (arith, value, index, older j),
      )

-- Markers in different slots do not meet on an object: setting or clearing one leaves it as it was
-- whether the other is set.
pub is_marker_set_other :
    (a b : ℕ) (k : Markable)
    → slot_of a ≢ slot_of b
    → (is_marker_set b (set_marker a k).1 ≡ is_marker_set b k)
      × (is_marker_set b (clear_marker a k) ≡ is_marker_set b k)
unfolding is_marker_set set_marker clear_marker assign
is_marker_set_other a b k apart = (ground arith, ground arith)

-- The loop finds a slot if one of those it looks at is free.
free_slot-none :
    (n i j : ℕ) (slots : ℕ → Bool) → free_slot n i slots ≡ none → i ≤ j → j < i + n → slots j ≡ true
unfolding free_slot
free_slot-none zero i j slots e le lt = absurd (omega (arith, le, lt))
free_slot-none (suc n) i j slots e le lt = elim (Bool-cases (slots i)) [
  | inl used ↦ elim (Bool-cases (i == j)) [
    | inl same ↦ ap slots (sym ((==_iff i j).0 same)) ∙ used
    | inr differ ↦
        free_slot-none n (suc i) j slots (rw (used, free_slot) at e) (ground (arith, differ, le))
          (omega (arith, lt))
  ]
  | inr free ↦ absurd (ground (arith, free))
]

-- A manager whose index is below the largest and that has a free slot hands out a marker.
pub get_new_marker_succeeds :
    (m : MarkerManager) (i : ℕ)
    → m.current_index < max_value
    → i < max_markers
    → m.markers_slots i ≡ false
    → (mark : ℕ) × (m' : MarkerManager) × (get_new_marker m ≡ some (mark, m'))
unfolding get_new_marker
get_new_marker_succeeds m i room lt free =
    elim (Option-cases (free_slot max_markers 0 m.markers_slots)) [
      | inl (j, e) ↦ elim (Option-cases (get_new_marker m)) [
        | inl ((mark, m'), given) ↦ (mark, m', given)
        | inr aborts ↦ absurd (ground (arith, e, room))
      ]
      | inr e ↦
          absurd (cc (free, free_slot-none max_markers 0 i m.markers_slots e (omega arith) lt))
    ]
