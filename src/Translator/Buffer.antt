-- ===== src/Translator/Buffer.antt =====
-- BinaryTranslator-main/src/translation.cpp, with `AllocateCmdArrays` of parser.cpp: the buffer of the
-- x86 code and what is written to it. A write past its end, which C++ leaves undefined, is `none`.
pub mod Writes
pub mod Placement
pub mod Layout
use best_practices.Base.{
  ℕ, ◌+◌, ◌-◌, ◌/◌, ◌%◌, ◌^◌, Bool, true, false, ltb, leb, if◌then◌else◌, ◌&&◌, Option, none, some,
  List, [], ◌∷◌,
}
use best_practices.Translator.Commands.{Command}
use best_practices.Translator.Doubles.{Doubles}
use best_practices.Translator.Addresses.{Filled, fill_cmd_ip, fill_jump_labels}
use best_practices.Translator.Opcodes
use best_practices.Translator.Units.{
  Write, write_cmd, write_ptr, write_abs_ptr, write_double_num, translate_cmd,
}

-- `CmdsBuffer`
pub record Buffer : Type 0 where
  pub content : ℕ → ℕ
  pub len : ℕ

-- `PAGESIZE * 2`
abbrev pub capacity : ℕ
capacity = 8192

-- The buffer of `AllocateCmdArrays`, for a program of so many bytes: filled with `ret` up to there.
unfoldable pub allocate : ℕ → Option Buffer
allocate src_len =
    if leb src_len capacity
    then some (record { content = λ j. if ltb j src_len then 0xC3 else 0; len = 0 })
    else none

-- The bytes after a store of `width` bytes at `at_len`, the lowest first
abbrev pub stored : ℕ → ℕ → ℕ → (ℕ → ℕ) → ℕ → ℕ
stored width n at_len content j =
    if leb at_len j && ltb j (at_len + width) then n / 256 ^ (j - at_len) % 256 else content j

-- A store of `width` bytes at the end of the code, which then has `size` more.
unfoldable pub store : ℕ → ℕ → ℕ → Buffer → Option Buffer
store width n size b =
    if leb (b.len + width) capacity
    then some (record { content = stored width n b.len b.content; len = b.len + size })
    else none

-- `WriteCmd`, `WritePtr`, `WriteAbsPtr` and `WriteDoubleNum`
unfoldable pub write : Write → Buffer → Option Buffer
unfolding store
write (write_cmd code size) b = store 8 code size b
write (write_ptr ptr) b = store 4 ptr 4 b
write (write_abs_ptr ptr) b = store 8 ptr 8 b
write (write_double_num value) b = store 8 value 8 b

-- The writes of a unit in order
unfoldable pub write_all : List Write → Buffer → Option Buffer
unfolding write
write_all [] b = some b
write_all (w ∷ ws) b = elim (write w b) [ none ↦ none | some b' ↦ write_all ws b' ]

-- The loop of `StartTranslation`, for the commands that are left
unfoldable pub translate_from : Doubles → ℕ → List Command → Buffer → Option Buffer
unfolding write_all translate_cmd
translate_from D x86_ip_counter [] b = some b
translate_from D x86_ip_counter (c ∷ cs) b = elim c.is_skip [
  | true ↦ translate_from D x86_ip_counter cs b
  | false ↦ elim (write_all (translate_cmd D x86_ip_counter c) b) [
    | none ↦ none
    | some b' ↦ translate_from D x86_ip_counter cs b'
  ]
]

-- What `StartTranslation` emits first: r10 points to the memory of the program, 6000 bytes above the
-- entry point.
abbrev pub prologue : List Write
prologue = write_cmd Opcodes.mov_r10 2 ∷ write_abs_ptr (0x400078 + 6000) ∷ []

-- `StartTranslation`
unfoldable pub start_translation : Doubles → ℕ → List Command → Buffer → Option Buffer
unfolding write_all translate_from
start_translation D x86_ip_counter cs b = elim (write_all prologue b) [
  | none ↦ none
  | some b' ↦ translate_from D x86_ip_counter cs b'
]

-- The part of `main` from `FillCmdIp` to `StartTranslation`
unfoldable pub translate : Doubles → List Command → Buffer → Option Buffer
unfolding fill_cmd_ip fill_jump_labels start_translation
translate D cs b =
    let filled = fill_cmd_ip cs in
    start_translation D filled.x86_ip_counter (fill_jump_labels D filled.cmds_array) b
