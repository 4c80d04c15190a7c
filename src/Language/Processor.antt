-- ===== src/Language/Processor.antt =====
-- ProgrammingLanguage-main/execution/proc/proc.cpp: the processor and the operands of commands. What C++
-- leaves undefined, an access outside of an array, is `undefined`.
use best_practices.Base.{
  ℕ, zero, suc, ◌+◌, ◌*◌, Bool, true, false, ltb, ◌==◌, if◌then◌else◌, not, Option, none, some,
  List, [], ◌∷◌, bit_and,
}
use best_practices.Base.Int.{ℤ, pos, negsuc}
use best_practices.Base.Lists.{get_elem?}
use best_practices.Language.Stack.{Stack}
use best_practices.Translator.Doubles.{Doubles}
use best_practices.Translator.Parser.{signed_char}

-- The arithmetic of `double` and the functions of math.h, and whether the compiler evaluates the left
-- operand of an operator first, which C++ leaves open: parameters of the model.
pub record Host : Type 0 where
  pub doubles : Doubles
  pub less : ℕ → ℕ → Bool
  pub less_equal : ℕ → ℕ → Bool
  pub equal : ℕ → ℕ → Bool
  pub sqrt : ℕ → ℕ
  pub sin : ℕ → ℕ
  pub cos : ℕ → ℕ
  pub abs : ℕ → ℕ
  pub ceil : ℕ → ℕ
  pub left_first : Bool

-- `Commands`
pub data Instr : Type 0 where
  hlt push mul add sub div pop out dmp jmp jb jbe ja jae je jne in_cmd call ret sqr : Instr
  sin cos abs round end_cmd : Instr

-- The cases of cmds.h by their ids
abbrev pub instr_ids : List (Option Instr)
instr_ids =
    some hlt
    ∷ some push
    ∷ some mul
    ∷ some add
    ∷ some sub
    ∷ some div
    ∷ some pop
    ∷ some out
    ∷ some dmp
    ∷ some jmp
    ∷ some jb
    ∷ some jbe
    ∷ some ja
    ∷ some jae
    ∷ some je
    ∷ some jne
    ∷ some in_cmd
    ∷ some call
    ∷ some ret
    ∷ some sqr
    ∷ none
    ∷ none
    ∷ none
    ∷ some sin
    ∷ none
    ∷ some cos
    ∷ some abs
    ∷ some round
    ∷ some end_cmd
    ∷ []

-- The case that the `switch` of `ProcessCommand` takes
unfoldable pub instr_of : ℕ → Option Instr
instr_of n = elim (get_elem? instr_ids n) [ none ↦ none | some i ↦ i ]

-- `Processor`, with the stack of `Execute`, what is read and what is printed. `cmds` is the buffer of
-- `ReadCommandsFile`, of `MAX_BIN_SIZE` doubles.
pub record Processor : Type 0 where
  pub cmds_amount : ℤ
  pub cmds : ℕ → ℕ
  pub regs : ℕ → ℕ
  pub ram : ℕ → ℕ
  pub main_stack : Stack
  pub input : List ℕ
  pub output : List ℕ

abbrev pub buffer_size : ℕ
buffer_size = 8000

-- What a command does: it goes on, with `*ip`, or it ends the program.
pub data Step : Type 0 where
  goes_on : Processor → ℤ → Step
  exits : Processor → Step
  undefined : Step

-- What follows if a value is there
abbrev pub given {ℓ} : {A : Type ℓ} → Option A → (A → Step) → Step
given none f = undefined
given (some a) f = f a

-- `code[n]`, and the double there
unfoldable pub byte_at : Processor → ℕ → Option ℕ
byte_at p n = if ltb n buffer_size then some (p.cmds n) else none

unfoldable pub double_bytes : ℕ → Processor → ℕ → Option ℕ
unfolding byte_at
double_bytes zero p n = some 0
double_bytes (suc w) p n = elim (byte_at p n) [
  | none ↦ none
  | some b ↦ elim (double_bytes w p (n + 1)) [ none ↦ none | some later ↦ some (b + 256 * later) ]
]

-- Where the pointer that `GetArg` returns points to
pub data Place : Type 0 where
  nowhere : Place
  in_regs : ℕ → Place
  in_ram : ℤ → Place

-- `Regs[i]` and `Ram[i]`
abbrev pub cell_at : ℕ → (ℕ → ℕ) → ℤ → Option ℕ
cell_at n cells (pos i) = if ltb i n then some (cells i) else none
cell_at n cells (negsuc i) = none

abbrev pub set_cell : ℕ → ℕ → (ℕ → ℕ) → ℕ → ℕ
set_cell i v cells j = if j == i then v else cells j

-- Whether the first byte has the flag
abbrev pub flag : ℕ → ℕ → Bool
flag cmd mask = not (bit_and cmd mask == 0)

-- The register operand of `GetArg`: with a number it is added to it, alone it is what the pointer
-- points to.
unfoldable pub reg_arg : Host → ℕ → ℤ → ℕ → Processor → Option (Place × ℕ)
reg_arg h cmd reg_indx val p = elim (flag cmd 64) [
  | false ↦ some (nowhere, val)
  | true ↦ elim (cell_at 10 p.regs reg_indx) [
    | none ↦ none
    | some r ↦
        if flag cmd 32
        then some (nowhere, h.doubles.plus val r)
        else elim reg_indx [ pos i ↦ some (in_regs i, r) | negsuc i ↦ none ]
  ]
]

-- `GetArg`: the pointer and `*val`
unfoldable pub get_arg : Host → ℕ → ℕ → Processor → Option (Place × ℕ)
unfolding byte_at double_bytes reg_arg
get_arg h cmd ip p = elim (byte_at p (ip + 9)) [
  | none ↦ none
  | some b ↦ elim (if flag cmd 32 then double_bytes 8 p (ip + 1) else some 0) [
    | none ↦ none
    | some val ↦ elim (reg_arg h cmd (signed_char b) val p) [
      | none ↦ none
      | some (place, v) ↦ some (if flag cmd 128 then in_ram (h.doubles.to_int v) else place, v)
    ]
  ]
]
