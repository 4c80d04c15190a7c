-- ===== src/Language/Commands.antt =====
-- ProgrammingLanguage-main/execution/general_includes/codegen/cmds.h: the commands of the processor.
use best_practices.Base.{
  ℕ, ◌+◌, Bool, ltb, leb, ◌&&◌, if◌then◌else◌, not, Option, none, some, [], ◌∷◌, ◌++◌,
}
use best_practices.Base.Int.{ℤ, pos, negsuc}
use best_practices.Language.Stack.{stack_push, stack_pop}
use best_practices.Language.Processor.{
  Host, Instr, Place, Processor, Step, cell_at, double_bytes, get_arg, given, set_cell, goes_on,
  exits, undefined, buffer_size, nowhere, in_regs, in_ram,
}
use best_practices.Language.Processor.{
  hlt, push, mul, add, sub, div, pop, out, dmp, jmp, jb, jbe, ja, jae, je, jne, in_cmd, call, ret,
  sqr, sin, cos, abs, round, end_cmd,
}

-- A push of a value on the stack, and the command that follows
unfoldable pub push_value : ℕ → Processor → ℤ → Step
unfolding stack_push
push_value v p ip = given (stack_push v p.main_stack) λ s. goes_on (record p { main_stack = s }) ip

-- What is popped, and the processor with the rest
unfoldable pub pop_value : Processor → Option (ℕ × Processor)
unfolding stack_pop
pop_value p = elim (stack_pop p.main_stack) [
  | none ↦ none
  | some (v, s) ↦ some (v, record p { main_stack = s })
]

-- Two pops that are the operands of an operator: the left one, the right one
unfoldable pub pop_operands : Host → Processor → Option (ℕ × ℕ × Processor)
unfolding pop_value
pop_operands h p = elim (pop_value p) [
  | none ↦ none
  | some (x, p1) ↦ elim (pop_value p1) [
    | none ↦ none
    | some (y, p2) ↦ some (if h.left_first then (x, y, p2) else (y, x, p2))
  ]
]

-- The value of a place, and the processor with a value put there
unfoldable pub read_place : Place → ℕ → Processor → Option ℕ
read_place nowhere v p = some v
read_place (in_regs i) v p = cell_at 10 p.regs (pos i)
read_place (in_ram i) v p = cell_at 3000 p.ram i

unfoldable pub write_place : Place → ℕ → Processor → Option Processor
write_place nowhere v p = some p
write_place (in_regs i) v p = some (record p { regs = set_cell i v p.regs })
write_place (in_ram (pos i)) v p =
    if ltb i 3000 then some (record p { ram = set_cell i v p.ram }) else none
write_place (in_ram (negsuc i)) v p = none

-- `LABLE_POS`
unfoldable pub label_pos : Host → ℕ → Processor → Option ℤ
unfolding double_bytes
label_pos h ip p = elim (double_bytes 8 p (ip + 1)) [
  | none ↦ none
  | some v ↦ some (h.doubles.to_int (h.doubles.minus v (h.doubles.of_int (pos 1))))
]

-- The commands `push` and `pop`: `pop` without a place does not touch the stack.
unfoldable pub do_push : Host → ℕ → ℕ → Processor → Step
unfolding get_arg read_place push_value
do_push h cmd ip p =
    given (get_arg h cmd ip p)
      λ arg. given (read_place arg.0 arg.1 p) λ v. push_value v p (pos (ip + 9))

unfoldable pub do_pop : Host → ℕ → ℕ → Processor → Step
unfolding get_arg pop_value write_place
do_pop h cmd ip p = given (get_arg h cmd ip p) λ arg. elim arg.0 [
  | nowhere ↦ goes_on p (pos (ip + 9))
  | place ↦
      given (pop_value p)
        λ popped. given (write_place place popped.0 popped.1) λ p'. goes_on p' (pos (ip + 9))
]

-- An operator on two values, and a function of one
unfoldable pub do_operator : Host → (ℕ → ℕ → ℕ) → ℕ → Processor → Step
unfolding pop_operands push_value
do_operator h f ip p =
    given (pop_operands h p) λ popped. push_value (f popped.0 popped.1) popped.2 (pos ip)

unfoldable pub do_function : (ℕ → ℕ) → ℕ → Processor → Step
unfolding pop_value push_value
do_function f ip p = given (pop_value p) λ popped. push_value (f popped.0) popped.1 (pos ip)

unfoldable pub do_jump : Host → ℕ → Processor → Step
unfolding label_pos
do_jump h ip p = given (label_pos h ip p) λ label. goes_on p label

-- A jump on a comparison of two values
unfoldable pub do_condition : Host → (ℕ → ℕ → Bool) → ℕ → Processor → Step
unfolding pop_operands do_jump
do_condition h test ip p = given (pop_operands h p) λ popped.
    if test popped.0 popped.1 then do_jump h ip popped.2 else goes_on popped.2 (pos (ip + 9))

-- `ret`: the program ends when the stack is empty.
unfoldable pub do_ret : Host → Processor → Step
unfolding pop_value
do_ret h p = elim p.main_stack.elems [
  | [] ↦ exits p
  | v ∷ rest ↦ given (pop_value p) λ popped. goes_on popped.1 (h.doubles.to_int popped.0)
]

unfoldable pub do_call : Host → ℕ → Processor → Step
unfolding label_pos stack_push
do_call h ip p =
    given (stack_push (h.doubles.of_int (pos (ip + 9))) p.main_stack)
      λ s. given (label_pos h ip p) λ label. goes_on (record p { main_stack = s }) label

-- `in` takes the next number that is read.
unfoldable pub do_in : ℕ → Processor → Step
unfolding push_value
do_in ip p = elim p.input [
  | [] ↦ undefined
  | v ∷ later ↦ push_value v (record p { input = later }) (pos ip)
]

unfoldable pub do_out : ℕ → Processor → Step
unfolding pop_value
do_out ip p =
    given (pop_value p) λ popped.
      goes_on (record (popped.1) { output = (popped.1).output ++ (popped.0 ∷ []) }) (pos ip)

-- The commands of cmds.h. `dmp` only prints; among what it prints are the bytes from five before `ip` to
-- fifteen behind it.
unfoldable pub execute_instr : Host → Instr → ℕ → ℕ → Processor → Step
unfolding do_push do_pop do_operator do_function do_jump do_condition do_ret do_call do_in do_out
execute_instr h hlt cmd ip p = exits p
execute_instr h push cmd ip p = do_push h cmd ip p
execute_instr h pop cmd ip p = do_pop h cmd ip p
execute_instr h mul cmd ip p = do_operator h h.doubles.times ip p
execute_instr h add cmd ip p = do_operator h h.doubles.plus ip p
execute_instr h sub cmd ip p = do_operator h h.doubles.minus ip p
execute_instr h div cmd ip p = do_operator h h.doubles.over ip p
execute_instr h out cmd ip p = do_out ip p
execute_instr h dmp cmd ip p =
    if leb 5 ip && ltb (ip + 15) buffer_size then goes_on p (pos ip) else undefined
execute_instr h jmp cmd ip p = do_jump h ip p
execute_instr h jb cmd ip p = do_condition h h.less ip p
execute_instr h jbe cmd ip p = do_condition h h.less_equal ip p
execute_instr h ja cmd ip p = do_condition h (λ a b. h.less b a) ip p
execute_instr h jae cmd ip p = do_condition h (λ a b. h.less_equal b a) ip p
execute_instr h je cmd ip p = do_condition h h.equal ip p
execute_instr h jne cmd ip p = do_condition h (λ a b. not (h.equal a b)) ip p
execute_instr h in_cmd cmd ip p = do_in ip p
execute_instr h call cmd ip p = do_call h ip p
execute_instr h ret cmd ip p = do_ret h p
execute_instr h sqr cmd ip p = do_function h.sqrt ip p
execute_instr h sin cmd ip p = do_function h.sin ip p
execute_instr h cos cmd ip p = do_function h.cos ip p
execute_instr h abs cmd ip p = do_function h.abs ip p
execute_instr h round cmd ip p = do_function h.ceil ip p
execute_instr h end_cmd cmd ip p = goes_on p (pos ip)
