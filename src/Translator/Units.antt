-- ===== src/Translator/Units.antt =====
-- BinaryTranslator-main/src/translation.cpp: the units that emit the x86 code of a command, as the
-- writes that they make in order.
pub mod Sizes
pub mod Jumps
pub mod Calls
use best_practices.Base.{
  ℕ, ◌+◌, ◌-◌, ◌*◌, ◌%◌, ◌^◌, ◌==◌, if◌then◌else◌, ◌||◌, bit_or, u32, List, [], ◌∷◌, ◌++◌,
}
use best_practices.Base.Int.{ℤ, pos}
use best_practices.Translator.Commands.{
  CommandName, hlt, push, mul, add, sub, div, pop, out, jmp, jg, jge, ja, jae, je, jne, in_cmd,
  call, ret, sqr, mov_reg_num_cmd, Command, imm, reg, ram,
}
use best_practices.Translator.Parser.{is_push}
use best_practices.Translator.Doubles.{Doubles, to_uint64}
use best_practices.Translator.Opcodes

-- The calls of `WriteCmd`, `WritePtr`, `WriteAbsPtr` and `WriteDoubleNum`
pub data Write : Type 0 where
  write_cmd : (code size : ℕ) → Write
  write_ptr write_abs_ptr write_double_num : ℕ → Write

-- `a - b` of two `uint64_t`
abbrev pub sub_uint64 : ℕ → ℕ → ℕ
sub_uint64 a b = (a + (2 ^ 64 - b)) % 2 ^ 64

-- `mask << BYTE (n)`
abbrev pub at_byte : ℕ → ℕ → ℕ
at_byte n mask = mask * 256 ^ n % 2 ^ 64

-- `a + b` of a `uint64_t` and an `int`
abbrev pub add_int : ℕ → ℤ → ℕ
unfolding to_uint64
add_int a b = (a + to_uint64 b) % 2 ^ 64

-- The moves of a double between xmm0 or xmm1 and the stack, and `add rsp, n`, as several units emit
-- them.
abbrev pub mov_xmm0_stack : Write
mov_xmm0_stack = write_cmd (bit_or Opcodes.mov_xmm_rsp (at_byte 3 Opcodes.xmm0_mask)) 6

abbrev pub mov_xmm1_stack_8 : Write
mov_xmm1_stack_8 =
    write_cmd (bit_or (bit_or Opcodes.mov_xmm_rsp (at_byte 3 Opcodes.xmm1_mask)) (at_byte 5 8)) 6

abbrev pub mov_stack_xmm0 : Write
mov_stack_xmm0 = write_cmd (bit_or Opcodes.mov_rsp_xmm (at_byte 3 Opcodes.xmm0_mask)) 6

abbrev pub add_rsp : ℕ → Write
add_rsp n = write_cmd (bit_or Opcodes.add_rsp (at_byte 3 n)) 4

-- `TranslateMovRegNum`
unfoldable pub translate_mov_reg_num : Command → List Write
unfolding add_int
translate_mov_reg_num c =
    write_cmd (bit_or Opcodes.mov_reg_num (at_byte 1 (add_int Opcodes.rax_mask c.reg_index))) 2
    ∷ write_double_num c.value
    ∷ []

-- `TranslateHlt`
unfoldable pub translate_hlt : List Write
translate_hlt = write_cmd Opcodes.syscall 7 ∷ []

-- `TranslateOut`
unfoldable pub translate_out : ℕ → Command → List Write
translate_out x86_ip_counter c =
    mov_xmm0_stack
    ∷ write_cmd Opcodes.cvtsd2si_rsi_xmm0 5
    ∷ write_cmd Opcodes.push_rsi 1
    ∷ write_cmd Opcodes.pop_reg 1
    ∷ write_cmd Opcodes.push_all 6
    ∷ write_cmd Opcodes.mov_rbp_rsp 3
    ∷ write_cmd Opcodes.and_rsp_ff 4
    ∷ write_cmd Opcodes.call_op 1
    ∷ write_ptr (u32 (sub_uint64 (sub_uint64 (sub_uint64 x86_ip_counter c.x86_ip) 27) 4))
    ∷ write_cmd Opcodes.mov_rsp_rbp 3
    ∷ write_cmd Opcodes.pop_all 6
    ∷ write_cmd Opcodes.pop_rdi 1
    ∷ []

-- `PRINTF_LEN`
abbrev pub printf_len : ℕ
printf_len = 219

-- `TranslateIn`
unfoldable pub translate_in : ℕ → Command → List Write
translate_in x86_ip_counter c =
    write_cmd Opcodes.push_all 6
    ∷ write_cmd Opcodes.call_op 1
    ∷ write_ptr
        (u32 (sub_uint64 (sub_uint64 (sub_uint64 x86_ip_counter c.x86_ip) 7) 4 + printf_len))
    ∷ write_cmd Opcodes.pop_all 6
    ∷ write_cmd Opcodes.push_rsi 1
    ∷ []

-- `TranslateSqr`
unfoldable pub translate_sqr : List Write
translate_sqr = mov_xmm0_stack ∷ write_cmd Opcodes.sqrtpd_xmm0_xmm0 4 ∷ mov_stack_xmm0 ∷ []

-- The `switch` of `TranslateBaseMath`
unfoldable pub math_code : CommandName → ℕ
math_code add = bit_or Opcodes.arithm_xmm0_xmm1 (at_byte 2 Opcodes.add_mask)
math_code mul = bit_or Opcodes.arithm_xmm0_xmm1 (at_byte 2 Opcodes.mul_mask)
math_code sub = bit_or Opcodes.arithm_xmm0_xmm1 (at_byte 2 Opcodes.sub_mask)
math_code div = bit_or Opcodes.arithm_xmm0_xmm1 (at_byte 2 Opcodes.div_mask)
math_code _ = Opcodes.arithm_xmm0_xmm1

-- `TranslateBaseMath`
unfoldable pub translate_base_math : Command → List Write
unfolding math_code
translate_base_math c =
    mov_xmm0_stack
    ∷ mov_xmm1_stack_8
    ∷ add_rsp 8
    ∷ write_cmd (math_code c.name) 4
    ∷ mov_stack_xmm0
    ∷ []

-- `RegToRsiOffset`
unfoldable pub reg_to_rsi_offset : Command → List Write
unfolding add_int
reg_to_rsi_offset c =
    write_cmd (add_int Opcodes.push_reg c.reg_index) 1
    ∷ mov_xmm0_stack
    ∷ add_rsp 8
    ∷ write_cmd Opcodes.cvtsd2si_rsi_xmm0 5
    ∷ write_cmd (bit_or Opcodes.shl_rsi (at_byte 3 3)) 4
    ∷ []

-- `(uint32_t) value * sizeof (double)`, as a `uint32_t`
unfoldable pub memory_offset_of : Doubles → Command → ℕ
memory_offset_of D c = u32 (D.to_uint32 c.value * 8 % 2 ^ 64)

-- `TranslatePushRegRam`
unfoldable pub translate_push_reg_ram : Doubles → Command → List Write
unfolding reg_to_rsi_offset memory_offset_of
translate_push_reg_ram D c =
    reg_to_rsi_offset c
    ++ (write_cmd Opcodes.add_r10_rsi 3
        ∷ write_cmd Opcodes.mov_rdi_r10 3
        ∷ write_ptr (memory_offset_of D c)
        ∷ write_cmd Opcodes.push_rdi 1
        ∷ write_cmd Opcodes.sub_r10_rsi 3
        ∷ [])

-- `TranslatePopRegRam`
unfoldable pub translate_pop_reg_ram : Doubles → Command → List Write
unfolding reg_to_rsi_offset memory_offset_of
translate_pop_reg_ram D c =
    reg_to_rsi_offset c
    ++ (write_cmd Opcodes.add_r10_rsi 3
        ∷ write_cmd Opcodes.pop_rdi 1
        ∷ write_cmd Opcodes.mov_r10_rdi 3
        ∷ write_ptr (memory_offset_of D c)
        ∷ write_cmd Opcodes.sub_r10_rsi 3
        ∷ [])

-- `TranslatePopReg`
unfoldable pub translate_pop_reg : Command → List Write
unfolding add_int
translate_pop_reg c = write_cmd (add_int Opcodes.pop_reg c.reg_index) 1 ∷ []

-- `TranslatePushReg`
unfoldable pub translate_push_reg : Command → List Write
unfolding add_int
translate_push_reg c = write_cmd (add_int Opcodes.push_reg c.reg_index) 1 ∷ []

-- `TranslatePushImm`
unfoldable pub translate_push_imm : Command → List Write
translate_push_imm c =
    write_cmd Opcodes.mov_rsi 2 ∷ write_double_num c.value ∷ write_cmd Opcodes.push_rsi 1 ∷ []

-- `TranslatePushImmRam`
unfoldable pub translate_push_imm_ram : Doubles → Command → List Write
unfolding memory_offset_of
translate_push_imm_ram D c =
    write_cmd Opcodes.mov_rdi_r10 3
    ∷ write_ptr (memory_offset_of D c)
    ∷ write_cmd Opcodes.push_rdi 1
    ∷ []

-- `TranslatePopImmRam`
unfoldable pub translate_pop_imm_ram : Doubles → Command → List Write
unfolding memory_offset_of
translate_pop_imm_ram D c =
    write_cmd Opcodes.pop_rdi 1
    ∷ write_cmd Opcodes.mov_r10_rdi 3
    ∷ write_ptr (memory_offset_of D c)
    ∷ []

-- `HandlePushPopVariation`: `TranslatePop`, for a checksum without flags, emits nothing.
unfoldable pub handle_push_pop_variation : Doubles → Command → List Write
unfolding translate_push_imm translate_push_reg translate_pop_reg translate_push_imm_ram
    translate_pop_imm_ram translate_push_reg_ram translate_pop_reg_ram is_push
handle_push_pop_variation D c =
    if c.checksum == 0
    then []
    else if c.checksum == imm
    then translate_push_imm c
    else if c.checksum == reg
    then (if is_push c.name then translate_push_reg c else translate_pop_reg c)
    else if c.checksum == imm + ram
    then (if is_push c.name then translate_push_imm_ram D c else translate_pop_imm_ram D c)
    else if (c.checksum == imm + reg + ram) || (c.checksum == reg + ram)
    then (if is_push c.name then translate_push_reg_ram D c else translate_pop_reg_ram D c)
    else []

-- `value - (x86_ip + length)`, where the bracket is a `size_t`, as a `uint32_t`
unfoldable pub rel_ptr : Doubles → Command → ℕ → ℕ
rel_ptr D c size = D.to_uint32 (D.minus c.value (D.of_int (pos (c.x86_ip + size))))

-- The `if` of `TranslateJmpCall`
unfoldable pub jmp_call_code : CommandName → ℕ
jmp_call_code call = Opcodes.call_op
jmp_call_code _ = Opcodes.jmp_op

-- `TranslateJmpCall`
unfoldable pub translate_jmp_call : Doubles → Command → List Write
unfolding jmp_call_code rel_ptr
translate_jmp_call D c = write_cmd (jmp_call_code c.name) 1 ∷ write_ptr (rel_ptr D c (1 + 4)) ∷ []

-- `TranslateRet`
unfoldable pub translate_ret : List Write
translate_ret = write_cmd Opcodes.ret_op 1 ∷ []

-- The `switch` of `TranslateConditionJmp`
unfoldable pub condition_code : CommandName → ℕ
condition_code je = bit_or Opcodes.cond_jmp (at_byte 1 Opcodes.je_mask)
condition_code jne = bit_or Opcodes.cond_jmp (at_byte 1 Opcodes.jne_mask)
condition_code jg = bit_or Opcodes.cond_jmp (at_byte 1 Opcodes.jg_mask)
condition_code jae = bit_or Opcodes.cond_jmp (at_byte 1 Opcodes.jae_mask)
condition_code jge = bit_or Opcodes.cond_jmp (at_byte 1 Opcodes.jge_mask)
condition_code ja = bit_or Opcodes.cond_jmp (at_byte 1 Opcodes.ja_mask)
condition_code _ = Opcodes.cond_jmp

-- `TranslateConditionJmp`
unfoldable pub translate_condition_jmp : Doubles → Command → List Write
unfolding condition_code rel_ptr
translate_condition_jmp D c =
    mov_xmm0_stack
    ∷ mov_xmm1_stack_8
    ∷ add_rsp 16
    ∷ write_cmd Opcodes.cmp_xmm0_xmm1 4
    ∷ write_cmd (condition_code c.name) 2
    ∷ write_ptr (rel_ptr D c (2 + 4 + 20))
    ∷ []

-- The `switch` of `StartTranslation`
unfoldable pub translate_case : Doubles → ℕ → CommandName → Command → List Write
unfolding handle_push_pop_variation translate_jmp_call translate_condition_jmp translate_base_math
    translate_sqr translate_out translate_in translate_ret translate_mov_reg_num translate_hlt
translate_case D x86_ip_counter push c = handle_push_pop_variation D c
translate_case D x86_ip_counter pop c = handle_push_pop_variation D c
translate_case D x86_ip_counter jmp c = translate_jmp_call D c
translate_case D x86_ip_counter call c = translate_jmp_call D c
translate_case D x86_ip_counter jg c = translate_condition_jmp D c
translate_case D x86_ip_counter jge c = translate_condition_jmp D c
translate_case D x86_ip_counter ja c = translate_condition_jmp D c
translate_case D x86_ip_counter jae c = translate_condition_jmp D c
translate_case D x86_ip_counter je c = translate_condition_jmp D c
translate_case D x86_ip_counter jne c = translate_condition_jmp D c
translate_case D x86_ip_counter mul c = translate_base_math c
translate_case D x86_ip_counter add c = translate_base_math c
translate_case D x86_ip_counter sub c = translate_base_math c
translate_case D x86_ip_counter div c = translate_base_math c
translate_case D x86_ip_counter sqr c = translate_sqr
translate_case D x86_ip_counter out c = translate_out x86_ip_counter c
translate_case D x86_ip_counter in_cmd c = translate_in x86_ip_counter c
translate_case D x86_ip_counter ret c = translate_ret
translate_case D x86_ip_counter mov_reg_num_cmd c = translate_mov_reg_num c
translate_case D x86_ip_counter hlt c = translate_hlt

-- One command in `StartTranslation`
unfoldable pub translate_cmd : Doubles → ℕ → Command → List Write
unfolding translate_case
translate_cmd D x86_ip_counter c = translate_case D x86_ip_counter c.name c
