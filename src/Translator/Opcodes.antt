-- ===== src/Translator/Opcodes.antt =====
-- BinaryTranslator-main/include/translation.h: the x86 codes, whose bytes stand in reverse order, and
-- the masks for them. Those that no unit uses are left out.
use best_practices.Base.{ℕ}

-- `OPCODES_x86`
abbrev pub arithm_xmm0_xmm1 : ℕ
arithm_xmm0_xmm1 = 0xc1000ff2

abbrev pub mov_xmm_rsp : ℕ
mov_xmm_rsp = 0x2400100ff2

abbrev pub mov_rsp_xmm : ℕ
mov_rsp_xmm = 0x2400110ff2

abbrev pub add_rsp : ℕ
add_rsp = 0xc48348

abbrev pub mov_rdi_r10 : ℕ
mov_rdi_r10 = 0xba8b49

abbrev pub mov_r10_rdi : ℕ
mov_r10_rdi = 0xba8949

abbrev pub cvtsd2si_rsi_xmm0 : ℕ
cvtsd2si_rsi_xmm0 = 0xf02d0f48f2

abbrev pub shl_rsi : ℕ
shl_rsi = 0xe6c148

abbrev pub push_reg : ℕ
push_reg = 0x50

abbrev pub pop_reg : ℕ
pop_reg = 0x58

abbrev pub cond_jmp : ℕ
cond_jmp = 0xf

abbrev pub mov_reg_num : ℕ
mov_reg_num = 0x48

abbrev pub syscall : ℕ
syscall = 0x50fff31583c6a

abbrev pub mov_r10 : ℕ
mov_r10 = 0xba49

abbrev pub call_op : ℕ
call_op = 0xe8

abbrev pub ret_op : ℕ
ret_op = 0xc3

abbrev pub jmp_op : ℕ
jmp_op = 0xe9

abbrev pub push_rsi : ℕ
push_rsi = 0x56

abbrev pub push_rdi : ℕ
push_rdi = 0x57

abbrev pub pop_rdi : ℕ
pop_rdi = 0x5f

abbrev pub cmp_xmm0_xmm1 : ℕ
cmp_xmm0_xmm1 = 0xc12e0f66

abbrev pub push_all : ℕ
push_all = 0x505152535241

abbrev pub pop_all : ℕ
pop_all = 0x5a415b5a5958

abbrev pub mov_rbp_rsp : ℕ
mov_rbp_rsp = 0xe48949

abbrev pub mov_rsp_rbp : ℕ
mov_rsp_rbp = 0xe4894c

abbrev pub and_rsp_ff : ℕ
and_rsp_ff = 0xf0e48348

abbrev pub mov_rsi : ℕ
mov_rsi = 0xbe48

abbrev pub add_r10_rsi : ℕ
add_r10_rsi = 0xf20149

abbrev pub sub_r10_rsi : ℕ
sub_r10_rsi = 0xf22949

abbrev pub sqrtpd_xmm0_xmm0 : ℕ
sqrtpd_xmm0_xmm0 = 0xc0510f66

-- `OPCODE_MASKS`
abbrev pub add_mask : ℕ
add_mask = 0x58

abbrev pub sub_mask : ℕ
sub_mask = 0x5c

abbrev pub mul_mask : ℕ
mul_mask = 0x59

abbrev pub div_mask : ℕ
div_mask = 0x5e

abbrev pub xmm0_mask : ℕ
xmm0_mask = 0x44

abbrev pub xmm1_mask : ℕ
xmm1_mask = 0x4c

abbrev pub je_mask : ℕ
je_mask = 0x84

abbrev pub jne_mask : ℕ
jne_mask = 0x85

abbrev pub jg_mask : ℕ
jg_mask = 0x8f

abbrev pub jae_mask : ℕ
jae_mask = 0x83

abbrev pub jge_mask : ℕ
jge_mask = 0x8d

abbrev pub ja_mask : ℕ
ja_mask = 0x87

abbrev pub rax_mask : ℕ
rax_mask = 0xb8
