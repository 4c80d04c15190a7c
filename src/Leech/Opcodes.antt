-- ===== src/Leech/Opcodes.antt =====
-- leechVM-master/include/common/opcodes.hh and opcodes.ii: the opcodes and their codes.
use best_practices.Base.{ℕ, zero, suc, Option, none, some, List, [], ◌∷◌}

-- `Opcodes`
pub data Opcode : Type 0 where
  pop_top rot_two rot_three dup_top dup_top_two rot_four nop unary_positive unary_negative : Opcode
  unary_not unary_invert binary_matrix_multiply inplace_matrix_multiply binary_power : Opcode
  binary_multiply binary_modulo binary_add binary_subtract binary_subscr binary_floor_divide :
      Opcode
  binary_true_divide inplace_floor_divide inplace_true_divide get_len match_mapping : Opcode
  match_sequence match_keys copy_dict_without_keys with_except_start get_aiter get_anext : Opcode
  before_async_with end_async_for inplace_add inplace_subtract inplace_multiply inplace_modulo :
      Opcode
  store_subscr delete_subscr binary_lshift binary_rshift binary_and binary_xor binary_or : Opcode
  inplace_power get_iter get_yield_from_iter print_expr load_build_class yield_from : Opcode
  get_awaitable load_assertion_error inplace_lshift inplace_rshift inplace_and inplace_xor : Opcode
  inplace_or list_to_tuple return_value import_star setup_annotations yield_value pop_block : Opcode
  pop_except have_argument store_name delete_name unpack_sequence for_iter unpack_ex store_attr :
      Opcode
  delete_attr store_global delete_global rot_n load_const load_name build_tuple build_list : Opcode
  build_set build_map load_attr compare_op import_name import_from jump_forward : Opcode
  jump_if_false_or_pop jump_if_true_or_pop jump_absolute pop_jump_if_false pop_jump_if_true : Opcode
  load_global is_op contains_op reraise jump_if_not_exc_match setup_finally load_fast store_fast :
      Opcode
  delete_fast gen_start raise_varargs call_function make_function build_slice load_closure : Opcode
  load_deref store_deref delete_deref call_function_kw call_function_ex setup_with extended_arg :
      Opcode
  list_append set_add map_add load_classderef match_class setup_async_with format_value : Opcode
  build_const_key_map build_string load_method call_method list_extend set_update dict_merge :
      Opcode
  dict_update print store_build_class instance_class register_method : Opcode

-- The underlying `uint8_t`: UNKNOWN is 0.
unfoldable pub code_of : Opcode → ℕ
code_of pop_top = 1
code_of rot_two = 2
code_of rot_three = 3
code_of dup_top = 4
code_of dup_top_two = 5
code_of rot_four = 6
code_of nop = 7
code_of unary_positive = 8
code_of unary_negative = 9
code_of unary_not = 10
code_of unary_invert = 11
code_of binary_matrix_multiply = 12
code_of inplace_matrix_multiply = 13
code_of binary_power = 14
code_of binary_multiply = 15
code_of binary_modulo = 16
code_of binary_add = 17
code_of binary_subtract = 18
code_of binary_subscr = 19
code_of binary_floor_divide = 20
code_of binary_true_divide = 21
code_of inplace_floor_divide = 22
code_of inplace_true_divide = 23
code_of get_len = 24
code_of match_mapping = 25
code_of match_sequence = 26
code_of match_keys = 27
code_of copy_dict_without_keys = 28
code_of with_except_start = 29
code_of get_aiter = 30
code_of get_anext = 31
code_of before_async_with = 32
code_of end_async_for = 33
code_of inplace_add = 34
code_of inplace_subtract = 35
code_of inplace_multiply = 36
code_of inplace_modulo = 37
code_of store_subscr = 38
code_of delete_subscr = 39
code_of binary_lshift = 40
code_of binary_rshift = 41
code_of binary_and = 42
code_of binary_xor = 43
code_of binary_or = 44
code_of inplace_power = 45
code_of get_iter = 46
code_of get_yield_from_iter = 47
code_of print_expr = 48
code_of load_build_class = 49
code_of yield_from = 50
code_of get_awaitable = 51
code_of load_assertion_error = 52
code_of inplace_lshift = 53
code_of inplace_rshift = 54
code_of inplace_and = 55
code_of inplace_xor = 56
code_of inplace_or = 57
code_of list_to_tuple = 58
code_of return_value = 59
code_of import_star = 60
code_of setup_annotations = 61
code_of yield_value = 62
code_of pop_block = 63
code_of pop_except = 64
code_of have_argument = 65
code_of store_name = 66
code_of delete_name = 67
code_of unpack_sequence = 68
code_of for_iter = 69
code_of unpack_ex = 70
code_of store_attr = 71
code_of delete_attr = 72
code_of store_global = 73
code_of delete_global = 74
code_of rot_n = 75
code_of load_const = 76
code_of load_name = 77
code_of build_tuple = 78
code_of build_list = 79
code_of build_set = 80
code_of build_map = 81
code_of load_attr = 82
code_of compare_op = 83
code_of import_name = 84
code_of import_from = 85
code_of jump_forward = 86
code_of jump_if_false_or_pop = 87
code_of jump_if_true_or_pop = 88
code_of jump_absolute = 89
code_of pop_jump_if_false = 90
code_of pop_jump_if_true = 91
code_of load_global = 92
code_of is_op = 93
code_of contains_op = 94
code_of reraise = 95
code_of jump_if_not_exc_match = 96
code_of setup_finally = 97
code_of load_fast = 98
code_of store_fast = 99
code_of delete_fast = 100
code_of gen_start = 101
code_of raise_varargs = 102
code_of call_function = 103
code_of make_function = 104
code_of build_slice = 105
code_of load_closure = 106
code_of load_deref = 107
code_of store_deref = 108
code_of delete_deref = 109
code_of call_function_kw = 110
code_of call_function_ex = 111
code_of setup_with = 112
code_of extended_arg = 113
code_of list_append = 114
code_of set_add = 115
code_of map_add = 116
code_of load_classderef = 117
code_of match_class = 118
code_of setup_async_with = 119
code_of format_value = 120
code_of build_const_key_map = 121
code_of build_string = 122
code_of load_method = 123
code_of call_method = 124
code_of list_extend = 125
code_of set_update = 126
code_of dict_merge = 127
code_of dict_update = 128
code_of print = 129
code_of store_build_class = 130
code_of instance_class = 131
code_of register_method = 132

-- The opcodes in the order of opcodes.ii.
abbrev pub all_opcodes : List Opcode
all_opcodes =
    pop_top ∷ rot_two ∷ rot_three ∷ dup_top ∷ dup_top_two ∷ rot_four ∷ nop ∷ unary_positive
    ∷ unary_negative ∷ unary_not ∷ unary_invert ∷ binary_matrix_multiply ∷ inplace_matrix_multiply
    ∷ binary_power ∷ binary_multiply ∷ binary_modulo ∷ binary_add ∷ binary_subtract ∷ binary_subscr
    ∷ binary_floor_divide ∷ binary_true_divide ∷ inplace_floor_divide ∷ inplace_true_divide
    ∷ get_len ∷ match_mapping ∷ match_sequence ∷ match_keys ∷ copy_dict_without_keys
    ∷ with_except_start ∷ get_aiter ∷ get_anext ∷ before_async_with ∷ end_async_for ∷ inplace_add
    ∷ inplace_subtract ∷ inplace_multiply ∷ inplace_modulo ∷ store_subscr ∷ delete_subscr
    ∷ binary_lshift ∷ binary_rshift ∷ binary_and ∷ binary_xor ∷ binary_or ∷ inplace_power ∷ get_iter
    ∷ get_yield_from_iter ∷ print_expr ∷ load_build_class ∷ yield_from ∷ get_awaitable
    ∷ load_assertion_error ∷ inplace_lshift ∷ inplace_rshift ∷ inplace_and ∷ inplace_xor
    ∷ inplace_or ∷ list_to_tuple ∷ return_value ∷ import_star ∷ setup_annotations ∷ yield_value
    ∷ pop_block ∷ pop_except ∷ have_argument ∷ store_name ∷ delete_name ∷ unpack_sequence ∷ for_iter
    ∷ unpack_ex ∷ store_attr ∷ delete_attr ∷ store_global ∷ delete_global ∷ rot_n ∷ load_const
    ∷ load_name ∷ build_tuple ∷ build_list ∷ build_set ∷ build_map ∷ load_attr ∷ compare_op
    ∷ import_name ∷ import_from ∷ jump_forward ∷ jump_if_false_or_pop ∷ jump_if_true_or_pop
    ∷ jump_absolute ∷ pop_jump_if_false ∷ pop_jump_if_true ∷ load_global ∷ is_op ∷ contains_op
    ∷ reraise ∷ jump_if_not_exc_match ∷ setup_finally ∷ load_fast ∷ store_fast ∷ delete_fast
    ∷ gen_start ∷ raise_varargs ∷ call_function ∷ make_function ∷ build_slice ∷ load_closure
    ∷ load_deref ∷ store_deref ∷ delete_deref ∷ call_function_kw ∷ call_function_ex ∷ setup_with
    ∷ extended_arg ∷ list_append ∷ set_add ∷ map_add ∷ load_classderef ∷ match_class
    ∷ setup_async_with ∷ format_value ∷ build_const_key_map ∷ build_string ∷ load_method
    ∷ call_method ∷ list_extend ∷ set_update ∷ dict_merge ∷ dict_update ∷ print ∷ store_build_class
    ∷ instance_class ∷ register_method ∷ []

-- The element at an index.
unfoldable pub nth {ℓ} : {A : Type ℓ} → ℕ → List A → Option A
nth n [] = none
nth zero (x ∷ xs) = some x
nth (suc n) (x ∷ xs) = nth n xs

-- The opcode of a code: those that `Instruction` has a callback for.
unfoldable pub opcode_of : ℕ → Option Opcode
unfolding nth
opcode_of zero = none
opcode_of (suc n) = nth n all_opcodes
