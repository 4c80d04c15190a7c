-- ===== src/Leech/Stubs.antt =====
-- leechVM-master/src/executor/callbacks.cc: the callbacks that only throw "Function is not
-- implemented yet", in the order of the file.
use best_practices.Base.{Bool, true, false, ◌||◌}
use best_practices.Leech.Opcodes.{
  Opcode, rot_two, rot_three, dup_top, dup_top_two, rot_four, nop, unary_positive, unary_negative,
  unary_not, unary_invert, binary_matrix_multiply, inplace_matrix_multiply, binary_power,
  binary_multiply, binary_modulo, binary_floor_divide, inplace_floor_divide, inplace_true_divide,
  get_len, match_mapping, match_sequence, match_keys, copy_dict_without_keys, with_except_start,
  get_aiter, get_anext, before_async_with, end_async_for, inplace_add, inplace_subtract,
  inplace_multiply, inplace_modulo, store_subscr, delete_subscr, binary_lshift, binary_rshift,
  binary_and, binary_xor, binary_or, inplace_power, get_iter, get_yield_from_iter, print_expr,
  yield_from, get_awaitable, load_assertion_error, inplace_lshift, inplace_rshift, inplace_and,
  inplace_xor, inplace_or, list_to_tuple, import_star, setup_annotations, yield_value, pop_block,
  pop_except, have_argument, store_name, delete_name, unpack_sequence, for_iter, unpack_ex,
  delete_attr, store_global, delete_global, rot_n, load_name, build_tuple, build_list, build_set,
  build_map, import_name, import_from, jump_forward, jump_if_false_or_pop, jump_if_true_or_pop,
  jump_absolute, load_global, is_op, contains_op, reraise, jump_if_not_exc_match, setup_finally,
  delete_fast, gen_start, raise_varargs, make_function, build_slice, load_closure, load_deref,
  store_deref, delete_deref, call_function_kw, call_function_ex, setup_with, extended_arg,
  list_append, set_add, map_add, load_classderef, match_class, setup_async_with, format_value,
  build_const_key_map, build_string, load_method, list_extend, set_update, dict_merge, dict_update,
}

-- ROT_TWO to BINARY_MODULO
unfoldable pub is_stack_stub : Opcode → Bool
is_stack_stub rot_two = true
is_stack_stub rot_three = true
is_stack_stub dup_top = true
is_stack_stub dup_top_two = true
is_stack_stub rot_four = true
is_stack_stub nop = true
is_stack_stub unary_positive = true
is_stack_stub unary_negative = true
is_stack_stub unary_not = true
is_stack_stub unary_invert = true
is_stack_stub binary_matrix_multiply = true
is_stack_stub inplace_matrix_multiply = true
is_stack_stub binary_power = true
is_stack_stub binary_multiply = true
is_stack_stub binary_modulo = true
is_stack_stub _ = false

-- INPLACE_FLOOR_DIVIDE to LIST_TO_TUPLE, and BINARY_FLOOR_DIVIDE
unfoldable pub is_operator_stub : Opcode → Bool
is_operator_stub binary_floor_divide = true
is_operator_stub inplace_floor_divide = true
is_operator_stub inplace_true_divide = true
is_operator_stub get_len = true
is_operator_stub match_mapping = true
is_operator_stub match_sequence = true
is_operator_stub match_keys = true
is_operator_stub copy_dict_without_keys = true
is_operator_stub with_except_start = true
is_operator_stub get_aiter = true
is_operator_stub get_anext = true
is_operator_stub before_async_with = true
is_operator_stub end_async_for = true
is_operator_stub inplace_add = true
is_operator_stub inplace_subtract = true
is_operator_stub inplace_multiply = true
is_operator_stub inplace_modulo = true
is_operator_stub store_subscr = true
is_operator_stub delete_subscr = true
is_operator_stub binary_lshift = true
is_operator_stub binary_rshift = true
is_operator_stub binary_and = true
is_operator_stub binary_xor = true
is_operator_stub binary_or = true
is_operator_stub inplace_power = true
is_operator_stub get_iter = true
is_operator_stub get_yield_from_iter = true
is_operator_stub print_expr = true
is_operator_stub yield_from = true
is_operator_stub get_awaitable = true
is_operator_stub load_assertion_error = true
is_operator_stub inplace_lshift = true
is_operator_stub inplace_rshift = true
is_operator_stub inplace_and = true
is_operator_stub inplace_xor = true
is_operator_stub inplace_or = true
is_operator_stub list_to_tuple = true
is_operator_stub _ = false

-- IMPORT_STAR to ROT_N
unfoldable pub is_name_stub : Opcode → Bool
is_name_stub import_star = true
is_name_stub setup_annotations = true
is_name_stub yield_value = true
is_name_stub pop_block = true
is_name_stub pop_except = true
is_name_stub have_argument = true
is_name_stub store_name = true
is_name_stub delete_name = true
is_name_stub unpack_sequence = true
is_name_stub for_iter = true
is_name_stub unpack_ex = true
is_name_stub delete_attr = true
is_name_stub store_global = true
is_name_stub delete_global = true
is_name_stub rot_n = true
is_name_stub _ = false

-- LOAD_NAME to BUILD_MAP
unfoldable pub is_build_stub : Opcode → Bool
is_build_stub load_name = true
is_build_stub build_tuple = true
is_build_stub build_list = true
is_build_stub build_set = true
is_build_stub build_map = true
is_build_stub _ = false

-- IMPORT_NAME to JUMP_ABSOLUTE
unfoldable pub is_jump_stub : Opcode → Bool
is_jump_stub import_name = true
is_jump_stub import_from = true
is_jump_stub jump_forward = true
is_jump_stub jump_if_false_or_pop = true
is_jump_stub jump_if_true_or_pop = true
is_jump_stub jump_absolute = true
is_jump_stub _ = false

-- LOAD_GLOBAL to SETUP_FINALLY
unfoldable pub is_test_stub : Opcode → Bool
is_test_stub load_global = true
is_test_stub is_op = true
is_test_stub contains_op = true
is_test_stub reraise = true
is_test_stub jump_if_not_exc_match = true
is_test_stub setup_finally = true
is_test_stub _ = false

-- DELETE_FAST to RAISE_VARARGS
unfoldable pub is_local_stub : Opcode → Bool
is_local_stub delete_fast = true
is_local_stub gen_start = true
is_local_stub raise_varargs = true
is_local_stub _ = false

-- MAKE_FUNCTION to DICT_UPDATE
unfoldable pub is_closure_stub : Opcode → Bool
is_closure_stub make_function = true
is_closure_stub build_slice = true
is_closure_stub load_closure = true
is_closure_stub load_deref = true
is_closure_stub store_deref = true
is_closure_stub delete_deref = true
is_closure_stub call_function_kw = true
is_closure_stub call_function_ex = true
is_closure_stub setup_with = true
is_closure_stub extended_arg = true
is_closure_stub list_append = true
is_closure_stub set_add = true
is_closure_stub map_add = true
is_closure_stub load_classderef = true
is_closure_stub match_class = true
is_closure_stub setup_async_with = true
is_closure_stub format_value = true
is_closure_stub build_const_key_map = true
is_closure_stub build_string = true
is_closure_stub load_method = true
is_closure_stub list_extend = true
is_closure_stub set_update = true
is_closure_stub dict_merge = true
is_closure_stub dict_update = true
is_closure_stub _ = false

-- A callback that only throws.
unfoldable pub is_stub : Opcode → Bool
unfolding is_stack_stub is_operator_stub is_name_stub is_build_stub is_jump_stub is_test_stub
    is_local_stub is_closure_stub
is_stub op =
    is_stack_stub op
    || is_operator_stub op
    || is_name_stub op
    || is_build_stub op
    || is_jump_stub op
    || is_test_stub op
    || is_local_stub op
    || is_closure_stub op
