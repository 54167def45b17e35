-- ===== src/Opcode.antt =====
-- Opcodes: include/opcode.hpp and include/x_opcode.hpp.
use bad_snap.Common.{ℕ, ◌≡◌, refl, Bool, ◌&&◌, Option, some, List, [], ◌∷◌, leb, get_elem?}
use bad_snap.Common.Int.{ℤ, pos, negsuc}

pub data Opcode : Type 0 where
  load_const get_global set_global table_get table_set table_get_no_pop set_var : Opcode
  get_var set_upval get_upval make_func prep_method_call call_func pop : Opcode
  add concat sub mult mod_op div exp : Opcode
  eq neq lshift rshift band bxor bor : Opcode
  gt lt gte lte list_append negate len : Opcode
  bnot lnot load_nil close_upval return_val new_table new_list : Opcode
  subscript_set table_add_field subscript_get index_no_pop jmp jmp_back jmp_if_false_or_pop : Opcode
  jmp_if_true_or_pop pop_jmp_if_false for_prep for_loop no_op : Opcode

-- The byte of an opcode.
unfoldable pub op_num : Opcode → ℕ
op_num load_const = 0
op_num get_global = 1
op_num set_global = 2
op_num table_get = 3
op_num table_set = 4
op_num table_get_no_pop = 5
op_num set_var = 6
op_num get_var = 7
op_num set_upval = 8
op_num get_upval = 9
op_num make_func = 10
op_num prep_method_call = 11
op_num call_func = 12
op_num pop = 13
op_num add = 14
op_num concat = 15
op_num sub = 16
op_num mult = 17
op_num mod_op = 18
op_num div = 19
op_num exp = 20
op_num eq = 21
op_num neq = 22
op_num lshift = 23
op_num rshift = 24
op_num band = 25
op_num bxor = 26
op_num bor = 27
op_num gt = 28
op_num lt = 29
op_num gte = 30
op_num lte = 31
op_num list_append = 32
op_num negate = 33
op_num len = 34
op_num bnot = 35
op_num lnot = 36
op_num load_nil = 37
op_num close_upval = 38
op_num return_val = 39
op_num new_table = 40
op_num new_list = 41
op_num subscript_set = 42
op_num table_add_field = 43
op_num subscript_get = 44
op_num index_no_pop = 45
op_num jmp = 46
op_num jmp_back = 47
op_num jmp_if_false_or_pop = 48
op_num jmp_if_true_or_pop = 49
op_num pop_jmp_if_false = 50
op_num for_prep = 51
op_num for_loop = 52
op_num no_op = 53

-- The third column of the table in x_opcode.hpp.
unfoldable pub op_stack_effect : Opcode → ℤ
op_stack_effect load_const = pos 1
op_stack_effect get_global = pos 1
op_stack_effect set_global = negsuc 0
op_stack_effect table_get = pos 0
op_stack_effect table_set = negsuc 0
op_stack_effect table_get_no_pop = pos 1
op_stack_effect set_var = negsuc 0
op_stack_effect get_var = pos 1
op_stack_effect set_upval = negsuc 0
op_stack_effect get_upval = pos 1
op_stack_effect make_func = pos 1
op_stack_effect prep_method_call = pos 1
op_stack_effect call_func = pos 0
op_stack_effect pop = negsuc 0
op_stack_effect add = negsuc 0
op_stack_effect concat = negsuc 0
op_stack_effect sub = negsuc 0
op_stack_effect mult = negsuc 0
op_stack_effect mod_op = negsuc 0
op_stack_effect div = negsuc 0
op_stack_effect exp = negsuc 0
op_stack_effect eq = negsuc 0
op_stack_effect neq = negsuc 0
op_stack_effect lshift = negsuc 0
op_stack_effect rshift = negsuc 0
op_stack_effect band = negsuc 0
op_stack_effect bxor = negsuc 0
op_stack_effect bor = negsuc 0
op_stack_effect gt = negsuc 0
op_stack_effect lt = negsuc 0
op_stack_effect gte = negsuc 0
op_stack_effect lte = negsuc 0
op_stack_effect list_append = negsuc 0
op_stack_effect negate = pos 0
op_stack_effect len = pos 0
op_stack_effect bnot = pos 0
op_stack_effect lnot = pos 0
op_stack_effect load_nil = pos 1
op_stack_effect close_upval = negsuc 0
op_stack_effect return_val = pos 0
op_stack_effect new_table = pos 1
op_stack_effect new_list = pos 1
op_stack_effect subscript_set = negsuc 1
op_stack_effect table_add_field = negsuc 1
op_stack_effect subscript_get = negsuc 0
op_stack_effect index_no_pop = pos 1
op_stack_effect jmp = pos 0
op_stack_effect jmp_back = pos 0
op_stack_effect jmp_if_false_or_pop = pos 0
op_stack_effect jmp_if_true_or_pop = pos 0
op_stack_effect pop_jmp_if_false = negsuc 0
op_stack_effect for_prep = pos 1
op_stack_effect for_loop = pos 0
op_stack_effect no_op = pos 0

-- `CHECK_ARITY`: a byte within two bounds.
abbrev pub between : Opcode → Opcode → ℕ → Bool
between lo hi op = leb (op_num lo) op && leb op (op_num hi)

-- The opcodes in the order of their numbers.
abbrev opcodes : List Opcode
opcodes =
    load_const ∷ get_global ∷ set_global ∷ table_get ∷ table_set ∷ table_get_no_pop ∷ set_var
    ∷ get_var ∷ set_upval ∷ get_upval ∷ make_func ∷ prep_method_call ∷ call_func ∷ pop ∷ add
    ∷ concat ∷ sub ∷ mult ∷ mod_op ∷ div ∷ exp ∷ eq ∷ neq ∷ lshift ∷ rshift ∷ band ∷ bxor ∷ bor ∷ gt
    ∷ lt ∷ gte ∷ lte ∷ list_append ∷ negate ∷ len ∷ bnot ∷ lnot ∷ load_nil ∷ close_upval
    ∷ return_val ∷ new_table ∷ new_list ∷ subscript_set ∷ table_add_field ∷ subscript_get
    ∷ index_no_pop ∷ jmp ∷ jmp_back ∷ jmp_if_false_or_pop ∷ jmp_if_true_or_pop ∷ pop_jmp_if_false
    ∷ for_prep ∷ for_loop ∷ no_op ∷ []

-- The opcode of a byte, as the `switch` of `run` reads it; other bytes have none.
unfoldable pub decode : ℕ → Option Opcode
decode byte = get_elem? opcodes byte

-- Every opcode is read back from its byte, and no other byte gives one.
pub decode-op_num : (op : Opcode) → decode (op_num op) ≡ some op
unfolding decode op_num
decode-op_num load_const = refl
decode-op_num get_global = refl
decode-op_num set_global = refl
decode-op_num table_get = refl
decode-op_num table_set = refl
decode-op_num table_get_no_pop = refl
decode-op_num set_var = refl
decode-op_num get_var = refl
decode-op_num set_upval = refl
decode-op_num get_upval = refl
decode-op_num make_func = refl
decode-op_num prep_method_call = refl
decode-op_num call_func = refl
decode-op_num pop = refl
decode-op_num add = refl
decode-op_num concat = refl
decode-op_num sub = refl
decode-op_num mult = refl
decode-op_num mod_op = refl
decode-op_num div = refl
decode-op_num exp = refl
decode-op_num eq = refl
decode-op_num neq = refl
decode-op_num lshift = refl
decode-op_num rshift = refl
decode-op_num band = refl
decode-op_num bxor = refl
decode-op_num bor = refl
decode-op_num gt = refl
decode-op_num lt = refl
decode-op_num gte = refl
decode-op_num lte = refl
decode-op_num list_append = refl
decode-op_num negate = refl
decode-op_num len = refl
decode-op_num bnot = refl
decode-op_num lnot = refl
decode-op_num load_nil = refl
decode-op_num close_upval = refl
decode-op_num return_val = refl
decode-op_num new_table = refl
decode-op_num new_list = refl
decode-op_num subscript_set = refl
decode-op_num table_add_field = refl
decode-op_num subscript_get = refl
decode-op_num index_no_pop = refl
decode-op_num jmp = refl
decode-op_num jmp_back = refl
decode-op_num jmp_if_false_or_pop = refl
decode-op_num jmp_if_true_or_pop = refl
decode-op_num pop_jmp_if_false = refl
decode-op_num for_prep = refl
decode-op_num for_loop = refl
decode-op_num no_op = refl
