-- ===== src/Compiler/Arity.antt =====
-- The operands that `op_arity` counts at `make_func`: src/syntax/compiler.cpp.
use bad_snap.Common.{
  ℕ, ◌+◌, ◌*◌, ◌≡◌, ◌≢◌, refl, sym, ◌∙◌, List, [], ◌∷◌, ◌++◌, arith, length, get_or,
}
use bad_snap.Compiler.Emit.{op_arity}
use bad_snap.Opcode.{Opcode, op_num, make_func}

-- An instruction as the compiler emits it: an opcode with its operand bytes.
pub record Instr : Type 0 where
  pub op : Opcode
  pub operands : List ℕ

abbrev pub bytes : Instr → List ℕ
bytes i = op_num i.op ∷ i.operands

first_byte :
    (pre post : List ℕ) (op : Opcode) (operands : List ℕ)
    → get_or (pre ++ (op_num op ∷ operands) ++ post) (length pre) 0 ≡ op_num op
first_byte [] post op operands = refl
first_byte (y ∷ pre) post op operands = first_byte pre post op operands

make_func_arity :
    (code : List ℕ) (i : ℕ)
    → get_or code i 0 ≡ op_num make_func
    → op_arity code i ≡ 1 + get_or code (i + 1) 0 * 2
unfolding op_arity op_num
make_func_arity code i h = rw h

-- At `make_func`, `op_arity` never counts the operands: the instruction has the index of a constant, the number of upvalues
-- and two bytes for each of them, an even number of operands, and `op_arity` counts an odd one, since
-- it takes the constant's index for the number of upvalues.
pub op_arity-make_func :
    (pre post operands : List ℕ) (n_upvals : ℕ)
    → length operands ≡ 2 + 2 * n_upvals
    → op_arity (pre ++ bytes (record { op = make_func; operands = operands }) ++ post) (length pre)
      ≢ length operands
op_arity-make_func pre post operands n_upvals h e =
    let code = pre ++ (op_num make_func ∷ operands) ++ post in
    let c = get_or code (length pre + 1) 0 in
    let odd : 1 + c * 2 ≡ length operands =
      sym (make_func_arity code (length pre) (first_byte pre post make_func operands)) ∙ e in
    omega arith
