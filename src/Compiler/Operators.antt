-- ===== src/Compiler/Operators.antt =====
-- The opcodes of binary and compound assignment operators: src/syntax/compiler.cpp.
use bad_snap.Opcode.{Opcode, no_op}
use bad_snap.Token.{TokenType}

-- `no_op` for a token that the code takes to be impossible here.
unfoldable pub toktype_to_op : TokenType → Opcode
toktype_to_op TokenType.plus = Opcode.add
toktype_to_op TokenType.plus_eq = Opcode.add
toktype_to_op TokenType.minus = Opcode.sub
toktype_to_op TokenType.minus_eq = Opcode.sub
toktype_to_op TokenType.div = Opcode.div
toktype_to_op TokenType.div_eq = Opcode.div
toktype_to_op TokenType.mult = Opcode.mult
toktype_to_op TokenType.mult_eq = Opcode.mult
toktype_to_op TokenType.mod_tok = Opcode.mod_op
toktype_to_op TokenType.mod_eq = Opcode.mod_op
toktype_to_op TokenType.eq_eq = Opcode.eq
toktype_to_op TokenType.bang_eq = Opcode.neq
toktype_to_op TokenType.concat = Opcode.concat
toktype_to_op TokenType.bit_lshift = Opcode.lshift
toktype_to_op TokenType.bit_rshift = Opcode.rshift
toktype_to_op TokenType.bit_and = Opcode.band
toktype_to_op TokenType.bit_or = Opcode.bor
toktype_to_op TokenType.bit_xor = Opcode.bxor
toktype_to_op TokenType.gt = Opcode.gt
toktype_to_op TokenType.lt = Opcode.lt
toktype_to_op TokenType.gt_eq = Opcode.gte
toktype_to_op TokenType.lt_eq = Opcode.lte
toktype_to_op TokenType.exp = Opcode.exp
toktype_to_op _ = no_op
