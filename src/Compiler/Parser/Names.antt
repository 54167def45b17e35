-- ===== src/Compiler/Parser/Names.antt =====
-- Literals and names in expressions: `literal`, `variable` and the functions that emit constants, of
-- src/syntax/compiler.cpp.
use bad_snap.Common.{
  ℕ, ◌-◌, ◌%◌, Bool, true, false, none, some, List, take, drop, if◌then◌else◌, length, ltb,
}
use bad_snap.Opcode.{Opcode}
use bad_snap.Token.{TokenType}
use bad_snap.Compiler.Emit.{error, emit_value, emit, emit_with_arg}
use bad_snap.Compiler.Symbols.{find, symbol_is_const, upval_is_const}
use bad_snap.Compiler.Parser.{
  Literals, P, ◌>>=◌, ◌>>◌, pure, gets, or_fault, or_throw, edit, with_index, token_type, advance,
  token_text, find_upval_index, unescape,
}

module _ {V : Type 0} (source : List ℕ) (lit : Literals V) where
  unfoldable pub emit_id_string : P V ℕ
  emit_id_string = do name ← token_text source; with_index (emit_value (lit.string name))

  unfoldable pub emit_string : P V ℕ
  emit_string = do
    text ← token_text source
    bytes ← or_fault (unescape (take (length text - 2) (drop 1 text)))
    with_index (emit_value (lit.string bytes))

  unfoldable pub load_constant : ℕ → P V (Unit {0})
  load_constant index = do
    if ltb 255 index then edit error else pure tt
    edit (emit_with_arg Opcode.load_const (index % 256))

  unfoldable pub number : P V ℕ
  number = do
    text ← token_text source
    value ← or_throw (lit.stod text)
    with_index (emit_value value)

  -- The cases of `literal`; any other type is impossible there.
  unfoldable pub literal_of : TokenType → P V (Unit {0})
  literal_of TokenType.integer = number >>= load_constant
  literal_of TokenType.float = number >>= load_constant
  literal_of TokenType.string = emit_string >>= load_constant
  literal_of TokenType.true_kw = with_index (emit_value (lit.boolean true)) >>= load_constant
  literal_of TokenType.false_kw = with_index (emit_value (lit.boolean false)) >>= load_constant
  literal_of TokenType.nil_kw = edit (emit Opcode.load_nil)
  literal_of _ = or_fault none

  unfoldable pub literal : P V (Unit {0})
  literal = advance source >> token_type >>= literal_of

  -- Where a name stands: the instructions that read and write it, with their operand, and whether
  -- it is `const`.
  unfoldable pub resolve_global : P V (Opcode × Opcode × ℕ × Bool)
  resolve_global = do
    index ← emit_id_string
    pure (Opcode.get_global, Opcode.set_global, index, false)

  unfoldable pub resolve_outer : List ℕ → P V (Opcode × Opcode × ℕ × Bool)
  resolve_outer name = do
    found ← find_upval_index name
    t ← gets λ s. s.self.symtable
    elim found [
      | none ↦ resolve_global
      | some index ↦ pure (Opcode.get_upval, Opcode.set_upval, index, upval_is_const t index)
    ]

  unfoldable pub resolve : P V (Opcode × Opcode × ℕ × Bool)
  resolve = do
    name ← token_text source
    t ← gets λ s. s.self.symtable
    elim (find name t) [
      | none ↦ resolve_outer name
      | some index ↦ pure (Opcode.get_var, Opcode.set_var, index, symbol_is_const t (index % 256))
    ]
