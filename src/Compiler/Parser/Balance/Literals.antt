-- ===== src/Compiler/Parser/Balance/Literals.antt =====
-- Literals and names keep the balance.
use bad_snap.Common.{ℕ, List}
use bad_snap.Token.{TokenType}
use bad_snap.Compiler.Symbols.{find}
use bad_snap.Compiler.Parser.{Literals}
use bad_snap.Compiler.Parser.Balance.{Keeps, Keeps-bind, Keeps-pure, Keeps-gets, Keeps-option}
use bad_snap.Compiler.Parser.Balance.Steps.{keeps_rules, Keeps-find_upval_index, Keeps-token_text}
use bad_snap.Compiler.Parser.Names.{
  emit_id_string, emit_string, load_constant, number, literal_of, literal, resolve_global,
  resolve_outer, resolve,
}

module _ {V : Type 0} (source : List ℕ) (lit : Literals V) where
  pub Keeps-emit_id_string : Keeps (emit_id_string source lit)
  unfolding emit_id_string
  Keeps-emit_id_string = search keeps_rules depth 14

  pub Keeps-emit_string : Keeps (emit_string source lit)
  unfolding emit_string
  Keeps-emit_string = search keeps_rules depth 14

  pub Keeps-load_constant : (n : ℕ) → Keeps (load_constant source lit n)
  unfolding load_constant
  Keeps-load_constant n = search keeps_rules depth 14

  pub Keeps-number : Keeps (number source lit)
  unfolding number
  Keeps-number = search keeps_rules depth 14

  pub Keeps-literal_of : (type : TokenType) → Keeps (literal_of source lit type)
  unfolding literal_of
  Keeps-literal_of TokenType.integer =
      search (keeps_rules, Keeps-load_constant, Keeps-number) depth 14
  Keeps-literal_of TokenType.float =
      search (keeps_rules, Keeps-load_constant, Keeps-number) depth 14
  Keeps-literal_of TokenType.string =
      search (keeps_rules, Keeps-emit_string, Keeps-load_constant) depth 14
  Keeps-literal_of TokenType.true_kw = search (keeps_rules, Keeps-load_constant) depth 14
  Keeps-literal_of TokenType.false_kw = search (keeps_rules, Keeps-load_constant) depth 14
  Keeps-literal_of TokenType.nil_kw = search keeps_rules depth 14
  Keeps-literal_of _ = search keeps_rules depth 14

  pub Keeps-literal : Keeps (literal source lit)
  unfolding literal
  Keeps-literal = search (keeps_rules, Keeps-literal_of) depth 14

  pub Keeps-resolve_global : Keeps (resolve_global source lit)
  unfolding resolve_global
  Keeps-resolve_global = search (keeps_rules, Keeps-emit_id_string) depth 14

  pub Keeps-resolve_outer : (name : List ℕ) → Keeps (resolve_outer source lit name)
  unfolding resolve_outer
  Keeps-resolve_outer name = Keeps-bind _ _ (Keeps-find_upval_index name) λ found.
      Keeps-bind _ _ (Keeps-gets _)
        λ t. Keeps-option found _ _ Keeps-resolve_global λ i. Keeps-pure _

  pub Keeps-resolve : Keeps (resolve source lit)
  unfolding resolve
  Keeps-resolve = Keeps-bind _ _ (Keeps-token_text source) λ name.
      Keeps-bind _ _ (Keeps-gets _)
        λ t. Keeps-option (find name t) _ _ (Keeps-resolve_outer name) λ i. Keeps-pure _
