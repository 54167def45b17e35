-- ===== src/Compiler/Parser.antt =====
-- The state of the parser and its steps: `Compiler` of include/compiler.hpp, and the token and
-- variable functions of src/syntax/compiler.cpp. The source has one object for each function that is
-- being compiled, and the tokens pass from one to the next; here they stand once, beside the chain.
-- What an action gives back is its value with the state, an exception of the scanner or of
-- `std::stod`, or a fault (a failed assertion, or a write past an array).
pub mod Functions
pub mod Names
pub mod Suffixes
pub mod Levels
pub mod Loops
pub mod Targets
pub mod Statements
pub mod Grammar
pub mod Growth
pub mod Balance
pub mod Progress
use bad_snap.Common.{
  ℕ, zero, suc, ◌+◌, ◌-◌, Bool, true, false, not, ◌&&◌, Option, none, some, List, [], ◌∷◌, ◌++◌,
  map, take, drop, codes, if◌then◌else◌, length, ◌==◌,
}
use bad_snap.Common.Int.{pos}
use bad_snap.Scanner.{next_token}
use bad_snap.Scanner.Cursor
use bad_snap.Scanner.Cursor.{Scanner, new_scanner}
use bad_snap.Token.{TokenType, Token, same_type, raw}
use bad_snap.Compiler.Emit.{Emitter, Loop, error, emit_value}
use bad_snap.Compiler.Symbols
use bad_snap.Compiler.Symbols.{LocalVar, SymbolTable, add, find, find_upvalue, symbol_is_const}

-- How constants are made: a number from its text, where `none` says that `std::stod` throws, and the
-- objects that the machine makes, a string from its bytes and a code block from its place among those
-- that are finished.
pub record Literals (V : Type 0) : Type 0 where
  pub stod : List ℕ → Option V
  pub one : V
  pub string : List ℕ → V
  pub boolean : Bool → V
  pub codeblock : ℕ → V

-- What a `Compiler` has for itself, with the block that it fills; `loops` is `m_loop` with those
-- around it.
pub record Function (V : Type 0) : Type 0 where
  pub emitter : Emitter V
  pub symtable : SymbolTable
  pub loops : List Loop
  pub num_params : ℕ
  pub is_variadic : Bool

-- `self` is the innermost compiler, `parents` are those around it, and `finished` the functions
-- that are compiled.
pub record Parser (V : Type 0) : Type 0 where
  pub scanner : Scanner
  pub prev : Token
  pub token : Token
  pub peek : Token
  pub self : Function V
  pub parents : List (Function V)
  pub finished : List (Function V)

pub data Parsed (V A : Type 0) : Type 0 where
  ok : A → Parser V → Parsed V A
  thrown fault no_fuel : Parsed V A

abbrev pub P : Type 0 → Type 0 → Type 0
P V A = Parser V → Parsed V A

unfoldable pub pure : {V A : Type 0} → A → P V A
pure a s = ok a s

infixl 5 ◌>>=◌ ◌>>◌
unfoldable pub ◌>>=◌ : {V A B : Type 0} → P V A → (A → P V B) → P V B
unfolding pure
◌>>=◌ m f s = elim (m s) [ ok a s' ↦ f a s' | thrown ↦ thrown | fault ↦ fault | no_fuel ↦ no_fuel ]

abbrev pub ◌>>◌ : {V B : Type 0} → P V (Unit {0}) → P V B → P V B
m >> n = m >>= λ _. n

module _ {V : Type 0} where
  unfoldable pub gets : {A : Type 0} → (Parser V → A) → P V A
  gets f s = ok (f s) s

  unfoldable pub or_fault : {A : Type 0} → Option A → P V A
  or_fault none s = fault
  or_fault (some a) s = ok a s

  unfoldable pub or_throw : {A : Type 0} → Option A → P V A
  or_throw none s = thrown
  or_throw (some a) s = ok a s

  abbrev pub out_of_fuel : {A : Type 0} → P V A
  out_of_fuel s = no_fuel

  -- A step of the block that the innermost compiler fills, at the line of the current token.
  abbrev pub at_line : Parser V → Emitter V
  at_line s = record s.self.emitter { line = s.token.line }

  abbrev pub with_emitter : Emitter V → Parser V → Parser V
  with_emitter b s = record s { self = record s.self { emitter = b } }

  unfoldable pub edit : (Emitter V → Emitter V) → P V (Unit {0})
  edit f s = ok tt (with_emitter (f (at_line s)) s)

  unfoldable pub with_index : (Emitter V → ℕ × Emitter V) → P V ℕ
  with_index f s = let (i, b) = f (at_line s) in ok i (with_emitter b s)

  -- A step of the symbol table of the innermost compiler; `none` is a write past one of its arrays.
  unfoldable pub on_symtable : {A : Type 0} → (SymbolTable → Option (A × SymbolTable)) → P V A
  on_symtable f s = elim (f s.self.symtable) [
    | none ↦ fault
    | some (a, t) ↦ ok a (record s { self = record s.self { symtable = t } })
  ]

  unfoldable pub set_loops : List Loop → P V (Unit {0})
  set_loops loops s = ok tt (record s { self = record s.self { loops = loops } })

  abbrev pub peek_type : P V TokenType
  peek_type = gets λ s. s.peek.type

  abbrev pub token_type : P V TokenType
  token_type = gets λ s. s.token.type

  -- `eof`, `check` and `test`
  abbrev pub at_eof : Parser V → Bool
  at_eof s = same_type s.peek.type TokenType.eof_tok

  abbrev pub is_next : TokenType → Parser V → Bool
  is_next expected s = not (at_eof s) && same_type s.peek.type expected

  unfoldable pub check_token : TokenType → P V Bool
  unfolding gets
  check_token expected = gets (is_next expected)

  unfoldable pub test : TokenType → P V (Unit {0})
  unfolding check_token
  test expected = do found ← check_token expected; if found then pure tt else edit error

  unfoldable pub tables : List (Function V) → List SymbolTable
  tables fs = map (λ f. f.symtable) fs

  unfoldable pub with_tables : List (Function V) → List SymbolTable → List (Function V)
  with_tables (f ∷ fs) (t ∷ ts) = record f { symtable = t } ∷ with_tables fs ts
  with_tables fs _ = fs

  -- `new_variable`: a name that the scope has already is an error.
  unfoldable pub declare : List ℕ → Bool → P V (Unit {0})
  declare name is_const = do
    index ← on_symtable (Symbols.new_variable name is_const)
    elim index [ none ↦ edit error | some i ↦ pure tt ]

  -- `find_upvalue`, which may mark a symbol of an enclosing function and add upvalues to it.
  unfoldable pub find_upval_index : List ℕ → P V (Option ℕ)
  find_upval_index name s = elim (find_upvalue name s.self.symtable (tables s.parents)) [
    | none ↦ fault
    | some (index, t, ts) ↦
        ok index
          (record s { self = record s.self { symtable = t }; parents = with_tables s.parents ts })
  ]

module _ {V : Type 0} (source : List ℕ) where
  unfoldable pub advance : P V (Unit {0})
  advance s = elim (next_token source s.scanner) [
    | Cursor.ok (t, scanner) ↦
        ok tt (record s { prev = s.token; token = s.peek; peek = t; scanner = scanner })
    | Cursor.out_of_range ↦ thrown
    | Cursor.no_fuel ↦ no_fuel
  ]

  unfoldable pub match_token : TokenType → P V Bool
  match_token expected = do
    found ← check_token expected
    if found then advance >> pure true else pure false

  unfoldable pub expect : TokenType → P V (Unit {0})
  expect expected = do found ← check_token expected; if found then advance else edit error

  -- The text of the current token.
  unfoldable pub token_text : P V (List ℕ)
  token_text = gets λ s. raw source s.token

-- The byte that an escape stands for.
unfoldable pub escape : ℕ → ℕ
escape c =
    if c == b'n'
    then 10
    else if c == b't'
    then 9
    else if c == b'r'
    then 13
    else if c == b'b'
    then 8
    else if c == b'v'
    then 11
    else c

abbrev pub backslash : ℕ
backslash = 92

abbrev then_bytes : ℕ → Option (List ℕ) → Option (List ℕ)
then_bytes c none = none
then_bytes c (some cs) = some (c ∷ cs)

-- The text of a string token between its quotes, with its escapes read; `none` is the assertion
-- that a backslash is not its last byte.
unfoldable pub unescape : List ℕ → Option (List ℕ)
unfolding escape
unescape [] = some []
unescape (c ∷ []) = if c == backslash then none else some (c ∷ [])
unescape (c ∷ d ∷ rest) =
    let escaped = then_bytes (escape d) (unescape rest) in
    let plain = then_bytes c (unescape (d ∷ rest)) in if c == backslash then escaped else plain
