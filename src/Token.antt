-- ===== src/Token.antt =====
-- Tokens: include/token.hpp and src/syntax/token.cpp.
use bad_snap.Common.{ℕ, Bool, ◌||◌, ◌&&◌, List, ◌==◌, leb, take, drop}

-- The source's enumerators in its order. A keyword's name ends in `_kw`, since some are reserved.
pub data TokenType : Type 0 where
  integer float string true_kw false_kw id error err_string_terminate eof_tok : TokenType
  plus concat minus mult div mod_tok exp eq bang dot dot_dot_dot len : TokenType
  mod_eq div_eq mult_eq minus_eq plus_eq gt lt gt_eq lt_eq and_tok or_tok eq_eq bang_eq : TokenType
  bit_and bit_or bit_lshift bit_rshift bit_xor bit_not append : TokenType
  semi colon comma lparen rparen lcurl_brace rcurl_brace lsq_brace rsq_brace arrow : TokenType
  let_kw const_kw if_kw while_kw for_kw else_kw nil_kw fn_kw return_kw break_kw continue_kw :
      TokenType

-- The number of an enumerator.
unfoldable pub token_num : TokenType → ℕ
token_num integer = 0
token_num float = 1
token_num string = 2
token_num true_kw = 3
token_num false_kw = 4
token_num id = 5
token_num error = 6
token_num err_string_terminate = 7
token_num eof_tok = 8
token_num plus = 9
token_num concat = 10
token_num minus = 11
token_num mult = 12
token_num div = 13
token_num mod_tok = 14
token_num exp = 15
token_num eq = 16
token_num bang = 17
token_num dot = 18
token_num dot_dot_dot = 19
token_num len = 20
token_num mod_eq = 21
token_num div_eq = 22
token_num mult_eq = 23
token_num minus_eq = 24
token_num plus_eq = 25
token_num gt = 26
token_num lt = 27
token_num gt_eq = 28
token_num lt_eq = 29
token_num and_tok = 30
token_num or_tok = 31
token_num eq_eq = 32
token_num bang_eq = 33
token_num bit_and = 34
token_num bit_or = 35
token_num bit_lshift = 36
token_num bit_rshift = 37
token_num bit_xor = 38
token_num bit_not = 39
token_num append = 40
token_num semi = 41
token_num colon = 42
token_num comma = 43
token_num lparen = 44
token_num rparen = 45
token_num lcurl_brace = 46
token_num rcurl_brace = 47
token_num lsq_brace = 48
token_num rsq_brace = 49
token_num arrow = 50
token_num let_kw = 51
token_num const_kw = 52
token_num if_kw = 53
token_num while_kw = 54
token_num for_kw = 55
token_num else_kw = 56
token_num nil_kw = 57
token_num fn_kw = 58
token_num return_kw = 59
token_num break_kw = 60
token_num continue_kw = 61

unfoldable pub same_type : TokenType → TokenType → Bool
unfolding token_num
same_type a b = token_num a == token_num b

pub record Token : Type 0 where
  pub type : TokenType
  pub start : ℕ
  pub length : ℕ
  pub line : ℕ

unfoldable pub is_unary_op : TokenType → Bool
unfolding same_type
is_unary_op t = same_type t bit_not || same_type t len || same_type t bang || same_type t minus

unfoldable pub is_literal : TokenType → Bool
unfolding same_type
is_literal t =
    same_type t integer
    || same_type t string
    || same_type t float
    || same_type t false_kw
    || same_type t true_kw
    || same_type t nil_kw

-- The bytes of the source that a token covers.
unfoldable pub raw : List ℕ → Token → List ℕ
raw source t = take t.length (drop t.start source)

-- `Compiler::is_assign_tok`: `=`, or an enumerator from `ModEq` to `PlusEq`.
unfoldable pub is_assign_tok : TokenType → Bool
unfolding same_type
is_assign_tok t =
    same_type t eq
    || (leb (token_num mod_eq) (token_num t) && leb (token_num t) (token_num plus_eq))
