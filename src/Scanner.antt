-- ===== src/Scanner.antt =====
-- The scanner: include/scanner.hpp and src/syntax/scanner.cpp.
pub mod Cursor
pub mod Lexeme
pub mod Progress
pub mod Total
pub mod Tokens
pub mod Unterminated
use bad_snap.Common.{
  ℕ, zero, suc, ◌+◌, ◌-◌, ◌%◌, ◌^◌, Bool, true, false, not, ◌||◌, ◌&&◌, Option, none, some, List,
  [], ◌∷◌, ◌==◌, leb, if◌then◌else◌, length, get_elem?, get_or, take, drop, codes,
}
use bad_snap.Token
use bad_snap.Token.{TokenType, Token}
use bad_snap.Scanner.Cursor.{
  Scan, ok, out_of_range, no_fuel, ◌>>=◌, Scanner, new_scanner, isdigit, isalpha, isalnum, eof,
  peek, peek_next, next, check, match, make_token, new_line, eat_while, fuel_for, token_if_match,
}
use bad_snap.Scanner.Lexeme.{
  skip_comment, skip_irrelevant, number, string_body, make_string, keywords, find_keyword,
  kw_or_id_type, word,
}

module _ (source : List ℕ) where
  -- The later cases of the switch.
  unfoldable pub scan_other : ℕ → Scanner → Scan (Token × Scanner)
  unfolding make_token make_string number word isdigit isalpha
  scan_other c s =
      let one : TokenType → Scan (Token × Scanner) = λ t. ok (make_token source t s, s) in
      if c == b'^'
      then one TokenType.bit_xor
      else if c == b'~'
      then one TokenType.bit_not
      else if c == b'#'
      then one TokenType.len
      else if c == b';'
      then one TokenType.semi
      else if c == b':'
      then one TokenType.colon
      else if c == b','
      then one TokenType.comma
      else if c == b'('
      then one TokenType.lparen
      else if c == b')'
      then one TokenType.rparen
      else if c == b'{'
      then one TokenType.lcurl_brace
      else if c == b'}'
      then one TokenType.rcurl_brace
      else if c == b'['
      then one TokenType.lsq_brace
      else if c == b']'
      then one TokenType.rsq_brace
      else if c == b'\'' || c == b'"'
      then make_string source c s
      else if isdigit c
      then number source s
      else if isalpha c || c == b'_'
      then word source s
      else one TokenType.error

  unfoldable pub scan_more : ℕ → Scanner → Scan (Token × Scanner)
  unfolding match token_if_match make_token scan_other
  scan_more c s =
      if c == b'>'
      then (do
        (m, s₁) ← match source b'=' s
        if m
            then ok (make_token source TokenType.gt_eq s₁, s₁)
            else token_if_match source b'>' TokenType.bit_rshift TokenType.gt s₁)
      else if c == b'<'
      then (do
        (m, s₁) ← match source b'=' s
        if m then ok (make_token source TokenType.lt_eq s₁, s₁) else (do
          (m', s₂) ← match source b'<' s₁
          if m'
              then token_if_match source b'<' TokenType.append TokenType.bit_lshift s₂
              else ok (make_token source TokenType.lt s₂, s₂)))
      else if c == b'&'
      then token_if_match source b'&' TokenType.and_tok TokenType.bit_and s
      else if c == b'|'
      then token_if_match source b'|' TokenType.or_tok TokenType.bit_or s
      else if c == b'.'
      then (do
        (m, s₁) ← match source b'.' s
        if m
            then token_if_match source b'.' TokenType.dot_dot_dot TokenType.concat s₁
            else ok (make_token source TokenType.dot s₁, s₁))
      else scan_other c s

  -- The switch of `next_token` on the character `c` just read.
  unfoldable pub scan_from : ℕ → Scanner → Scan (Token × Scanner)
  unfolding match token_if_match make_token scan_more
  scan_from c s =
      let or_eq = λ (a b : TokenType). token_if_match source b'=' a b s in
      if c == b'+'
      then or_eq TokenType.plus_eq TokenType.plus
      else if c == b'-'
      then (do
        (m, s₁) ← match source b'>' s
        if m
            then ok (make_token source TokenType.arrow s₁, s₁)
            else token_if_match source b'=' TokenType.minus_eq TokenType.minus s₁)
      else if c == b'*'
      then (do
        (m, s₁) ← match source b'*' s
        if m
            then ok (make_token source TokenType.exp s₁, s₁)
            else token_if_match source b'=' TokenType.mult_eq TokenType.mult s₁)
      else if c == b'%'
      then or_eq TokenType.mod_eq TokenType.mod_tok
      else if c == b'/'
      then or_eq TokenType.div_eq TokenType.div
      else if c == b'='
      then or_eq TokenType.eq_eq TokenType.eq
      else if c == b'!'
      then or_eq TokenType.bang_eq TokenType.bang
      else scan_more c s

  unfoldable pub next_token : Scanner → Scan (Token × Scanner)
  unfolding make_token
  next_token s = do
    s₁ ← skip_irrelevant source (fuel_for source) s
    if eof source s₁
        then ok (make_token source TokenType.eof_tok s₁, s₁)
        else (do (c, s₂) ← next source (record s₁ { start = s₁.current }); scan_from c s₂)
