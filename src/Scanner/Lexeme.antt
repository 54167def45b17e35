-- ===== src/Scanner/Lexeme.antt =====
-- Blanks, comments, numbers, strings and words: src/syntax/scanner.cpp.
use bad_snap.Common.{
  ℕ, zero, suc, ◌+◌, ◌-◌, ◌%◌, ◌^◌, Bool, true, false, not, ◌||◌, ◌&&◌, List, [], ◌∷◌, ◌==◌,
  if◌then◌else◌, length, drop, codes,
}
use bad_snap.Token.{TokenType, Token}
use bad_snap.Scanner.Cursor.{
  Scan, ok, no_fuel, ◌>>=◌, Scanner, isdigit, isalnum, eof, peek, peek_next, next, check,
  make_token, new_line, eat_while, fuel_for,
}

module _ (source : List ℕ) where
  unfoldable pub skip_comment : Scanner → Scan Scanner
  unfolding eat_while eof check
  skip_comment s =
      eat_while source (λ r. not (eof source r || check source b'\n' r || check source b'\r' r))
        (fuel_for source) s

  unfoldable pub skip_irrelevant : ℕ → Scanner → Scan Scanner
  unfolding peek peek_next next skip_comment
  skip_irrelevant zero s = no_fuel
  skip_irrelevant (suc fuel) s =
      let c = peek source s in
      let blank = (do (_, s') ← next source s; skip_irrelevant fuel s') in
      let line = (do (_, s') ← next source (new_line source s); skip_irrelevant fuel s') in
      let comment = (do s' ← skip_comment s; skip_irrelevant fuel s') in
      if c == b' ' || c == b'\r' || c == b'\t'
      then blank
      else if c == b'\n'
      then line
      else if c == b'-' && peek_next source s == b'-'
      then comment
      else ok s

  unfoldable pub number : Scanner → Scan (Token × Scanner)
  unfolding eat_while isdigit peek peek_next check next make_token
  number s = do
    s₁ ← eat_while source (λ r. isdigit (peek source r)) (fuel_for source) s
    if check source b'.' s₁ && isdigit (peek_next source s₁)
        then (do
          (_, s₂) ← next source s₁
          s₃ ← eat_while source (λ r. isdigit (peek source r)) (fuel_for source) s₂
          ok (make_token source TokenType.float s₃, s₃))
        else ok (make_token source TokenType.integer s₁, s₁)

  -- The loop of `make_string`: the character behind a backslash is consumed whatever it is.
  unfoldable pub string_body : ℕ → ℕ → Scanner → Scan Scanner
  unfolding eof check next
  string_body quote zero s = no_fuel
  string_body quote (suc fuel) s =
      let rest = (do
        (c, s₁) ← next source s
        if c == b'\n'
            then string_body quote fuel (new_line source s₁)
            else if c == b'\\'
            then (do (_, s₂) ← next source s₁; string_body quote fuel s₂)
            else string_body quote fuel s₁) in
      if eof source s || check source quote s then ok s else rest

  unfoldable pub make_string : ℕ → Scanner → Scan (Token × Scanner)
  unfolding string_body eof next make_token
  make_string quote s = do
    s₁ ← string_body quote (fuel_for source) s
    if eof source s₁
        then ok (make_token source TokenType.error s₁, s₁)
        else (do (_, s₂) ← next source s₁; ok (make_token source TokenType.string s₂, s₂))

-- The table of keywords, in the source's order.
abbrev pub keywords : List (List ℕ × TokenType)
keywords =
    (codes "false", TokenType.false_kw)
    ∷ (codes "true", TokenType.true_kw)
    ∷ (codes "nil", TokenType.nil_kw)
    ∷ (codes "or", TokenType.or_tok)
    ∷ (codes "and", TokenType.or_tok)
    ∷ (codes "let", TokenType.let_kw)
    ∷ (codes "const", TokenType.const_kw)
    ∷ (codes "if", TokenType.if_kw)
    ∷ (codes "else", TokenType.else_kw)
    ∷ (codes "while", TokenType.while_kw)
    ∷ (codes "fn", TokenType.fn_kw)
    ∷ (codes "return", TokenType.return_kw)
    ∷ (codes "break", TokenType.break_kw)
    ∷ (codes "continue", TokenType.continue_kw)
    ∷ (codes "for", TokenType.for_kw)
    ∷ []

-- `memcmp(a, b, n) == 0` where `b` has `n` bytes
unfoldable pub starts_with : List ℕ → List ℕ → Bool
starts_with a [] = true
starts_with [] (c ∷ b) = false
starts_with (d ∷ a) (c ∷ b) = d == c && starts_with a b

-- The loop of `kw_or_id_type`: the text from `start` on, and `current - start`.
unfoldable pub find_keyword : List (List ℕ × TokenType) → List ℕ → ℕ → TokenType
unfolding starts_with
find_keyword [] text n = TokenType.id
find_keyword ((word, type) ∷ kws) text n =
    if length word == n && starts_with text word then type else find_keyword kws text n

module _ (source : List ℕ) where
  unfoldable pub kw_or_id_type : Scanner → TokenType
  unfolding find_keyword
  kw_or_id_type s =
      find_keyword keywords (drop s.start source) ((s.current + 2 ^ 32 - s.start) % 2 ^ 32)

  unfoldable pub word : Scanner → Scan (Token × Scanner)
  unfolding eat_while isalnum peek check make_token kw_or_id_type
  word s = do
    s₁ ← eat_while source (λ r. isalnum (peek source r) || check source b'_' r) (fuel_for source) s
    ok (make_token source (kw_or_id_type s₁) s₁, s₁)
