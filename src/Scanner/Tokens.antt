-- ===== src/Scanner/Tokens.antt =====
-- `next_token` as a whole: src/syntax/scanner.cpp.
use bad_snap.Common.{
  ℕ, ◌+◌, ◌^◌, ◌≤◌, ◌<◌, ◌≡◌, ◌⊎◌, inl, inr, refl, true, ◌||◌, List, ◌==◌, arith, if◌then◌else◌,
  length,
}
use bad_snap.Scanner.Cursor.{
  Scan, ◌>>=◌, Scanner, isdigit, isalpha, eof, match, make_token, fuel_for,
}
use bad_snap.Scanner.{scan_other, scan_more, scan_from, next_token}
use bad_snap.Token.{TokenType, Token}
use bad_snap.Scanner.Progress.{
  Returns, Returns-if, Returns-bind, next_returns, eof-lt, Lexed, Ready, Ready-Past, one_token,
  match_returns, follow, token_if_match_returns,
}
use bad_snap.Scanner.Total.{
  number_returns, word_returns, skip_irrelevant_returns, make_string_returns, EndsWell,
}

module _ (source : List ℕ) (small : length source < 2 ^ 32) (well : EndsWell source small) where
  -- A character that may be followed by `c`.
  two_way :
      (c : ℕ) (s : Scanner) (a b : Scanner → Scan (Token × Scanner))
      → Ready source small s
      → ((s₁ : Scanner) → Ready source small s₁ → Returns (a s₁) (Lexed source small s₁))
      → ((s₁ : Scanner) → Ready source small s₁ → Returns (b s₁) (Lexed source small s₁))
      → Returns (match source c s >>= λ r. if r.0 then a r.1 else b r.1) (Lexed source small s)
  two_way c s a b h f g = Returns-bind (match_returns source small c s h) λ r p.
      let h₁ = Ready-Past source small s r.1 h p in
      follow source small s r.1 p (Returns-if r.0 (λ _. f r.1 h₁) (λ _. g r.1 h₁))

  scan_other_returns :
      (c : ℕ) (s : Scanner)
      → Ready source small s
      → Returns (scan_other source c s) (Lexed source small s)
  unfolding scan_other
  scan_other_returns c s h =
      Returns-if (c == b'^') (λ _. one_token source small TokenType.bit_xor s h)
        λ _.
          Returns-if (c == b'~') (λ _. one_token source small TokenType.bit_not s h)
            λ _.
              Returns-if (c == b'#') (λ _. one_token source small TokenType.len s h)
                λ _.
                  Returns-if (c == b';') (λ _. one_token source small TokenType.semi s h)
                    λ _.
                      Returns-if (c == b':') (λ _. one_token source small TokenType.colon s h)
                        λ _.
                          Returns-if (c == b',') (λ _. one_token source small TokenType.comma s h)
                            λ _.
                              Returns-if (c == b'(')
                                (λ _. one_token source small TokenType.lparen s h)
                                λ _.
                                  Returns-if (c == b')')
                                    (λ _. one_token source small TokenType.rparen s h)
                                    λ _.
                                      Returns-if (c == b'{')
                                        (λ _. one_token source small TokenType.lcurl_brace s h)
                                        λ _.
                                          Returns-if (c == b'}')
                                            (λ _. one_token source small TokenType.rcurl_brace s h)
                                            λ _.
                                              Returns-if (c == b'[')
                                                (λ _.
                                                  one_token source small TokenType.lsq_brace s h)
                                                λ _.
                                                  Returns-if (c == b']')
                                                    (λ _.
                                                      one_token source small TokenType.rsq_brace s
                                                        h)
                                                    λ _.
                                                      Returns-if (c == b'\'' || c == b'"')
                                                        (λ _.
                                                          make_string_returns source small well c s
                                                            h)
                                                        λ _.
                                                          Returns-if (isdigit c)
                                                            (λ _. number_returns source small s h)
                                                            λ _.
                                                            Returns-if (isalpha c || c == b'_')
                                                            (λ _. word_returns source small s h)
                                                            λ _.
                                                            one_token source small TokenType.error s
                                                            h

  scan_more_returns :
      (c : ℕ) (s : Scanner)
      → Ready source small s
      → Returns (scan_more source c s) (Lexed source small s)
  unfolding scan_more
  scan_more_returns c s h =
      Returns-if (c == b'>')
        (λ _.
          two_way b'=' s _ _ h (one_token source small TokenType.gt_eq)
            (token_if_match_returns source small b'>' TokenType.bit_rshift TokenType.gt))
        λ _.
          Returns-if (c == b'<')
            (λ _. two_way b'=' s _ _ h (one_token source small TokenType.lt_eq) λ s₁ h₁.
              two_way b'<' s₁ _ _ h₁
                (token_if_match_returns source small b'<' TokenType.append TokenType.bit_lshift)
                (one_token source small TokenType.lt))
            λ _.
              Returns-if (c == b'&')
                (λ _.
                  token_if_match_returns source small b'&' TokenType.and_tok TokenType.bit_and s h)
                λ _.
                  Returns-if (c == b'|')
                    (λ _.
                      token_if_match_returns source small b'|' TokenType.or_tok TokenType.bit_or s
                        h)
                    λ _.
                      Returns-if (c == b'.')
                        (λ _.
                          two_way b'.' s _ _ h
                            (token_if_match_returns source small b'.' TokenType.dot_dot_dot
                              TokenType.concat)
                            (one_token source small TokenType.dot))
                        λ _. scan_other_returns c s h

  scan_from_returns :
      (c : ℕ) (s : Scanner)
      → Ready source small s
      → Returns (scan_from source c s) (Lexed source small s)
  unfolding scan_from
  scan_from_returns c s h =
      Returns-if (c == b'+')
        (λ _. token_if_match_returns source small b'=' TokenType.plus_eq TokenType.plus s h)
        λ _.
          Returns-if (c == b'-')
            (λ _.
              two_way b'>' s _ _ h (one_token source small TokenType.arrow)
                (token_if_match_returns source small b'=' TokenType.minus_eq TokenType.minus))
            λ _.
              Returns-if (c == b'*')
                (λ _.
                  two_way b'*' s _ _ h (one_token source small TokenType.exp)
                    (token_if_match_returns source small b'=' TokenType.mult_eq TokenType.mult))
                λ _.
                  Returns-if (c == b'%')
                    (λ _.
                      token_if_match_returns source small b'=' TokenType.mod_eq TokenType.mod_tok s
                        h)
                    λ _.
                      Returns-if (c == b'/')
                        (λ _.
                          token_if_match_returns source small b'=' TokenType.div_eq TokenType.div s
                            h)
                        λ _.
                          Returns-if (c == b'=')
                            (λ _.
                              token_if_match_returns source small b'=' TokenType.eq_eq TokenType.eq
                                s h)
                            λ _.
                              Returns-if (c == b'!')
                                (λ _.
                                  token_if_match_returns source small b'=' TokenType.bang_eq
                                    TokenType.bang s h)
                                λ _. scan_more_returns c s h

  -- What a call of `next_token` gives: the end of the text, or a token behind the place where the
  -- call began, that is not empty and stops where the scanner then stands.
  pub record Tokenised (s : Scanner) (r : Token × Scanner) : Type 0 where
    pub forward : s.current ≤ r.1.current
    pub within : r.1.current ≤ length source
    pub outcome :
        ((r.0.type ≡ TokenType.eof_tok) × (eof source r.1 ≡ true))
        ⊎ ((s.current ≤ r.0.start)
            × (r.0.start < r.1.current)
            × (r.0.start + r.0.length ≡ r.1.current))

  -- On a source of less than 2 ^ 32 bytes whose last byte is no backslash, `next_token` returns a
  -- token from every position: the end token where the text has ended, and otherwise a token of at
  -- least one byte that begins no earlier than the position, lies within the source, and stops where
  -- the scanner goes on.
  pub next_token_returns :
      (s : Scanner) → s.current ≤ length source → Returns (next_token source s) (Tokenised s)
  unfolding next_token
  next_token_returns s within =
      Returns-bind (skip_irrelevant_returns source small (fuel_for source) s within (omega arith))
        λ s₁ p.
          Returns-if (eof source s₁)
            (λ end. (
              (make_token source TokenType.eof_tok s₁, s₁),
              refl,
              record {
                forward = omega (arith, p.moved);
                within = p.within;
                outcome = inl (unfold make_token in refl, end);
              },
            ))
            (λ more.
              let s₂ = record s₁ { start = s₁.current } in
              Returns-bind (next_returns source small s₂ (eof-lt source small s₁ more)) λ r q.
                let (t, run, l) =
                  scan_from_returns r.0 r.1 (omega (arith, q.moved, q.same_start), q.within) in
                (
                  t,
                  run,
                  record {
                    forward = omega (arith, p.moved, q.moved, l.past.moved);
                    within = l.past.within;
                    outcome = inr (
                      omega (arith, p.moved, l.starts, q.same_start),
                      omega (arith, l.starts, q.same_start, q.moved, l.past.moved),
                      l.covers,
                    );
                  },
                ))
