-- ===== src/Tests/Scanning.antt =====
-- The scanner of src/syntax/scanner.cpp on short texts.
use bad_snap.Common.{ℕ, zero, suc, ◌<◌, ◌^◌, inr, List, ◌∷◌, ◌≡◌, refl, codes, length, arith}
use bad_snap.Scanner.Total.{EndsWell}
use bad_snap.Scanner.Progress.{Returns}
use bad_snap.Scanner.Tokens.{Tokenised, next_token_returns}
use bad_snap.Scanner.Unterminated.{OpenString, next_token_throws}
use bad_snap.Scanner.{next_token, scan_from}
use bad_snap.Scanner.Lexeme.{skip_irrelevant}
use bad_snap.Scanner.Cursor.{Scan, ok, out_of_range, no_fuel, Scanner, new_scanner, ◌>>=◌}
use bad_snap.Token.{TokenType, token_num}

types : ℕ → List ℕ → Scanner → Scan (List ℕ)
unfolding next_token skip_irrelevant scan_from token_num
types zero source s = no_fuel
types (suc fuel) source s = do
  (t, s') ← next_token source s
  ts ← types fuel source s'
  ok (token_num t.type ∷ ts)

abbrev program : List ℕ
program = codes "let x = 'a\\'b' -- c\n"

s0 :
    next_token program new_scanner
    ≡ ok (
      record { type = TokenType.let_kw; start = 0; length = 3; line = 1 },
      record { line = 1; column = 1; start = 0; current = 3 },
    )
unfolding next_token skip_irrelevant scan_from
s0 = refl

program_small : length program < 2 ^ 32
program_small = omega arith

program_EndsWell : EndsWell program program_small
program_EndsWell i end = let at : i ≡ 19 = omega arith in rw at (λ e. omega arith)

next_token_returns_example :
    Returns
      (next_token program new_scanner)
      (Tokenised program program_small program_EndsWell new_scanner)
next_token_returns_example =
    next_token_returns program program_small program_EndsWell new_scanner (omega arith)

-- A string that is not closed and ends in a backslash: 'ab\
abbrev unclosed : List ℕ
unclosed = codes "'ab\\"

unclosed-OpenString : OpenString unclosed (omega arith) b'\'' 1
unclosed-OpenString = record {
  starts_before = omega arith;
  not_backslash = omega arith;
  plain = λ i from lt. ground arith;
  last = λ i end. let at : i ≡ 3 = omega arith in rw at refl;
}

next_token_throws_example : next_token unclosed new_scanner ≡ out_of_range
next_token_throws_example =
    next_token_throws unclosed (omega arith) b'\'' (inr refl) refl unclosed-OpenString
