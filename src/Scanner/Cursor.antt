-- ===== src/Scanner/Cursor.antt =====
-- The scanner's state and its primitive steps: include/scanner.hpp and src/syntax/scanner.cpp.
-- The source text is a list of bytes. Positions are `u32` and wrap. A loop takes fuel.
use bad_snap.Common.{
  ℕ, zero, suc, ◌+◌, ◌-◌, ◌%◌, ◌^◌, Bool, true, false, not, ◌||◌, ◌&&◌, none, some, List, ◌==◌, leb,
  if◌then◌else◌, length, get_elem?, get_or,
}
use bad_snap.Token.{TokenType, Token}

-- `string::at` throws `std::out_of_range`; `no_fuel` says that a loop was cut off.
pub data Scan {ℓ} (A : Type ℓ) : Type ℓ where
  ok : A → Scan A
  out_of_range : Scan A
  no_fuel : Scan A

infixl 5 ◌>>=◌
abbrev pub ◌>>=◌ {ℓ κ} : {A : Type ℓ} {B : Type κ} → Scan A → (A → Scan B) → Scan B
ok a >>= f = f a
out_of_range >>= f = out_of_range
no_fuel >>= f = no_fuel

pub record Scanner : Type 0 where
  pub line : ℕ
  pub column : ℕ
  pub start : ℕ
  pub current : ℕ

abbrev pub new_scanner : Scanner
new_scanner = record { line = 1; column = 1; start = 0; current = 0 }

-- The C library's tests, in the "C" locale.
unfoldable pub isdigit : ℕ → Bool
isdigit c = leb b'0' c && leb c b'9'

unfoldable pub isalpha : ℕ → Bool
isalpha c = (leb b'a' c && leb c b'z') || (leb b'A' c && leb c b'Z')

unfoldable pub isalnum : ℕ → Bool
unfolding isdigit isalpha
isalnum c = isdigit c || isalpha c

module _ (source : List ℕ) where
  unfoldable pub eof : Scanner → Bool
  eof s = leb (length source) s.current || get_or source s.current 0 == 0

  unfoldable pub peek : Scanner → ℕ
  unfolding eof
  peek s = if eof s then 0 else get_or source s.current 0

  unfoldable pub peek_next : Scanner → ℕ
  peek_next s =
      let i = (s.current + 1) % 2 ^ 32 in if leb (length source) i then 0 else get_or source i 0

  unfoldable pub next : Scanner → Scan (ℕ × Scanner)
  next s = elim (get_elem? source s.current) [
    | none ↦ out_of_range
    | some c ↦ ok (c, record s { current = (s.current + 1) % 2 ^ 32 })
  ]

  unfoldable pub check : ℕ → Scanner → Bool
  unfolding eof peek
  check expected s = not (eof s) && peek s == expected

  unfoldable pub match : ℕ → Scanner → Scan (Bool × Scanner)
  unfolding check next
  match expected s =
      if check expected s then (do (_, s') ← next s; ok (true, s')) else ok (false, s)

  unfoldable pub make_token : TokenType → Scanner → Token
  make_token type s = record {
    type = type;
    start = s.start;
    length = (s.current + 2 ^ 32 - s.start) % 2 ^ 32;
    line = s.line;
  }

  abbrev pub new_line : Scanner → Scanner
  new_line s = record s { line = (s.line + 1) % 2 ^ 32; column = 1 }

  -- `while (test()) next();`
  unfoldable pub eat_while : (Scanner → Bool) → ℕ → Scanner → Scan Scanner
  unfolding next
  eat_while test zero s = no_fuel
  eat_while test (suc fuel) s =
      let rest = (do (_, s') ← next s; eat_while test fuel s') in if test s then rest else ok s

  -- Each loop reads the source once, so its length is enough fuel.
  abbrev pub fuel_for : ℕ
  fuel_for = suc (length source)

  unfoldable pub token_if_match : ℕ → TokenType → TokenType → Scanner → Scan (Token × Scanner)
  unfolding match make_token
  token_if_match c yes_type no_type s = do
    (matched, s') ← match c s
    ok (if matched then make_token yes_type s' else make_token no_type s', s')
