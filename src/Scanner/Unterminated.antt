-- ===== src/Scanner/Unterminated.antt =====
-- A text that ends in a backslash inside a string: src/syntax/scanner.cpp.
use native.Mathlib.Decide.{dec_lt}
use bad_snap.Common.{
  ℕ, zero, suc, ◌+◌, ◌^◌, ◌≤◌, ◌<◌, ◌≡◌, ◌≢◌, ◌⊎◌, inl, inr, refl, sym, ◌∙◌, false, ◌||◌, none,
  List, [], ◌∷◌, arith, length, get_elem?, get_or,
}
use bad_snap.Scanner.Cursor.{ok, out_of_range, Scanner, eof, peek, next, check, new_line, fuel_for}
use bad_snap.Scanner.Lexeme.{skip_irrelevant, string_body, make_string}
use bad_snap.Scanner.{scan_other, scan_more, scan_from, next_token}
use bad_snap.Scanner.Progress.{next_ok}
use bad_snap.Scanner.Cursor.{new_scanner}

get_elem?-length : (xs : List ℕ) (i : ℕ) → i ≡ length xs → get_elem? xs i ≡ none
get_elem?-length [] i h = refl
get_elem?-length (x ∷ xs) zero h = absurd (omega arith)
get_elem?-length (x ∷ xs) (suc i) h = get_elem?-length xs i (omega arith)

module _ (source : List ℕ) (small : length source < 2 ^ 32) where
  -- Bytes that neither close the string nor escape, up to a last byte that is a backslash.
  pub record OpenString (quote from : ℕ) : Type 0 where
    pub starts_before : from < length source
    pub not_backslash : quote ≢ b'\\'
    pub plain :
        (i : ℕ)
        → from ≤ i
        → i + 1 < length source
        → (get_or source i 0 ≢ quote) × (get_or source i 0 ≢ b'\\') × (get_or source i 0 ≢ 0)
    pub last : (i : ℕ) → i + 1 ≡ length source → get_or source i 0 ≡ b'\\'

  OpenString-next :
      (quote from : ℕ)
      → OpenString quote from
      → from + 1 < length source
      → OpenString quote (from + 1)
  OpenString-next quote from o h = record {
    starts_before = h;
    not_backslash = o.not_backslash;
    plain = λ i lo hi. o.plain i (omega arith) hi;
    last = o.last;
  }

  next-past_end : (s : Scanner) → s.current ≡ length source → next source s ≡ out_of_range
  unfolding next
  next-past_end s h = rw (get_elem?-length source s.current h, next)

  inside :
      (quote : ℕ) (s : Scanner)
      → s.current < length source
      → get_or source s.current 0 ≢ quote
      → get_or source s.current 0 ≢ 0
      → (eof source s || check source quote s) ≡ false
  unfolding eof check peek
  inside quote s h ne nz = ground arith

  string_body_throws :
      (quote fuel : ℕ) (s : Scanner)
      → OpenString quote s.current
      → length source < s.current + fuel
      → string_body source quote fuel s ≡ out_of_range
  unfolding string_body
  string_body_throws quote zero s o enough = absurd (omega (arith, o.starts_before))
  string_body_throws quote (suc fuel) s o enough =
      let c = get_or source s.current 0 in
      let s₁ = record s { current = s.current + 1 } in
      elim (dec_lt (s.current + 1) (length source)) [
        | yes more ↦
            let (ne, nb, nz) = o.plain s.current (omega arith) more in
            let o₁ = OpenString-next quote s.current o more in
            rw (inside quote s o.starts_before ne nz, next_ok source small s o.starts_before)
              (ground (
                arith,
                nb,
                string_body_throws quote fuel (new_line source s₁) o₁,
                string_body_throws quote fuel s₁ o₁,
              ))
        | no end ↦
            let at_end : s.current + 1 ≡ length source = omega (arith, o.starts_before) in
            let b = o.last s.current at_end in
            rw (
              inside quote s o.starts_before (λ e. o.not_backslash (sym e ∙ b)) (omega arith),
              next_ok source small s o.starts_before,
              b,
              next-past_end s₁ at_end,
            )
      ]

  abbrev IsQuote : ℕ → Type 0
  IsQuote quote = (quote ≡ b'"') ⊎ (quote ≡ b'\'')

  scan_from_quote :
      (quote : ℕ) (s : Scanner)
      → IsQuote quote
      → scan_from source quote s ≡ make_string source quote s
  unfolding scan_from scan_more scan_other
  scan_from_quote quote s (inl e) = rw e
  scan_from_quote quote s (inr e) = rw e

  peek_quote :
      (quote : ℕ)
      → IsQuote quote
      → get_or source 0 0 ≡ quote
      → 0 < length source
      → (eof source new_scanner ≡ false) × (peek source new_scanner ≡ quote)
  unfolding eof peek
  peek_quote quote q first h = ground arith

  skip_nothing :
      (fuel quote : ℕ)
      → IsQuote quote
      → peek source new_scanner ≡ quote
      → skip_irrelevant source (suc fuel) new_scanner ≡ ok new_scanner
  unfolding skip_irrelevant
  skip_nothing fuel quote (inl q) h = rw (h, q)
  skip_nothing fuel quote (inr q) h = rw (h, q)

  next_token-scan_from :
      (quote : ℕ)
      → IsQuote quote
      → get_or source 0 0 ≡ quote
      → 0 < length source
      → next_token source new_scanner
        ≡ scan_from source quote (record new_scanner { start = 0; current = 1 })
  unfolding next_token
  next_token-scan_from quote q first lt =
      let (more, head) = peek_quote quote q first lt in
      rw (
        skip_nothing (length source) quote q head,
        more,
        next_ok source small new_scanner lt,
        first,
      )

  make_string_throws :
      (quote : ℕ) (s : Scanner)
      → OpenString quote s.current
      → make_string source quote s ≡ out_of_range
  unfolding make_string
  make_string_throws quote s o = rw (string_body_throws quote (fuel_for source) s o (omega arith))

  -- A source that is a quotation mark, then plain bytes, then a backslash as its last byte, makes
  -- `next_token` throw from the start of the text (the function is `noexcept`, so this terminates
  -- the program).
  pub next_token_throws :
      (quote : ℕ)
      → IsQuote quote
      → get_or source 0 0 ≡ quote
      → OpenString quote 1
      → next_token source new_scanner ≡ out_of_range
  next_token_throws quote q first o =
      let s₁ = record new_scanner { start = 0; current = 1 } in
      next_token-scan_from quote q first (omega (arith, o.starts_before))
      ∙ scan_from_quote quote s₁ q
      ∙ make_string_throws quote s₁ o
