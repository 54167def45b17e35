-- ===== src/Scanner/Total.antt =====
-- Blanks, numbers, words and strings: each function ends on a text that does not end in a
-- backslash (src/syntax/scanner.cpp).
use bad_snap.Common.{
  ℕ, zero, suc, ◌+◌, ◌^◌, ◌≤◌, ◌<◌, ◌≡◌, ◌≢◌, refl, true, false, not, ◌||◌, ◌&&◌, List, ◌==◌, arith,
  length, get_or,
}
use bad_snap.Scanner.Cursor.{
  Scan, Scanner, isdigit, isalnum, eof, peek, peek_next, check, new_line, eat_while, fuel_for,
}
use bad_snap.Scanner.Lexeme.{skip_comment, skip_irrelevant, number, string_body, make_string, word}
use bad_snap.Token.{TokenType}
use bad_snap.Scanner.Progress.{
  Returns, Returns-if, Returns-bind, Past, Past-here, Past-weaken, next_ok, eof-lt, check-lt,
  peek-lt, next_returns, Past-trans, Past-less, eat_while_returns, Lexed, Ready, Ready-Past,
  one_token, follow,
}

module _ (source : List ℕ) (small : length source < 2 ^ 32) where
  number-test : (r : Scanner) → isdigit (peek source r) ≡ true → r.current < length source
  unfolding isdigit
  number-test r h = ground (arith, peek-lt source small r)

  word-test :
      (r : Scanner)
      → (isalnum (peek source r) || check source b'_' r) ≡ true
      → r.current < length source
  unfolding isalnum
  word-test r h = ground (arith, peek-lt source small r, check-lt source small b'_' r)

  comment-test :
      (r : Scanner)
      → not (eof source r || check source b'\n' r || check source b'\r' r) ≡ true
      → r.current < length source
  comment-test r h = ground (arith, eof-lt source small r)

  dot-lt :
      (s : Scanner)
      → (check source b'.' s && isdigit (peek_next source s)) ≡ true
      → s.current < length source
  dot-lt s h = ground (arith, check-lt source small b'.' s)

  pub number_returns :
      (s : Scanner) → Ready source small s → Returns (number source s) (Lexed source small s)
  unfolding number
  number_returns s h =
      Returns-bind
        (eat_while_returns source small _ number-test (fuel_for source) s h.1 (omega arith))
        λ s₁ p₁.
          let h₁ = Ready-Past source small s s₁ h p₁ in
          follow source small s s₁ p₁ (
            Returns-if (check source b'.' s₁ && isdigit (peek_next source s₁))
              (λ dot. Returns-bind (next_returns source small s₁ (dot-lt s₁ dot)) λ r q.
                let q' = Past-less source small 0 s₁ r.1 q (omega arith) in
                let h₂ = Ready-Past source small s₁ r.1 h₁ q' in
                Returns-bind
                  (eat_while_returns source small _ number-test (fuel_for source) r.1 h₂.1
                    (omega arith))
                  λ s₃ p₃.
                    follow source small s₁ s₃ (Past-trans source small s₁ r.1 s₃ q' p₃)
                      (one_token source small _ s₃ (Ready-Past source small r.1 s₃ h₂ p₃)))
              (λ _. one_token source small _ s₁ h₁))

  pub word_returns :
      (s : Scanner) → Ready source small s → Returns (word source s) (Lexed source small s)
  unfolding word
  word_returns s h =
      Returns-bind
        (eat_while_returns source small _ word-test (fuel_for source) s h.1 (omega arith))
        λ s₁ p₁.
          let h₁ = Ready-Past source small s s₁ h p₁ in
          follow source small s s₁ p₁ (one_token source small _ s₁ h₁)

  dash-test :
      (s : Scanner)
      → peek source s ≡ b'-'
      → not (eof source s || check source b'\n' s || check source b'\r' s) ≡ true
  unfolding check peek
  dash-test s h = ground arith

  skip_comment_returns :
      (s : Scanner)
      → peek source s ≡ b'-'
      → s.current ≤ length source
      → Returns (skip_comment source s) (Past source small 1 s)
  unfolding skip_comment eat_while
  skip_comment_returns s h within =
      let lt = peek-lt source small s (omega arith) in
      rw (dash-test s h) (
        Returns-bind (next_returns source small s lt) λ r q.
          let (s', run, p) =
            eat_while_returns source small _ comment-test (length source) r.1 q.within
              (omega (arith, q.moved)) in
          (s', run, Past-trans source small s r.1 s' q p))

  blank-lt :
      (s : Scanner)
      → (peek source s == b' ' || peek source s == b'\r' || peek source s == b'\t') ≡ true
      → s.current < length source
  blank-lt s h = ground (arith, peek-lt source small s)

  dashes :
      (s : Scanner)
      → (peek source s == b'-' && peek_next source s == b'-') ≡ true
      → peek source s ≡ b'-'
  dashes s h = ground arith

  line-lt : (s : Scanner) → (peek source s == b'\n') ≡ true → s.current < length source
  line-lt s h = ground (arith, peek-lt source small s)

  -- One step and then the rest of the loop.
  step_on :
      (s s₁ : Scanner) {m : Scan Scanner}
      → Past source small 1 s s₁
      → Returns m (Past source small 0 s₁)
      → Returns m (Past source small 0 s)
  step_on s s₁ p (s', run, q) =
      (s', run, Past-less source small 0 s s' (Past-trans source small s s₁ s' p q) (omega arith))

  -- Blanks and comments end, wherever the scanner stands in the source.
  pub skip_irrelevant_returns :
      (fuel : ℕ) (s : Scanner)
      → s.current ≤ length source
      → length source < s.current + fuel
      → Returns (skip_irrelevant source fuel s) (Past source small 0 s)
  unfolding skip_irrelevant
  skip_irrelevant_returns zero s within enough = absurd (omega arith)
  skip_irrelevant_returns (suc fuel) s within enough =
      Returns-if (peek source s == b' ' || peek source s == b'\r' || peek source s == b'\t')
        (λ blank. Returns-bind (next_returns source small s (blank-lt s blank)) λ r p.
          step_on s r.1 p (skip_irrelevant_returns fuel r.1 p.within (omega (arith, p.moved))))
        (λ _.
          Returns-if (peek source s == b'\n')
            (λ line.
              Returns-bind (next_returns source small (new_line source s) (line-lt s line)) λ r p.
                step_on s r.1
                  (Past-weaken source small s (new_line source s) r.1 (omega arith) refl p)
                  (skip_irrelevant_returns fuel r.1 p.within (omega (arith, p.moved))))
            (λ _.
              Returns-if (peek source s == b'-' && peek_next source s == b'-')
                (λ comment. Returns-bind (skip_comment_returns s (dashes s comment) within) λ s₁ p.
                  step_on s s₁ p
                    (skip_irrelevant_returns fuel s₁ p.within (omega (arith, p.moved))))
                (λ _. (s, refl, Past-here source small s within))))

  -- The source does not end in a backslash.
  abbrev pub EndsWell : Type 0
  EndsWell = (i : ℕ) → i + 1 ≡ length source → get_or source i 0 ≢ b'\\'

  body-lt :
      (quote : ℕ) (s : Scanner)
      → (eof source s || check source quote s) ≡ false
      → s.current < length source
  body-lt quote s h = ground (arith, eof-lt source small s)

  escape-lt :
      EndsWell
      → (i : ℕ) → i < length source
      → (get_or source i 0 == b'\\') ≡ true
      → i + 1 < length source
  escape-lt well i h e = ground (arith, well i)

  string_body_returns :
      EndsWell
      → (quote fuel : ℕ) (s : Scanner) → s.current ≤ length source
      → length source < s.current + fuel
      → Returns (string_body source quote fuel s) (Past source small 0 s)
  unfolding string_body
  string_body_returns well quote zero s within enough = absurd (omega arith)
  string_body_returns well quote (suc fuel) s within enough =
      Returns-if (eof source s || check source quote s)
        (λ _. (s, refl, Past-here source small s within))
        (λ more.
          let lt = body-lt quote s more in
          let c = get_or source s.current 0 in
          let s₁ = record s { current = s.current + 1 } in
          rw (next_ok source small s lt) (
            Returns-if (c == b'\n')
              (λ _.
                step_on s (new_line source s₁)
                  (record { moved = omega arith; within = omega arith; same_start = refl })
                  (string_body_returns well quote fuel (new_line source s₁) (omega arith)
                    (omega arith)))
              (λ _.
                Returns-if (c == b'\\')
                  (λ escape.
                    step_on s s₁
                      (record { moved = omega arith; within = omega arith; same_start = refl })
                      (Returns-bind
                        (next_returns source small s₁
                          (omega (arith, escape-lt well s.current lt escape)))
                        λ r q. step_on s₁ r.1 q (
                          string_body_returns well quote fuel r.1 q.within
                            (omega (arith, q.moved)))))
                  (λ _.
                    step_on s s₁
                      (record { moved = omega arith; within = omega arith; same_start = refl })
                      (string_body_returns well quote fuel s₁ (omega arith) (omega arith))))))

  pub make_string_returns :
      EndsWell
      → (quote : ℕ) (s : Scanner) → Ready source small s
      → Returns (make_string source quote s) (Lexed source small s)
  unfolding make_string
  make_string_returns well quote s h =
      Returns-bind (string_body_returns well quote (fuel_for source) s h.1 (omega arith)) λ s₁ p₁.
        let h₁ = Ready-Past source small s s₁ h p₁ in
        follow source small s s₁ p₁ (
          Returns-if (eof source s₁) (λ _. one_token source small TokenType.error s₁ h₁)
            (λ more.
              Returns-bind (next_returns source small s₁ (eof-lt source small s₁ more)) λ r q.
                let q' = Past-less source small 0 s₁ r.1 q (omega arith) in
                follow source small s₁ r.1 q' (
                  one_token source small TokenType.string r.1
                    (Ready-Past source small s₁ r.1 h₁ q'))))
