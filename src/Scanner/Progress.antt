-- ===== src/Scanner/Progress.antt =====
-- Each scanning function of src/syntax/scanner.cpp ends, and moves forward within the source.
use bad_snap.Common.{
  ℕ, zero, suc, ◌+◌, ◌^◌, ◌≤◌, ◌<◌, ◌≡◌, ◌≢◌, inl, inr, refl, ◌∙◌, Bool, true, false, some, List,
  [], ◌∷◌, arith, Bool-cases, if◌then◌else◌, length, get_elem?, get_or,
}
use bad_snap.Scanner.Cursor.{
  Scan, ok, ◌>>=◌, Scanner, eof, peek, next, check, match, make_token, eat_while, token_if_match,
}
use bad_snap.Token.{TokenType, Token}

pub get_elem?-in_range :
    (xs : List ℕ) (i : ℕ) → i < length xs → get_elem? xs i ≡ some (get_or xs i 0)
get_elem?-in_range [] i h = elim h [ ]
get_elem?-in_range (x ∷ xs) zero h = refl
get_elem?-in_range (x ∷ xs) (suc i) h = get_elem?-in_range xs i (omega arith)

-- The result is a value that satisfies `P`.
abbrev pub Returns {ℓ κ} : {A : Type ℓ} → Scan A → (A → Type κ) → Type (ℓ ⊔ κ)
Returns {A} r P = (a : A) × (r ≡ ok a) × P a

pub Returns-if :
    {A : Type 0} {P : A → Type 0} (b : Bool) {x y : Scan A}
    → (b ≡ true → Returns x P)
    → (b ≡ false → Returns y P)
    → Returns (if b then x else y) P
Returns-if true x y = x refl
Returns-if false x y = y refl

pub Returns-bind :
    {A B : Type 0} {P : A → Type 0} {Q : B → Type 0} {m : Scan A} {f : A → Scan B}
    → Returns m P
    → ((a : A) → P a → Returns (f a) Q)
    → Returns (m >>= f) Q
Returns-bind {f = f} (a, run, p) k = let (b, run', q) = k a p in (b, rw run run', q)

module _ (source : List ℕ) (small : length source < 2 ^ 32) where
  -- The scanner has moved forward by at least `k` bytes, within the source.
  pub record Past (k : ℕ) (s s' : Scanner) : Type 0 where
    pub moved : s.current + k ≤ s'.current
    pub within : s'.current ≤ length source
    pub same_start : s'.start ≡ s.start

  pub Past-here : (s : Scanner) → s.current ≤ length source → Past 0 s s
  Past-here s h = record { moved = omega arith; within = h; same_start = refl }

  pub Past-weaken :
      {k j : ℕ} (s s₁ s₂ : Scanner)
      → s.current + k ≤ s₁.current + j
      → s₁.start ≡ s.start
      → Past j s₁ s₂
      → Past k s s₂
  Past-weaken s s₁ s₂ h e p = record {
    moved = omega (arith, p.moved);
    within = p.within;
    same_start = p.same_start ∙ e;
  }

  pub next_ok :
      (s : Scanner)
      → s.current < length source
      → next source s ≡ ok (get_or source s.current 0, record s { current = s.current + 1 })
  unfolding next
  next_ok s h = ground (arith, get_elem?-in_range source s.current h)

  pub eof-lt : (s : Scanner) → eof source s ≡ false → s.current < length source
  unfolding eof
  eof-lt s h = ground arith

  pub check-lt : (c : ℕ) (s : Scanner) → check source c s ≡ true → s.current < length source
  unfolding check
  check-lt c s h = ground (arith, eof-lt s)

  pub peek-lt : (s : Scanner) → peek source s ≢ 0 → s.current < length source
  unfolding peek
  peek-lt s h = ground (arith, eof-lt s)

  pub eat_while_returns :
      (test : Scanner → Bool)
      → ((r : Scanner) → test r ≡ true → r.current < length source)
      → (fuel : ℕ) (s : Scanner) → s.current ≤ length source
      → length source < s.current + fuel
      → Returns (eat_while source test fuel s) (Past 0 s)
  unfolding eat_while
  eat_while_returns test sound zero s within enough = absurd (omega arith)
  eat_while_returns test sound (suc fuel) s within enough = elim (Bool-cases (test s)) [
    | inl more ↦
        let hi = sound s more in
        let s₁ = record s { current = s.current + 1 } in
        let (s', run, p) = eat_while_returns test sound fuel s₁ (omega arith) (omega arith) in
        (s', rw (more, next_ok s hi) run, Past-weaken s s₁ s' (omega arith) refl p)
    | inr done ↦ (s, rw done, Past-here s within)
  ]

  pub next_returns :
      (s : Scanner) → s.current < length source → Returns (next source s) (λ r. Past 1 s r.1)
  next_returns s h = (
    (get_or source s.current 0, record s { current = s.current + 1 }),
    next_ok s h,
    record { moved = omega arith; within = omega arith; same_start = refl },
  )

  pub Past-trans : {k j : ℕ} (s s₁ s₂ : Scanner) → Past k s s₁ → Past j s₁ s₂ → Past (k + j) s s₂
  Past-trans s s₁ s₂ p q = Past-weaken s s₁ s₂ (omega (arith, p.moved)) p.same_start q

  pub Past-less : {k : ℕ} (j : ℕ) (s s' : Scanner) → Past k s s' → j ≤ k → Past j s s'
  Past-less j s s' p h = record {
    moved = omega (arith, p.moved);
    within = p.within;
    same_start = p.same_start;
  }

  -- A token that a function returned, with the scanner that stands behind it.
  pub record Lexed (s : Scanner) (r : Token × Scanner) : Type 0 where
    pub past : Past 0 s r.1
    pub starts : r.0.start ≡ s.start
    pub covers : r.0.start + r.0.length ≡ r.1.current

  pub Lexed-weaken :
      (s s₁ : Scanner) (r : Token × Scanner)
      → s.current ≤ s₁.current
      → s₁.start ≡ s.start
      → Lexed s₁ r
      → Lexed s r
  Lexed-weaken s s₁ r h e l = record {
    past = Past-weaken s s₁ r.1 (omega arith) e l.past;
    starts = l.starts ∙ e;
    covers = l.covers;
  }

  -- Where a scanner stands: behind the token's start and within the source.
  abbrev pub Ready : Scanner → Type 0
  Ready s = (s.start ≤ s.current) × (s.current ≤ length source)

  pub Ready-Past : (s s' : Scanner) → Ready s → Past 0 s s' → Ready s'
  Ready-Past s s' h p = (omega (arith, p.moved, p.same_start), p.within)

  pub make_token-Lexed :
      (type : TokenType) (s : Scanner) → Ready s → Lexed s (make_token source type s, s)
  unfolding make_token
  make_token-Lexed type s h = record { past = Past-here s h.1; starts = refl; covers = omega arith }

  pub one_token :
      (type : TokenType) (s : Scanner)
      → Ready s
      → Returns (ok (make_token source type s, s)) (Lexed s)
  one_token type s h = ((make_token source type s, s), refl, make_token-Lexed type s h)

  pub match_returns :
      (c : ℕ) (s : Scanner) → Ready s → Returns (match source c s) (λ r. Past 0 s r.1)
  unfolding match
  match_returns c s h = elim (Bool-cases (check source c s)) [
    | inl found ↦
        let lt = check-lt c s found in
        let s' = record s { current = s.current + 1 } in
        (
          (true, s'),
          rw (found, next_ok s lt),
          record { moved = omega arith; within = omega arith; same_start = refl },
        )
    | inr other ↦ ((false, s), rw other, Past-here s h.1)
  ]

  -- After one more step the later result is a result of the whole.
  pub follow :
      (s s₁ : Scanner) {m : Scan (Token × Scanner)}
      → Past 0 s s₁
      → Returns m (Lexed s₁)
      → Returns m (Lexed s)
  follow s s₁ p (r, run, l) = (r, run, Lexed-weaken s s₁ r (omega (arith, p.moved)) p.same_start l)

  pub token_if_match_returns :
      (c : ℕ) (a b : TokenType) (s : Scanner)
      → Ready s
      → Returns (token_if_match source c a b s) (Lexed s)
  unfolding token_if_match
  token_if_match_returns c a b s h = Returns-bind (match_returns c s h) λ r p. follow s r.1 p (
    _,
    refl,
    choose r.0 r.1 (make_token-Lexed a r.1 (Ready-Past s r.1 h p))
        (make_token-Lexed b r.1 (Ready-Past s r.1 h p)),
  )
    where
      choose :
          (m : Bool) (t : Scanner)
          → Lexed t (make_token source a t, t)
          → Lexed t (make_token source b t, t)
          → Lexed t (if m then make_token source a t else make_token source b t, t)
      choose true t x y = x
      choose false t x y = y
