-- ===== src/Table/Ring.antt =====
-- Slots of an array as a ring: how far ahead a slot is of the one that a probe stands at.
use native.Mathlib.Decide.{dec_lt}
use bad_snap.Common.{ℕ, suc, ◌+◌, ◌-◌, ◌%◌, ◌<◌, ◌≡◌, ◌≢◌, ◌⊎◌, inl, inr, arith, wrap-cases}

-- Slot `q` of `n` is `d` steps ahead of slot `i`.
abbrev pub Ahead : ℕ → ℕ → ℕ → ℕ → Type 0
Ahead n i d q = (i + d ≡ q) ⊎ (i + d ≡ q + n)

pub Ahead-here : {n i q : ℕ} → i < n → q < n → Ahead n i 0 q → i ≡ q
Ahead-here hi hq a = omega arith

pub Ahead-ne : {n i q : ℕ} (d : ℕ) → i < n → d < n → Ahead n i (suc d) q → suc d < n → i ≢ q
Ahead-ne d hi hd a h = omega arith

pub next-lt : (i n : ℕ) → i < n → (i + 1) % n < n
next-lt i n h = omega (arith, wrap-cases i n h)

pub Ahead-next :
    {n i q : ℕ} (d : ℕ) → i < n → Ahead n i (suc d) q → q < n → Ahead n ((i + 1) % n) d q
Ahead-next {n} {i} d h a hq = ground (arith, wrap-cases i n h)

-- The slot just left is the whole ring ahead, but for one step.
pub Ahead-behind : (i n : ℕ) → i < n → Ahead n ((i + 1) % n) (n - 1) i
Ahead-behind i n h = ground (arith, wrap-cases i n h)

-- Every slot is some number of steps ahead.
pub Ahead-exists : (n i q : ℕ) → i < n → q < n → (d : ℕ) × Ahead n i d q × (d < n)
Ahead-exists n i q hi hq = elim (dec_lt q i) [
  | yes p ↦ (q + n - i, inr (omega arith), omega arith)
  | no p ↦ (q - i, inl (omega arith), omega arith)
]
