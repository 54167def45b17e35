-- ===== src/Table/Capacity.antt =====
-- `search_entry` and `ensure_capacity`: include/table.hpp and src/table.cpp.
use native.Mathlib.Decide.{ℕ_discrete}
use native.Mathlib.Nat.{mod-lt}
use bad_snap.Common.{
  ℕ, zero, suc, ◌+◌, ◌%◌, ◌≤◌, ◌<◌, ◌≡◌, ◌≢◌, inl, inr, refl, true, false, Option, none, some, List,
  [], ◌∷◌, ◌||◌, arith, Bool-cases, Option-cases, length, set, length-set, get_or-set_self,
  get_or-set_ne,
}
use bad_snap.Table.Counts.{
  is_used, is_tomb, used, tombs, tombs-le-used, used-set, tombs-set, free_slot,
}
use bad_snap.Table.Ring.{Ahead, Ahead-here, Ahead-next, Ahead-exists, next-lt}
use bad_snap.Table.{
  Entry, empty_entry, entry_at, is_entry_free, is_entry_dead, search_entry, rehash,
}
use bad_snap.Value.{Value, Floats, is_nil, is_undefined}

-- The first tombstone met, if any, is a slot of the array.
abbrev pub Within : Option ℕ → ℕ → Type 0
Within none n = Unit {0}
Within (some i) n = i < n

module _ {N : Type 0} (fl : Floats N) where
  pub search_entry_total :
      (fuel : ℕ) (es : List (Entry N)) (key : Value N) (hash index : ℕ) (first : Option ℕ) (p d : ℕ)
      → index < length es
      → p < length es
      → Ahead (length es) index d p
      → d < length es
      → is_entry_free (entry_at es p) ≡ true
      → d < fuel
      → search_entry fl fuel es key hash index first ≢ none
  unfolding search_entry is_entry_free
  search_entry_total zero es key hash index first p d hi hp a hd free hf = absurd (omega arith)
  search_entry_total (suc fuel) es key hash index first p zero hi hp a hd free hf =
      ground (arith, Ahead-here hi hp a)
  search_entry_total (suc fuel) es key hash index first p (suc d) hi hp a hd free hf =
      let next = (index + 1) % length es in
      ground (
        arith,
        Ahead-next d hi a hp,
        next-lt index (length es) hi,
        search_entry_total fuel es key hash next first p d,
        search_entry_total fuel es key hash next (some index) p d,
      )

  pub search_entry_lt :
      (fuel : ℕ) (es : List (Entry N)) (key : Value N) (hash index : ℕ) (first : Option ℕ) (i : ℕ)
      → index < length es
      → Within first (length es)
      → search_entry fl fuel es key hash index first ≡ some i
      → i < length es
  unfolding search_entry
  search_entry_lt zero es key hash index first i hi w h = cc
  search_entry_lt (suc fuel) es key hash index none i hi w h =
      let next = (index + 1) % length es in
      ground (
        arith,
        next-lt index (length es) hi,
        search_entry_lt fuel es key hash next none i,
        search_entry_lt fuel es key hash next (some index) i,
      )
  search_entry_lt (suc fuel) es key hash index (some j) i hi w h =
      let next = (index + 1) % length es in
      ground (arith, next-lt index (length es) hi, search_entry_lt fuel es key hash next (some j) i)

  -- A probe from any slot of an array that is not full ends, in a slot of the array.
  pub search_entry_found :
      (es : List (Entry N)) (key : Value N) (hash index : ℕ)
      → index < length es
      → used es < length es
      → (i : ℕ) × (search_entry fl (length es) es key hash index none ≡ some i) × (i < length es)
  search_entry_found es key hash index hi room =
      let (p, hp, free) = free_slot es room in
      let (d, a, hd) = Ahead-exists (length es) index p hi hp in
      elim (Option-cases (search_entry fl (length es) es key hash index none)) [
        | inl e ↦
            absurd (search_entry_total (length es) es key hash index none p d hi hp a hd free hd e)
        | inr (i, e) ↦ (i, e, search_entry_lt (length es) es key hash index none i hi tt e)
      ]

  module _ (hash_value : Value N → ℕ) where
    -- A live entry holds its key's hash.
    abbrev pub HashOk : Entry N → Type 0
    HashOk e = is_entry_free e ≡ false → is_entry_dead e ≡ false → e.hash ≡ hash_value e.key

    abbrev pub HashesOk : List (Entry N) → Type 0
    HashesOk es = (q : ℕ) → HashOk (entry_at es q)

    pub HashesOk-set :
        (es : List (Entry N)) (i : ℕ) (e : Entry N)
        → i < length es
        → HashesOk es
        → HashOk e
        → HashesOk (set es i e)
    HashesOk-set es i e hi oks ok q = elim (ℕ_discrete i q) [
      | yes p ↦ rw (← p, get_or-set_self es i e empty_entry hi) ok
      | no p ↦ rw (get_or-set_ne es i q e empty_entry p) (oks q)
    ]

    -- What the loop over the old entries leaves, if it began with `fresh`.
    pub record Rehashed (old fresh es : List (Entry N)) : Type 0 where
      pub ran : rehash fl old fresh ≡ some es
      pub same_length : length es ≡ length fresh
      pub few_used : used es + tombs old ≤ used fresh + used old
      pub few_tombs : tombs fresh ≡ 0 → tombs es ≡ 0
      pub hashes : HashesOk es

    rehash-skip :
        (e : Entry N) (old fresh es : List (Entry N))
        → (is_entry_free e || is_entry_dead e) ≡ true
        → Rehashed old fresh es
        → Rehashed (e ∷ old) fresh es
    unfolding rehash used tombs is_used is_tomb is_entry_free is_entry_dead is_nil is_undefined
    rehash-skip e old fresh es skip r = ground arith

    rehash-place :
        (e : Entry N) (old fresh es : List (Entry N)) (i : ℕ)
        → (is_entry_free e || is_entry_dead e) ≡ false
        → search_entry fl (length fresh) fresh e.key e.hash (e.hash % length fresh) none ≡ some i
        → i < length fresh
        → Rehashed old (set fresh i e) es
        → Rehashed (e ∷ old) fresh es
    unfolding rehash used tombs is_used is_tomb
    rehash-place e old fresh es i live found hi r =
        ground (arith, length-set fresh i e, used-set fresh i e hi, tombs-set fresh i e hi)

    skip_counts :
        (e : Entry N) → (is_entry_free e || is_entry_dead e) ≡ true → is_used e ≡ is_tomb e
    unfolding is_used is_tomb is_entry_free is_entry_dead is_nil is_undefined
    skip_counts e h = ground arith

    live_counts :
        (e : Entry N)
        → (is_entry_free e || is_entry_dead e) ≡ false
        → (is_used e ≡ 1) × (is_tomb e ≡ 0)
    unfolding is_used is_tomb
    live_counts e h = ground arith

    pub rehash_total :
        (old fresh : List (Entry N))
        → used fresh + used old < length fresh + tombs old
        → HashesOk old
        → HashesOk fresh
        → (es : List (Entry N)) × Rehashed old fresh es
    unfolding rehash used tombs
    rehash_total [] fresh room oks fresh_oks = (
      fresh,
      record {
        ran = refl;
        same_length = refl;
        few_used = omega arith;
        few_tombs = λ h. h;
        hashes = fresh_oks;
      },
    )
    rehash_total (e ∷ old) fresh room oks fresh_oks =
        elim (Bool-cases (is_entry_free e || is_entry_dead e)) [
          | inl skip ↦
              let (es, r) =
                rehash_total old fresh (omega (arith, skip_counts e skip)) (λ q. oks (suc q))
                  fresh_oks in
              (es, rehash-skip e old fresh es skip r)
          | inr live ↦
              let counts = live_counts e live in
              let (i, found, hi) =
                search_entry_found fresh e.key e.hash (e.hash % length fresh)
                  (mod-lt e.hash (omega (arith, tombs-le-used old)))
                  (omega (arith, tombs-le-used old)) in
              let (es, r) =
                rehash_total old (set fresh i e)
                  (omega (arith, used-set fresh i e hi, length-set fresh i e)) (λ q. oks (suc q))
                  (HashesOk-set fresh i e hi fresh_oks (oks 0)) in
              (es, rehash-place e old fresh es i live found hi r)
        ]
