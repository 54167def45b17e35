-- ===== src/Table/Placement.antt =====
-- What the loop of `set` does to the array: include/table.hpp and src/table.cpp.
use bad_snap.Common.{
  ℕ, zero, suc, ◌+◌, ◌-◌, ◌%◌, ◌^◌, ◌≤◌, ◌<◌, ◌≡◌, ◌≢◌, ◌⊎◌, inl, inr, true, false, none, some,
  List, arith, length, set, length-set, get_or-set_self, get_or-set_ne,
}
use bad_snap.Table.Ring.{Ahead, Ahead-here, Ahead-ne, Ahead-next, Ahead-behind, next-lt}
use bad_snap.Table.{Entry, empty_entry, entry_at, is_entry_free, set_loop, get_loop, Outcome}
use bad_snap.Value.{Value, Floats, value_eq}

module _ {N : Type 0} where
  -- The three entries that the loop may write over `e`.
  abbrev pub filled : Value N → Value N → ℕ → ℕ → Entry N
  filled key value hash dist = record {
    key = key;
    value = value;
    hash = hash;
    probe_distance = dist;
  }

  abbrev pub overwritten : Entry N → Value N → ℕ → Entry N
  overwritten e value dist = record e { value = value; probe_distance = dist }

  abbrev pub swapped : Entry N → Value N → Value N → ℕ → Entry N
  swapped e key value hash = record e { key = key; value = value; hash = hash }

  -- The distance with which the entry that was swapped out goes on.
  abbrev pub resumed : Entry N → ℕ
  resumed e = (e.probe_distance % 2 ^ 32 + 1) % 2 ^ 32

module _ {N : Type 0} (fl : Floats N) where
  pub length-set_loop :
      (fuel : ℕ) (es : List (Entry N)) (key value : Value N) (hash index dist : ℕ)
      (es' : List (Entry N)) (o : Outcome)
      → set_loop fl fuel es key value hash index dist ≡ some (es', o)
      → length es' ≡ length es
  unfolding set_loop
  length-set_loop zero es key value hash index dist es' o h = cc
  length-set_loop (suc fuel) es key value hash index dist es' o h =
      let e = entry_at es index in
      let next = (index + 1) % length es in
      ground (
        arith,
        length-set es index (filled key value hash dist),
        length-set es index (overwritten e value dist),
        length-set es index (swapped e key value hash),
        length-set_loop fuel es key value hash next ((dist + 1) % 2 ^ 32) es' o,
        length-set_loop fuel (set es index (swapped e key value hash)) e.key e.value e.hash next
            (resumed e) es' o,
      )

  -- A run with `fuel` rounds writes to none of the slots that are at least so far ahead.
  pub set_loop_frame :
      (fuel : ℕ) (es : List (Entry N)) (key value : Value N) (hash index dist : ℕ)
      (es' : List (Entry N)) (o : Outcome) (q d : ℕ)
      → index < length es
      → q < length es
      → Ahead (length es) index d q
      → fuel ≤ d
      → d < length es
      → set_loop fl fuel es key value hash index dist ≡ some (es', o)
      → entry_at es' q ≡ entry_at es q
  unfolding set_loop
  set_loop_frame zero es key value hash index dist es' o q d hi hq a hf hd h = cc
  set_loop_frame (suc fuel) es key value hash index dist es' o q zero hi hq a hf hd h =
      absurd (omega arith)
  set_loop_frame (suc fuel) es key value hash index dist es' o q (suc d) hi hq a hf hd h =
      let e = entry_at es index in
      let next = (index + 1) % length es in
      let ne : index ≢ q = Ahead-ne d hi (omega arith) a hd in
      let a' = Ahead-next d hi a hq in
      let es₁ = set es index (swapped e key value hash) in
      ground (
        arith,
        ne,
        a',
        next-lt index (length es) hi,
        length-set es index (swapped e key value hash),
        get_or-set_ne es index q (filled key value hash dist) empty_entry,
        get_or-set_ne es index q (overwritten e value dist) empty_entry,
        get_or-set_ne es index q (swapped e key value hash) empty_entry,
        set_loop_frame fuel es key value hash next ((dist + 1) % 2 ^ 32) es' o q d,
        set_loop_frame fuel es₁ e.key e.value e.hash next (resumed e) es' o q d,
      )

  -- The slot that a run starts at: it holds the key with its value, or the run has gone on.
  abbrev Settled : Value N → Value N → ℕ → Entry N → Type 0
  Settled key value hash e = (value_eq fl e.key key ≡ true) × (e.hash ≡ hash) × (e.value ≡ value)

  set_loop_slot :
      (fuel : ℕ) (es : List (Entry N)) (key value : Value N) (hash index dist : ℕ)
      (es' : List (Entry N)) (o : Outcome)
      → index < length es
      → suc fuel ≤ length es
      → value_eq fl key key ≡ true
      → (value_eq fl (entry_at es index).key key ≡ true → (entry_at es index).hash ≡ hash)
      → set_loop fl (suc fuel) es key value hash index dist ≡ some (es', o)
      → Settled key value hash (entry_at es' index)
        ⊎ ((is_entry_free (entry_at es' index) ≡ false)
            × (value_eq fl (entry_at es' index).key key ≡ false)
            × (set_loop fl fuel es key value hash ((index + 1) % length es) ((dist + 1) % 2 ^ 32)
                ≡ some (es', o)))
  unfolding set_loop
  set_loop_slot fuel es key value hash index dist es' o hi hf eq hash_eq h =
      let e = entry_at es index in
      let next = (index + 1) % length es in
      let es₁ = set es index (swapped e key value hash) in
      let n = length es in
      ground (
        arith,
        next-lt index n hi,
        Ahead-behind index n hi,
        length-set es index (swapped e key value hash),
        get_or-set_self es index (filled key value hash dist) empty_entry,
        get_or-set_self es index (overwritten e value dist) empty_entry,
        get_or-set_self es index (swapped e key value hash) empty_entry,
        set_loop_frame fuel es key value hash next ((dist + 1) % 2 ^ 32) es' o index (n - 1),
        set_loop_frame fuel es₁ e.key e.value e.hash next (resumed e) es' o index (n - 1),
      )

  pub get_loop_hit :
      (fuel : ℕ) (es : List (Entry N)) (key : Value N) (hash index : ℕ)
      → value_eq fl (entry_at es index).key key ≡ true
      → (entry_at es index).hash ≡ hash
      → get_loop fl (suc fuel) es key hash index ≡ some (some (entry_at es index).value)
  unfolding get_loop
  get_loop_hit fuel es key hash index eq same = ground arith

  pub get_loop_pass :
      (fuel : ℕ) (es : List (Entry N)) (key : Value N) (hash index : ℕ)
      → is_entry_free (entry_at es index) ≡ false
      → value_eq fl (entry_at es index).key key ≡ false
      → get_loop fl (suc fuel) es key hash index
        ≡ get_loop fl fuel es key hash ((index + 1) % length es)
  unfolding get_loop
  get_loop_pass fuel es key hash index used differs = ground arith

  -- After a run that carried `key`, a probe for it from the same slot finds the value.
  pub set_loop-get_loop :
      (fuel : ℕ) (es : List (Entry N)) (key value : Value N) (hash index dist : ℕ)
      (es' : List (Entry N)) (o : Outcome)
      → ((q : ℕ) → value_eq fl (entry_at es q).key key ≡ true → (entry_at es q).hash ≡ hash)
      → index < length es
      → fuel ≤ length es
      → value_eq fl key key ≡ true
      → set_loop fl fuel es key value hash index dist ≡ some (es', o)
      → get_loop fl fuel es' key hash index ≡ some (some value)
  set_loop-get_loop zero es key value hash index dist es' o hash_eq hi hf eq h =
      unfold set_loop in (cc)
  set_loop-get_loop (suc fuel) es key value hash index dist es' o hash_eq hi hf eq h =
      elim (set_loop_slot fuel es key value hash index dist es' o hi hf eq (hash_eq index) h) [
        | inl (same_key, same_hash, same_value) ↦
            rw (get_loop_hit fuel es' key hash index same_key same_hash, same_value)
        | inr (used, differs, run) ↦
            rw
              (
                get_loop_pass fuel es' key hash index used differs,
                length-set_loop fuel es key value hash ((index + 1) % length es)
                    ((dist + 1) % 2 ^ 32) es' o run,
              )
              (set_loop-get_loop fuel es key value hash ((index + 1) % length es)
                ((dist + 1) % 2 ^ 32) es' o hash_eq (next-lt index (length es) hi) (omega arith) eq
                run)
      ]

  pub get_loop_total :
      (fuel : ℕ) (es : List (Entry N)) (key : Value N) (hash index p d : ℕ)
      → index < length es
      → p < length es
      → Ahead (length es) index d p
      → d < length es
      → is_entry_free (entry_at es p) ≡ true
      → d < fuel
      → get_loop fl fuel es key hash index ≢ none
  unfolding get_loop
  get_loop_total zero es key hash index p d hi hp a hd free hf = absurd (omega arith)
  get_loop_total (suc fuel) es key hash index p zero hi hp a hd free hf =
      ground (arith, Ahead-here hi hp a)
  get_loop_total (suc fuel) es key hash index p (suc d) hi hp a hd free hf =
      let next = (index + 1) % length es in
      ground (
        arith,
        Ahead-next d hi a hp,
        next-lt index (length es) hi,
        get_loop_total fuel es key hash next p d,
      )

  -- With an unused slot `d` steps ahead, more than `d` rounds are enough.
  pub set_loop_total :
      (fuel : ℕ) (es : List (Entry N)) (key value : Value N) (hash index dist p d : ℕ)
      → index < length es
      → p < length es
      → Ahead (length es) index d p
      → d < length es
      → is_entry_free (entry_at es p) ≡ true
      → d < fuel
      → set_loop fl fuel es key value hash index dist ≢ none
  unfolding set_loop
  set_loop_total zero es key value hash index dist p d hi hp a hd free hf = absurd (omega arith)
  set_loop_total (suc fuel) es key value hash index dist p zero hi hp a hd free hf =
      ground (arith, Ahead-here hi hp a)
  set_loop_total (suc fuel) es key value hash index dist p (suc d) hi hp a hd free hf =
      let e = entry_at es index in
      let next = (index + 1) % length es in
      let ne : index ≢ p = Ahead-ne d hi (omega arith) a hd in
      let a' = Ahead-next d hi a hp in
      let es₁ = set es index (swapped e key value hash) in
      ground (
        arith,
        ne,
        a',
        next-lt index (length es) hi,
        length-set es index (swapped e key value hash),
        get_or-set_ne es index p (swapped e key value hash) empty_entry,
        set_loop_total fuel es key value hash next ((dist + 1) % 2 ^ 32) p d,
        set_loop_total fuel es₁ e.key e.value e.hash next (resumed e) p d,
      )
