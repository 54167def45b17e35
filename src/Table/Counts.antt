-- ===== src/Table/Counts.antt =====
-- How many slots of an array are used, and how many hold tombstones: src/table.cpp.
use bad_snap.Common.{
  ℕ, zero, suc, ◌+◌, ◌%◌, ◌^◌, ◌≤◌, ◌<◌, ◌≡◌, inl, inr, refl, true, false, some, List, [], ◌∷◌,
  arith, if◌then◌else◌, Bool-cases, length, set, replicate, length-set,
}
use bad_snap.Table.{
  Entry, empty_entry, entry_at, is_entry_free, is_entry_dead, set_loop, Outcome, free, dead, same,
}
use bad_snap.Table.Placement.{filled, overwritten, swapped, resumed}
use bad_snap.Table.Ring.{next-lt}
use bad_snap.Value.{Value, Floats, is_nil, is_undefined}

module _ {N : Type 0} where
  unfoldable pub is_used : Entry N → ℕ
  is_used e = if is_entry_free e then 0 else 1

  unfoldable pub is_tomb : Entry N → ℕ
  is_tomb e = if is_entry_dead e then 1 else 0

  -- The slots whose key is not nil, tombstones included.
  unfoldable pub used : List (Entry N) → ℕ
  used [] = 0
  used (e ∷ es) = is_used e + used es

  unfoldable pub tombs : List (Entry N) → ℕ
  tombs [] = 0
  tombs (e ∷ es) = is_tomb e + tombs es

  pub tombs-le-used : (es : List (Entry N)) → tombs es ≤ used es
  unfolding tombs used is_tomb is_used is_entry_free is_entry_dead is_nil is_undefined
  tombs-le-used [] = omega arith
  tombs-le-used (e ∷ es) = ground (arith, tombs-le-used es)

  pub used-set :
      (es : List (Entry N)) (i : ℕ) (e : Entry N)
      → i < length es
      → used (set es i e) + is_used (entry_at es i) ≡ used es + is_used e
  unfolding used
  used-set [] i e h = elim h [ ]
  used-set (x ∷ es) zero e h = omega arith
  used-set (x ∷ es) (suc i) e h = omega (arith, used-set es i e (omega arith))

  pub tombs-set :
      (es : List (Entry N)) (i : ℕ) (e : Entry N)
      → i < length es
      → tombs (set es i e) + is_tomb (entry_at es i) ≡ tombs es + is_tomb e
  unfolding tombs
  tombs-set [] i e h = elim h [ ]
  tombs-set (x ∷ es) zero e h = omega arith
  tombs-set (x ∷ es) (suc i) e h = omega (arith, tombs-set es i e (omega arith))

  -- An array that is not full has an unused slot.
  pub free_slot :
      (es : List (Entry N))
      → used es < length es
      → (p : ℕ) × (p < length es) × (is_entry_free (entry_at es p) ≡ true)
  unfolding used is_used
  free_slot [] h = elim h [ ]
  free_slot (e ∷ es) h = elim (Bool-cases (is_entry_free e)) [
    | inl yes_free ↦ (0, omega arith, yes_free)
    | inr in_use ↦ let (p, lt, f) = free_slot es (ground arith) in (suc p, omega arith, f)
  ]

pub used-replicate : (N : Type 0) (n : ℕ) → used (replicate n (empty_entry {N = N})) ≡ 0
unfolding used is_used is_entry_free is_nil
used-replicate N zero = refl
used-replicate N (suc n) = omega (arith, used-replicate N n)

pub tombs-replicate : (N : Type 0) (n : ℕ) → tombs (replicate n (empty_entry {N = N})) ≡ 0
unfolding tombs is_tomb is_entry_dead is_undefined
tombs-replicate N zero = refl
tombs-replicate N (suc n) = omega (arith, tombs-replicate N n)

-- By how much a placement changes the two counts.
abbrev pub grown : Outcome → ℕ
grown free = 1
grown dead = 0
grown same = 0

abbrev pub revived : Outcome → ℕ
revived free = 0
revived dead = 1
revived same = 0

module _ {N : Type 0} (fl : Floats N) where
  -- Placing a key that is neither nil nor undefined uses one more slot, or one tombstone less,
  -- or changes neither count.
  pub set_loop_counts :
      (fuel : ℕ) (es : List (Entry N)) (key value : Value N) (hash index dist : ℕ)
      (es' : List (Entry N)) (o : Outcome)
      → index < length es
      → is_nil key ≡ false
      → is_undefined key ≡ false
      → set_loop fl fuel es key value hash index dist ≡ some (es', o)
      → (used es' ≡ used es + grown o) × (tombs es' + revived o ≡ tombs es)
  unfolding set_loop is_used is_tomb is_entry_free is_entry_dead
  set_loop_counts zero es key value hash index dist es' o hi kn ku h = cc
  set_loop_counts (suc fuel) es key value hash index dist es' o hi kn ku h =
      let e = entry_at es index in
      let next = (index + 1) % length es in
      let es₁ = set es index (swapped e key value hash) in
      ground (
        arith,
        next-lt index (length es) hi,
        length-set es index (swapped e key value hash),
        used-set es index (filled key value hash dist) hi,
        tombs-set es index (filled key value hash dist) hi,
        used-set es index (overwritten e value dist) hi,
        tombs-set es index (overwritten e value dist) hi,
        used-set es index (swapped e key value hash) hi,
        tombs-set es index (swapped e key value hash) hi,
        set_loop_counts fuel es key value hash next ((dist + 1) % 2 ^ 32) es' o,
        set_loop_counts fuel es₁ e.key e.value e.hash next (resumed e) es' o,
      )
