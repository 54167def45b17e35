-- ===== src/Table/Methods.antt =====
-- The methods of a well-formed table: src/table.cpp.
use bad_snap.Common.{
  ℕ, zero, suc, ◌+◌, ◌-◌, ◌*◌, ◌%◌, ◌^◌, ◌≤◌, ◌<◌, ◌≡◌, inl, inr, refl, sym, ◌∙◌, ltb→lt, false,
  some, List, ltb, arith, Bool-cases, length, set, length-set, replicate, length-replicate,
  get_or-replicate,
}
use native.Mathlib.Nat.{pow-suc}
use bad_snap.Table.Capacity.{HashesOk, HashesOk-set, rehash_total}
use bad_snap.Table.Counts.{used, tombs, tombs-le-used, used-replicate, tombs-replicate}
use bad_snap.Table.Placement.{filled, overwritten, swapped, resumed}
use bad_snap.Table.Ring.{next-lt}
use bad_snap.Table.{
  Entry, Table, empty_entry, empty_table, default_capacity, growth_factor, load_factor, entry_at,
  is_entry_free, is_entry_dead, ensure_capacity, set_loop, Outcome,
}
use bad_snap.Value.{Value, Floats, is_nil}

module _ {N : Type 0} (fl : Floats N) (hash_value : Value N → ℕ) where
  -- The counters bound what the array holds, the array is never full, its length is a power of
  -- two, and a live entry stores its key's hash.
  pub record IsValid (t : Table N) : Type 0 where
    pub few_used : used t.entries ≤ t.num_entries
    pub tombs_counted : t.num_tombstones ≡ tombs t.entries
    pub roomy : t.num_entries < length t.entries
    pub power : (k : ℕ) × (length t.entries ≡ 2 ^ k)
    pub wide : default_capacity ≤ length t.entries
    pub hashes : HashesOk fl hash_value t.entries

  fresh_hashes : (n : ℕ) → HashesOk fl hash_value (replicate n empty_entry)
  unfolding is_entry_free is_nil
  fresh_hashes n q = rw get_or-replicate (λ f _. cc)

  double : (k n : ℕ) → n ≡ 2 ^ k → n * 2 ≡ 2 ^ suc k
  double k n e = rw (pow-suc, e) (omega arith)

  pub empty_table-IsValid : IsValid empty_table
  unfolding is_entry_free is_nil
  empty_table-IsValid = record {
    few_used = omega (arith, used-replicate N 16);
    tombs_counted = omega (arith, tombs-replicate N 16);
    roomy = omega arith;
    power = (4, refl);
    wide = omega arith;
    hashes = fresh_hashes 16;
  }

  -- What `ensure_capacity` leaves: room for one more entry.
  pub record Ensured (t t' : Table N) : Type 0 where
    pub ran : ensure_capacity fl t ≡ some t'
    pub valid : IsValid t'
    pub room : t'.num_entries + 1 < length t'.entries

  pub ensure_capacity_total : (t : Table N) → IsValid t → (t' : Table N) × Ensured t t'
  unfolding ensure_capacity
  ensure_capacity_total t v =
      let n = length t.entries in
      elim (Bool-cases (ltb (t.num_entries * 2 ^ 24) (n * load_factor))) [
        | inl enough ↦ (
          t,
          record { ran = rw enough; valid = v; room = omega (arith, v.wide, ltb→lt _ _ enough) },
        )
        | inr full ↦
            let fresh = replicate (n * growth_factor) (empty_entry {N = N}) in
            let fresh_length = length-replicate (n * growth_factor) (empty_entry {N = N}) in
            let fresh_used = used-replicate N (n * growth_factor) in
            let (es, r) =
              rehash_total fl hash_value t.entries fresh (omega (arith, tombs-le-used t.entries))
                v.hashes (fresh_hashes (n * growth_factor)) in
            let t' : Table N = record t {
              entries = es;
              num_entries = t.num_entries - t.num_tombstones;
              num_tombstones = 0;
            } in
            (
              t',
              record {
                ran = rw full (rw r.ran);
                valid = record {
                  few_used = omega (arith, tombs-le-used t.entries);
                  tombs_counted = sym (r.few_tombs (tombs-replicate N (n * growth_factor)));
                  roomy = omega arith;
                  power =
                      (suc v.power.0, r.same_length ∙ fresh_length ∙ double v.power.0 n v.power.1);
                  wide = omega arith;
                  hashes = r.hashes;
                };
                room = omega arith;
              },
            )
      ]

  -- A placement that carries a key's own hash keeps the hashes right.
  pub set_loop-HashOk :
      (fuel : ℕ) (es : List (Entry N)) (key value : Value N) (hash index dist : ℕ)
      (es' : List (Entry N)) (o : Outcome) (q : ℕ)
      → HashesOk fl hash_value es
      → index < length es
      → hash ≡ hash_value key
      → set_loop fl fuel es key value hash index dist ≡ some (es', o)
      → is_entry_free (entry_at es' q) ≡ false
      → is_entry_dead (entry_at es' q) ≡ false
      → (entry_at es' q).hash ≡ hash_value (entry_at es' q).key
  unfolding set_loop
  set_loop-HashOk zero es key value hash index dist es' o q oks hi ok h used live = cc
  set_loop-HashOk (suc fuel) es key value hash index dist es' o q oks hi ok h used live =
      let e = entry_at es index in
      let next = (index + 1) % length es in
      let es₁ = set es index (swapped e key value hash) in
      ground (
        arith,
        oks index,
        next-lt index (length es) hi,
        length-set es index (swapped e key value hash),
        HashesOk-set fl hash_value es index (filled key value hash dist) hi oks (λ _ _. ok) q,
        HashesOk-set fl hash_value es index (overwritten e value dist) hi oks (oks index) q,
        set_loop-HashOk fuel es key value hash next ((dist + 1) % 2 ^ 32) es' o q oks,
        set_loop-HashOk fuel es₁ e.key e.value e.hash next (resumed e) es' o q
            (HashesOk-set fl hash_value es index (swapped e key value hash) hi oks (λ _ _. ok)),
      )
