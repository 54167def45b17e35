-- ===== src/Table/Store.antt =====
-- `set`, `get` and `remove` on well-formed tables: src/table.cpp.
use native.Mathlib.Nat.{mod-lt}
use bad_snap.Common.{
  ℕ, ◌+◌, ◌%◌, ◌<◌, ◌≡◌, inl, inr, refl, ◌∙◌, Bool, true, false, ◌||◌, Option, none, some, ◌==◌,
  arith, Bool-cases, Option-cases, length, set, length-set,
}
use bad_snap.Table.Capacity.{HashesOk-set, search_entry_found}
use bad_snap.Table.Counts.{is_used, is_tomb, tombs-le-used, used-set, tombs-set, free_slot}
use bad_snap.Table.Insert.{IsKey, HashCongr, insert_total}
use bad_snap.Table.Methods.{IsValid, ensure_capacity_total}
use bad_snap.Table.Placement.{get_loop_total}
use bad_snap.Table.Ring.{Ahead-exists}
use bad_snap.Table.{
  Table, entry_at, is_entry_free, is_entry_dead, tombstone, search_entry, table_length, get_loop,
  get_here, set_entry, remove,
}
use bad_snap.Value.{Value, Floats, is_nil, is_undefined}

module _ {N : Type 0} (fl : Floats N) (hash_value : Value N → ℕ) where
  -- On a well-formed table `set` with a key that is not nil, undefined or NaN, and a value that is
  -- not nil, ends; the table that it leaves is well-formed, and a lookup of the key in it finds the
  -- value.
  pub set_entry-get_here :
      HashCongr fl hash_value
      → (t : Table N) (key value : Value N) → IsValid fl hash_value t
      → IsKey fl hash_value key
      → is_nil value ≡ false
      → (r : Bool × Table N) × (set_entry fl hash_value t key value ≡ some r)
        × IsValid fl hash_value r.1
        × (get_here fl hash_value r.1 key ≡ some (some value))
  unfolding set_entry
  set_entry-get_here congr t key value v k not_nil =
      let (t', e) = ensure_capacity_total fl hash_value t v in
      let (r, s) = insert_total fl hash_value congr t' key value e.valid e.room k in
      (r, rw (not_nil, set_entry, e.ran) s.ran, s.valid, s.reads)

  -- On a well-formed table a lookup ends, whatever the key.
  pub get_here_total :
      (t : Table N) (key : Value N)
      → IsValid fl hash_value t
      → (r : Option (Value N)) × (get_here fl hash_value t key ≡ some r)
  unfolding get_here
  get_here_total t key v =
      let n = length t.entries in
      let hi = mod-lt (hash_value key) {m = n} (omega (arith, v.wide)) in
      let (p, hp, unused) = free_slot t.entries (omega (arith, v.few_used, v.roomy)) in
      let (d, a, hd) = Ahead-exists n (hash_value key % n) p hi hp in
      elim (Option-cases (get_loop fl n t.entries key (hash_value key) (hash_value key % n))) [
        | inl e ↦ absurd (
            get_loop_total fl n t.entries key (hash_value key) (hash_value key % n) p d hi hp a hd
              unused hd e)
        | inr (r, e) ↦ (r, e)
      ]

  removed_some :
      (t : Table N) (key : Value N) (i : ℕ)
      → (t.num_entries == 0) ≡ false
      → search_entry fl
          (length t.entries)
          t.entries
          key
          (hash_value key)
          (hash_value key % length t.entries)
          none
        ≡ some i
      → (is_entry_free (entry_at t.entries i) || is_entry_dead (entry_at t.entries i)) ≡ false
      → remove fl hash_value t key
        ≡ some (
          true,
          record t {
            entries = set t.entries i (tombstone (entry_at t.entries i));
            num_tombstones = t.num_tombstones + 1;
          },
        )
  unfolding remove
  removed_some t key i some_entries found live = rw (some_entries, found, live)

  tombstone-IsValid :
      (t : Table N) (i : ℕ)
      → IsValid fl hash_value t
      → i < length t.entries
      → (is_entry_free (entry_at t.entries i) || is_entry_dead (entry_at t.entries i)) ≡ false
      → IsValid fl hash_value (record t {
        entries = set t.entries i (tombstone (entry_at t.entries i));
        num_tombstones = t.num_tombstones + 1;
      })
  unfolding tombstone is_used is_tomb is_entry_free is_entry_dead is_nil is_undefined
  tombstone-IsValid t i v hi live =
      let e = entry_at t.entries i in
      let new_used = used-set t.entries i (tombstone e) hi in
      let new_tombs = tombs-set t.entries i (tombstone e) hi in
      let same_length = length-set t.entries i (tombstone e) in
      record {
        few_used = ground (arith, v.few_used);
        tombs_counted = ground (arith, v.tombs_counted);
        roomy = omega (arith, v.roomy);
        power = (v.power.0, same_length ∙ v.power.1);
        wide = omega (arith, v.wide);
        hashes = HashesOk-set fl hash_value t.entries i (tombstone e) hi v.hashes (λ _ l. cc);
      }

  -- On a well-formed table `remove` ends, whatever the key; the table that it leaves is
  -- well-formed, and is shorter by one if the answer is true, and the same table if it is false.
  pub remove_total :
      (t : Table N) (key : Value N)
      → IsValid fl hash_value t
      → (r : Bool × Table N) × (remove fl hash_value t key ≡ some r)
        × IsValid fl hash_value r.1
        × (r.0 ≡ true → table_length r.1 + 1 ≡ table_length t)
        × (r.0 ≡ false → r.1 ≡ t)
  unfolding remove table_length
  remove_total t key v = elim (Bool-cases (t.num_entries == 0)) [
    | inl empty ↦ ((false, t), rw (empty, remove), v, cc, λ _. refl)
    | inr some_entries ↦
        let n = length t.entries in
        let (i, found, hi) =
          search_entry_found fl t.entries key (hash_value key) (hash_value key % n)
            (mod-lt (hash_value key) (omega (arith, v.wide)))
            (omega (arith, v.few_used, v.roomy)) in
        elim (Bool-cases
          (is_entry_free (entry_at t.entries i) || is_entry_dead (entry_at t.entries i))) [
            | inl gone ↦ ((false, t), rw (some_entries, remove, found, gone), v, cc, λ _. refl)
            | inr live ↦
                let es = set t.entries i (tombstone (entry_at t.entries i)) in
                let w = tombstone-IsValid t i v hi live in
                (
                  (
                    true,
                    record t {
                      entries = set t.entries i (tombstone (entry_at t.entries i));
                      num_tombstones = t.num_tombstones + 1;
                    },
                  ),
                  removed_some t key i some_entries found live,
                  tombstone-IsValid t i v hi live,
                  λ _. omega (arith, tombs-le-used es, w.few_used, w.tombs_counted),
                  cc,
                )
          ]
  ]
