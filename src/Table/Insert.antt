-- ===== src/Table/Insert.antt =====
-- The part of `set` behind `ensure_capacity`: src/table.cpp.
use native.Mathlib.Nat.{mod-lt}
use bad_snap.Common.{
  ℕ, ◌+◌, ◌-◌, ◌%◌, ◌<◌, ◌≡◌, inl, inr, refl, ◌∙◌, Bool, true, false, some, List, arith,
  Option-cases, length,
}
use bad_snap.Table.Capacity.{HashesOk}
use bad_snap.Table.Counts.{used, tombs, free_slot, grown, revived, set_loop_counts}
use bad_snap.Table.Methods.{IsValid, set_loop-HashOk}
use bad_snap.Table.Placement.{length-set_loop, set_loop_total, set_loop-get_loop}
use bad_snap.Table.Ring.{Ahead-exists}
use bad_snap.Table.{
  Entry, Table, entry_at, is_entry_free, is_entry_dead, set_loop, Outcome, free, dead, same,
  get_loop, get_here, insert,
}
use bad_snap.Value.{Value, Floats, is_nil, is_undefined, value_eq}

module _ {N : Type 0} (fl : Floats N) (hash_value : Value N → ℕ) where
  set_loop_found :
      (es : List (Entry N)) (key value : Value N) (hash index : ℕ)
      → index < length es
      → used es < length es
      → (es' : List (Entry N)) × (o : Outcome) × (set_loop fl (length es) es key value hash index 0
          ≡ some (es', o))
  set_loop_found es key value hash index hi room =
      let (p, hp, unused) = free_slot es room in
      let (d, a, hd) = Ahead-exists (length es) index p hi hp in
      elim (Option-cases (set_loop fl (length es) es key value hash index 0)) [
        | inl e ↦
            absurd
              (set_loop_total fl (length es) es key value hash index 0 p d hi hp a hd unused hd e)
        | inr ((es', o), e) ↦ (es', o, e)
      ]

  -- A key that a table can hold: neither nil nor undefined, and equal to itself (so not NaN).
  pub record IsKey (key : Value N) : Type 0 where
    pub not_nil : is_nil key ≡ false
    pub not_undefined : is_undefined key ≡ false
    pub reflexive : value_eq fl key key ≡ true

  -- Equal keys have equal hashes.
  abbrev pub HashCongr : Type 0
  HashCongr = (a b : Value N) → value_eq fl a b ≡ true → hash_value a ≡ hash_value b

  key_is_live :
      (key other : Value N)
      → IsKey key
      → value_eq fl other key ≡ true
      → (is_nil other ≡ false) × (is_undefined other ≡ false)
  unfolding value_eq is_nil is_undefined
  key_is_live key other k h = ground arith

  inserted : Table N → List (Entry N) → Outcome → Bool × Table N
  inserted t es free = (true, record t { entries = es; num_entries = t.num_entries + 1 })
  inserted t es dead = (true, record t { entries = es; num_tombstones = t.num_tombstones - 1 })
  inserted t es same = (false, record t { entries = es })

  insert-inserted :
      (t : Table N) (key value : Value N) (es : List (Entry N)) (o : Outcome)
      → set_loop fl
          (length t.entries)
          t.entries
          key
          value
          (hash_value key)
          (hash_value key % length t.entries)
          0
        ≡ some (es, o)
      → insert fl hash_value t key value ≡ some (inserted t es o)
  unfolding insert inserted
  insert-inserted t key value es free h = rw (h, insert)
  insert-inserted t key value es dead h = rw (h, insert)
  insert-inserted t key value es same h = rw (h, insert)

  inserted-IsValid :
      (t : Table N) (es : List (Entry N)) (o : Outcome)
      → IsValid fl hash_value t
      → t.num_entries + 1 < length t.entries
      → length es ≡ length t.entries
      → (used es ≡ used t.entries + grown o) × (tombs es + revived o ≡ tombs t.entries)
      → HashesOk fl hash_value es
      → IsValid fl hash_value (inserted t es o).1
  unfolding inserted
  inserted-IsValid t es free v room same_length counts oks = record {
    few_used = omega (arith, v.few_used);
    tombs_counted = omega (arith, v.tombs_counted);
    roomy = omega arith;
    power = (v.power.0, same_length ∙ v.power.1);
    wide = omega (arith, v.wide);
    hashes = oks;
  }
  inserted-IsValid t es dead v room same_length counts oks = record {
    few_used = omega (arith, v.few_used);
    tombs_counted = omega (arith, v.tombs_counted);
    roomy = omega arith;
    power = (v.power.0, same_length ∙ v.power.1);
    wide = omega (arith, v.wide);
    hashes = oks;
  }
  inserted-IsValid t es same v room same_length counts oks = record {
    few_used = omega (arith, v.few_used);
    tombs_counted = omega (arith, v.tombs_counted);
    roomy = omega arith;
    power = (v.power.0, same_length ∙ v.power.1);
    wide = omega (arith, v.wide);
    hashes = oks;
  }

  get_here-inserted :
      (t : Table N) (es : List (Entry N)) (o : Outcome) (key : Value N)
      → get_here fl hash_value (inserted t es o).1 key
        ≡ get_loop fl (length es) es key (hash_value key) (hash_value key % length es)
  unfolding inserted get_here
  get_here-inserted t es free key = refl
  get_here-inserted t es dead key = refl
  get_here-inserted t es same key = refl

  pub record Stored (t : Table N) (key value : Value N) (r : Bool × Table N) : Type 0 where
    pub ran : insert fl hash_value t key value ≡ some r
    pub valid : IsValid fl hash_value r.1
    pub reads : get_here fl hash_value r.1 key ≡ some (some value)

  pub insert_total :
      HashCongr
      → (t : Table N) (key value : Value N) → IsValid fl hash_value t
      → t.num_entries + 1 < length t.entries
      → IsKey key
      → (r : Bool × Table N) × Stored t key value r
  unfolding is_entry_free is_entry_dead
  insert_total congr t key value v room k =
      let n = length t.entries in
      let hash = hash_value key in
      let hi = mod-lt hash {m = n} (omega (arith, v.wide)) in
      let (es, o, run) =
        set_loop_found t.entries key value hash (hash % n) hi (omega (arith, v.few_used)) in
      let counts =
        set_loop_counts fl n t.entries key value hash (hash % n) 0 es o hi k.not_nil k.not_undefined
          run in
      let same_length = length-set_loop fl n t.entries key value hash (hash % n) 0 es o run in
      let hash_eq = λ (q : ℕ) (h : value_eq fl (entry_at t.entries q).key key ≡ true).
        let live = key_is_live key (entry_at t.entries q).key k h in
        v.hashes q live.0 live.1 ∙ congr (entry_at t.entries q).key key h in
      (
        inserted t es o,
        record {
          ran = insert-inserted t key value es o run;
          valid = inserted-IsValid t es o v room same_length counts (λ q u l.
              set_loop-HashOk fl hash_value n t.entries key value hash (hash % n) 0 es o q v.hashes
                hi refl run u l);
          reads =
              rw (get_here-inserted t es o key, same_length)
                (set_loop-get_loop fl n t.entries key value hash (hash % n) 0 es o hash_eq hi
                  (omega arith) k.reflexive run);
        },
      )
