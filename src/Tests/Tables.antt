-- ===== src/Tests/Tables.antt =====
-- Tables whose numbers are natural ones: src/table.cpp and src/value.cpp.
use Prim.Native.Nat.{bit_and, bit_or, bit_xor}
use bad_snap.Common.{
  ℕ, ◌≡◌, ◌+◌, ◌-◌, ◌*◌, ◌/◌, ◌%◌, ◌^◌, refl, sym, ◌∙◌, Bool, true, false, ◌==◌, ltb, leb, Option,
  none, some, set, replicate, arith,
}
use mathlib.Core.Path.{subst}
use bad_snap.Value.{Value, num, nil, Floats, FloatLaws, value_eq, is_nil, is_undefined}
use bad_snap.Table.{Table, empty_table, empty_entry, get_here, set_entry, remove, table_length}
use bad_snap.Table.Hash.{hash_value_congr, Memory, hash_value}
use bad_snap.Table.Insert.{IsKey, HashCongr}
use bad_snap.Table.Methods.{IsValid, empty_table-IsValid}
use bad_snap.Table.Store.{set_entry-get_here, get_here_total, remove_total}

-- Natural numbers as the numbers, with whole-number operations in place of the others.
abbrev pub nat_floats : Floats ℕ
nat_floats = record {
  eq = ◌==◌;
  lt = ltb;
  le = leb;
  of_nat = λ n. n;
  to_size = λ n. n;
  add = ◌+◌;
  sub = ◌-◌;
  mul = ◌*◌;
  div = ◌/◌;
  neg = λ n. n;
  fmod = ◌%◌;
  pow = ◌^◌;
  shl = λ a b. a * 2 ^ b;
  shr = λ a b. a / 2 ^ b;
  band = bit_and;
  bxor = bit_xor;
  bor = bit_or;
  bnot = λ a. a;
}

==_sound : (a b : ℕ) → (a == b) ≡ true → a ≡ b
==_sound a b h = ground arith

pub nat_floats-FloatLaws : FloatLaws nat_floats
nat_floats-FloatLaws = record {
  eq_symm = λ a b h. ground arith;
  eq_trans = λ a b c h k. ground arith;
  eq_cast = ==_sound;
}

abbrev pub no_memory : Memory ℕ
no_memory = record { string_hash = λ a. a; upvalue_value = λ a. nil }

abbrev pub hash : Value ℕ → ℕ
hash v = hash_value nat_floats no_memory 0 v

pub hash-HashCongr : HashCongr nat_floats hash
hash-HashCongr a b h = hash_value_congr nat_floats nat_floats-FloatLaws no_memory 0 a b h

empty-IsValid : IsValid nat_floats hash empty_table
empty-IsValid = empty_table-IsValid nat_floats hash

pub five-IsKey : IsKey nat_floats hash (num 5)
unfolding is_nil is_undefined value_eq
five-IsKey = record { not_nil = refl; not_undefined = refl; reflexive = refl }

abbrev pub seven : Value ℕ
seven = num 7

pub seven-not_nil : is_nil seven ≡ false
unfolding is_nil
seven-not_nil = refl

set_entry-get_here_example :
    (r : Bool × Table ℕ) × (set_entry nat_floats hash empty_table (num 5) seven ≡ some r)
    × IsValid nat_floats hash r.1
    × (get_here nat_floats hash r.1 (num 5) ≡ some (some seven))
set_entry-get_here_example =
    set_entry-get_here nat_floats hash hash-HashCongr empty_table (num 5) seven empty-IsValid
      five-IsKey seven-not_nil

-- The table that has just the key 5.
abbrev pub five_table : Table ℕ
five_table = record {
  proto_table = none;
  entries =
      set (replicate 16 empty_entry) 5
        (record { key = num 5; value = seven; hash = 5; probe_distance = 0 });
  num_entries = 1;
  num_tombstones = 0;
}

five_table-set_entry : set_entry nat_floats hash empty_table (num 5) seven ≡ some (true, five_table)
unfolding set_entry hash_value
five_table-set_entry = refl

some_injective : {A : Type 0} (a b : A) → some a ≡ some b → a ≡ b
some_injective a b e = cc

pub five_table-IsValid : IsValid nat_floats hash five_table
five_table-IsValid =
    let (r, ran, valid, reads) =
      set_entry-get_here nat_floats hash hash-HashCongr empty_table (num 5) seven empty-IsValid
        five-IsKey seven-not_nil in
    let same : r ≡ (true, five_table) =
      some_injective r (true, five_table) (sym ran ∙ five_table-set_entry) in
    subst (λ s. IsValid nat_floats hash s.1) same valid

get_here_total_example :
    (r : Option (Value ℕ)) × (get_here nat_floats hash five_table (num 5) ≡ some r)
get_here_total_example = get_here_total nat_floats hash five_table (num 5) five_table-IsValid

remove_total_example :
    (r : Bool × Table ℕ) × (remove nat_floats hash five_table (num 5) ≡ some r)
    × IsValid nat_floats hash r.1
    × (r.0 ≡ true → table_length r.1 + 1 ≡ table_length five_table)
    × (r.0 ≡ false → r.1 ≡ five_table)
remove_total_example = remove_total nat_floats hash five_table (num 5) five_table-IsValid
