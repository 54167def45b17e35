-- ===== src/Runtime/TextSearch.antt =====
-- Searching the interned strings for a text: `find_string` of src/table.cpp.
use bad_snap.Table.Methods.{IsValid}
use bad_snap.Table.{get_here}
use native.Mathlib.Nat.{mod-lt}
use bad_snap.Table.Hash.{hash_value}
use bad_snap.Table.Counts.{free_slot}
use bad_snap.Table.Ring.{Ahead, Ahead-exists, Ahead-here, Ahead-next, next-lt}
use bad_snap.Compiler.Symbols.{names_equal}
use bad_snap.Compiler.Names.{names_equal_self}
use bad_snap.Runtime.Objects.{object_at}
use bad_snap.Table.{Entry, entry_at, get_loop, Table, is_entry_free}
use bad_snap.Value.{Floats, ObjType, Value, object, same_tag, value_eq}
use bad_snap.Runtime.Strings.{find_loop, is_text, find_string, hash_cstring}
use bad_snap.Common.{
  length, ==_iff, Option-cases, List, Option-cases, [], arith, if◌then◌else◌, inl, inr, length,
  none, refl, some, suc, true, zero, ℕ, ◌%◌, ◌+◌, ◌==◌, ◌∷◌, ◌≡◌, Option, ◌<◌, ◌≢◌,
}

-- One string for each text: `find_string` of src/table.cpp and `make_string` of src/runtime/vm.cpp.

names_equal_sound : (xs ys : List ℕ) → names_equal xs ys ≡ true → xs ≡ ys
unfolding names_equal
names_equal_sound [] [] h = refl
names_equal_sound (a ∷ xs) (b ∷ ys) h = ground (arith, names_equal_sound xs ys, ==_iff a b)
names_equal_sound [] (b ∷ ys) h = ground arith
names_equal_sound (a ∷ xs) [] h = ground arith

module _ {N : Type 0} (fl : Floats N) (strings : ℕ → List ℕ) where
  is_text_sound :
      (text : List ℕ) (v : Value N) (a : ℕ) → is_text strings text v ≡ some a → strings a ≡ text
  unfolding is_text same_tag
  is_text_sound text (object o) a h = ground (arith, names_equal_sound (strings o.addr) text)
  is_text_sound text v a h = ground arith

  -- A string with the text is recognized in the key that is equal to it.
  is_text_complete :
      (v : Value N) (a : ℕ)
      → value_eq fl v (object_at ObjType.string a) ≡ true
      → is_text strings (strings a) v ≡ some a
  unfolding is_text value_eq same_tag
  is_text_complete (object o) a h = ground (arith, names_equal_self (strings a), ==_iff o.addr a)
  is_text_complete v a h = ground arith

  find_loop_sound :
      (fuel : ℕ) (es : List (Entry N)) (text : List ℕ) (hash index b : ℕ)
      → find_loop strings fuel es text hash index ≡ some (some b)
      → strings b ≡ text
  unfolding find_loop
  find_loop_sound zero es text hash index b h = ground arith
  find_loop_sound (suc fuel) es text hash index b h = ground (
    arith,
    is_text_sound text (entry_at es index).key b,
    find_loop_sound fuel es text hash ((index + 1) % length es) b,
  )

  -- Where a lookup of a string finds it, a search for its text finds one.
  find_loop-get_loop :
      (fuel : ℕ) (es : List (Entry N)) (a hash index : ℕ) (v : Value N)
      → get_loop fl fuel es (object_at ObjType.string a) hash index ≡ some (some v)
      → (b : ℕ) × (find_loop strings fuel es (strings a) hash index ≡ some (some b))
  unfolding find_loop get_loop
  find_loop-get_loop zero es a hash index v h = absurd (ground arith)
  find_loop-get_loop (suc fuel) es a hash index v h =
      let e = entry_at es index in
      elim (Option-cases (if e.hash == hash then is_text strings (strings a) e.key else none)) [
        | inr (b, found) ↦ (b, ground (arith, found))
        | inl missed ↦
            let (b, later) =
              find_loop-get_loop fuel es a hash ((index + 1) % length es) v
                (ground (arith, missed, is_text_complete e.key a)) in
            (b, ground (arith, missed, later, is_text_complete e.key a))
      ]

  find_loop_total :
      (fuel : ℕ) (es : List (Entry N)) (text : List ℕ) (hash index p d : ℕ)
      → index < length es
      → p < length es
      → Ahead (length es) index d p
      → d < length es
      → is_entry_free (entry_at es p) ≡ true
      → d < fuel
      → find_loop strings fuel es text hash index ≢ none
  unfolding find_loop
  find_loop_total zero es text hash index p d hi hp a hd free hf = absurd (omega arith)
  find_loop_total (suc fuel) es text hash index p zero hi hp a hd free hf =
      ground (arith, Ahead-here hi hp a)
  find_loop_total (suc fuel) es text hash index p (suc d) hi hp a hd free hf =
      let next = (index + 1) % length es in
      ground (
        arith,
        Ahead-next d hi a hp,
        next-lt index (length es) hi,
        find_loop_total fuel es text hash next p d,
      )

  -- On a well-formed table a search for a text ends.
  pub find_string_total :
      (hash_value : Value N → ℕ) (t : Table N) (text : List ℕ) (hash : ℕ)
      → IsValid fl hash_value t
      → (r : Option ℕ) × (find_string strings t text hash ≡ some r)
  unfolding find_string
  find_string_total hash_value t text hash v =
      let n = length t.entries in
      let hi = mod-lt hash {m = n} (omega (arith, v.wide)) in
      let (p, hp, unused) = free_slot t.entries (omega (arith, v.few_used, v.roomy)) in
      let (d, a, hd) = Ahead-exists n (hash % n) p hi hp in
      elim (Option-cases (find_loop strings n t.entries text hash (hash % n))) [
        | inl e ↦
            absurd (find_loop_total n t.entries text hash (hash % n) p d hi hp a hd unused hd e)
        | inr (r, e) ↦ (r, e)
      ]

  pub find_string_sound :
      (t : Table N) (text : List ℕ) (hash b : ℕ)
      → find_string strings t text hash ≡ some (some b)
      → strings b ≡ text
  unfolding find_string
  find_string_sound t text hash b h =
      find_loop_sound (length t.entries) t.entries text hash (hash % length t.entries) b h

  pub found_again :
      (hash_value : Value N → ℕ) (t : Table N) (a : ℕ) (text : List ℕ) (v : Value N)
      → strings a ≡ text
      → hash_value (object_at ObjType.string a) ≡ hash_cstring text
      → get_here fl hash_value t (object_at ObjType.string a) ≡ some (some v)
      → (b : ℕ) × (find_string strings t text (hash_cstring text) ≡ some (some b))
  unfolding find_string get_here
  found_again hash_value t a text v bytes e h =
      let n = length t.entries in
      let (b, found) =
        find_loop-get_loop n t.entries a (hash_value (object_at ObjType.string a))
          (hash_value (object_at ObjType.string a) % n) v h in
      (b, rw (bytes, e) at found)
