-- ===== src/Runtime/Strings.antt =====
-- Strings and their interning: include/string.hpp, `find_string` of src/table.cpp, and `make_string`
-- and `concatenate` of src/runtime/vm.cpp.
use Prim.Native.Nat.{bit_xor}
use bad_snap.Common.{
  ℕ, zero, suc, ◌+◌, ◌-◌, ◌*◌, ◌%◌, ◌^◌, ◌&&◌, Option, none, some, List, [], ◌∷◌, ◌==◌, ltb,
  if◌then◌else◌, length, take,
}
use bad_snap.Compiler.Symbols.{names_equal}
use bad_snap.Table.{Entry, Table, entry_at, is_entry_free}
use bad_snap.Value.{ObjType, Value, object, same_tag}

-- A `char` is signed, so a byte from 128 on has its sign extended in `hash ^= key[i]`.
abbrev signed_char : ℕ → ℕ
signed_char c = if ltb c 128 then c else c + 2 ^ 32 - 2 ^ 8

unfoldable pub hash_bytes : ℕ → List ℕ → ℕ
hash_bytes hash [] = hash
hash_bytes hash (c ∷ cs) = hash_bytes (bit_xor hash (signed_char c) * 16777619 % 2 ^ 32) cs

-- Only the first 32 bytes are hashed.
unfoldable pub hash_cstring : List ℕ → ℕ
unfolding hash_bytes
hash_cstring text = hash_bytes 2166136261 (take 32 text)

module _ {N : Type 0} where
  -- Whether an entry's key is a string with these bytes; `strings` has the bytes of each string.
  unfoldable pub is_text : (ℕ → List ℕ) → List ℕ → Value N → Option ℕ
  unfolding names_equal same_tag
  is_text strings text (object o) =
      if same_tag o.tag ObjType.string && names_equal (strings o.addr) text
      then some o.addr
      else none
  is_text strings text _ = none

  -- The rounds of `find_string`; the inner option is the pointer.
  unfoldable pub find_loop : (ℕ → List ℕ) → ℕ → List (Entry N) → List ℕ → ℕ → ℕ → Option (Option ℕ)
  unfolding is_text is_entry_free
  find_loop strings zero es text hash index = none
  find_loop strings (suc fuel) es text hash index =
      let e = entry_at es index in
      let rest = find_loop strings fuel es text hash ((index + 1) % length es) in
      elim (if e.hash == hash then is_text strings text e.key else none) [
        | some a ↦ some (some a)
        | none ↦ if is_entry_free e then some none else rest
      ]

  unfoldable pub find_string : (ℕ → List ℕ) → Table N → List ℕ → ℕ → Option (Option ℕ)
  unfolding find_loop
  find_string strings t text hash =
      find_loop strings (length t.entries) t.entries text hash (hash % length t.entries)
