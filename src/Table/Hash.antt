-- ===== src/Table/Hash.antt =====
-- `Table::hash_value` and `Table::hash_object`.
use bad_snap.Common.{ℕ, zero, suc, ◌%◌, ◌^◌, true, ◌≡◌, sym, if◌then◌else◌, arith}
use bad_snap.Value.{
  ObjType, string, upvalue, Value, num, bool, object, Floats, FloatLaws, value_eq, value_eq_objects,
}

-- What a hash reads of the heap: the hash that a string stores, and an upvalue's `*m_value`.
pub record Memory (N : Type 0) : Type 0 where
  pub string_hash : ℕ → ℕ
  pub upvalue_value : ℕ → Value N

module _ {N : Type 0} where
  unfoldable pub hash_object : Memory N → (Value N → ℕ) → ObjType → ℕ → ℕ
  hash_object mem hash_value string addr = mem.string_hash addr
  hash_object mem hash_value upvalue addr = hash_value (mem.upvalue_value addr)
  hash_object mem hash_value _ addr = addr % 2 ^ 64

  -- `depth` bounds how many upvalues are followed, one inside the other. The source asserts that the
  -- value is a number, a boolean or an object; the hash of any other is 0 here.
  unfoldable pub hash_value : Floats N → Memory N → ℕ → Value N → ℕ
  unfolding hash_object
  hash_value fl mem depth (num x) = fl.to_size x
  hash_value fl mem depth (bool b) = if b then 7 else 15
  hash_value fl mem zero (object o) = hash_object mem (λ _. 0) o.tag o.addr
  hash_value fl mem (suc depth) (object o) = hash_object mem (hash_value fl mem depth) o.tag o.addr
  hash_value fl mem depth _ = 0

  module _ (fl : Floats N) (laws : FloatLaws fl) (mem : Memory N) where
    pub hash_value_congr :
        (depth : ℕ) (a b : Value N)
        → value_eq fl a b ≡ true
        → hash_value fl mem depth a ≡ hash_value fl mem depth b
    unfolding hash_value value_eq
    hash_value_congr depth (num x) (num y) h = sym (laws.eq_cast y x h)
    hash_value_congr zero (object o) (object p) h =
        let (t, a) = value_eq_objects fl o p h in rw (t, a)
    hash_value_congr (suc depth) (object o) (object p) h =
        let (t, a) = value_eq_objects fl o p h in rw (t, a)
    hash_value_congr depth a b h = ground arith
