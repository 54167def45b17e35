-- ===== src/Value.antt =====
-- Values, objects and numbers: include/value.hpp and src/value.cpp.
-- A number is a double. Its operations are C++'s, so they are a parameter, the record `Floats`.
-- A pointer to an object is the object's tag, which is `const`, with its address.
use bad_snap.Common.{ℕ, Bool, true, false, not, ◌==◌, ◌≡◌, if◌then◌else◌, arith}

pub data ObjType : Type 0 where
  string codeblock closure c_closure upvalue table list user_data : ObjType

pub record Obj : Type 0 where
  pub tag : ObjType
  pub addr : ℕ

pub data Value (N : Type 0) : Type 0 where
  num : N → Value N
  bool : Bool → Value N
  object : Obj → Value N
  nil : Value N
  undefined : Value N
  misc_data : ℕ → Value N

-- The operations of `double` and its casts, as the source uses them.
pub record Floats (N : Type 0) : Type 0 where
  pub eq : N → N → Bool
  pub lt : N → N → Bool
  pub le : N → N → Bool
  pub of_nat : ℕ → N
  -- `size_t(x)`
  pub to_size : N → ℕ
  pub add : N → N → N
  pub sub : N → N → N
  pub mul : N → N → N
  pub div : N → N → N
  pub neg : N → N
  pub fmod : N → N → N
  pub pow : N → N → N
  -- `<<`, `>>`, `&`, `^`, `|` and `~` on operands cast to `s64`.
  pub shl : N → N → N
  pub shr : N → N → N
  pub band : N → N → N
  pub bxor : N → N → N
  pub bor : N → N → N
  pub bnot : N → N

-- What IEEE 754 says of `==`: it is symmetric and transitive, and equal numbers cast alike.
-- It is not reflexive, for NaN.
pub record FloatLaws {N : Type 0} (fl : Floats N) : Type 0 where
  pub eq_symm : (a b : N) → fl.eq a b ≡ true → fl.eq b a ≡ true
  pub eq_trans : (a b c : N) → fl.eq a b ≡ true → fl.eq b c ≡ true → fl.eq a c ≡ true
  pub eq_cast : (a b : N) → fl.eq a b ≡ true → fl.to_size a ≡ fl.to_size b

-- The number of an `ObjType`.
abbrev pub obj_type_num : ObjType → ℕ
obj_type_num string = 0
obj_type_num codeblock = 1
obj_type_num closure = 2
obj_type_num c_closure = 3
obj_type_num upvalue = 4
obj_type_num table = 5
obj_type_num list = 6
obj_type_num user_data = 7

unfoldable pub same_tag : ObjType → ObjType → Bool
same_tag a b = obj_type_num a == obj_type_num b

module _ {N : Type 0} where
  unfoldable pub is_nil : Value N → Bool
  is_nil nil = true
  is_nil _ = false

  unfoldable pub is_undefined : Value N → Bool
  is_undefined undefined = true
  is_undefined _ = false

  unfoldable pub is_num : Value N → Bool
  is_num (num _) = true
  is_num _ = false

  unfoldable pub has_tag : ObjType → Value N → Bool
  unfolding same_tag
  has_tag t (object o) = same_tag o.tag t
  has_tag t _ = false

  unfoldable pub is_val_falsy : Value N → Bool
  is_val_falsy (bool b) = not b
  is_val_falsy nil = true
  is_val_falsy _ = false

  unfoldable pub is_val_truthy : Value N → Bool
  unfolding is_val_falsy
  is_val_truthy v = not (is_val_falsy v)

-- `operator==`. Two pointers are equal if their tags and their addresses are.
unfoldable pub value_eq : {N : Type 0} → Floats N → Value N → Value N → Bool
unfolding same_tag
value_eq fl (num a) (num b) = fl.eq b a
value_eq fl (bool true) (bool b) = b
value_eq fl (bool false) (bool b) = not b
value_eq fl (object a) (object b) = if not (same_tag a.tag b.tag) then false else a.addr == b.addr
value_eq fl nil nil = true
value_eq fl _ _ = false

same_tag_eq : (a b : ObjType) → same_tag a b ≡ true → a ≡ b
unfolding same_tag
same_tag_eq a b h = ground arith

pub value_eq_objects :
    {N : Type 0} (fl : Floats N) (a b : Obj)
    → value_eq fl (object a) (object b) ≡ true
    → (a.tag ≡ b.tag) × (a.addr ≡ b.addr)
unfolding value_eq
value_eq_objects fl a b h = ground (arith, same_tag_eq a.tag b.tag)

module _ {N : Type 0} (fl : Floats N) (laws : FloatLaws fl) where
  pub value_eq_symm : (a b : Value N) → value_eq fl a b ≡ true → value_eq fl b a ≡ true
  unfolding value_eq
  value_eq_symm (num a) (num b) h = laws.eq_symm b a h
  value_eq_symm a b h = ground arith
