-- ===== src/Runtime/Machine.antt =====
-- The state of the virtual machine and the steps that its handlers are made of: include/vm.hpp,
-- include/vm_stack.hpp, include/function.hpp and src/runtime/vm.cpp.
-- The value stack is a list with the newest value first; a slot is counted from the oldest.
-- An action returns, or the run ends: with an error that was reported, with the result of the
-- script, at a native caller, or with a fault (a read or write that C++ leaves undefined, a failed
-- assertion) or since a loop was cut off.
use bad_snap.Common.{
  ◌≡◌, refl, ap, arith, ℕ, ◌+◌, ◌-◌, ◌*◌, ◌%◌, ◌^◌, Bool, true, Option, none, some, List, [], ◌∷◌,
  ltb, leb, if◌then◌else◌, length, get_elem?, set, drop,
}
use bad_snap.Runtime.Access.{Heap, updated}
use bad_snap.Runtime.OpenUpvalues.{Cell, OpenUpvalue}
use bad_snap.Table.{Table}
use bad_snap.Value.{ObjType, Obj, Value, object}

pub record CodeBlock (N : Type 0) : Type 0 where
  pub code : List ℕ
  pub constant_pool : List (Value N)
  pub num_params : ℕ
  pub is_variadic : Bool
  pub max_stack_size : ℕ

-- A closure's code block, and the cells of its upvalues.
pub record Closure : Type 0 where
  pub codeblock : ℕ
  pub upvals : List ℕ

-- `func` is a closure or a native one; `base` is the slot of the function.
pub record CallFrame : Type 0 where
  pub func : Obj
  pub ip : ℕ
  pub base : ℕ

-- `frames` are those in use, the current one first, `m_frame_count` of them; `block` is the code
-- block that `m_current_block` belongs to; `next` is an address that no object has yet.
pub record Vm (N : Type 0) : Type 0 where
  pub stack : List (Value N)
  pub size : ℕ
  pub frames : List CallFrame
  pub ip : ℕ
  pub block : ℕ
  pub cells : List (Cell (Value N))
  pub open_upvals : List OpenUpvalue
  pub heap : Heap N
  pub closures : ℕ → Closure
  pub codeblocks : ℕ → CodeBlock N
  pub c_closures : ℕ → ℕ
  pub next : ℕ
  pub interned_strings : Table N
  pub global_vars : ℕ → Option (Value N)
  pub has_error : Bool

-- How an action ends: it returns, or the run ends.
pub data Outcome (N A : Type 0) : Type 0 where
  ok : A → Vm N → Outcome N A
  raised : Vm N → Outcome N A
  finished : Value N → Vm N → Outcome N A
  to_native : Vm N → Outcome N A
  fault : Outcome N A
  no_fuel : Outcome N A

abbrev pub M : Type 0 → Type 0 → Type 0
M N A = Vm N → Outcome N A

unfoldable pub pure : {N A : Type 0} → A → M N A
pure a vm = ok a vm

infixl 5 ◌>>=◌ ◌>>◌
unfoldable pub ◌>>=◌ : {N A B : Type 0} → M N A → (A → M N B) → M N B
unfolding pure
◌>>=◌ m f vm = elim (m vm) [
  | ok a vm' ↦ f a vm'
  | raised vm' ↦ raised vm'
  | finished v vm' ↦ finished v vm'
  | to_native vm' ↦ to_native vm'
  | fault ↦ fault
  | no_fuel ↦ no_fuel
]

abbrev pub ◌>>◌ : {N B : Type 0} → M N (Unit {0}) → M N B → M N B
m >> k = m >>= λ _. k

pub bind-ok :
    {N A B : Type 0} (m : M N A) (f : A → M N B) (vm vm' : Vm N) (a : A)
    → m vm ≡ ok a vm'
    → (m >>= f) vm ≡ f a vm'
unfolding ◌>>=◌
bind-ok {N = N} {A = A} {B = B} m f vm vm' a e =
    let continue : Outcome N A → Outcome N B = λ o. elim o [
      | ok a vm' ↦ f a vm'
      | raised vm' ↦ raised vm'
      | finished v vm' ↦ finished v vm'
      | to_native vm' ↦ to_native vm'
      | fault ↦ fault
      | no_fuel ↦ no_fuel
    ] in
    ap continue e

-- Where a block returns, so do its first action and the rest.
pub bind-inv :
    {N A B : Type 0} (m : M N A) (f : A → M N B) (vm vm'' : Vm N) (b : B)
    → (m >>= f) vm ≡ ok b vm''
    → (a : A) × (vm' : Vm N) × (m vm ≡ ok a vm') × (f a vm' ≡ ok b vm'')
unfolding ◌>>=◌
bind-inv {N = N} {A = A} {B = B} m f vm vm'' b e = inverted (m vm) e
  where
    inverted :
        (o : Outcome N A)
        → (elim o as (λ _. Outcome N B) [
          | ok a vm' ↦ f a vm'
          | raised vm' ↦ raised vm'
          | finished v vm' ↦ finished v vm'
          | to_native vm' ↦ to_native vm'
          | fault ↦ fault
          | no_fuel ↦ no_fuel
        ])
          ≡ ok b vm''
        → (a : A) × (vm' : Vm N) × (o ≡ ok a vm') × (f a vm' ≡ ok b vm'')
    inverted (ok a vm') h = (a, vm', refl, h)
    inverted (raised vm') h = absurd (ground arith)
    inverted (finished v vm') h = absurd (ground arith)
    inverted (to_native vm') h = absurd (ground arith)
    inverted fault h = absurd (ground arith)
    inverted no_fuel h = absurd (ground arith)

module _ {N : Type 0} where
  unfoldable pub gets : {A : Type 0} → (Vm N → A) → M N A
  gets f vm = ok (f vm) vm

  unfoldable pub stop : {A : Type 0} → M N A
  stop vm = fault

  unfoldable pub or_fault : {A : Type 0} → Option A → M N A
  or_fault none vm = fault
  or_fault (some a) vm = ok a vm

  unfoldable pub or_no_fuel : {A : Type 0} → Option A → M N A
  or_no_fuel none vm = no_fuel
  or_no_fuel (some a) vm = ok a vm

  -- `runtime_error`: only the flag is kept of the report.
  unfoldable pub runtime_error : {A : Type 0} → M N A
  runtime_error vm = raised (record vm { has_error = true })

  -- `push`, with the assertion that there is a slot left.
  unfoldable pub push : Value N → M N (Unit {0})
  push v vm =
      if ltb (length vm.stack) vm.size then ok tt (record vm { stack = v ∷ vm.stack }) else fault

  abbrev pop_from : List (Value N) → M N (Value N)
  pop_from [] vm = fault
  pop_from (v ∷ rest) vm = ok v (record vm { stack = rest })

  unfoldable pub pop : M N (Value N)
  pop vm = pop_from vm.stack vm

  unfoldable pub popn : ℕ → M N (Unit {0})
  popn n vm =
      if leb n (length vm.stack) then ok tt (record vm { stack = drop n vm.stack }) else fault

  -- `PEEK(depth)`, read and written.
  unfoldable pub peek : ℕ → M N (Value N)
  unfolding or_fault
  peek depth vm = or_fault (get_elem? vm.stack (depth - 1)) vm

  unfoldable pub poke : ℕ → Value N → M N (Unit {0})
  poke depth v vm =
      if ltb (depth - 1) (length vm.stack)
      then ok tt (record vm { stack = set vm.stack (depth - 1) v })
      else fault

  -- A slot, read and written.
  unfoldable pub read_slot : ℕ → M N (Value N)
  unfolding or_fault
  read_slot slot vm =
      if ltb slot (length vm.stack)
      then or_fault (get_elem? vm.stack (length vm.stack - 1 - slot)) vm
      else fault

  unfoldable pub write_slot : ℕ → Value N → M N (Unit {0})
  write_slot slot v vm =
      if ltb slot (length vm.stack)
      then ok tt (record vm { stack = set vm.stack (length vm.stack - 1 - slot) v })
      else fault

  -- `NEXT_BYTE`, `FETCH_SHORT` and `READ_VALUE`
  unfoldable pub next_byte : M N ℕ
  next_byte vm = elim (get_elem? (vm.codeblocks vm.block).code vm.ip) [
    | none ↦ fault
    | some byte ↦ ok (byte % 256) (record vm { ip = vm.ip + 1 })
  ]

  unfoldable pub next_short : M N ℕ
  next_short = do high ← next_byte; low ← next_byte; pure (high * 2 ^ 8 + low)

  unfoldable pub read_value : M N (Value N)
  read_value = do
    index ← next_byte
    pool ← gets (λ vm. (vm.codeblocks vm.block).constant_pool)
    or_fault (get_elem? pool index)

  -- `ip += n` and `ip -= n`
  unfoldable pub jump : ℕ → M N (Unit {0})
  jump n vm = ok tt (record vm { ip = vm.ip + n })

  unfoldable pub jump_back : ℕ → M N (Unit {0})
  jump_back n vm = if leb n vm.ip then ok tt (record vm { ip = vm.ip - n }) else fault

  unfoldable pub current_frame : M N CallFrame
  current_frame vm = elim vm.frames [ [] ↦ fault | frame ∷ rest ↦ ok frame vm ]

  -- A new object is at the next address.
  unfoldable pub make_list : M N (Value N)
  make_list vm =
      let a = vm.next in
      let h = record vm.heap {
        lists = updated vm.heap.lists a (record { capacity = 8; values = [] });
      } in
      ok (object (record { tag = ObjType.list; addr = a })) (record vm { heap = h; next = a + 1 })
