-- ===== src/Runtime/Sweep.antt =====
-- A cycle of the collector: the roots, the sweep and `collect_garbage`, in src/runtime/gc.cpp,
-- include/gc.hpp and src/runtime/vm.cpp.
use bad_snap.Common.{
  ℕ, suc, ◌+◌, ◌-◌, ◌^◌, ◌%◌, Bool, not, ◌&&◌, Option, none, some, List, [], ◌∷◌, ◌++◌,
  if◌then◌else◌, length, leb, leb, ◌==◌,
}
use bad_snap.Runtime.Access.{Prototypes}
use bad_snap.Runtime.Collector.{Body, marked_by, marked_by_all, Marking, mark_objects, trace_gray}
use bad_snap.Runtime.Reachable.{is_gray}
use bad_snap.Table.{Table, delete_white_string_keys}
use bad_snap.Value.{Value}

-- Where the collector looks for roots: the stack, the functions of the call frames, the open
-- upvalues, the protected objects, the global variables, the prototypes and the code blocks of the
-- compilers that are at work.
pub record Roots (N : Type 0) : Type 0 where
  pub stack : List (Value N)
  pub frames : List ℕ
  pub open_upvals : List ℕ
  pub extra_roots : List ℕ
  pub global_vars : List (ℕ × Value N)
  pub prototypes : Prototypes
  pub compilers : List ℕ

unfoldable pub pointers : List ℕ → List (Option ℕ)
pointers [] = []
pointers (a ∷ as') = some a ∷ pointers as'

module _ {N : Type 0} where
  unfoldable pub global_roots : List (ℕ × Value N) → List (Option ℕ)
  unfolding marked_by
  global_roots [] = []
  global_roots ((name, v) ∷ rest) = some name ∷ marked_by v ∷ global_roots rest

  -- What `mark` and `mark_compiler_roots` mark, in order.
  unfoldable pub root_list : Roots N → List (Option ℕ)
  unfolding marked_by_all pointers global_roots
  root_list r =
      marked_by_all r.stack
      ++ pointers r.frames
      ++ pointers r.open_upvals
      ++ pointers r.extra_roots
      ++ global_roots r.global_vars
      ++ pointers (
          r.prototypes.string ∷ r.prototypes.number ∷ r.prototypes.boolean ∷ r.prototypes.list ∷ [])
      ++ pointers r.compilers

-- The collector's state: `m_objects`, the mark bits and the counts of bytes.
pub record Gc : Type 0 where
  pub objects : List ℕ
  pub marked : ℕ → Bool
  pub bytes_allocated : ℕ
  pub next_gc : ℕ
  pub can_collect : Bool

-- The loop of `sweep`: the objects that stay, and the bytes of the others.
unfoldable pub sweep_objects : (ℕ → ℕ) → (ℕ → Bool) → List ℕ → List ℕ × ℕ
sweep_objects size marked [] = ([], 0)
sweep_objects size marked (o ∷ next) =
    let (kept, freed) = sweep_objects size marked next in
    if marked o then (o ∷ kept, freed) else (kept, freed + size o)

-- The mark bits after `sweep`.
unfoldable pub unmark : (ℕ → Bool) → List ℕ → ℕ → Bool
unfolding is_gray
unmark marked objects a = marked a && not (is_gray a objects)

-- `size` gives `size()` of each object, and `limit` the product with `1 + GCHeapGrowth`, which is
-- one of floating-point numbers.
module _ (size limit : ℕ → ℕ) where
  unfoldable pub sweep : (ℕ → Bool) → Gc → ℕ × Gc
  unfolding sweep_objects unmark
  sweep marked gc =
      let (kept, freed) = sweep_objects size marked gc.objects in
      let bytes = (gc.bytes_allocated + 2 ^ 64 - freed) % 2 ^ 64 in
      (
        freed,
        record gc {
          objects = kept;
          marked = unmark marked gc.objects;
          bytes_allocated = bytes;
          next_gc = limit bytes;
        },
      )

  module _ {N : Type 0} (heap : ℕ → Body N) where
    -- What a sweep leaves: the bytes that were freed, the interned strings and the state.
    unfoldable pub finish : Table N → Gc → Marking → ℕ × Table N × Gc
    unfolding sweep delete_white_string_keys
    finish strings gc s =
        let (freed, gc') = sweep s.marked gc in
        (freed, delete_white_string_keys s.marked strings, gc')

    unfoldable pub after_trace : Table N → Gc → Option Marking → Option (ℕ × Table N × Gc)
    after_trace strings gc none = none
    after_trace strings gc (some s) = some (finish strings gc s)

    -- `collect_garbage`
    unfoldable pub collect_garbage : Roots N → Table N → Gc → Option (ℕ × Table N × Gc)
    collect_garbage roots strings gc =
        let start : Marking = record { marked = gc.marked; gray = [] } in
        if gc.can_collect
        then after_trace strings gc
            (trace_gray heap (suc (length gc.objects)) (mark_objects (root_list roots) start))
        else some (0, strings, gc)

    unfoldable pub link : ℕ → Option (ℕ × Table N × Gc) → Option (Table N × Gc)
    link o none = none
    link o (some (freed, strings, gc)) = some (
      strings,
      record gc {
        objects = o ∷ gc.objects;
        bytes_allocated = (gc.bytes_allocated + size o) % 2 ^ 64;
      },
    )

    -- `register_object`: a cycle first, where the limit is reached, and then the object joins the
    -- list. The object is not in the list while the cycle runs.
    unfoldable pub register_object : ℕ → Roots N → Table N → Gc → Option (Table N × Gc)
    register_object o roots strings gc = link o (
        if leb gc.next_gc gc.bytes_allocated
        then collect_garbage roots strings gc
        else some (0, strings, gc))

-- `protect` and `unprotect`, on the set of extra roots.
unfoldable pub unprotect : ℕ → List ℕ → List ℕ
unprotect o [] = []
unprotect o (r ∷ rs) = if r == o then unprotect o rs else r ∷ unprotect o rs

unfoldable pub protect : ℕ → List ℕ → List ℕ
unfolding unprotect
protect o rs = o ∷ unprotect o rs
