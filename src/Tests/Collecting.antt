-- ===== src/Tests/Collecting.antt =====
-- The collector on a few objects: src/runtime/gc.cpp.
use bad_snap.Table.{Entry, Table}
use bad_snap.Runtime.Cycle.{Collected, collect_garbage-Collected}
use bad_snap.Runtime.Sweep.{Gc, Roots, collect_garbage, root_list}
use bad_snap.Common.{
  ℕ, ◌≡◌, true, Option, none, some, List, [], ◌∷◌, ◌==◌, if◌then◌else◌, arith, false, refl,
}
use bad_snap.Runtime.Collector.{
  Body, list_body, string_body, trace_object, Marking, mark_objects, trace_gray, listed,
}
use bad_snap.Runtime.Held.{In, Reach}
use bad_snap.Runtime.Held.Listed.{listed-In, listed-Refers, listed-Rooted}
use bad_snap.Runtime.Marking.{Inside, unmarked, trace_gray-Reach}
use bad_snap.Runtime.Reachable.{is_gray}
use bad_snap.Value.{object, ObjType, bool}

-- A list at 1 that holds a string at 2; the other objects hold nothing.
unfoldable objects : ℕ → Body ℕ
objects a =
    if a == 1
    then list_body (object (record { tag = ObjType.string; addr = 2 }) ∷ [])
    else string_body

abbrev all : List ℕ
all = 1 ∷ 2 ∷ 3 ∷ []

abbrev roots : List (Option ℕ)
roots = none ∷ some 1 ∷ []

roots-Inside : Inside all roots
unfolding Inside listed is_gray
roots-Inside b l = ground arith

objects-Inside : (a : ℕ) → Inside all (trace_object (objects a))
unfolding Inside listed is_gray objects trace_object
objects-Inside a b l = ground arith

trace_gray-Reach_example :
    (s' : Marking) × (trace_gray objects 4 (mark_objects roots unmarked) ≡ some s')
    × ((a : ℕ) → Reach objects (λ b. In (some b) roots) a → s'.marked a ≡ true)
unfolding Inside
trace_gray-Reach_example =
    trace_gray-Reach objects all roots (λ b i. roots-Inside b (listed-In b roots i))
      λ a b r. objects-Inside a b (listed-Refers (objects a) b r)

-- The string at 4 cannot be reached, and is one of the interned ones.
abbrev four : List ℕ
four = 4 ∷ all

four-Inside : (a : ℕ) → Inside four (trace_object (objects a))
unfolding Inside listed is_gray objects trace_object
four-Inside a b l = ground arith

abbrev machine_roots : Roots ℕ
machine_roots = record {
  stack = object (record { tag = ObjType.list; addr = 1 }) ∷ [];
  frames = [];
  open_upvals = [];
  extra_roots = [];
  global_vars = [];
  prototypes = record { string = 3; number = 3; boolean = 3; list = 3 };
  compilers = [];
}

machine_roots-Inside : Inside four (root_list machine_roots)
unfolding Inside listed is_gray root_list
machine_roots-Inside b l = ground arith

abbrev interned_string : ℕ → Entry ℕ
interned_string a = record {
  key = object (record { tag = ObjType.string; addr = a });
  value = bool true;
  hash = 0;
  probe_distance = 0;
}

abbrev interned_strings : Table ℕ
interned_strings = record {
  proto_table = none;
  entries = interned_string 4 ∷ interned_string 2 ∷ [];
  num_entries = 2;
  num_tombstones = 0;
}

abbrev full : Gc
full = record {
  objects = four;
  marked = λ a. false;
  bytes_allocated = 64;
  next_gc = 64;
  can_collect = true;
}

collect_garbage-Collected_example :
    (freed : ℕ) × (strings' : Table ℕ) × (gc' : Gc) × (collect_garbage
        (λ a. 16)
        (λ n. n)
        objects
        machine_roots
        interned_strings
        full
      ≡ some (freed, strings', gc'))
    × Collected objects machine_roots full gc' strings'
unfolding Inside
collect_garbage-Collected_example =
    collect_garbage-Collected (λ a. 16) (λ n. n) objects machine_roots interned_strings full refl
      refl (λ b r. machine_roots-Inside b (listed-Rooted machine_roots b r))
      λ a b r. four-Inside a b (listed-Refers (objects a) b r)
