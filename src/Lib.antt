-- ===== src/Lib.antt =====
-- Vyse, a scripting language: source text is scanned to tokens, a one-pass compiler emits bytecode
-- into the blocks of functions, and a stack machine runs it, with hash tables, lists and strings as
-- its objects and closures that capture variables through upvalues.
--
-- The parts, and the files that model them:
-- * Values (include/value.hpp, src/value.cpp): Value.antt. A `Value` is a data type with the tags of
--   `ValueType`; a pointer to an object is its tag with its address. A `number` is a C++ double,
--   whose operations are the record `Floats`, with what IEEE 754 says of `==` in `FloatLaws`.
-- * Hash tables (include/table.hpp, src/table.cpp): Table.antt has the entries, `search_entry`,
--   `get`, `set`, `remove`, `ensure_capacity` and `delete_white_string_keys` (here `get`,
--   `set_entry`, `remove`, ...); Table/Hash.antt has `hash_value`. Table/Ring.antt,
--   Table/Placement.antt and Table/Counts.antt follow the probe loops and count used slots;
--   Table/Capacity.antt, Table/Methods.antt, Table/Insert.antt and Table/Store.antt build the
--   well-formedness of a table and the theorems on its methods.
-- * Tokens (include/token.hpp, src/syntax/token.cpp): Token.antt.
-- * The scanner (include/scanner.hpp, src/syntax/scanner.cpp): Scanner.antt has `next_token`,
--   Scanner/Cursor.antt the state and its steps, Scanner/Lexeme.antt the kinds of lexeme. The other
--   files below Scanner are about its termination. `string::at` past the end is the result
--   `out_of_range`.
-- * Opcodes (include/opcode.hpp, include/x_opcode.hpp): Opcode.antt.
-- * The compiler's back end (include/compiler.hpp, src/syntax/compiler.cpp, src/syntax/block.cpp):
--   Compiler/Emit.antt emits and patches code, Compiler/Jumps.antt and Compiler/Arity.antt are about
--   jumps and operand counts (of `op_arity`), Compiler/Operators.antt has `toktype_to_op`, Compiler/Symbols.antt has
--   the symbol tables and `find_upvalue` over the chain of enclosing functions, Compiler/Names.antt
--   is about declaring and finding names, Compiler/Upvalues.antt about what an upvalue index stands
--   for, and Compiler/Scope.antt has the blocks and the drops before `break` and `continue`.
-- * The parser (include/compiler.hpp, src/syntax/compiler.cpp): Compiler/Parser.antt has its state,
--   with the chain of compilers, and the steps on tokens, blocks and tables;
--   Compiler/Parser/Functions.antt (functions and blocks), Compiler/Parser/Names.antt (literals and
--   names), Compiler/Parser/Suffixes.antt, Compiler/Parser/Levels.antt (operators),
--   Compiler/Parser/Loops.antt, Compiler/Parser/Targets.antt (calls and assignments) and
--   Compiler/Parser/Statements.antt have a definition for each parse function, and
--   Compiler/Parser/Grammar.antt ties them together to `parse` and `compile`. Where the source calls a
--   parse function behind a token that it has eaten, or goes round a loop, the definitions call a
--   parameter `rec` with a `Rule`, which `parse` fills on fuel. Compiler/Parser/Growth.antt and
--   Compiler/Parser/Balance.antt with its children are about what a parse function leaves as it was,
--   and Compiler/Parser/Progress.antt with its children about how near to the end it brings the parser.
-- * The machine (include/vm_stack.hpp, src/runtime/vm.cpp): Runtime/OpenUpvalues.antt has
--   `capture_upvalue` and `close_upvalues_upto`, Runtime/Sharing.antt and Runtime/Closing.antt their
--   laws, Runtime/Stack.antt the growth of the stack, on addresses, with `realloc`'s answer as an
--   argument, and Runtime/PowTwo.antt `pow2ceil`.
-- * The garbage collector (include/gc.hpp, src/runtime/gc.cpp): Runtime/Collector.antt has
--   `mark_object`, the `trace` functions of the objects and the loop of `GC::trace`,
--   Runtime/Reachable.antt the invariant of that loop, and Runtime/Marking.antt that it ends.
--   Runtime/Sweep.antt has the roots, `sweep` and `collect_garbage`, and Runtime/Cycle.antt is about
--   a whole cycle. Runtime/Held.antt says which objects refer to which and where the roots are, read
--   off the objects. What the tracer of user data marks is part of the object.
-- * Member access (include/vm.hpp, src/runtime/vm.cpp): Runtime/Access.antt and
--   Runtime/Subscript.antt have `get_proto`, `get_subscript_of_value`, `subscript_set` and their
--   kin over a heap that gives the object at an address; Runtime/Members.antt is about both.
-- * Strings (include/string.hpp, src/string.cpp, src/table.cpp): Runtime/Strings.antt has
--   `hash_cstring` and `find_string`; `make_string` is in Runtime/Objects.antt. Runtime/TextSearch.antt
--   and Runtime/Interning.antt are about both.
-- * The interpreter (include/vm.hpp, include/vm_stack.hpp, include/function.hpp,
--   src/runtime/vm.cpp): Runtime/Machine.antt has the state, the record `Vm`, and the steps of
--   `push`, `pop`, `NEXT_BYTE` and their kin, as actions `M` on it; an action returns or ends the run.
--   Runtime/Objects.antt has the actions on objects, Runtime/Calls.antt `op_call` with the frames,
--   Runtime/Operators.antt, Runtime/Control.antt, Runtime/Variables.antt and Runtime/Containers.antt
--   the cases of the `switch` in `run`, and Runtime/Run.antt its dispatch (`execute`), `call` and
--   `invoke_script`. The collector does not run between instructions, so an object, once made, stays.
--   Runtime/Effect.antt and its children follow the height of the stack through all of these;
--   Runtime/Returns.antt, Runtime/NativeCalls.antt, Runtime/Errors.antt and Runtime/Endless.antt are
--   about returns, calls of native functions, failures and calls that never end. Native functions are the field `native` of the record `Env`; what is
--   asked of them is `HostKeeps` in Runtime/Effect/Natives.antt: that they leave the stack and the
--   frames, as `call_cclosure` relies on.
-- * Lists (include/list.hpp, src/list.cpp, src/stdlib/vy_list.cpp): Runtime/Lists.antt and
--   Runtime/Elements.antt have the object; Runtime/ListCalls.antt has the functions that scripts
--   call, which call back into the machine, and Runtime/Filling.antt is about `fill` and `reduce`.
--
-- Numbers are natural numbers, with wrap-around written out where the source's type is 32 or 64 bits
-- wide and the value can reach that far. The loops of the hash table take the number of slots as
-- fuel, which is enough since a well-formed table has a free slot; the loops of the scanner take
-- fuel from the length of the source, which each of their rounds shortens; the loop of the collector
-- needs a round for each object and one more. The parser takes a unit of fuel for a call behind a token,
-- which shortens what is left, and for the few calls between two tokens. A script may run for ever, so `run` takes fuel, and
-- `op_call` takes fuel for the `__call` members that it follows, which may be endless.
--
-- Slots of the value stack above its top hold nothing: reading or writing one is a fault, and an
-- upvalue that is closed there takes nil, where the source takes what the memory holds. `hash_value`
-- is 0 where the source has an assertion, for nil and the values that no table takes as a key.
--
-- Not modelled: when the collector is called, and the standard
-- library but for the functions of lists; formatted output, the text of error reports, dynamic loading and
-- the command line only call host libraries.
mod Common
pub mod Value
pub mod Table
pub mod Token
pub mod Scanner
pub mod Opcode
pub mod Compiler
pub mod Runtime
mod Tests
