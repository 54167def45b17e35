-- ===== src/Tests/Parsing.antt =====
-- The parser of src/syntax/compiler.cpp on short scripts.
use bad_snap.Common.{
  ℕ, ◌≡◌, refl, Bool, true, false, Option, some, none, List, [], ◌∷◌, codes, map, length, arith,
  ◌<◌, ◌^◌,
}
use bad_snap.Compiler.Parser.{Literals, Function, Parser, Parsed, ok, no_fuel}
use bad_snap.Compiler.Parser.Functions.{toplevel_rule}
use bad_snap.Compiler.Parser.Grammar.{compile, parse, start}
use bad_snap.Compiler.Parser.Balance.{Balanced}
use bad_snap.Compiler.Parser.Balance.Grammar.{parse-Balanced}
use bad_snap.Compiler.Parser.Progress.Script.{compile_ends}
use bad_snap.Scanner.Total.{EndsWell}
use bad_snap.Token.{TokenType}

-- Constants by their texts.
abbrev literals : Literals (List ℕ)
literals = record {
  stod = λ text. some text;
  one = codes "1";
  string = λ text. text;
  boolean = λ b. [];
  codeblock = λ n. n ∷ [];
}

-- The code and the error flag of the script.
result : Parsed (List ℕ) (Function (List ℕ)) → Option (List ℕ × Bool)
result (ok f s) = some (f.emitter.code, f.emitter.has_error)
result _ = none

-- The code of the first function that is finished.
first_function : Parsed (List ℕ) (Function (List ℕ)) → List (List ℕ)
first_function (ok f s) = map (λ f. f.emitter.code) s.finished
first_function _ = []

-- Two constants are loaded and added; then come the end of the script's own code.
sum_compiles :
    result (compile (codes "let x = 1 + 2") literals 30)
    ≡ some (0 ∷ 0 ∷ 0 ∷ 1 ∷ 14 ∷ 37 ∷ 39 ∷ [], false)
unfolding result compile
sum_compiles = refl

-- The function takes the local of slot 1 as its upvalue.
closure_compiles :
    result (compile (codes "let x = 1 fn g(y) { return x + y }") literals 30)
    ≡ some (0 ∷ 0 ∷ 10 ∷ 1 ∷ 1 ∷ 1 ∷ 1 ∷ 37 ∷ 39 ∷ [], false)
unfolding result compile
closure_compiles = refl

while_compiles :
    result (compile (codes "while a { break }") literals 30)
    ≡ some (1 ∷ 0 ∷ 50 ∷ 0 ∷ 6 ∷ 46 ∷ 0 ∷ 3 ∷ 47 ∷ 0 ∷ 11 ∷ 37 ∷ 39 ∷ [], false)
unfolding result compile
while_compiles = refl

-- Behind `table_get_no_pop`, 5, comes the next opcode, 0, in place of an operand.
first_field_lacks_operand :
    first_function (compile (codes "fn g(t) { t.x += 1 }") literals 30)
    ≡ (7 ∷ 1 ∷ 5 ∷ 0 ∷ 1 ∷ 14 ∷ 4 ∷ 0 ∷ 13 ∷ 37 ∷ 39 ∷ []) ∷ []
unfolding first_function compile
first_field_lacks_operand = refl

flag_of : Parsed (List ℕ) (Function (List ℕ)) → Option Bool
flag_of (ok f s) = some f.emitter.has_error
flag_of _ = none

-- A comma is missing in both scripts.
error_kept : flag_of (compile (codes "f([fn() {}, 1 2])") literals 30) ≡ some true
unfolding flag_of compile
error_kept = refl

error_forgotten : flag_of (compile (codes "f([1 2, fn() {}])") literals 30) ≡ some false
unfolding flag_of compile
error_forgotten = refl

-- The state before a block, and after it.
abbrev block_text : List ℕ
block_text = codes "{ let x = 1 }"

abbrev before : Parser (List ℕ)
before = record start {
  scanner = record { line = 1; column = 1; start = 0; current = 1 };
  peek = record { type = TokenType.lcurl_brace; start = 0; length = 1; line = 1 };
}

abbrev state_of : Parsed (List ℕ) (Unit {0}) → Parser (List ℕ)
state_of (ok t s) = s
state_of _ = before

abbrev after : Parser (List ℕ)
after = state_of (parse block_text literals 12 toplevel_rule before)

parse-Balanced_example : Balanced before after
unfolding compile
parse-Balanced_example = parse-Balanced block_text literals 12 toplevel_rule before after refl

block_small : length block_text < 2 ^ 32
block_small = omega arith

block_EndsWell : EndsWell block_text block_small
block_EndsWell i end = let at : i ≡ 12 = omega arith in rw at (λ e. omega arith)

compile_ends_example : ¬ (compile block_text literals 100 ≡ no_fuel)
compile_ends_example = compile_ends block_text block_small block_EndsWell literals 100 (omega arith)
