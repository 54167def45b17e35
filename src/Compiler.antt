-- ===== src/Compiler.antt =====
-- The compiler's back end: src/syntax/compiler.cpp, include/compiler.hpp, src/syntax/block.cpp.
pub mod Emit
pub mod Jumps
pub mod Symbols
pub mod Upvalues
pub mod Scope
pub mod Names
pub mod Arity
pub mod Operators
pub mod Parser
