-- ===== src/Runtime.antt =====
-- The virtual machine's data structures: src/runtime, src/list.cpp, include/vm_stack.hpp.
pub mod OpenUpvalues
pub mod Closing
pub mod PowTwo
pub mod Elements
pub mod Lists
pub mod Stack
pub mod Sharing
pub mod Access
pub mod Subscript
pub mod Members
pub mod Collector
pub mod Held
pub mod Reachable
pub mod Marking
pub mod Strings
pub mod Machine
pub mod Objects
pub mod Calls
pub mod Operators
pub mod Control
pub mod Variables
pub mod Containers
pub mod Run
pub mod ListCalls
pub mod Filling
pub mod Effect
pub mod Returns
pub mod NativeCalls
pub mod Errors
pub mod Endless
pub mod Sweep
pub mod Cycle
pub mod TextSearch
pub mod Interning
