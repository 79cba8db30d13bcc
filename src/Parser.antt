-- ===== src/Parser.antt =====
-- The compiler of tx-runtime/include/tx/compiler.hxx and compiler_inl.hxx: a parser that emits byte
-- code while it reads tokens. The parser's operations are actions on its state, in the modules below.
pub mod State
pub mod Tokens
pub mod Emit
pub mod Scopes
pub mod Loops
pub mod Variables
pub mod Globals
pub mod Types
pub mod Rules
pub mod Steps
pub mod Grammar
pub mod Compile
pub mod Keeps
pub mod Invariant
pub mod Sound
pub mod Errors
pub mod PoppedLocals
pub mod Leads
pub mod Closures
pub mod Jumps
