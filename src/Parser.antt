-- ===== src/Parser.antt =====
-- parser/parser.c: the parser of the language, which builds the syntax tree.
pub mod Kinds
pub mod State
pub mod Measure
pub mod Recovery
pub mod Steps
pub mod Monad
pub mod Recursion
pub mod Routines
pub mod Procs
pub mod Shared
pub mod Types
pub mod Forms
pub mod Kernels
pub mod Operands
pub mod Expressions
pub mod Statements
pub mod Blocks
pub mod Decls
pub mod Regions
pub mod Program
pub mod Ahead
pub mod Reads
pub mod Reading
pub mod Runs
pub mod Results
pub mod Errors
pub mod Grammar
pub mod Bodies
pub mod Kept
pub mod Lossless
mod Tests
