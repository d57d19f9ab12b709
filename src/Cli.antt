-- ===== src/Cli.antt =====
-- cli/: the argument parser that every subcommand shares.
pub mod Spec
pub mod Args
pub mod Bounds
pub mod Forms
pub mod Line
pub mod Parsing
pub mod Lookup
mod Tests
