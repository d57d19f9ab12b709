-- ===== src/Compile.antt =====
-- compile/variant_select.c: which backend a build takes for each device.
pub mod Text
pub mod VariantMap
pub mod Manifest
pub mod Resolve
pub mod Entries
pub mod Keeping
pub mod Precedence
pub mod Tables
pub mod LibRoots
pub mod Roots
pub mod Resolved
pub mod Fuel
mod Tests
