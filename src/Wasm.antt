-- ===== src/Wasm.antt =====
-- codegen/wasm_encode.c and codegen/wasm_encode.h: a writer of WebAssembly modules.
pub mod Buffer
pub mod Leb
pub mod SignedLeb
pub mod Module
pub mod Written
pub mod Sections
pub mod Entries
pub mod Calls
pub mod Refinement
mod Tests
