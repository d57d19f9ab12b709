-- ===== src/Wasm/Refinement.antt =====
-- The module builder of codegen/wasm_encode.c refines lists of entries.
use arche.Base.{ℕ, ◌+◌, Bool, ◌≡◌, ap, ap₂, ◌∙◌}
use arche.Base.{List, ◌++◌, length, Bytes}
use arche.Base.{Option, none, some}
use arche.Base.Int.{ℤ}
use arche.Wasm.Buffer.{WasmBuf}
use arche.Wasm.Module.{WasmModule, wm_init, wm_type, wm_import_func, wm_global_i32}
use arche.Wasm.Module.{wm_func}
use arche.Wasm.Module.{wm_finish}
use arche.Wasm.Written.{u_bytes}
use arche.Wasm.Sections.{sections, vec, memory_section, start_section, read_module}
use arche.Wasm.Sections.{read_module-wm_finish}
use arche.Wasm.Entries.{Entries, no_entries, Holds, sections_of, vec_of}
use arche.Wasm.Entries.{memory_of, start_of}
use arche.Wasm.Entries.{type_entry, import_entry, global_entry, export_entry, body_entry}
use arche.Wasm.Entries.{segment_entry}
use arche.Wasm.Calls.{Call, perform_all, note_all, HoldsOption, Describes}
use arche.Wasm.Calls.{perform_all-Describes, wm_init-Describes}

vec-Holds {ℓ} :
    {A : Type ℓ} (id : ℕ) (entry : A → Bytes) {b : WasmBuf} {count : ℕ} {xs : List A}
    → Holds entry b count xs
    → vec id count b ≡ vec_of id entry xs
vec-Holds id entry h = rw (h.count_is, h.bytes_is)

memory-HoldsOption :
    (m : WasmModule) (o : Option ℕ)
    → HoldsOption m.has_memory m.mem_min o
    → memory_section m ≡ memory_of o
memory-HoldsOption m none h = rw h
memory-HoldsOption m (some pages) (h, e) = rw (h, e)

start-HoldsOption :
    (m : WasmModule) (o : Option ℕ)
    → HoldsOption m.has_start m.start_idx o
    → start_section m ≡ start_of o
start-HoldsOption m none h = rw h
start-HoldsOption m (some idx) (h, e) = rw (h, e)

sections-Describes : {e : Entries} {m : WasmModule} → Describes e m → sections m ≡ sections_of e
sections-Describes {e} {m} d = ap₂ ◌++◌ (vec-Holds 1 type_entry d.types_are) (
    ap₂ ◌++◌ (vec-Holds 2 import_entry d.imports_are) (
      ap₂ ◌++◌ (vec-Holds 3 u_bytes d.funcs_are) (
        ap₂ ◌++◌ (memory-HoldsOption m e.memory d.memory_is) (
          ap₂ ◌++◌ (vec-Holds 6 global_entry d.globals_are) (
            ap₂ ◌++◌ (vec-Holds 7 export_entry d.exports_are) (
              ap₂ ◌++◌ (start-HoldsOption m e.start d.start_is) (
                ap₂ ◌++◌ (vec-Holds 10 body_entry d.bodies_are)
                  (vec-Holds 11 segment_entry d.segments_are))))))))

-- However a module is built by calls, the finished bytes are read back as the sections that the
-- WebAssembly format asks for the entries added, in the order of the calls: a section for each kind
-- that has entries, their count and the entries; the memory and the start function set last.
pub read_module-perform_all :
    (cs : List Call)
    → read_module (wm_finish (perform_all wm_init cs)).bytes
      ≡ some (sections_of (note_all no_entries cs))
read_module-perform_all cs =
    read_module-wm_finish (perform_all wm_init cs)
    ∙ ap some (sections-Describes (perform_all-Describes cs no_entries wm_init wm_init-Describes))

-- The index that a call returns is the number of the entry among those of its kind; a function that
-- the module defines is numbered behind the imports made so far.
pub indices_lem :
    (cs : List Call) (params results field : Bytes) (is_mutable : Bool) (init : ℤ) (idx : ℕ)
    → let m = perform_all wm_init cs in
      let e = note_all no_entries cs in
      ((wm_type m params results).1 ≡ length e.types)
      × ((wm_import_func m field idx).1 ≡ length e.imports)
      × ((wm_global_i32 m is_mutable init).1 ≡ length e.globals)
      × ((wm_func m idx).1 ≡ length e.imports + length e.funcs)
unfolding wm_type wm_import_func wm_global_i32 wm_func
indices_lem cs params results field is_mutable init idx =
    let d = perform_all-Describes cs no_entries wm_init wm_init-Describes in
    (
      d.types_are.count_is,
      d.imports_are.count_is,
      d.globals_are.count_is,
      ap₂ ◌+◌ d.imports_are.count_is d.funcs_are.count_is,
    )
