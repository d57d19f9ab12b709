-- ===== src/Wasm/Calls.antt =====
-- Sequences of calls of the module builder of codegen/wasm_encode.c, and the entries that they add.
use arche.Base.{ℕ, Bool, true, false, ◌≡◌, refl}
use arche.Base.{List, [], ◌∷◌, ◌++◌, Bytes}
use arche.Base.{Option, none, some}
use arche.Base.Int.{ℤ}
use arche.Wasm.Buffer.{WasmBuf, wb_init}
use arche.Wasm.Module.{WasmModule, wm_init, wm_type, wm_import_func, wm_memory, wm_global_i32}
use arche.Wasm.Module.{wm_func}
use arche.Wasm.Module.{wm_code, wm_export_func, wm_export_mem, wm_export_global, wm_start}
use arche.Wasm.Module.{wm_data, export_as}
use arche.Wasm.Written.{u_bytes, bytes-wb_u, written}
use arche.Wasm.Entries.{Entries, no_entries, Holds, Holds-none, Holds-add}
use arche.Wasm.Entries.{type_entry, import_entry, global_entry, export_entry, body_entry}
use arche.Wasm.Entries.{segment_entry}

-- The calls that build a module.
pub data Call : Type 0 where
  add_type : Bytes → Bytes → Call
  import_func : Bytes → ℕ → Call
  declare_memory : ℕ → Call
  add_global : Bool → ℤ → Call
  add_func : ℕ → Call
  add_code : List (ℕ × ℕ) → WasmBuf → Call
  export_func : Bytes → ℕ → Call
  export_mem : Bytes → Call
  export_global : Bytes → ℕ → Call
  set_start : ℕ → Call
  add_data : ℕ → Bytes → Call

unfoldable pub perform : WasmModule → Call → WasmModule
perform m (add_type params results) = (wm_type m params results).0
perform m (import_func field idx) = (wm_import_func m field idx).0
perform m (declare_memory pages) = wm_memory m pages
perform m (add_global is_mutable init) = (wm_global_i32 m is_mutable init).0
perform m (add_func idx) = (wm_func m idx).0
perform m (add_code locals body) = wm_code m locals body
perform m (export_func name idx) = wm_export_func m name idx
perform m (export_mem name) = wm_export_mem m name
perform m (export_global name idx) = wm_export_global m name idx
perform m (set_start idx) = wm_start m idx
perform m (add_data offset bytes) = wm_data m offset bytes

-- What a call adds to the entries.
abbrev pub note : Entries → Call → Entries
note e (add_type params results) = record e { types = e.types ++ (params, results) ∷ [] }
note e (import_func field idx) = record e { imports = e.imports ++ (field, idx) ∷ [] }
note e (declare_memory pages) = record e { memory = some pages }
note e (add_global is_mutable init) = record e { globals = e.globals ++ (is_mutable, init) ∷ [] }
note e (add_func idx) = record e { funcs = e.funcs ++ idx ∷ [] }
note e (add_code locals body) = record e { bodies = e.bodies ++ (locals, body.bytes) ∷ [] }
note e (export_func name idx) = record e { exports = e.exports ++ (0x00, name, idx) ∷ [] }
note e (export_mem name) = record e { exports = e.exports ++ (0x02, name, 0) ∷ [] }
note e (export_global name idx) = record e { exports = e.exports ++ (0x03, name, idx) ∷ [] }
note e (set_start idx) = record e { start = some idx }
note e (add_data offset bytes) = record e { segments = e.segments ++ (offset, bytes) ∷ [] }

-- A flag and a value hold an optional number.
abbrev pub HoldsOption : Bool → ℕ → Option ℕ → Type 0
HoldsOption flag v none = flag ≡ false
HoldsOption flag v (some n) = (flag ≡ true) × (v ≡ n)

-- The module holds the entries, section by section.
pub record Describes (e : Entries) (m : WasmModule) : Type 0 where
  pub types_are : Holds type_entry m.types m.type_count e.types
  pub imports_are : Holds import_entry m.imports m.import_count e.imports
  pub funcs_are : Holds u_bytes m.funcs m.func_count e.funcs
  pub memory_is : HoldsOption m.has_memory m.mem_min e.memory
  pub globals_are : Holds global_entry m.globals m.global_count e.globals
  pub exports_are : Holds export_entry m.exports m.export_count e.exports
  pub start_is : HoldsOption m.has_start m.start_idx e.start
  pub bodies_are : Holds body_entry m.code m.code_count e.bodies
  pub segments_are : Holds segment_entry m.segments m.data_count e.segments

bytes-wm_type :
    (m : WasmModule) (params results : Bytes)
    → (wm_type m params results).0.types.bytes ≡ m.types.bytes ++ type_entry (params, results)
unfolding wm_type
bytes-wm_type m params results = simp written

bytes-wm_import_func :
    (m : WasmModule) (field : Bytes) (idx : ℕ)
    → (wm_import_func m field idx).0.imports.bytes ≡ m.imports.bytes ++ import_entry (field, idx)
unfolding wm_import_func
bytes-wm_import_func m field idx = simp written

bytes-wm_global_i32 :
    (m : WasmModule) (is_mutable : Bool) (init : ℤ)
    → (wm_global_i32 m is_mutable init).0.globals.bytes
      ≡ m.globals.bytes ++ global_entry (is_mutable, init)
unfolding wm_global_i32
bytes-wm_global_i32 m is_mutable init = simp written

bytes-wm_code :
    (m : WasmModule) (locals : List (ℕ × ℕ)) (body : WasmBuf)
    → (wm_code m locals body).code.bytes ≡ m.code.bytes ++ body_entry (locals, body.bytes)
unfolding wm_code wb_init
bytes-wm_code m locals body = simp written

bytes-export_as :
    (kind : ℕ) (m : WasmModule) (name : Bytes) (idx : ℕ)
    → (export_as kind m name idx).exports.bytes ≡ m.exports.bytes ++ export_entry (kind, name, idx)
unfolding export_as
bytes-export_as kind m name idx = simp written

bytes-wm_data :
    (m : WasmModule) (offset : ℕ) (bytes : Bytes)
    → (wm_data m offset bytes).segments.bytes ≡ m.segments.bytes ++ segment_entry (offset, bytes)
unfolding wm_data
bytes-wm_data m offset bytes = simp written

perform-Describes :
    (e : Entries) (m : WasmModule) (c : Call) → Describes e m → Describes (note e c) (perform m c)
unfolding perform wm_type wm_import_func wm_memory wm_global_i32 wm_func wm_code wm_export_func
    wm_export_mem wm_export_global wm_start wm_data export_as
perform-Describes e m (add_type params results) d =
    let h =
      Holds-add type_entry (perform m (add_type params results)).types (params, results) d.types_are
        (bytes-wm_type m params results) in
    assumption (h.bytes_is, h.count_is)
perform-Describes e m (import_func field idx) d =
    let h =
      Holds-add import_entry (perform m (import_func field idx)).imports (field, idx) d.imports_are
        (bytes-wm_import_func m field idx) in
    assumption (h.bytes_is, h.count_is)
perform-Describes e m (declare_memory pages) d = assumption (t, n)
  where
    t : true ≡ true
    t = refl

    n : pages ≡ pages
    n = refl
perform-Describes e m (add_global is_mutable init) d =
    let h =
      Holds-add global_entry (perform m (add_global is_mutable init)).globals (is_mutable, init)
        d.globals_are (bytes-wm_global_i32 m is_mutable init) in
    assumption (h.bytes_is, h.count_is)
perform-Describes e m (add_func idx) d =
    let h =
      Holds-add u_bytes (perform m (add_func idx)).funcs idx d.funcs_are (bytes-wb_u m.funcs idx) in
    assumption (h.bytes_is, h.count_is)
perform-Describes e m (add_code locals body) d =
    let h =
      Holds-add body_entry (perform m (add_code locals body)).code (locals, body.bytes) d.bodies_are
        (bytes-wm_code m locals body) in
    assumption (h.bytes_is, h.count_is)
perform-Describes e m (export_func name idx) d =
    let h =
      Holds-add export_entry (perform m (export_func name idx)).exports (0x00, name, idx)
        d.exports_are (bytes-export_as 0x00 m name idx) in
    assumption (h.bytes_is, h.count_is)
perform-Describes e m (export_mem name) d =
    let h =
      Holds-add export_entry (perform m (export_mem name)).exports (0x02, name, 0) d.exports_are
        (bytes-export_as 0x02 m name 0) in
    assumption (h.bytes_is, h.count_is)
perform-Describes e m (export_global name idx) d =
    let h =
      Holds-add export_entry (perform m (export_global name idx)).exports (0x03, name, idx)
        d.exports_are (bytes-export_as 0x03 m name idx) in
    assumption (h.bytes_is, h.count_is)
perform-Describes e m (set_start idx) d = assumption (t, n)
  where
    t : true ≡ true
    t = refl

    n : idx ≡ idx
    n = refl
perform-Describes e m (add_data offset bytes) d =
    let h =
      Holds-add segment_entry (perform m (add_data offset bytes)).segments (offset, bytes)
        d.segments_are (bytes-wm_data m offset bytes) in
    assumption (h.bytes_is, h.count_is)

unfoldable pub perform_all : WasmModule → List Call → WasmModule
perform_all m [] = m
perform_all m (c ∷ cs) = perform_all (perform m c) cs

abbrev pub note_all : Entries → List Call → Entries
note_all e [] = e
note_all e (c ∷ cs) = note_all (note e c) cs

pub perform_all-Describes :
    (cs : List Call) (e : Entries) (m : WasmModule)
    → Describes e m
    → Describes (note_all e cs) (perform_all m cs)
unfolding perform_all
perform_all-Describes [] e m d = d
perform_all-Describes (c ∷ cs) e m d =
    perform_all-Describes cs (note e c) (perform m c) (perform-Describes e m c d)

pub wm_init-Describes : Describes no_entries wm_init
unfolding wm_init
wm_init-Describes = record {
  types_are = Holds-none type_entry;
  imports_are = Holds-none import_entry;
  funcs_are = Holds-none u_bytes;
  memory_is = refl;
  globals_are = Holds-none global_entry;
  exports_are = Holds-none export_entry;
  start_is = refl;
  bodies_are = Holds-none body_entry;
  segments_are = Holds-none segment_entry;
}
