-- ===== src/Wasm/Module.antt =====
-- codegen/wasm_encode.c `wm_*`: the module builder, one buffer and one count for each section.
use arche.Base.{ℕ, ◌+◌, ◌-◌, ◌^◌, Bool, true, false}
use arche.Base.{List, [], ◌∷◌, length, ltb, ◌==◌, if◌then◌else◌, Bytes, codes}
use arche.Base.Int.{ℤ, pos, negsuc}
use arche.Wasm.Buffer.{WasmBuf, len, wb_init, wb_byte, wb_bytes, wb_u, wb_i, wb_name}

pub record WasmModule : Type 0 where
  pub types : WasmBuf
  pub type_count : ℕ
  pub imports : WasmBuf
  pub import_count : ℕ
  pub funcs : WasmBuf
  pub func_count : ℕ
  pub globals : WasmBuf
  pub global_count : ℕ
  pub exports : WasmBuf
  pub export_count : ℕ
  pub code : WasmBuf
  pub code_count : ℕ
  pub segments : WasmBuf
  pub data_count : ℕ
  pub has_memory : Bool
  pub mem_min : ℕ
  pub has_start : Bool
  pub start_idx : ℕ

unfoldable pub wm_init : WasmModule
wm_init = record {
  types = wb_init;
  type_count = 0;
  imports = wb_init;
  import_count = 0;
  funcs = wb_init;
  func_count = 0;
  globals = wb_init;
  global_count = 0;
  exports = wb_init;
  export_count = 0;
  code = wb_init;
  code_count = 0;
  segments = wb_init;
  data_count = 0;
  has_memory = false;
  mem_min = 0;
  has_start = false;
  start_idx = 0;
}

-- `for (i = 0; i < n; i++) wb_byte(b, p[i]);`
unfoldable pub each_byte : WasmBuf → Bytes → WasmBuf
each_byte b [] = b
each_byte b (p ∷ ps) = each_byte (wb_byte b p) ps

-- The operations that number what they add return the number beside the module.
unfoldable pub wm_type : WasmModule → Bytes → Bytes → WasmModule × ℕ
wm_type m params results =
    let p = each_byte (wb_u (wb_byte m.types 0x60) (length params)) params in
    let r = each_byte (wb_u p (length results)) results in
    (record m { types = r; type_count = m.type_count + 1 }, m.type_count)

unfoldable pub wm_import_func : WasmModule → Bytes → ℕ → WasmModule × ℕ
wm_import_func m field type_idx =
    let named = wb_name (wb_name m.imports (codes "env")) field in
    (
      record m { imports = wb_u (wb_byte named 0x00) type_idx; import_count = m.import_count + 1 },
      m.import_count,
    )

unfoldable pub wm_memory : WasmModule → ℕ → WasmModule
wm_memory m min_pages = record m { has_memory = true; mem_min = min_pages }

unfoldable pub wm_global_i32 : WasmModule → Bool → ℤ → WasmModule × ℕ
wm_global_i32 m is_mutable init =
    let kind = wb_byte (wb_byte m.globals 0x7f) (if is_mutable then 1 else 0) in
    (
      record m {
        globals = wb_byte (wb_i (wb_byte kind 0x41) init) 0x0b;
        global_count = m.global_count + 1;
      },
      m.global_count,
    )

unfoldable pub wm_func : WasmModule → ℕ → WasmModule × ℕ
wm_func m type_idx = (
  record m { funcs = wb_u m.funcs type_idx; func_count = m.func_count + 1 },
  m.import_count + m.func_count,
)

-- A group of locals is a count and a type.
unfoldable pub each_local : WasmBuf → List (ℕ × ℕ) → WasmBuf
each_local b [] = b
each_local b ((count, type) ∷ more) = each_local (wb_byte (wb_u b count) type) more

unfoldable pub wm_code : WasmModule → List (ℕ × ℕ) → WasmBuf → WasmModule
wm_code m locals body =
    let fb = wb_bytes (each_local (wb_u wb_init (length locals)) locals) body.bytes in
    record m { code = wb_bytes (wb_u m.code (len fb)) fb.bytes; code_count = m.code_count + 1 }

-- `wm_export_func`, `wm_export_mem` and `wm_export_global` differ in the kind, and a memory has index 0.
unfoldable pub export_as : ℕ → WasmModule → Bytes → ℕ → WasmModule
export_as kind m name idx = record m {
  exports = wb_u (wb_byte (wb_name m.exports name) kind) idx;
  export_count = m.export_count + 1;
}

unfoldable pub wm_export_func : WasmModule → Bytes → ℕ → WasmModule
wm_export_func = export_as 0x00

unfoldable pub wm_export_mem : WasmModule → Bytes → WasmModule
wm_export_mem m name = export_as 0x02 m name 0

unfoldable pub wm_export_global : WasmModule → Bytes → ℕ → WasmModule
wm_export_global = export_as 0x03

unfoldable pub wm_start : WasmModule → ℕ → WasmModule
wm_start m func_idx = record m { has_start = true; start_idx = func_idx }

-- `(int32_t)offset`, of a uint32_t.
abbrev pub as_int32 : ℕ → ℤ
as_int32 n = if ltb n (2 ^ 31) then pos n else negsuc (2 ^ 32 - n - 1)

unfoldable pub wm_data : WasmModule → ℕ → Bytes → WasmModule
wm_data m offset bytes =
    let at = wb_byte (wb_i (wb_byte (wb_byte m.segments 0x00) 0x41) (as_int32 offset)) 0x0b in
    record m { segments = wb_bytes (wb_u at (length bytes)) bytes; data_count = m.data_count + 1 }

-- A section: its id, its size, and its content.
unfoldable pub put_section : WasmBuf → ℕ → WasmBuf → WasmBuf
put_section out id s = wb_bytes (wb_u (wb_byte out id) (len s)) s.bytes

unfoldable pub emit_vec_section : WasmBuf → ℕ → ℕ → WasmBuf → WasmBuf
emit_vec_section out id count content =
    if count == 0 then out else put_section out id (wb_bytes (wb_u wb_init count) content.bytes)

abbrev pub header : Bytes
header = 0x00 ∷ 0x61 ∷ 0x73 ∷ 0x6d ∷ 0x01 ∷ 0x00 ∷ 0x00 ∷ 0x00 ∷ []

unfoldable pub emit_memory : WasmModule → WasmBuf → WasmBuf
emit_memory m out =
    if m.has_memory then put_section out 5 (wb_u (wb_byte (wb_u wb_init 1) 0x00) m.mem_min) else out

unfoldable pub emit_start : WasmModule → WasmBuf → WasmBuf
emit_start m out = if m.has_start then put_section out 8 (wb_u wb_init m.start_idx) else out

unfoldable pub wm_finish : WasmModule → WasmBuf
wm_finish m =
    let out = wb_bytes wb_init header in
    let out = emit_vec_section out 1 m.type_count m.types in
    let out = emit_vec_section out 2 m.import_count m.imports in
    let out = emit_vec_section out 3 m.func_count m.funcs in
    let out = emit_memory m out in
    let out = emit_vec_section out 6 m.global_count m.globals in
    let out = emit_vec_section out 7 m.export_count m.exports in
    let out = emit_start m out in
    let out = emit_vec_section out 10 m.code_count m.code in
    emit_vec_section out 11 m.data_count m.segments
