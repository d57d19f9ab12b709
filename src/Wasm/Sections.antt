-- ===== src/Wasm/Sections.antt =====
-- `emit_vec_section` and `wm_finish` of codegen/wasm_encode.c: the sections of the output, read back.
use arche.Base.{ℕ, zero, suc, ◌≤◌, false, arith, ltb, ◌>>=◌, text_eq}
use arche.Base.{◌≡◌, refl, sym, ap, ◌∙◌, Bool-cases, inl, inr, List, [], ◌∷◌, ◌++◌}
use arche.Base.{append_assoc, length}
use arche.Base.{Bytes, Option, none, some, append-nil, take, drop, length-append, ◌==◌}
use arche.Base.{if◌then◌else◌, take_append, drop_append}
use mathlib.Core.Option
use arche.Wasm.Buffer.{WasmBuf, wb_init, wb_byte, wb_bytes, wb_u}
use arche.Wasm.Leb.{bytes-wb_bytes, read_u}
use arche.Wasm.Written.{u_bytes, read_u-u_bytes, written}
use arche.Wasm.Module.{WasmModule, put_section, emit_vec_section, emit_memory, emit_start}
use arche.Wasm.Module.{header, wm_finish}

abbrev pub Sections : Type 0
Sections = List (ℕ × Bytes)

-- Sections written one behind the other: an id, a size, and a content of that size.
abbrev pub render : Sections → Bytes
render [] = []
render ((id, content) ∷ more) = id ∷ (u_bytes (length content) ++ (content ++ render more))

-- A section that holds a vector, unless the vector is empty.
abbrev pub vec : ℕ → ℕ → WasmBuf → Sections
vec id count content = if count == 0 then [] else (id, u_bytes count ++ content.bytes) ∷ []

abbrev pub memory_section : WasmModule → Sections
memory_section m = if m.has_memory then (5, u_bytes 1 ++ (0x00 ∷ u_bytes m.mem_min)) ∷ [] else []

abbrev pub start_section : WasmModule → Sections
start_section m = if m.has_start then (8, u_bytes m.start_idx) ∷ [] else []

-- The sections of a module in the order of their ids.
abbrev pub sections : WasmModule → Sections
sections m =
    vec 1 m.type_count m.types
    ++ (vec 2 m.import_count m.imports
        ++ (vec 3 m.func_count m.funcs
            ++ (memory_section m
                ++ (vec 6 m.global_count m.globals
                    ++ (vec 7 m.export_count m.exports
                        ++ (start_section m
                            ++ (vec 10 m.code_count m.code ++ vec 11 m.data_count m.segments)))))))

render-append : (s t : Sections) → render (s ++ t) ≡ render s ++ render t
render-append [] t = refl
render-append ((id, content) ∷ s) t = simp (render-append s t, append_assoc)

bytes-put_section :
    (out : WasmBuf) (id : ℕ) (s : WasmBuf)
    → (put_section out id s).bytes ≡ out.bytes ++ render ((id, s.bytes) ∷ [])
unfolding put_section
bytes-put_section out id s = simp (written, append-nil)

bytes-vector :
    (count : ℕ) (content : WasmBuf)
    → (wb_bytes (wb_u wb_init count) content.bytes).bytes ≡ u_bytes count ++ content.bytes
unfolding wb_init
bytes-vector count content = simp written

bytes-emit_vec_section :
    (out : WasmBuf) (id count : ℕ) (content : WasmBuf)
    → (emit_vec_section out id count content).bytes ≡ out.bytes ++ render (vec id count content)
unfolding emit_vec_section
bytes-emit_vec_section out id count content = elim (Bool-cases (count == 0)) [
  | inl t ↦ rw t (sym (append-nil out.bytes))
  | inr f ↦ rw f (
      bytes-put_section out id (wb_bytes (wb_u wb_init count) content.bytes)
      ∙ ap (λ (t : Bytes). out.bytes ++ render ((id, t) ∷ [])) (bytes-vector count content))
]

bytes-emit_memory :
    (m : WasmModule) (out : WasmBuf)
    → (emit_memory m out).bytes ≡ out.bytes ++ render (memory_section m)
unfolding emit_memory wb_init
bytes-emit_memory m out = elim (Bool-cases m.has_memory) [
  | inl t ↦ rw t (
      bytes-put_section out 5 (wb_u (wb_byte (wb_u wb_init 1) 0x00) m.mem_min)
      ∙ ap (λ (t : Bytes). out.bytes ++ render ((5, t) ∷ [])) (simp written))
  | inr f ↦ rw f (sym (append-nil out.bytes))
]

bytes-emit_start :
    (m : WasmModule) (out : WasmBuf)
    → (emit_start m out).bytes ≡ out.bytes ++ render (start_section m)
unfolding emit_start wb_init
bytes-emit_start m out = elim (Bool-cases m.has_start) [
  | inl t ↦ rw t (
      bytes-put_section out 8 (wb_u wb_init m.start_idx)
      ∙ ap (λ (t : Bytes). out.bytes ++ render ((8, t) ∷ [])) (simp written))
  | inr f ↦ rw f (sym (append-nil out.bytes))
]

bytes-wm_finish : (m : WasmModule) → (wm_finish m).bytes ≡ header ++ render (sections m)
unfolding wm_finish wb_init
bytes-wm_finish m = simp (
  bytes-emit_vec_section, bytes-emit_memory, bytes-emit_start, bytes-wb_bytes, render-append,
  append_assoc,
)

split_at : ℕ → Bytes → Option (Bytes × Bytes)
split_at n text = if ltb (length text) n then none else some (take n text, drop n text)

-- The reader of a module behind its header, section by section.
read_sections : ℕ → Bytes → Option Sections
read_sections fuel [] = some []
read_sections zero (id ∷ text) = none
read_sections (suc fuel) (id ∷ text) = read_u text >>= λ size.
    split_at size.0 size.1 >>= λ body. Option.map (◌∷◌ (id, body.0)) (read_sections fuel body.1)

-- The reader of a module: the header, and the sections.
pub read_module : Bytes → Option Sections
read_module text =
    if text_eq (take 8 text) header then read_sections (length text) (drop 8 text) else none

split_at-append : (a b : Bytes) → split_at (length a) (a ++ b) ≡ some (a, b)
unfolding split_at
split_at-append a b =
    let size = length-append a b in
    let fits : ltb (length (a ++ b)) (length a) ≡ false = ground (arith, size) in
    rw (fits, take_append a b, drop_append a b)

read_sections-render :
    (ss : Sections) (fuel : ℕ) → length ss ≤ fuel → read_sections fuel (render ss) ≡ some ss
unfolding read_sections
read_sections-render [] fuel h = refl
read_sections-render ((id, content) ∷ more) zero h = elim h [ ]
read_sections-render ((id, content) ∷ more) (suc fuel) h = rw (
  read_u-u_bytes (length content) (content ++ render more),
  split_at-append content (render more),
  read_sections-render more fuel (omega arith),
)

length-render : (ss : Sections) → length ss ≤ length (render ss)
length-render [] = omega arith
length-render ((id, content) ∷ more) = omega (
  arith,
  length-append (u_bytes (length content)) (content ++ render more),
  length-append content (render more),
  length-render more,
)

-- The finished module is read back as exactly its sections: those that hold something, each with the
-- size that its content has, the vectors led by their counts.
pub read_module-wm_finish : (m : WasmModule) → read_module (wm_finish m).bytes ≡ some (sections m)
unfolding read_module text_eq
read_module-wm_finish m =
    rw (bytes-wm_finish m)
      (read_sections-render (sections m) _ (omega (arith, length-render (sections m))))
