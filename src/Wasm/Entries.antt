-- ===== src/Wasm/Entries.antt =====
-- What a module built by the calls of codegen/wasm_encode.c holds, as lists of entries, and how each
-- entry is written in the WebAssembly format.
use arche.Base.{ℕ, ◌+◌, Bool, arith, ◌≡◌, refl, sym, ap, ◌∙◌}
use arche.Base.{List, [], ◌∷◌, ◌++◌, append-nil, append_assoc, length, length-append, Bytes}
use arche.Base.{codes}
use arche.Base.{Option, none, some, ◌==◌, if◌then◌else◌}
use arche.Base.Int.{ℤ}
use arche.Wasm.Buffer.{WasmBuf, wb_init}
use arche.Wasm.Module.{as_int32}
use arche.Wasm.Written.{u_bytes, i_bytes, name_bytes, locals_bytes}
use arche.Wasm.Sections.{Sections}

pub record Entries : Type 0 where
  pub types : List (Bytes × Bytes)
  pub imports : List (Bytes × ℕ)
  pub funcs : List ℕ
  pub memory : Option ℕ
  pub globals : List (Bool × ℤ)
  pub exports : List (ℕ × Bytes × ℕ)
  pub start : Option ℕ
  pub bodies : List (List (ℕ × ℕ) × Bytes)
  pub segments : List (ℕ × Bytes)

abbrev pub no_entries : Entries
no_entries = record {
  types = [];
  imports = [];
  funcs = [];
  memory = none;
  globals = [];
  exports = [];
  start = none;
  bodies = [];
  segments = [];
}

abbrev pub type_entry : Bytes × Bytes → Bytes
type_entry (params, results) =
    0x60 ∷ (u_bytes (length params) ++ (params ++ (u_bytes (length results) ++ results)))

abbrev pub import_entry : Bytes × ℕ → Bytes
import_entry (field, type_idx) =
    name_bytes (codes "env") ++ (name_bytes field ++ (0x00 ∷ u_bytes type_idx))

abbrev pub global_entry : Bool × ℤ → Bytes
global_entry (is_mutable, init) =
    0x7f ∷ (if is_mutable then 1 else 0) ∷ 0x41 ∷ (i_bytes init ++ (0x0b ∷ []))

abbrev pub export_entry : ℕ × Bytes × ℕ → Bytes
export_entry (kind, name, idx) = name_bytes name ++ (kind ∷ u_bytes idx)

-- A body behind its size: the groups of locals behind their count, and the code.
abbrev pub body_text : List (ℕ × ℕ) × Bytes → Bytes
body_text (locals, body) = u_bytes (length locals) ++ (locals_bytes locals ++ body)

abbrev pub body_entry : List (ℕ × ℕ) × Bytes → Bytes
body_entry b = u_bytes (length (body_text b)) ++ body_text b

abbrev pub segment_entry : ℕ × Bytes → Bytes
segment_entry (offset, bytes) =
    0x00 ∷ 0x41 ∷ (i_bytes (as_int32 offset) ++ (0x0b ∷ (u_bytes (length bytes) ++ bytes)))

module _ {ℓ} {A : Type ℓ} where
  abbrev pub flat : (A → Bytes) → List A → Bytes
  flat entry [] = []
  flat entry (x ∷ xs) = entry x ++ flat entry xs

  -- A buffer and its count hold these entries.
  pub record Holds (entry : A → Bytes) (b : WasmBuf) (count : ℕ) (xs : List A) : Type ℓ where
    pub bytes_is : b.bytes ≡ flat entry xs
    pub count_is : count ≡ length xs

module _ {ℓ} {A : Type ℓ} where
  flat-concat :
      (entry : A → Bytes) (xs : List A) (x : A)
      → flat entry (xs ++ x ∷ []) ≡ flat entry xs ++ entry x
  flat-concat entry [] x = append-nil (entry x)
  flat-concat entry (y ∷ xs) x =
      ap (λ (t : Bytes). entry y ++ t) (flat-concat entry xs x)
      ∙ sym (append_assoc (entry y) (flat entry xs) (entry x))

  pub Holds-none : (entry : A → Bytes) → Holds entry wb_init 0 []
  unfolding wb_init
  Holds-none entry = record { bytes_is = refl; count_is = refl }

  -- One more entry is written, and counted.
  pub Holds-add :
      (entry : A → Bytes) {b : WasmBuf} (b' : WasmBuf) {count : ℕ} {xs : List A} (x : A)
      → Holds entry b count xs
      → b'.bytes ≡ b.bytes ++ entry x
      → Holds entry b' (count + 1) (xs ++ x ∷ [])
  Holds-add entry b' {xs = xs} x h e = record {
    bytes_is = e ∙ ap (λ (t : Bytes). t ++ entry x) h.bytes_is ∙ sym (flat-concat entry xs x);
    count_is = omega (arith, h.count_is, length-append xs (x ∷ []));
  }

  abbrev pub vec_of : ℕ → (A → Bytes) → List A → Sections
  vec_of id entry xs =
      if length xs == 0 then [] else (id, u_bytes (length xs) ++ flat entry xs) ∷ []

abbrev pub memory_of : Option ℕ → Sections
memory_of none = []
memory_of (some pages) = (5, u_bytes 1 ++ (0x00 ∷ u_bytes pages)) ∷ []

abbrev pub start_of : Option ℕ → Sections
start_of none = []
start_of (some idx) = (8, u_bytes idx) ∷ []

-- The sections that the format asks for, in the order of their ids.
abbrev pub sections_of : Entries → Sections
sections_of e =
    vec_of 1 type_entry e.types
    ++ (vec_of 2 import_entry e.imports
        ++ (vec_of 3 u_bytes e.funcs
            ++ (memory_of e.memory
                ++ (vec_of 6 global_entry e.globals
                    ++ (vec_of 7 export_entry e.exports
                        ++ (start_of e.start
                            ++ (vec_of 10 body_entry e.bodies
                                ++ vec_of 11 segment_entry e.segments)))))))
