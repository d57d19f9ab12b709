-- ===== src/Wasm/Tests.antt =====
-- The WebAssembly writer run on small modules, and its theorems at them.
use arche.Base.{◌+◌, ◌≤◌, ◌≡◌, refl, arith, List, [], ◌∷◌, ◌++◌, some, codes, Bytes}
use arche.Base.{length, true, Bool-cases}
use arche.Base.Int.{pos, negsuc}
use arche.Base.Order.{lt_wf}
use native.Mathlib.Decide.{dec_lt}
use arche.Wasm.Buffer.{wb_init, wb_reserve, wb_byte, wb_u, wb_u_loop, wb_i, wb_i_loop}
use arche.Wasm.Buffer.{double_to, ends_group}
use arche.Wasm.Leb.{read_u, read_u-wb_u}
use arche.Wasm.SignedLeb.{read_i, read_i-wb_i}
use arche.Wasm.Module.{wm_init, wm_type, wm_import_func, wm_global_i32, wm_func, wm_finish}
use arche.Wasm.Sections.{read_module}
use arche.Wasm.Entries.{no_entries, sections_of}
use arche.Wasm.Calls.{Call, add_type, import_func, add_func, export_func, add_code, perform_all}
use arche.Wasm.Calls.{note_all}
use arche.Wasm.Refinement.{read_module-perform_all, indices_lem}

unsigned_624485 : (wb_u wb_init 624485).bytes ≡ 0xe5 ∷ 0x8e ∷ 0x26 ∷ []
unfolding wb_u wb_u_loop wb_byte wb_reserve double_to wb_init lt_wf dec_lt
unsigned_624485 = refl

signed_minus_123456 : (wb_i wb_init (negsuc 123455)).bytes ≡ 0xc0 ∷ 0xbb ∷ 0x78 ∷ []
unfolding wb_i wb_i_loop ends_group Bool-cases wb_byte wb_reserve double_to wb_init lt_wf
signed_minus_123456 = refl

abbrev calls : List Call
calls =
    add_type [] (0x7f ∷ [])
    ∷ import_func (codes "now") 0
    ∷ add_func 0
    ∷ add_code [] (record { bytes = 0x0b ∷ []; cap = 64 })
    ∷ export_func (codes "f") 1
    ∷ []

read_module-perform_all_example :
    read_module (wm_finish (perform_all wm_init calls)).bytes
    ≡ some (sections_of (note_all no_entries calls))
read_module-perform_all_example = read_module-perform_all calls

indices_lem_example :
    let m = perform_all wm_init calls in
    ((wm_type m [] []).1 ≡ 1)
    × ((wm_import_func m [] 0).1 ≡ 1)
    × ((wm_global_i32 m true (pos 0)).1 ≡ 0)
    × ((wm_func m 0).1 ≡ 1 + 1)
indices_lem_example = indices_lem calls [] [] [] true (pos 0) 0

read_u-wb_u_example :
    (text : Bytes) × ((wb_u wb_init 624485).bytes ≡ [] ++ text)
    × (read_u (text ++ codes "x") ≡ some (624485, codes "x"))
    × (length text ≤ 3)
unfolding wb_init
read_u-wb_u_example = read_u-wb_u wb_init 624485 2 (codes "x") (omega arith)

read_i-wb_i_example :
    (text : Bytes) × ((wb_i wb_init (negsuc 123455)).bytes ≡ [] ++ text)
    × (read_i (text ++ codes "x") ≡ some (negsuc 123455, codes "x"))
    × (length text ≤ 3)
unfolding wb_init
read_i-wb_i_example = read_i-wb_i wb_init (negsuc 123455) 2 (codes "x") (omega arith)
