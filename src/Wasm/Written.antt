-- ===== src/Wasm/Written.antt =====
-- What each writer of codegen/wasm_encode.c appends, as a text that depends on its argument alone.
use arche.Base.{ℕ, zero, suc, ◌+◌, ◌-◌, ◌*◌, ◌/◌, ◌%◌, ◌^◌, ◌<◌, ◌≤◌, Bool, true, false, arith}
use arche.Base.{◌≡◌, refl, sym, ap, ap₂, ◌∙◌, Bool-cases, inl, inr, List, [], ◌∷◌, ◌++◌}
use arche.Base.{append_assoc, length}
use arche.Base.{Bytes, Option, none, some, append-nil}
use arche.Base.Int.{ℤ}
use arche.Wasm.Buffer.{WasmBuf, wb_init, wb_byte, wb_u, wb_i, wb_name}
use arche.Wasm.Leb.{Uleb, last_group, group, Appends, wb_u-Uleb, bytes-wb_byte, bytes-wb_bytes}
use arche.Wasm.Leb.{read_u, read_u-Uleb}
use arche.Wasm.SignedLeb.{SignedLeb, wb_i-SignedLeb, SignedLeb-unique}
use arche.Wasm.Module.{each_byte, each_local}

-- What `wb_u` and `wb_i` write into an empty buffer.
pub u_bytes : ℕ → Bytes
u_bytes v = (wb_u wb_init v).bytes

pub i_bytes : ℤ → Bytes
i_bytes v = (wb_i wb_init v).bytes

pub name_bytes : Bytes → Bytes
name_bytes s = u_bytes (length s) ++ s

Uleb-unique : {v : ℕ} {s t : Bytes} → Uleb v s → Uleb v t → s ≡ t
Uleb-unique (last_group h) (last_group k) = refl
Uleb-unique {v} (last_group h) (group k u) = absurd (omega arith)
Uleb-unique {v} (group h u) (last_group k) = absurd (omega arith)
Uleb-unique {v} (group h u) (group k w) = ap (◌∷◌ (v % 128 + 128)) (Uleb-unique u w)

u_bytes-Uleb : (v : ℕ) → Uleb v (u_bytes v)
unfolding u_bytes wb_init
u_bytes-Uleb v = let a = wb_u-Uleb wb_init v in rw a.bytes_is a.is_encoding

pub bytes-wb_u : (b : WasmBuf) (v : ℕ) → (wb_u b v).bytes ≡ b.bytes ++ u_bytes v
bytes-wb_u b v =
    let a = wb_u-Uleb b v in
    a.bytes_is ∙ ap (λ (t : Bytes). b.bytes ++ t) (Uleb-unique a.is_encoding (u_bytes-Uleb v))

pub read_u-u_bytes : (v : ℕ) (rest : Bytes) → read_u (u_bytes v ++ rest) ≡ some (v, rest)
read_u-u_bytes v rest = read_u-Uleb rest (u_bytes-Uleb v)

pub bytes-wb_name : (b : WasmBuf) (s : Bytes) → (wb_name b s).bytes ≡ b.bytes ++ name_bytes s
unfolding wb_name name_bytes
bytes-wb_name b s =
    bytes-wb_bytes (wb_u b (length s)) s
    ∙ rw (bytes-wb_u b (length s)) (append_assoc b.bytes (u_bytes (length s)) s)

pub bytes-each_byte : (b : WasmBuf) (p : Bytes) → (each_byte b p).bytes ≡ b.bytes ++ p
unfolding each_byte
bytes-each_byte b [] = sym (append-nil b.bytes)
bytes-each_byte b (p ∷ ps) =
    bytes-each_byte (wb_byte b p) ps ∙ rw (bytes-wb_byte b p) (append_assoc b.bytes (p ∷ []) ps)

abbrev pub locals_bytes : List (ℕ × ℕ) → Bytes
locals_bytes [] = []
locals_bytes ((count, type) ∷ more) = u_bytes count ++ (type ∷ locals_bytes more)

pub bytes-each_local :
    (b : WasmBuf) (locals : List (ℕ × ℕ))
    → (each_local b locals).bytes ≡ b.bytes ++ locals_bytes locals
unfolding each_local
bytes-each_local b [] = sym (append-nil b.bytes)
bytes-each_local b ((count, type) ∷ more) =
    bytes-each_local (wb_byte (wb_u b count) type) more
    ∙ simp (bytes-wb_byte, bytes-wb_u, append_assoc)

i_bytes-SignedLeb : (v : ℤ) → SignedLeb v (i_bytes v)
unfolding i_bytes wb_init
i_bytes-SignedLeb v = let a = wb_i-SignedLeb wb_init v in rw a.bytes_is a.is_encoding

pub bytes-wb_i : (b : WasmBuf) (v : ℤ) → (wb_i b v).bytes ≡ b.bytes ++ i_bytes v
bytes-wb_i b v =
    let a = wb_i-SignedLeb b v in
    a.bytes_is
    ∙ ap (λ (t : Bytes). b.bytes ++ t) (SignedLeb-unique v a.is_encoding (i_bytes-SignedLeb v))

pub ruleset written = (
  bytes-wb_byte, bytes-wb_bytes, bytes-wb_u, bytes-wb_i, bytes-wb_name, bytes-each_byte,
  bytes-each_local, append_assoc,
)
