-- ===== src/Wasm/Buffer.antt =====
-- codegen/wasm_encode.c `wb_*`: a growing byte buffer, and the two LEB128 encodings. `bytes` holds the
-- `len` bytes in use; sizes are taken to fit a size_t.
use arche.Base.{ℕ, zero, suc, ◌+◌, ◌-◌, ◌*◌, ◌/◌, ◌%◌, ◌<◌, Bool, true, false, not, ◌&&◌, ◌||◌}
use arche.Base.{arith}
use arche.Base.{Bool-cases, inl, inr, ◌≡◌, [], ◌∷◌, ◌++◌, length, ltb, leb, ◌==◌, if◌then◌else◌}
use arche.Base.{Bytes}
use arche.Base.Int.{ℤ, pos, negsuc}
use arche.Base.Order.{lt_wf}
use mathlib.Core.Logic.{dite}
use mathlib.Core.WellFounded.{Acc}
use native.Mathlib.Decide.{dec_lt}

pub record WasmBuf : Type 0 where
  pub bytes : Bytes
  pub cap : ℕ

abbrev pub len : WasmBuf → ℕ
len b = length b.bytes

unfoldable pub wb_init : WasmBuf
wb_init = record { bytes = []; cap = 0 }

-- `while (cap < want) cap *= 2;` for at most so many rounds.
unfoldable pub double_to : ℕ → ℕ → ℕ → ℕ
double_to zero want cap = cap
double_to (suc fuel) want cap =
    let more = double_to fuel want (cap * 2) in if ltb cap want then more else cap

unfoldable pub wb_reserve : WasmBuf → ℕ → WasmBuf
wb_reserve b extra = if leb (len b + extra) b.cap then b else record b {
  cap = double_to (len b + extra) (len b + extra) (if b.cap == 0 then 64 else b.cap * 2);
}

unfoldable pub wb_byte : WasmBuf → ℕ → WasmBuf
wb_byte b v = let r = wb_reserve b 1 in record r { bytes = r.bytes ++ (v ∷ []) }

unfoldable pub wb_bytes : WasmBuf → Bytes → WasmBuf
wb_bytes b [] = b
wb_bytes b (p ∷ ps) =
    let r = wb_reserve b (length (p ∷ ps)) in record r { bytes = r.bytes ++ (p ∷ ps) }

pub shift_shrinks : (v : ℕ) → 0 < v / 128 → v / 128 < v
shift_shrinks v h = omega arith

-- `v & 0x7f` is `v % 128` and `v >>= 7` is `v / 128`; the loop goes on while that is not 0.
unfoldable pub wb_u_loop : WasmBuf → (v : ℕ) → Acc ◌<◌ v → WasmBuf
wb_u_loop b v (Acc.intro _ smaller) =
    dite (dec_lt 0 (v / 128))
      (λ more.
        wb_u_loop (wb_byte b (v % 128 + 128)) (v / 128) (smaller (v / 128) (shift_shrinks v more)))
      (λ _. wb_byte b (v % 128))

unfoldable pub wb_u : WasmBuf → ℕ → WasmBuf
wb_u b v = wb_u_loop b v (lt_wf.apply v)

-- `uint8_t byte = v & 0x7f`, for v = n or, if `neg`, for v = -(n + 1).
abbrev pub low_group : Bool → ℕ → ℕ
low_group neg n = if neg then 127 - n % 128 else n % 128

abbrev pub sign_bit : ℕ → Bool
sign_bit byte = leb 64 byte

-- The test behind the arithmetic shift: v has become 0, or -1, and the byte has that sign.
unfoldable pub ends_group : Bool → ℕ → Bool
ends_group neg n =
    not neg && n / 128 == 0 && not (sign_bit (low_group neg n))
    || neg && n / 128 == 0 && sign_bit (low_group neg n)

pub shift_shrinks_signed : (neg : Bool) (n : ℕ) → ends_group neg n ≡ false → n / 128 < n
unfolding ends_group
shift_shrinks_signed neg n h = ground arith

-- The sign stays, and the shift divides the magnitude by 128.
unfoldable pub wb_i_loop : WasmBuf → Bool → (n : ℕ) → Acc ◌<◌ n → WasmBuf
wb_i_loop b neg n (Acc.intro _ smaller) = elim (Bool-cases (ends_group neg n)) [
  | inl t ↦ wb_byte b (low_group neg n)
  | inr f ↦
      wb_i_loop (wb_byte b (low_group neg n + 128)) neg (n / 128)
        (smaller (n / 128) (shift_shrinks_signed neg n f))
]

unfoldable pub wb_i : WasmBuf → ℤ → WasmBuf
wb_i b (pos n) = wb_i_loop b false n (lt_wf.apply n)
wb_i b (negsuc n) = wb_i_loop b true n (lt_wf.apply n)

-- A name is a C string, without its NUL.
unfoldable pub wb_name : WasmBuf → Bytes → WasmBuf
wb_name b s = wb_bytes (wb_u b (length s)) s
