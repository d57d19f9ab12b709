-- ===== src/Wasm/Leb.antt =====
-- The two LEB128 encodings of codegen/wasm_encode.c (`wb_u`, `wb_i`), read back by decoders that follow
-- the WebAssembly format, and what the buffer operations do to the bytes in use.
use arche.Base.{ℕ, zero, suc, ◌+◌, ◌-◌, ◌*◌, ◌/◌, ◌%◌, ◌^◌, ◌<◌, ◌≤◌, arith}
use arche.Base.{◌≡◌, sym, ap, ◌∙◌, [], ◌∷◌, ◌++◌, append_assoc, length}
use arche.Base.{ltb, if◌then◌else◌, Bytes, Option, none, some, append-nil}
use arche.Base.Order.{lt_wf}
use mathlib.Core.Logic.{dif_pos, dif_neg}
use mathlib.Core.Option
use mathlib.Core.WellFounded.{Acc}
use native.Mathlib.Decide.{dec_lt}
use native.Mathlib.Bridge.{le_prop}
use native.Mathlib.Nat.{pow-suc}
use arche.Wasm.Buffer.{WasmBuf, len, double_to, wb_reserve, wb_byte, wb_bytes, wb_u_loop, wb_u}
use arche.Wasm.Buffer.{shift_shrinks}

double_to-le : (fuel want cap : ℕ) → 0 < cap → want ≤ cap + fuel → want ≤ double_to fuel want cap
unfolding double_to
double_to-le zero want cap h e = omega arith
double_to-le (suc fuel) want cap h e = ground (arith, double_to-le fuel want (cap * 2))

-- The capacity covers the bytes in use.
pub Fits : WasmBuf → Type 0
Fits b = len b ≤ b.cap

-- Growing leaves the bytes alone and makes room for as many more as were asked for.
pub wb_reserve-cap :
    (b : WasmBuf) (extra : ℕ)
    → ((wb_reserve b extra).bytes ≡ b.bytes) × (len b + extra ≤ (wb_reserve b extra).cap)
unfolding wb_reserve
wb_reserve-cap b extra = ground (
  arith,
  double_to-le (len b + extra) (len b + extra) 64,
  double_to-le (len b + extra) (len b + extra) (b.cap * 2),
)

pub bytes-wb_byte : (b : WasmBuf) (v : ℕ) → (wb_byte b v).bytes ≡ b.bytes ++ (v ∷ [])
unfolding wb_byte
bytes-wb_byte b v = ap (λ (r : Bytes). r ++ (v ∷ [])) (wb_reserve-cap b 1).0

pub bytes-wb_bytes : (b : WasmBuf) (p : Bytes) → (wb_bytes b p).bytes ≡ b.bytes ++ p
unfolding wb_bytes
bytes-wb_bytes b [] = sym (append-nil b.bytes)
bytes-wb_bytes b (p ∷ ps) = ap (λ (r : Bytes). r ++ (p ∷ ps)) (wb_reserve-cap b (length (p ∷ ps))).0

-- The unsigned encoding of a number: groups of seven bits, lowest first, with the top bit set on each
-- but the last, and no more groups than the number needs.
pub data Uleb : ℕ → Bytes → Type 0 where
  last_group : {v : ℕ} → v < 128 → Uleb v (v ∷ [])
  group :
      {v : ℕ} {text : Bytes} → 0 < v / 128 → Uleb (v / 128) text → Uleb v ((v % 128 + 128) ∷ text)

-- What a writer has appended to a buffer.
pub record Appends (P : Bytes → Type 0) (b b' : WasmBuf) : Type 0 where
  pub text : Bytes
  pub is_encoding : P text
  pub bytes_is : b'.bytes ≡ b.bytes ++ text

Appends-group :
    (b b' : WasmBuf) (v : ℕ)
    → 0 < v / 128
    → Appends (Uleb (v / 128)) (wb_byte b (v % 128 + 128)) b'
    → Appends (Uleb v) b b'
Appends-group b b' v h a = record {
  text = (v % 128 + 128) ∷ a.text;
  is_encoding = group h a.is_encoding;
  bytes_is =
      a.bytes_is
      ∙ rw (bytes-wb_byte b (v % 128 + 128)) (append_assoc b.bytes ((v % 128 + 128) ∷ []) a.text);
}

wb_u_loop-Uleb : (b : WasmBuf) (v : ℕ) (w : Acc ◌<◌ v) → Appends (Uleb v) b (wb_u_loop b v w)
unfolding wb_u_loop
wb_u_loop-Uleb b v (Acc.intro _ smaller) = elim (dec_lt 0 (v / 128)) [
  | yes h ↦ rw (dif_pos _ le_prop h) (
      Appends-group b _ v h (
        wb_u_loop-Uleb (wb_byte b (v % 128 + 128)) (v / 128)
          (smaller (v / 128) (shift_shrinks v h))))
  | no h ↦ rw (dif_neg _ h) (record {
    text = v ∷ [];
    is_encoding = last_group (omega arith);
    bytes_is =
        let small : v % 128 ≡ v = omega arith in
        bytes-wb_byte b (v % 128) ∙ ap (λ (t : ℕ). b.bytes ++ (t ∷ [])) small;
  })
]

-- On every buffer `wb_u` appends the encoding of the number.
pub wb_u-Uleb : (b : WasmBuf) (v : ℕ) → Appends (Uleb v) b (wb_u b v)
unfolding wb_u
wb_u-Uleb b v = wb_u_loop-Uleb b v (lt_wf.apply v)

-- Reading an unsigned number of the WebAssembly format: a byte below 128 is the last group.
abbrev pub read_u : Bytes → Option (ℕ × Bytes)
read_u [] = none
read_u (c ∷ cs) =
    if ltb c 128
    then some (c, cs)
    else Option.map (λ (r : ℕ × Bytes). (c - 128 + 128 * r.0, r.1)) (read_u cs)

pub read_u-Uleb :
    {v : ℕ} {text : Bytes} (rest : Bytes) → Uleb v text → read_u (text ++ rest) ≡ some (v, rest)
read_u-Uleb {v} rest (last_group h) = ground arith
read_u-Uleb {v} rest (group h u) = ground (arith, read_u-Uleb rest u)

pub length-Uleb :
    {v : ℕ} {text : Bytes} (k : ℕ) → Uleb v text → v < 128 ^ suc k → length text ≤ suc k
length-Uleb k (last_group h) small = omega arith
length-Uleb {v} zero (group h u) small = absurd (omega arith)
length-Uleb {v} (suc k) (group h u) small =
    omega (arith, length-Uleb k u (omega (arith, pow-suc 128 (suc k))))

-- The number that `wb_u` appends is read back, whatever was in the buffer and whatever follows; a
-- number below 128 ^ (k + 1) takes at most k + 1 bytes.
pub read_u-wb_u :
    (b : WasmBuf) (v k : ℕ) (rest : Bytes)
    → v < 128 ^ suc k
    → (text : Bytes) × ((wb_u b v).bytes ≡ b.bytes ++ text)
      × (read_u (text ++ rest) ≡ some (v, rest))
      × (length text ≤ suc k)
read_u-wb_u b v k rest small =
    let a = wb_u-Uleb b v in
    (a.text, a.bytes_is, read_u-Uleb rest a.is_encoding, length-Uleb k a.is_encoding small)
