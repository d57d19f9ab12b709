-- ===== src/Wasm/SignedLeb.antt =====
-- The signed LEB128 encoding of codegen/wasm_encode.c (`wb_i`), read back by a decoder that follows the
-- WebAssembly format.
use arche.Base.{ℕ, zero, suc, ◌+◌, ◌-◌, ◌*◌, ◌/◌, ◌^◌, ◌<◌, ◌≤◌, Bool, true, false, arith}
use arche.Base.{◌≡◌, refl, ap, ◌∙◌, Bool-cases, inl, inr, [], ◌∷◌, ◌++◌, append_assoc, length}
use arche.Base.{ltb, if◌then◌else◌, Bytes, Option, none, some}
use arche.Base.Int.{ℤ, pos, negsuc}
use arche.Base.Order.{lt_wf}
use mathlib.Core.Option
use mathlib.Core.WellFounded.{Acc}
use native.Mathlib.Nat.{pow-suc}
use arche.Wasm.Buffer.{WasmBuf, wb_byte, low_group, ends_group, wb_i_loop, wb_i}
use arche.Wasm.Buffer.{shift_shrinks_signed}
use arche.Wasm.Leb.{Appends, bytes-wb_byte}

-- The signed encoding of n, or of -(n + 1) if `neg`: the last group is the first whose sign bit tells
-- the sign of a number with no bits left.
pub data Sleb (neg : Bool) : ℕ → Bytes → Type 0 where
  last_group : {n : ℕ} → n < 64 → Sleb neg n (low_group neg n ∷ [])
  group :
      {n : ℕ} {text : Bytes}
      → 64 ≤ n
      → Sleb neg (n / 128) text
      → Sleb neg n ((low_group neg n + 128) ∷ text)

ends_group-lt : (neg : Bool) (n : ℕ) → ends_group neg n ≡ true → n < 64
unfolding ends_group
ends_group-lt neg n h = ground arith

ends_group-le : (neg : Bool) (n : ℕ) → ends_group neg n ≡ false → 64 ≤ n
unfolding ends_group
ends_group-le neg n h = ground arith

Appends-group :
    (b b' : WasmBuf) (neg : Bool) (n : ℕ)
    → 64 ≤ n
    → Appends (Sleb neg (n / 128)) (wb_byte b (low_group neg n + 128)) b'
    → Appends (Sleb neg n) b b'
Appends-group b b' neg n h a = record {
  text = (low_group neg n + 128) ∷ a.text;
  is_encoding = group h a.is_encoding;
  bytes_is =
      a.bytes_is
      ∙ rw (bytes-wb_byte b (low_group neg n + 128))
          (append_assoc b.bytes ((low_group neg n + 128) ∷ []) a.text);
}

wb_i_loop-Sleb :
    (b : WasmBuf) (neg : Bool) (n : ℕ) (w : Acc ◌<◌ n)
    → Appends (Sleb neg n) b (wb_i_loop b neg n w)
unfolding wb_i_loop
wb_i_loop-Sleb b neg n (Acc.intro _ smaller) =
    elim (Bool-cases (ends_group neg n))
      as (λ c. Appends (Sleb neg n) b (elim c [
        | inl t ↦ wb_byte b (low_group neg n)
        | inr f ↦
            wb_i_loop (wb_byte b (low_group neg n + 128)) neg (n / 128)
              (smaller (n / 128) (shift_shrinks_signed neg n f))
      ])) [
        | inl t ↦ record {
          text = low_group neg n ∷ [];
          is_encoding = last_group (ends_group-lt neg n t);
          bytes_is = bytes-wb_byte b (low_group neg n);
        }
        | inr f ↦ Appends-group b _ neg n (ends_group-le neg n f) (
            wb_i_loop-Sleb (wb_byte b (low_group neg n + 128)) neg (n / 128)
              (smaller (n / 128) (shift_shrinks_signed neg n f)))
      ]

abbrev pub signed : Bool → ℕ → ℤ
signed neg n = if neg then negsuc n else pos n

-- A group in front of a number: 128 times the number, and the group's seven bits.
abbrev pub below : ℕ → ℤ → ℤ
below c (pos m) = pos (128 * m + c)
below c (negsuc m) = negsuc (128 * m + (127 - c))

-- Reading a signed number of the WebAssembly format: the last group is below 128 and carries the sign.
abbrev pub read_i : Bytes → Option (ℤ × Bytes)
read_i [] = none
read_i (c ∷ cs) =
    if ltb c 128
    then some (if ltb c 64 then pos c else negsuc (127 - c), cs)
    else Option.map (λ (r : ℤ × Bytes). (below (c - 128) r.0, r.1)) (read_i cs)

read_i-Sleb :
    {neg : Bool} {n : ℕ} {text : Bytes} (rest : Bytes)
    → Sleb neg n text
    → read_i (text ++ rest) ≡ some (signed neg n, rest)
read_i-Sleb {neg} {n} rest (last_group h) = ground arith
read_i-Sleb {neg} {n} rest (group h u) = ground (arith, read_i-Sleb rest u)

abbrev pub magnitude : ℤ → ℕ
magnitude (pos n) = n
magnitude (negsuc n) = n

length-Sleb :
    {neg : Bool} {n : ℕ} {text : Bytes} (k : ℕ)
    → Sleb neg n text
    → n < 64 * 128 ^ k
    → length text ≤ suc k
length-Sleb k (last_group h) small = omega arith
length-Sleb {neg} {n} zero (group h u) small = absurd (omega arith)
length-Sleb {neg} {n} (suc k) (group h u) small =
    omega (arith, length-Sleb k u (omega (arith, pow-suc 128 k)))

-- The number that `wb_i` appends is read back with its sign, whatever was in the buffer and whatever
-- follows; a number from -64 * 128 ^ k up to and without 64 * 128 ^ k takes at most k + 1 bytes.
pub read_i-wb_i :
    (b : WasmBuf) (v : ℤ) (k : ℕ) (rest : Bytes)
    → magnitude v < 64 * 128 ^ k
    → (text : Bytes) × ((wb_i b v).bytes ≡ b.bytes ++ text)
      × (read_i (text ++ rest) ≡ some (v, rest))
      × (length text ≤ suc k)
unfolding wb_i
read_i-wb_i b (pos n) k rest small =
    let a = wb_i_loop-Sleb b false n (lt_wf.apply n) in
    (a.text, a.bytes_is, read_i-Sleb rest a.is_encoding, length-Sleb k a.is_encoding small)
read_i-wb_i b (negsuc n) k rest small =
    let a = wb_i_loop-Sleb b true n (lt_wf.apply n) in
    (a.text, a.bytes_is, read_i-Sleb rest a.is_encoding, length-Sleb k a.is_encoding small)

abbrev pub SignedLeb : ℤ → Bytes → Type 0
SignedLeb (pos n) text = Sleb false n text
SignedLeb (negsuc n) text = Sleb true n text

pub wb_i-SignedLeb : (b : WasmBuf) (v : ℤ) → Appends (SignedLeb v) b (wb_i b v)
unfolding wb_i
wb_i-SignedLeb b (pos n) = wb_i_loop-Sleb b false n (lt_wf.apply n)
wb_i-SignedLeb b (negsuc n) = wb_i_loop-Sleb b true n (lt_wf.apply n)

Sleb-unique : {neg : Bool} {n : ℕ} {s t : Bytes} → Sleb neg n s → Sleb neg n t → s ≡ t
Sleb-unique (last_group h) (last_group k) = refl
Sleb-unique {neg} {n} (last_group h) (group k u) = absurd (omega arith)
Sleb-unique {neg} {n} (group h u) (last_group k) = absurd (omega arith)
Sleb-unique {neg} {n} (group h u) (group k w) = ap (◌∷◌ (low_group neg n + 128)) (Sleb-unique u w)

pub SignedLeb-unique : (v : ℤ) {s t : Bytes} → SignedLeb v s → SignedLeb v t → s ≡ t
SignedLeb-unique (pos n) a b = Sleb-unique a b
SignedLeb-unique (negsuc n) a b = Sleb-unique a b
