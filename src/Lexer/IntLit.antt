-- ===== src/Lexer/IntLit.antt =====
-- lexer/lexer.c `arche_int_lit`: the value of an integer literal. An `unsigned long long` is a number
-- below 2 ^ 64, and the `long long` that is stored is given by its bits.
use arche.Base.{ℕ, ◌+◌, ◌-◌, ◌*◌, ◌%◌, ◌^◌, Bool, true, false, ◌&&◌, ◌||◌, [], ◌∷◌}
use arche.Base.{Option, none, some, leb, ◌==◌, if◌then◌else◌, Bytes}
use mathlib.Core.Option

abbrev pub u64_mod : ℕ
u64_mod = 2 ^ 64

unfoldable pub digit_value : ℕ → Option ℕ
digit_value c =
    if leb b'0' c && leb c b'9'
    then some (c - b'0')
    else if leb b'a' c && leb c b'f'
    then some (c - b'a' + 10)
    else if leb b'A' c && leb c b'F'
    then some (c - b'A' + 10)
    else none

-- The base that a prefix names, and what follows the prefix.
unfoldable pub base_prefix : Bytes → ℕ × Bytes
base_prefix (z ∷ b ∷ rest) =
    if z == b'0' && (b == b'x' || b == b'X')
    then (16, rest)
    else if z == b'0' && (b == b'b' || b == b'B')
    then (2, rest)
    else if z == b'0' && (b == b'o' || b == b'O')
    then (8, rest)
    else (10, z ∷ b ∷ rest)
base_prefix text = (10, text)

-- `v = v * base + d`, or the return of 0 where `d` is no digit of the base.
unfoldable pub push_digit : ℕ → ℕ → Option ℕ → Option ℕ
push_digit base v none = none
push_digit base v (some d) = if leb base d then none else some ((v * base + d) % u64_mod)

-- `any` tells whether a digit was read.
unfoldable pub digits_loop : ℕ → Bytes → ℕ → Bool → Option ℕ
digits_loop base [] v any = if any then some v else none
digits_loop base (c ∷ cs) v any =
    let skipped = digits_loop base cs v any in
    let pushed =
      Option.bind (push_digit base v (digit_value c)) (λ w. digits_loop base cs w true) in
    if c == b'_' then skipped else pushed

abbrev pub is_sign : ℕ → Bool
is_sign c = c == b'+' || c == b'-'

-- The bits of `-(long long)v`.
abbrev pub negated : ℕ → ℕ
negated v = (u64_mod - v) % u64_mod

unfoldable pub unsigned_lit : Bytes → Option ℕ
unfolding base_prefix digits_loop
unsigned_lit text = let (base, digits) = base_prefix text in digits_loop base digits 0 false

unfoldable pub int_lit : Bytes → Option ℕ
unfolding unsigned_lit
int_lit [] = none
int_lit (c ∷ cs) =
    if c == b'-'
    then Option.map negated (unsigned_lit cs)
    else if c == b'+'
    then unsigned_lit cs
    else unsigned_lit (c ∷ cs)
