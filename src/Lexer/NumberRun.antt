-- ===== src/Lexer/NumberRun.antt =====
-- The number tokens of lexer/lexer.c `lex_number`, and what `arche_int_lit` makes of them.
use arche.Base.{ℕ, ◌-◌, ◌%◌, ◌≡◌, refl, ap, subst, arith}
use arche.Base.{Bool, true, false, ◌&&◌, List, [], ◌∷◌, ◌++◌, inl, inr}
use arche.Base.{◌==◌, Bytes, Bool-cases, some, is_digit}
use arche.Lexer.State.{Lexer, first_or_nul, peek, peek_next, skip}
use arche.Lexer.Words.{lexeme}
use arche.Lexer.Literals.{digit_or_separator, names_base, lex_number}
use arche.Lexer.IntLit.{u64_mod, int_lit, base_prefix}
use arche.Lexer.IntValue.{IsDigit, Digits, stop, separator, digit, IsUnsigned, value_from}
use arche.Lexer.IntPrefix.{Prefixed, base_prefix-Prefixed}
use arche.Lexer.IntValue.{int_lit-eq-some_iff}
use arche.Lexer.Loops.{skip-Scanned, lexeme-Moves}
use arche.Lexer.WordRun.{Passes}

-- The digits of a text of decimal digits and separators.
record Decimal (text : Bytes) : Type 0 where
  digits : List ℕ
  are_digits : Digits 10 text digits

decimal-IsDigit : (c : ℕ) → is_digit c ≡ true → IsDigit c (c - b'0')
decimal-IsDigit c h = ground arith

decimal : (text : Bytes) → Passes digit_or_separator text → Decimal text
decimal [] p = record { digits = []; are_digits = stop }
decimal (c ∷ cs) (h, p) = elim (Bool-cases (c == b'_')) [
  | inl t ↦
      let d = decimal cs p in record { digits = d.digits; are_digits = separator t d.are_digits }
  | inr f ↦
      let d = decimal cs p in
      record {
        digits = (c - b'0') ∷ d.digits;
        are_digits = digit f (decimal-IsDigit c (ground arith)) (ground arith) d.are_digits;
      }
]

base_prefix-decimal :
    (c : ℕ) (cs : Bytes) → Passes digit_or_separator cs → base_prefix (c ∷ cs) ≡ (10, c ∷ cs)
unfolding base_prefix
base_prefix-decimal c [] p = refl
base_prefix-decimal c (b ∷ rest) (h, p) = ground arith

-- A text of decimal digits and separators that begins with a digit.
int_lit-decimal :
    (c : ℕ) (cs : Bytes)
    → is_digit c ≡ true
    → Passes digit_or_separator cs
    → (digits : List ℕ) × Digits 10 (c ∷ cs) digits
      × (int_lit (c ∷ cs) ≡ some (value_from 10 0 digits % u64_mod))
int_lit-decimal c cs h p =
    let d = decimal cs p in
    let digits = (c - b'0') ∷ d.digits in
    let first : Digits 10 (c ∷ cs) digits =
      digit (ground arith) (decimal-IsDigit c h) (ground arith) d.are_digits in
    let read = base_prefix-decimal c cs p in
    let literal : IsUnsigned (c ∷ cs) (value_from 10 0 digits % u64_mod) = record {
      base = 10;
      behind_prefix = c ∷ cs;
      prefixed =
          subst (λ (r : ℕ × Bytes). Prefixed (c ∷ cs) r.0 r.1) read (base_prefix-Prefixed (c ∷ cs));
      digits = digits;
      are_digits = first;
      nonempty = λ e. cc;
      value_is = refl;
    } in
    let no_minus : c == b'-' ≡ false = ground arith in
    let no_plus : c == b'+' ≡ false = ground arith in
    (digits, first, (int_lit-eq-some_iff _ _).1 (rw (no_minus, no_plus) literal))

-- A base prefix follows, or a fraction behind the digits.
abbrev pub has_base : Lexer → Bool
has_base l = peek l == b'0' && names_base (peek_next l)

abbrev pub has_fraction : Lexer → Bool
has_fraction l =
    peek (skip digit_or_separator l) == b'.' && is_digit (peek_next (skip digit_or_separator l))

abbrev IsDecimal : Bytes → Type 0
IsDecimal text =
    (digits : List ℕ) × Digits 10 text digits
    × (int_lit text ≡ some (value_from 10 0 digits % u64_mod))

scanned-IsDecimal :
    (text rest : Bytes) (c : ℕ)
    → is_digit c ≡ true
    → c ≡ first_or_nul (text ++ rest)
    → Passes digit_or_separator text
    → digit_or_separator (first_or_nul rest) ≡ false
    → IsDecimal text
scanned-IsDecimal [] rest c h e p s = ground arith
scanned-IsDecimal (x ∷ xs) rest c h e p s = int_lit-decimal x xs (rw e at h) p.1

-- A number token with no base prefix and no fraction holds decimal digits and separators, and the
-- decoder accepts it with the value of these digits modulo 2 ^ 64.
pub int_lit-lex_number :
    (l : Lexer)
    → is_digit (peek l) ≡ true
    → has_base l ≡ false
    → has_fraction l ≡ false
    → (digits : List ℕ) × Digits 10 (lexeme l (lex_number l).1) digits
      × (int_lit (lexeme l (lex_number l).1) ≡ some (value_from 10 0 digits % u64_mod))
unfolding lex_number
int_lit-lex_number l h no_base no_fraction =
    let x = skip-Scanned digit_or_separator l refl in
    rw (no_base, no_fraction, lexeme-Moves x.moves)
      (scanned-IsDecimal x.text _ (peek l) h (ap first_or_nul x.moves.rest_is) x.passes x.stops)
