-- ===== src/Lexer/Literals.antt =====
-- lexer/lexer.c: number, character and string literals.
use arche.Base.{ℕ, zero, suc, Bool, not, ◌&&◌, ◌||◌, length}
use arche.Base.{leb, ◌==◌, if◌then◌else◌, codes, is_digit}
use arche.Lexer.Kind.{tok_number, tok_char_lit, tok_string}
use arche.Lexer.Token.{Token, error_token, promote}
use arche.Lexer.State.{Lexer, peek, peek_next, is_at_end, advance, skip}
use arche.Lexer.Words.{spanning}

abbrev pub is_hex_digit : ℕ → Bool
is_hex_digit c = is_digit c || leb b'a' c && leb c b'f' || leb b'A' c && leb c b'F'

abbrev pub either_case : ℕ → ℕ → ℕ → Bool
either_case lower upper n = n == lower || n == upper

-- The digits of the base that `n` names, and the separator.
unfoldable pub base_digit : ℕ → ℕ → Bool
base_digit n c =
    (if either_case b'x' b'X' n
      then is_hex_digit c
      else if either_case b'b' b'B' n
      then c == b'0' || c == b'1'
      else leb b'0' c && leb c b'7')
    || c == b'_'

abbrev pub names_base : ℕ → Bool
names_base n = either_case b'x' b'X' n || either_case b'b' b'B' n || either_case b'o' b'O' n

abbrev pub digit_or_separator : ℕ → Bool
digit_or_separator c = is_digit c || c == b'_'

unfoldable pub lex_decimal : Lexer → Lexer
lex_decimal l =
    let whole = skip digit_or_separator l in
    if peek whole == b'.' && is_digit (peek_next whole)
    then skip digit_or_separator (advance whole)
    else whole

unfoldable pub lex_number : Lexer → Token × Lexer
unfolding lex_decimal
lex_number l =
    let l' =
      if peek l == b'0' && names_base (peek_next l)
      then skip (base_digit (peek_next l)) (advance (advance l))
      else lex_decimal l in
    (spanning tok_number l l', l')

unfoldable pub escape_value : ℕ → ℕ
escape_value c =
    if c == b'n' then b'\n' else if c == b't' then b'\t' else if c == b'r' then b'\r' else c

-- Behind the character: the closing quote is required.
unfoldable pub close_char_lit : Lexer → ℕ → Lexer → Token × Lexer
close_char_lit l value m =
    if not (peek m == b'\'')
    then (error_token (codes "Unterminated character literal") l.line l.column, m)
    else let l' = advance m in
      let token = spanning tok_char_lit l l' in (record token { int_val = promote value }, l')

-- Behind the backslash.
unfoldable pub escaped_char_lit : Lexer → Lexer → Token × Lexer
unfolding close_char_lit
escaped_char_lit l e =
    if not (is_at_end e)
    then close_char_lit l (escape_value (peek e)) (advance e)
    else close_char_lit l 0 e

unfoldable pub lex_char_lit : Lexer → Token × Lexer
unfolding close_char_lit escaped_char_lit
lex_char_lit l =
    let m = advance l in
    if peek m == b'\\'
    then escaped_char_lit l (advance m)
    else if not (peek m == b'\'') && not (is_at_end m)
    then close_char_lit l (peek m) (advance m)
    else (error_token (codes "Empty character literal") l.line l.column, m)

-- One round of the loop: a backslash takes the byte behind it along.
unfoldable pub string_step : Lexer → Lexer
string_step l =
    if peek l == b'\\' && not (is_at_end l)
    then (if not (is_at_end (advance l)) then advance (advance l) else advance l)
    else advance l

unfoldable pub string_loop : ℕ → Lexer → Lexer
unfolding string_step
string_loop zero l = l
string_loop (suc fuel) l =
    let more = string_loop fuel (string_step l) in
    if not (peek l == b'"') && not (is_at_end l) then more else l

unfoldable pub lex_string : Lexer → Token × Lexer
lex_string l =
    let m = advance l in
    let e = string_loop (length m.rest) m in
    if is_at_end e
    then (error_token (codes "Unterminated string") l.line l.column, e)
    else let l' = advance e in (spanning tok_string l l', l')
