-- ===== src/Lexer/Next.antt =====
-- lexer/lexer.c: punctuation and operators, `lexer_next_token` and `lexer_tokenize`.
use arche.Base.{ℕ, zero, suc, ◌+◌, Bool, true, false, ◌&&◌, List, [], ◌∷◌, length}
use arche.Base.{Option, none, some, ◌==◌, if◌then◌else◌, Bytes, codes, is_digit}
use mathlib.Core.Option
use arche.Lexer.Kind.{TokenKind, tok_amp_amp, tok_arrow, tok_at, tok_bang, tok_bang_eq}
use arche.Lexer.Kind.{tok_colon, tok_comma, tok_dot, tok_dotdotdot, tok_eof, tok_eq, tok_eq_eq}
use arche.Lexer.Kind.{tok_gt, tok_gt_eq, tok_lbrace, tok_lbracket, tok_lparen, tok_lt}
use arche.Lexer.Kind.{tok_lt_eq, tok_minus, tok_minus_eq, tok_percent, tok_percent_eq}
use arche.Lexer.Kind.{tok_pipe_gt, tok_pipe_pipe, tok_plus, tok_plus_eq, tok_question}
use arche.Lexer.Kind.{tok_rbrace, tok_rbracket, tok_rparen, tok_semi, tok_slash, tok_slash_eq}
use arche.Lexer.Kind.{tok_star, tok_star_eq}
use arche.Lexer.Token.{Token, make_token, error_token, offset}
use arche.Lexer.State.{Lexer, first_or_nul, tail_of, peek, peek_next, is_at_end, advance}
use arche.Lexer.State.{retreat}
use arche.Lexer.State.{lexer_init}
use arche.Lexer.Words.{skip_whitespace, lex_comment, lex_block_comment, is_ident_start}
use arche.Lexer.Words.{lex_identifier, lex_directive}
use arche.Lexer.Literals.{lex_number, lex_char_lit, lex_string}

-- In all of these the token begins at `l`, and `m` stands behind its first byte.
unfoldable pub single : Lexer → Lexer → TokenKind → Token × Lexer
single l m k = (make_token k (offset l.cur) 1 l.line l.column, m)

unfoldable pub refused : Lexer → Lexer → Bytes → Token × Lexer
refused l m text = (error_token text l.line l.column, m)

-- The two-byte token of kind `k` if the byte `d` follows, or else `other`.
unfoldable pub pair : ℕ → TokenKind → Lexer → Lexer → Token × Lexer → Token × Lexer
pair d k l m other =
    if peek m == d then (make_token k (offset l.cur) 2 l.line l.column, advance m) else other

abbrev pub two_dots : Lexer → Bool
two_dots m = first_or_nul m.rest == b'.' && first_or_nul (tail_of m.rest) == b'.'

abbrev pub over_dots : Lexer → Lexer
over_dots m = record m { cur = m.cur + 2; rest = tail_of (tail_of m.rest); column = m.column + 2 }

-- `case '.'`, where the pointer and the column move by 2 with no call of `advance`.
unfoldable pub lex_dots : Lexer → Lexer → Token × Lexer
lex_dots l m =
    if two_dots m
    then (make_token tok_dotdotdot (offset l.cur) 3 l.line l.column, over_dots m)
    else single l m tok_dot

-- One `case` of the `switch`.
infix 1 when◌is◌then◌else◌
unfoldable pub when◌is◌then◌else◌ : ℕ → ℕ → Token × Lexer → Token × Lexer → Token × Lexer
when c is d then x else y = if c == d then x else y

unfoldable pub lex_operator : ℕ → Lexer → Lexer → Token × Lexer
lex_operator c l m =
    when c
    is b'+'
    then pair b'=' tok_plus_eq l m (single l m tok_plus)
    else when c
    is b'-'
    then pair b'>' tok_arrow l m (pair b'=' tok_minus_eq l m (single l m tok_minus))
    else when c
    is b'*'
    then pair b'=' tok_star_eq l m (single l m tok_star)
    else when c
    is b'/'
    then pair b'=' tok_slash_eq l m (single l m tok_slash)
    else when c
    is b'%'
    then pair b'=' tok_percent_eq l m (single l m tok_percent)
    else when c
    is b'='
    then pair b'=' tok_eq_eq l m (single l m tok_eq)
    else when c
    is b'!'
    then pair b'=' tok_bang_eq l m (single l m tok_bang)
    else when c
    is b'<'
    then pair b'=' tok_lt_eq l m (single l m tok_lt)
    else when c
    is b'>'
    then pair b'=' tok_gt_eq l m (single l m tok_gt)
    else when c
    is b'&'
    then pair b'&' tok_amp_amp l m (refused l m (codes "unexpected character (did you mean `&&`?)"))
    else when c
    is b'|'
    then pair b'|' tok_pipe_pipe l m (
        pair b'>' tok_pipe_gt l m
          (refused l m (codes "unexpected character (did you mean `||` or `|>`?)")))
    else refused l m (codes "unexpected character")

unfoldable pub lex_symbol : ℕ → Lexer → Lexer → Token × Lexer
lex_symbol c l m =
    when c
    is b'('
    then single l m tok_lparen
    else when c
    is b')'
    then single l m tok_rparen
    else when c
    is b'{'
    then single l m tok_lbrace
    else when c
    is b'}'
    then single l m tok_rbrace
    else when c
    is b'['
    then single l m tok_lbracket
    else when c
    is b']'
    then single l m tok_rbracket
    else when c
    is b','
    then single l m tok_comma
    else when c
    is b'.'
    then lex_dots l m
    else when c
    is b':'
    then single l m tok_colon
    else when c
    is b';'
    then single l m tok_semi
    else when c
    is b'@'
    then single l m tok_at
    else when c
    is b'?'
    then single l m tok_question
    else when c
    is b'#'
    then lex_directive l m
    else lex_operator c l m

-- Behind the comments: one byte is read, and put back where a longer token begins with it.
unfoldable pub lex_token : Lexer → Token × Lexer
lex_token l =
    let c = peek l in
    let m = advance l in
    if is_ident_start c
    then lex_identifier (retreat c m)
    else if is_digit c
    then lex_number (retreat c m)
    else if c == b'"'
    then lex_string (retreat c m)
    else if c == b'\''
    then lex_char_lit (retreat c m)
    else lex_symbol c l m

-- Behind the whitespace.
unfoldable pub lex_from : Lexer → Token × Lexer
lex_from l =
    if is_at_end l
    then (make_token tok_eof (offset l.cur) 0 l.line l.column, l)
    else if peek l == b'/' && peek_next l == b'*'
    then lex_block_comment l
    else if peek l == b'/' && peek_next l == b'/'
    then lex_comment l
    else lex_token l

unfoldable pub next_or_pending : List Token → Lexer → Token × Lexer
next_or_pending (tok ∷ more) l = (tok, record l { pending_tokens = more })
next_or_pending [] l = lex_from (skip_whitespace l)

unfoldable pub next_token : Lexer → Token × Lexer
unfolding next_or_pending
next_token l = next_or_pending l.pending_tokens l

abbrev pub is_eof : TokenKind → Bool
is_eof tok_eof = true
is_eof _ = false

-- `for (;;) { tokens[count++] = tok; if (tok.kind == TOK_EOF) break; }`; `none` is no result of the
-- source: the rounds ran out.
unfoldable pub tokenize_loop : ℕ → Lexer → Option (List Token)
tokenize_loop zero l = none
tokenize_loop (suc fuel) l =
    let (tok, l') = next_token l in
    let rest = tokenize_loop fuel l' in
    if is_eof tok.kind then some (tok ∷ []) else Option.map (◌∷◌ tok) rest

unfoldable pub tokenize : Bytes → Option (List Token)
unfolding tokenize_loop
tokenize src = tokenize_loop (suc (length src)) (lexer_init src)
