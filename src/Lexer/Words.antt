-- ===== src/Lexer/Words.antt =====
-- lexer/lexer.c: comments, identifiers, keywords and `#` directives.
use arche.Base.{ℕ, zero, suc, ◌-◌, Bool, not, ◌&&◌, ◌||◌, length, take}
use arche.Base.{◌==◌, if◌then◌else◌, Bytes, codes, text_eq, is_alpha, is_alnum}
use arche.Lexer.Token.{Token, make_token, offset}
use arche.Lexer.State.{Lexer, peek, peek_next, is_at_end, advance, skip}
use arche.Lexer.Kind.{TokenKind, tok_alias, tok_archetype, tok_break, tok_comment}
use arche.Lexer.Kind.{tok_continue, tok_copy, tok_each_field, tok_else, tok_enum, tok_for}
use arche.Lexer.Kind.{tok_func, tok_hash, tok_hash_cflags, tok_hash_file, tok_hash_foreign}
use arche.Lexer.Kind.{tok_hash_link, tok_hash_module, tok_hash_run, tok_ident, tok_if, tok_in}
use arche.Lexer.Kind.{tok_let, tok_map, tok_match, tok_move, tok_own, tok_policy, tok_proc}
use arche.Lexer.Kind.{tok_query, tok_return, tok_system, tok_use}

-- The bytes that the pointer has passed from `l` to `l'`.
unfoldable pub lexeme : Lexer → Lexer → Bytes
lexeme l l' = take (l'.cur - l.cur) l.rest

-- The token that begins at `l` and ends before `l'`.
unfoldable pub spanning : TokenKind → Lexer → Lexer → Token
unfolding make_token
spanning k l l' = make_token k (offset l.cur) (l'.cur - l.cur) l.line l.column

abbrev pub is_space : ℕ → Bool
is_space c = c == b' ' || c == b'\r' || c == b'\t' || c == b'\n'

unfoldable pub skip_whitespace : Lexer → Lexer
skip_whitespace l = skip is_space l

abbrev pub in_line : ℕ → Bool
in_line c = not (c == b'\n') && not (c == 0)

unfoldable pub lex_comment : Lexer → Token × Lexer
lex_comment l = let l' = skip in_line (advance (advance l)) in (spanning tok_comment l l', l')

-- The loop ends behind a star and a slash, or at the end of the source.
unfoldable pub block_comment_loop : ℕ → Lexer → Lexer
block_comment_loop zero l = l
block_comment_loop (suc fuel) l =
    let more = block_comment_loop fuel (advance l) in
    if is_at_end l
    then l
    else if peek l == b'*' && peek_next l == b'/'
    then advance (advance l)
    else more

unfoldable pub lex_block_comment : Lexer → Token × Lexer
lex_block_comment l =
    let m = advance (advance l) in
    let l' = block_comment_loop (length m.rest) m in (spanning tok_comment l l', l')

abbrev pub is_ident_start : ℕ → Bool
is_ident_start c = is_alpha c || c == b'_'

abbrev pub is_ident_char : ℕ → Bool
is_ident_char c = is_alnum c || c == b'_'

unfoldable pub keyword_kind : Bytes → TokenKind
keyword_kind text =
    if text_eq text (codes "arche")
    then tok_archetype
    else if text_eq text (codes "proc")
    then tok_proc
    else if text_eq text (codes "map")
    then tok_map
    else if text_eq text (codes "system")
    then tok_system
    else if text_eq text (codes "query")
    then tok_query
    else if text_eq text (codes "func")
    then tok_func
    else if text_eq text (codes "policy")
    then tok_policy
    else if text_eq text (codes "enum")
    then tok_enum
    else if text_eq text (codes "match")
    then tok_match
    else if text_eq text (codes "let")
    then tok_let
    else if text_eq text (codes "for")
    then tok_for
    else if text_eq text (codes "if")
    then tok_if
    else if text_eq text (codes "else")
    then tok_else
    else if text_eq text (codes "in")
    then tok_in
    else if text_eq text (codes "break")
    then tok_break
    else if text_eq text (codes "continue")
    then tok_continue
    else if text_eq text (codes "move")
    then tok_move
    else if text_eq text (codes "own")
    then tok_own
    else if text_eq text (codes "copy")
    then tok_copy
    else if text_eq text (codes "alias")
    then tok_alias
    else if text_eq text (codes "return")
    then tok_return
    else tok_ident

unfoldable pub lex_identifier : Lexer → Token × Lexer
lex_identifier l = let l' = skip is_ident_char l in (spanning (keyword_kind (lexeme l l')) l l', l')

unfoldable pub directive_kind : Bytes → TokenKind
directive_kind word =
    if text_eq word (codes "import")
    then tok_use
    else if text_eq word (codes "each_field")
    then tok_each_field
    else if text_eq word (codes "module")
    then tok_hash_module
    else if text_eq word (codes "file")
    then tok_hash_file
    else if text_eq word (codes "foreign")
    then tok_hash_foreign
    else if text_eq word (codes "link")
    then tok_hash_link
    else if text_eq word (codes "cflags")
    then tok_hash_cflags
    else if text_eq word (codes "run")
    then tok_hash_run
    else tok_hash

-- `case '#'`: `l` stands at the mark, `m` behind it.
unfoldable pub lex_directive : Lexer → Lexer → Token × Lexer
lex_directive l m =
    let l' = skip is_ident_char m in (spanning (directive_kind (lexeme m l')) l l', l')
