-- ===== src/Lexer/Tests.antt =====
-- The lexer run on small sources, and its theorems at them.
use arche.Base.{ℕ, ◌%◌, ◌≡◌, ◌↔◌, refl, arith, List, [], ◌∷◌, ◌++◌, Option, some, none, codes}
use arche.Base.{Bytes}
use arche.Base.{text_eq}
use mathlib.Core.List.{map}
use mathlib.Core.Option
use arche.Lexer.Kind.{TokenKind, tok_eof, tok_ident, tok_hash_run, tok_map}
use arche.Lexer.Kind.{tok_number}
use arche.Lexer.Kind.{tok_semi, tok_comment, tok_string, tok_char_lit, tok_dotdotdot, tok_error}
use arche.Lexer.Kind.{tok_plus_eq, tok_for}
use arche.Lexer.Token.{Token, error_token}
use arche.Lexer.State.{Lexer, advance, retreat, skip, peek_next, lexer_init}
use arche.Lexer.Words.{lexeme, spanning, skip_whitespace, lex_comment, lex_block_comment}
use arche.Lexer.Words.{keyword_kind}
use arche.Lexer.Words.{lex_identifier, directive_kind, lex_directive, block_comment_loop}
use arche.Lexer.Literals.{base_digit, lex_number, escape_value, lex_char_lit, string_loop}
use arche.Lexer.Literals.{lex_string}
use arche.Lexer.Next.{single, pair, refused, lex_dots, lex_symbol, lex_operator}
use arche.Lexer.Next.{when◌is◌then◌else◌, lex_token, lex_from, next_token}
use arche.Lexer.Next.{tokenize}
use arche.Lexer.Token.{make_token, offset}
use arche.Base.{◌-◌, ◌+◌, length}
use arche.Lexer.IntLit.{u64_mod, int_lit, digit_value, push_digit}
use arche.Lexer.IntValue.{Digits, value_from}
use arche.Lexer.Keywords.{keyword_text, keyword_kind-eq_iff}
use arche.Lexer.Tokenize.{Tiles, tokenize-Tiles}
use arche.Lexer.WordRun.{kinds_of, tokenize-words_text}
use arche.Lexer.StringRun.{Takes, StringBody, empty, plain, escaped, lex_string-quoted}
use arche.Lexer.CommentRun.{lex_block_comment-closed}
use arche.Lexer.NumberRun.{int_lit-lex_number}

kinds : Bytes → Option (List TokenKind)
unfolding spanning single pair refused lex_dots error_token tokenize next_token lex_from lex_token
    lex_symbol lex_operator when◌is◌then◌else◌ lex_identifier lex_directive lex_comment
    lex_block_comment block_comment_loop lexeme keyword_kind directive_kind text_eq skip
    skip_whitespace peek_next advance retreat lex_number base_digit lex_char_lit escape_value
    lex_string string_loop lexer_init
kinds src = kinds_of (tokenize src)

program :
    kinds (codes "#run map // x\n a+=0x_F;")
    ≡ some (
        tok_hash_run ∷ tok_map ∷ tok_comment ∷ tok_ident ∷ tok_plus_eq ∷ tok_number ∷ tok_semi
        ∷ tok_eof ∷ [])
unfolding kinds
program = refl

literals :
    kinds (codes "\"a\\\"b\" 'x' ... /* * / */ &")
    ≡ some (tok_string ∷ tok_char_lit ∷ tok_dotdotdot ∷ tok_comment ∷ tok_error ∷ tok_eof ∷ [])
unfolding kinds
literals = refl

-- A literal beyond 64 bits wraps, and a prefix alone is no literal.
int_lit_wraps : int_lit (codes "0x1_0000_0000_0000_0005") ≡ some 5
unfolding int_lit digit_value push_digit Option.bind
int_lit_wraps = refl

int_lit_bare_prefix : int_lit (codes "0x") ≡ none
unfolding int_lit digit_value push_digit Option.bind
int_lit_bare_prefix = refl

tokenize-Tiles_example :
    (toks : List Token) × (tokenize (codes "for x") ≡ some toks) × Tiles 0 1 1 (codes "for x") toks
tokenize-Tiles_example = tokenize-Tiles (codes "for x")

abbrev for_and_name : List Bytes
for_and_name = codes "for" ∷ codes "x_1" ∷ []

tokenize-words_text_example :
    kinds_of (tokenize (codes "for x_1 ")) ≡ some (map keyword_kind for_and_name ++ (tok_eof ∷ []))
tokenize-words_text_example = tokenize-words_text for_and_name (
  record { starts = refl; continues = (refl, (refl, (refl, tt))) },
  (record { starts = refl; continues = (refl, (refl, (refl, tt))) }, tt),
)

abbrev at_quote : Lexer
at_quote = record {
  src = codes "\"a\\\"b\";";
  cur = 0;
  rest = codes "\"a\\\"b\";";
  line = 1;
  column = 1;
  pending_tokens = [];
}

abbrev quoted_body : Bytes
quoted_body = codes "a\\\"b"

quoted_body-StringBody : StringBody quoted_body
quoted_body-StringBody =
    plain (omega arith) (omega arith) (omega arith)
      (escaped (omega arith) (plain (omega arith) (omega arith) (omega arith) empty))

lex_string-quoted_example :
    ((lex_string at_quote).0 ≡ make_token tok_string (offset 0) (length quoted_body + 2) 1 1)
    × Takes at_quote (b'"' ∷ (quoted_body ++ (b'"' ∷ []))) (codes ";") (lex_string at_quote).1
lex_string-quoted_example =
    lex_string-quoted at_quote quoted_body (codes ";") quoted_body-StringBody refl

abbrev at_comment : Lexer
at_comment = record {
  src = codes "/* * / **/x";
  cur = 0;
  rest = codes "/* * / **/x";
  line = 1;
  column = 1;
  pending_tokens = [];
}

lex_block_comment-closed_example :
    ((lex_block_comment at_comment).0.kind ≡ tok_comment)
    × Takes at_comment
        (b'/' ∷ b'*' ∷ (codes " * / *" ++ (b'*' ∷ b'/' ∷ [])))
        (codes "x")
        (lex_block_comment at_comment).1
lex_block_comment-closed_example =
    lex_block_comment-closed at_comment (codes " * / *") (codes "x") (omega arith) refl refl

abbrev at_number : Lexer
at_number = record {
  src = codes "1_20;";
  cur = 0;
  rest = codes "1_20;";
  line = 1;
  column = 1;
  pending_tokens = [];
}

int_lit-lex_number_example :
    (digits : List ℕ) × Digits 10 (lexeme at_number (lex_number at_number).1) digits
    × (int_lit (lexeme at_number (lex_number at_number).1)
        ≡ some (value_from 10 0 digits % u64_mod))
int_lit-lex_number_example = int_lit-lex_number at_number refl refl (unfold skip advance in refl)

-- -0b10 is -2, in the bits of an unsigned number.
int_lit_negative : int_lit (codes "-0b1_0") ≡ some (u64_mod - 2)
unfolding int_lit digit_value push_digit Option.bind
int_lit_negative = refl

keyword_kind-eq_iff_example :
    (keyword_kind (codes "fork") ≡ tok_for) ↔ (keyword_text tok_for ≡ some (codes "fork"))
keyword_kind-eq_iff_example = keyword_kind-eq_iff (codes "fork") tok_for (λ e. cc)
