-- ===== src/Lexer/Token.antt =====
-- lexer/lexer.h `Trivia` and `Token`, with `make_token`, `error_token` and the classifiers of doc
-- comments of lexer/lexer.c. A `char *start` is an offset into the source, or a message's text.
use arche.Base.{ℕ, ◌-◌, Bool, true, false, ◌&&◌, ◌||◌, not, List, []}
use arche.Base.{length, get_elem?, Option, some, none, ltb, ◌==◌, if◌then◌else◌, Bytes}
use arche.Lexer.Kind.{TokenKind, tok_error}

pub data Start : Type 0 where
  offset : ℕ → Start
  message : Bytes → Start

-- The `int` that a `char` is promoted to, where `char` is signed; `negative n` is -n.
pub data CharValue : Type 0 where
  nonneg : ℕ → CharValue
  negative : ℕ → CharValue

unfoldable pub promote : ℕ → CharValue
promote c = if ltb c 128 then nonneg c else negative (256 - c)

pub data TriviaKind : Type 0 where
  trivia_line_comment trivia_block_comment trivia_blank_lines : TriviaKind

pub record Trivia : Type 0 where
  pub kind : TriviaKind
  pub start : Option Start
  pub length : ℕ
  pub line : ℕ
  pub column : ℕ
  pub blank_count : ℕ

pub record Token : Type 0 where
  pub kind : TokenKind
  pub start : Start
  pub length : ℕ
  pub line : ℕ
  pub column : ℕ
  pub int_val : CharValue
  pub leading_trivia : List Trivia

unfoldable pub make_token : TokenKind → Start → ℕ → ℕ → ℕ → Token
make_token k s n line column = record {
  kind = k;
  start = s;
  length = n;
  line = line;
  column = column;
  int_val = nonneg 0;
  leading_trivia = [];
}

unfoldable pub error_token : Bytes → ℕ → ℕ → Token
error_token text line column = record {
  kind = tok_error;
  start = message text;
  length = length text;
  line = line;
  column = column;
  int_val = nonneg 0;
  leading_trivia = [];
}

-- `text[i] == c`, at an index that the span holds.
unfoldable pub char_is : Bytes → ℕ → ℕ → Bool
char_is text i c = elim (get_elem? text i) [ none ↦ false | some d ↦ d == c ]

unfoldable pub is_doc_comment : Bytes → Bool
unfolding char_is
is_doc_comment text =
    if ltb (length text) 3
    then false
    else if not (char_is text 0 b'/') || not (char_is text 1 b'/') || not (char_is text 2 b'/')
    then false
    else if not (ltb (length text) 4) && char_is text 3 b'/'
    then false
    else true

unfoldable pub is_inner_doc_comment : Bytes → Bool
unfolding char_is
is_inner_doc_comment text =
    if ltb (length text) 3
    then false
    else char_is text 0 b'/' && char_is text 1 b'/' && char_is text 2 b'!'
