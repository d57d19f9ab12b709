-- ===== src/Lexer/Kind.antt =====
-- lexer/lexer.h `TokenKind`, and `token_kind_name` of lexer/lexer.c.
use Prim.Native.String.{String}

pub data TokenKind : Type 0 where
  tok_eof tok_error tok_ident tok_number tok_string tok_char_lit tok_comment : TokenKind
  tok_archetype tok_proc tok_map tok_system tok_query tok_func tok_let tok_for tok_if : TokenKind
  tok_else tok_in tok_break tok_continue tok_move tok_own tok_copy tok_alias tok_return : TokenKind
  tok_use tok_each_field tok_run tok_enum tok_match tok_policy tok_lparen tok_rparen : TokenKind
  tok_lbrace tok_rbrace tok_lbracket tok_rbracket tok_comma tok_dot tok_dotdotdot : TokenKind
  tok_colon tok_semi tok_at tok_hash tok_hash_module tok_hash_file tok_hash_foreign : TokenKind
  tok_hash_link tok_hash_cflags tok_hash_run tok_eq tok_plus_eq tok_minus_eq tok_star_eq : TokenKind
  tok_slash_eq tok_percent_eq tok_plus tok_minus tok_star tok_slash tok_percent tok_eq_eq :
      TokenKind
  tok_bang_eq tok_lt tok_gt tok_lt_eq tok_gt_eq tok_amp_amp tok_pipe_pipe tok_pipe_gt : TokenKind
  tok_arrow tok_bang tok_question : TokenKind

-- The `default` of the switch also takes the kinds that it leaves out.
unfoldable pub token_kind_name : TokenKind → String
token_kind_name tok_eof = "TOK_EOF"
token_kind_name tok_error = "TOK_ERROR"
token_kind_name tok_ident = "TOK_IDENT"
token_kind_name tok_number = "TOK_NUMBER"
token_kind_name tok_string = "TOK_STRING"
token_kind_name tok_comment = "TOK_COMMENT"
token_kind_name tok_archetype = "TOK_ARCHETYPE"
token_kind_name tok_proc = "TOK_PROC"
token_kind_name tok_map = "TOK_MAP"
token_kind_name tok_system = "TOK_SYSTEM"
token_kind_name tok_query = "TOK_QUERY"
token_kind_name tok_func = "TOK_FUNC"
token_kind_name tok_policy = "TOK_POLICY"
token_kind_name tok_enum = "TOK_ENUM"
token_kind_name tok_match = "TOK_MATCH"
token_kind_name tok_let = "TOK_LET"
token_kind_name tok_for = "TOK_FOR"
token_kind_name tok_if = "TOK_IF"
token_kind_name tok_in = "TOK_IN"
token_kind_name tok_break = "TOK_BREAK"
token_kind_name tok_continue = "TOK_CONTINUE"
token_kind_name tok_move = "TOK_MOVE"
token_kind_name tok_own = "TOK_OWN"
token_kind_name tok_copy = "TOK_COPY"
token_kind_name tok_alias = "TOK_ALIAS"
token_kind_name tok_return = "TOK_RETURN"
token_kind_name tok_each_field = "TOK_EACH_FIELD"
token_kind_name tok_char_lit = "TOK_CHAR_LIT"
token_kind_name tok_lparen = "TOK_LPAREN"
token_kind_name tok_rparen = "TOK_RPAREN"
token_kind_name tok_lbrace = "TOK_LBRACE"
token_kind_name tok_rbrace = "TOK_RBRACE"
token_kind_name tok_lbracket = "TOK_LBRACKET"
token_kind_name tok_rbracket = "TOK_RBRACKET"
token_kind_name tok_comma = "TOK_COMMA"
token_kind_name tok_dot = "TOK_DOT"
token_kind_name tok_dotdotdot = "TOK_DOTDOTDOT"
token_kind_name tok_colon = "TOK_COLON"
token_kind_name tok_semi = "TOK_SEMI"
token_kind_name tok_at = "TOK_AT"
token_kind_name tok_hash = "TOK_HASH"
token_kind_name tok_hash_module = "TOK_HASH_MODULE"
token_kind_name tok_hash_file = "TOK_HASH_FILE"
token_kind_name tok_hash_foreign = "TOK_HASH_FOREIGN"
token_kind_name tok_hash_link = "TOK_HASH_LINK"
token_kind_name tok_hash_cflags = "TOK_HASH_CFLAGS"
token_kind_name tok_hash_run = "TOK_HASH_RUN"
token_kind_name tok_eq = "TOK_EQ"
token_kind_name tok_plus_eq = "TOK_PLUS_EQ"
token_kind_name tok_minus_eq = "TOK_MINUS_EQ"
token_kind_name tok_star_eq = "TOK_STAR_EQ"
token_kind_name tok_slash_eq = "TOK_SLASH_EQ"
token_kind_name tok_percent_eq = "TOK_PERCENT_EQ"
token_kind_name tok_plus = "TOK_PLUS"
token_kind_name tok_minus = "TOK_MINUS"
token_kind_name tok_star = "TOK_STAR"
token_kind_name tok_slash = "TOK_SLASH"
token_kind_name tok_percent = "TOK_PERCENT"
token_kind_name tok_eq_eq = "TOK_EQ_EQ"
token_kind_name tok_bang_eq = "TOK_BANG_EQ"
token_kind_name tok_lt = "TOK_LT"
token_kind_name tok_gt = "TOK_GT"
token_kind_name tok_lt_eq = "TOK_LT_EQ"
token_kind_name tok_gt_eq = "TOK_GT_EQ"
token_kind_name tok_amp_amp = "TOK_AMP_AMP"
token_kind_name tok_pipe_pipe = "TOK_PIPE_PIPE"
token_kind_name tok_arrow = "TOK_ARROW"
token_kind_name tok_bang = "TOK_BANG"
token_kind_name tok_question = "TOK_QUESTION"
token_kind_name _ = "TOK_UNKNOWN"
