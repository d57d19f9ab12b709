-- ===== src/Syntax/Category.antt =====
-- syntax/token_category.c: the highlighting category of a token. None stands for NULL.
use Prim.Native.String.{String}
use arche.Base.{Option, none, some}
use arche.Lexer.Kind.{TokenKind, tok_archetype, tok_proc, tok_map, tok_system, tok_query}
use arche.Lexer.Kind.{tok_func, tok_let, tok_for, tok_if, tok_else}
use arche.Lexer.Kind.{tok_in, tok_break, tok_continue, tok_move, tok_own}
use arche.Lexer.Kind.{tok_copy, tok_alias, tok_return, tok_use, tok_each_field}
use arche.Lexer.Kind.{tok_hash_module, tok_hash_file, tok_hash_foreign, tok_hash_link}
use arche.Lexer.Kind.{tok_hash_cflags}
use arche.Lexer.Kind.{tok_hash_run, tok_run, tok_enum, tok_match, tok_policy}
use arche.Lexer.Kind.{tok_number, tok_string, tok_char_lit, tok_comment, tok_ident}
use arche.Lexer.Kind.{tok_eq, tok_plus_eq, tok_minus_eq, tok_star_eq, tok_slash_eq}
use arche.Lexer.Kind.{tok_percent_eq, tok_plus, tok_minus, tok_star, tok_slash}
use arche.Lexer.Kind.{tok_percent, tok_eq_eq, tok_bang_eq, tok_lt, tok_gt}
use arche.Lexer.Kind.{tok_lt_eq, tok_gt_eq, tok_arrow, tok_bang, tok_question}
use arche.Lexer.Kind.{tok_at, tok_amp_amp, tok_pipe_pipe, tok_pipe_gt, tok_lparen}
use arche.Lexer.Kind.{tok_rparen, tok_lbrace, tok_rbrace, tok_lbracket, tok_rbracket}
use arche.Lexer.Kind.{tok_comma, tok_dot, tok_dotdotdot, tok_colon, tok_semi}
use arche.Lexer.Kind.{tok_eof, tok_error, tok_hash}
use arche.Syntax.NodeKind.{SyntaxNodeKind, sn_type_ref, sn_type_array, sn_type_shaped_array}
use arche.Syntax.NodeKind.{sn_type_tuple}
use arche.Syntax.NodeKind.{sn_type_handle, sn_alloc_type, sn_type_def_name, sn_func_def_name}
use arche.Syntax.NodeKind.{sn_callee_name, sn_field_name, sn_param_name}

-- The role of an identifier, from the node that holds it.
unfoldable pub ident_role : SyntaxNodeKind → String
ident_role sn_type_ref = "type"
ident_role sn_type_array = "type"
ident_role sn_type_shaped_array = "type"
ident_role sn_type_tuple = "type"
ident_role sn_type_handle = "type"
ident_role sn_alloc_type = "type"
ident_role sn_type_def_name = "type"
ident_role sn_func_def_name = "function"
ident_role sn_callee_name = "function"
ident_role sn_field_name = "property"
ident_role sn_param_name = "parameter"
ident_role _ = "variable"

unfoldable pub token_category : TokenKind → SyntaxNodeKind → Option String
unfolding ident_role
token_category tok_archetype parent = some "keyword"
token_category tok_proc parent = some "keyword"
token_category tok_map parent = some "keyword"
token_category tok_system parent = some "keyword"
token_category tok_query parent = some "keyword"
token_category tok_func parent = some "keyword"
token_category tok_let parent = some "keyword"
token_category tok_for parent = some "keyword"
token_category tok_if parent = some "keyword"
token_category tok_else parent = some "keyword"
token_category tok_in parent = some "keyword"
token_category tok_break parent = some "keyword"
token_category tok_continue parent = some "keyword"
token_category tok_move parent = some "keyword"
token_category tok_own parent = some "keyword"
token_category tok_copy parent = some "keyword"
token_category tok_alias parent = some "keyword"
token_category tok_return parent = some "keyword"
token_category tok_use parent = some "keyword"
token_category tok_each_field parent = some "keyword"
token_category tok_hash_module parent = some "keyword"
token_category tok_hash_file parent = some "keyword"
token_category tok_hash_foreign parent = some "keyword"
token_category tok_hash_link parent = some "keyword"
token_category tok_hash_cflags parent = some "keyword"
token_category tok_hash_run parent = some "keyword"
token_category tok_run parent = some "keyword"
token_category tok_enum parent = some "keyword"
token_category tok_match parent = some "keyword"
token_category tok_policy parent = some "keyword"
token_category tok_number parent = some "number"
token_category tok_string parent = some "string"
token_category tok_char_lit parent = some "string"
token_category tok_comment parent = some "comment"
token_category tok_ident parent = some (ident_role parent)
token_category tok_eq parent = some "operator"
token_category tok_plus_eq parent = some "operator"
token_category tok_minus_eq parent = some "operator"
token_category tok_star_eq parent = some "operator"
token_category tok_slash_eq parent = some "operator"
token_category tok_percent_eq parent = some "operator"
token_category tok_plus parent = some "operator"
token_category tok_minus parent = some "operator"
token_category tok_star parent = some "operator"
token_category tok_slash parent = some "operator"
token_category tok_percent parent = some "operator"
token_category tok_eq_eq parent = some "operator"
token_category tok_bang_eq parent = some "operator"
token_category tok_lt parent = some "operator"
token_category tok_gt parent = some "operator"
token_category tok_lt_eq parent = some "operator"
token_category tok_gt_eq parent = some "operator"
token_category tok_arrow parent = some "operator"
token_category tok_bang parent = some "operator"
token_category tok_question parent = some "operator"
token_category tok_at parent = some "operator"
token_category tok_amp_amp parent = some "operator"
token_category tok_pipe_pipe parent = some "operator"
token_category tok_pipe_gt parent = some "operator"
token_category tok_lparen parent = some "punctuation"
token_category tok_rparen parent = some "punctuation"
token_category tok_lbrace parent = some "punctuation"
token_category tok_rbrace parent = some "punctuation"
token_category tok_lbracket parent = some "punctuation"
token_category tok_rbracket parent = some "punctuation"
token_category tok_comma parent = some "punctuation"
token_category tok_dot parent = some "punctuation"
token_category tok_dotdotdot parent = some "punctuation"
token_category tok_colon parent = some "punctuation"
token_category tok_semi parent = some "punctuation"
token_category tok_eof parent = none
token_category tok_error parent = none
token_category tok_hash parent = none
