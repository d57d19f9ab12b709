-- ===== src/Parser/Kinds.antt =====
-- The values of the enum `TokenKind` of lexer/lexer.h, by which kinds are compared.
use arche.Base.{ℕ, Bool, ◌==◌}
use arche.Lexer.Kind.{TokenKind}
use arche.Lexer.Kind.{tok_eof}
use arche.Lexer.Kind.{tok_error}
use arche.Lexer.Kind.{tok_ident}
use arche.Lexer.Kind.{tok_number}
use arche.Lexer.Kind.{tok_string}
use arche.Lexer.Kind.{tok_char_lit}
use arche.Lexer.Kind.{tok_comment}
use arche.Lexer.Kind.{tok_archetype}
use arche.Lexer.Kind.{tok_proc}
use arche.Lexer.Kind.{tok_map}
use arche.Lexer.Kind.{tok_system}
use arche.Lexer.Kind.{tok_query}
use arche.Lexer.Kind.{tok_func}
use arche.Lexer.Kind.{tok_let}
use arche.Lexer.Kind.{tok_for}
use arche.Lexer.Kind.{tok_if}
use arche.Lexer.Kind.{tok_else}
use arche.Lexer.Kind.{tok_in}
use arche.Lexer.Kind.{tok_break}
use arche.Lexer.Kind.{tok_continue}
use arche.Lexer.Kind.{tok_move}
use arche.Lexer.Kind.{tok_own}
use arche.Lexer.Kind.{tok_copy}
use arche.Lexer.Kind.{tok_alias}
use arche.Lexer.Kind.{tok_return}
use arche.Lexer.Kind.{tok_use}
use arche.Lexer.Kind.{tok_each_field}
use arche.Lexer.Kind.{tok_run}
use arche.Lexer.Kind.{tok_enum}
use arche.Lexer.Kind.{tok_match}
use arche.Lexer.Kind.{tok_policy}
use arche.Lexer.Kind.{tok_lparen}
use arche.Lexer.Kind.{tok_rparen}
use arche.Lexer.Kind.{tok_lbrace}
use arche.Lexer.Kind.{tok_rbrace}
use arche.Lexer.Kind.{tok_lbracket}
use arche.Lexer.Kind.{tok_rbracket}
use arche.Lexer.Kind.{tok_comma}
use arche.Lexer.Kind.{tok_dot}
use arche.Lexer.Kind.{tok_dotdotdot}
use arche.Lexer.Kind.{tok_colon}
use arche.Lexer.Kind.{tok_semi}
use arche.Lexer.Kind.{tok_at}
use arche.Lexer.Kind.{tok_hash}
use arche.Lexer.Kind.{tok_hash_module}
use arche.Lexer.Kind.{tok_hash_file}
use arche.Lexer.Kind.{tok_hash_foreign}
use arche.Lexer.Kind.{tok_hash_link}
use arche.Lexer.Kind.{tok_hash_cflags}
use arche.Lexer.Kind.{tok_hash_run}
use arche.Lexer.Kind.{tok_eq}
use arche.Lexer.Kind.{tok_plus_eq}
use arche.Lexer.Kind.{tok_minus_eq}
use arche.Lexer.Kind.{tok_star_eq}
use arche.Lexer.Kind.{tok_slash_eq}
use arche.Lexer.Kind.{tok_percent_eq}
use arche.Lexer.Kind.{tok_plus}
use arche.Lexer.Kind.{tok_minus}
use arche.Lexer.Kind.{tok_star}
use arche.Lexer.Kind.{tok_slash}
use arche.Lexer.Kind.{tok_percent}
use arche.Lexer.Kind.{tok_eq_eq}
use arche.Lexer.Kind.{tok_bang_eq}
use arche.Lexer.Kind.{tok_lt}
use arche.Lexer.Kind.{tok_gt}
use arche.Lexer.Kind.{tok_lt_eq}
use arche.Lexer.Kind.{tok_gt_eq}
use arche.Lexer.Kind.{tok_amp_amp}
use arche.Lexer.Kind.{tok_pipe_pipe}
use arche.Lexer.Kind.{tok_pipe_gt}
use arche.Lexer.Kind.{tok_arrow}
use arche.Lexer.Kind.{tok_bang}
use arche.Lexer.Kind.{tok_question}

unfoldable pub kind_value : TokenKind → ℕ
kind_value tok_eof = 0
kind_value tok_error = 1
kind_value tok_ident = 2
kind_value tok_number = 3
kind_value tok_string = 4
kind_value tok_char_lit = 5
kind_value tok_comment = 6
kind_value tok_archetype = 7
kind_value tok_proc = 8
kind_value tok_map = 9
kind_value tok_system = 10
kind_value tok_query = 11
kind_value tok_func = 12
kind_value tok_let = 13
kind_value tok_for = 14
kind_value tok_if = 15
kind_value tok_else = 16
kind_value tok_in = 17
kind_value tok_break = 18
kind_value tok_continue = 19
kind_value tok_move = 20
kind_value tok_own = 21
kind_value tok_copy = 22
kind_value tok_alias = 23
kind_value tok_return = 24
kind_value tok_use = 25
kind_value tok_each_field = 26
kind_value tok_run = 27
kind_value tok_enum = 28
kind_value tok_match = 29
kind_value tok_policy = 30
kind_value tok_lparen = 31
kind_value tok_rparen = 32
kind_value tok_lbrace = 33
kind_value tok_rbrace = 34
kind_value tok_lbracket = 35
kind_value tok_rbracket = 36
kind_value tok_comma = 37
kind_value tok_dot = 38
kind_value tok_dotdotdot = 39
kind_value tok_colon = 40
kind_value tok_semi = 41
kind_value tok_at = 42
kind_value tok_hash = 43
kind_value tok_hash_module = 44
kind_value tok_hash_file = 45
kind_value tok_hash_foreign = 46
kind_value tok_hash_link = 47
kind_value tok_hash_cflags = 48
kind_value tok_hash_run = 49
kind_value tok_eq = 50
kind_value tok_plus_eq = 51
kind_value tok_minus_eq = 52
kind_value tok_star_eq = 53
kind_value tok_slash_eq = 54
kind_value tok_percent_eq = 55
kind_value tok_plus = 56
kind_value tok_minus = 57
kind_value tok_star = 58
kind_value tok_slash = 59
kind_value tok_percent = 60
kind_value tok_eq_eq = 61
kind_value tok_bang_eq = 62
kind_value tok_lt = 63
kind_value tok_gt = 64
kind_value tok_lt_eq = 65
kind_value tok_gt_eq = 66
kind_value tok_amp_amp = 67
kind_value tok_pipe_pipe = 68
kind_value tok_pipe_gt = 69
kind_value tok_arrow = 70
kind_value tok_bang = 71
kind_value tok_question = 72

unfoldable pub is : TokenKind → TokenKind → Bool
unfolding kind_value
is k l = kind_value l == kind_value k
