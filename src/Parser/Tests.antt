-- ===== src/Parser/Tests.antt =====
-- Runs of parser/parser.c's model on small sources, and the theorems at such sources.
use arche.Parser.State.{note_blanks, skip_comments, fetch, consume, new_parser}
use arche.Lexer.Next.{next_token, lex_from, lex_token}
use arche.Lexer.Words.{skip_whitespace, spanning}
use arche.Lexer.State.{skip}
use arche.Lexer.Literals.{lex_number}
use arche.Base.{◌+◌, ◌<◌, ◌≤◌, ◌≡◌, refl, arith, false, List, ◌++◌, codes}
use arche.Base.{length}
use arche.Base.{some, Bytes}
use arche.Lexer.State.{lexer_init}
use arche.Lexer.Token.{Token}
use arche.Lexer.Next.{is_eof, tokenize}
use arche.Syntax.Leaves.{node_leaves}
use arche.Syntax.Ids.{node_ids, counting}
use arche.Parser.State.{Parser, parser_create, advance, synchronize}
use arche.Parser.Measure.{left}
use arche.Parser.Recovery.{AtBoundary, synchronize-advances}
use arche.Parser.Monad.{At, fresh, at_fresh}
use arche.Parser.Program.{parse_source, routines, decl_loop, max_decl_loop}
use arche.Parser.Program.{top_level_decl}
use arche.Parser.Kept.{LeavesOf}
use arche.Syntax.Tree.{SyntaxToken}
use arche.Parser.Lossless.{parse_source-leaves, parse_source-prefix}
use arche.Parser.Lossless.{parse_source-ids}
use arche.Parser.Lossless.{top_level_decl-lt-left}
use arche.Parser.Errors.{recoveries, parse_source-errors}
use arche.Parser.Results.{Returns}
use arche.Parser.Expressions.{parse_expression}
use arche.Parser.Grammar.{NoOperator, expression-maximal}

abbrev sum_source : Bytes
sum_source = codes "x :: 1 + 2 * 3;"

-- The lone `:` is an error, from which the parse recovers.
abbrev bad_source : Bytes
bad_source = codes "x : ; y :: 2;"

parse_source-prefix_example :
    (toks : List Token) × (unread : List SyntaxToken) × (tokenize bad_source ≡ some toks)
    × LeavesOf toks (node_leaves (parse_source 7 bad_source).syntax_root ++ unread)
parse_source-prefix_example = parse_source-prefix 7 bad_source

parse_source-leaves_example :
    (toks : List Token) × (tokenize bad_source ≡ some toks)
    × LeavesOf toks (node_leaves (parse_source 7 bad_source).syntax_root)
parse_source-leaves_example = parse_source-leaves 7 bad_source (omega arith)

parse_source-ids_example :
    node_ids (parse_source 7 sum_source).syntax_root
    ≡ counting 7 (length (node_ids (parse_source 7 sum_source).syntax_root))
parse_source-ids_example = parse_source-ids 7 sum_source (omega arith)

parse_source-errors_example :
    length (parse_source 0 bad_source).errors
    ≤ 1 + recoveries (decl_loop max_decl_loop (parser_create 0 (lexer_init bad_source))).1
parse_source-errors_example = parse_source-errors 0 bad_source

abbrev at_sum : Parser
at_sum = parser_create 0 (lexer_init (codes "1 + 2 * 3;"))

at_sum-live : is_eof at_sum.current.kind ≡ false
unfolding parser_create advance note_blanks skip_comments fetch next_token consume new_parser
    lexer_init lex_from skip_whitespace skip lex_token lex_number spanning
at_sum-live = refl

synchronize-advances_example :
    (left (synchronize at_sum) < left at_sum) × AtBoundary (synchronize at_sum)
synchronize-advances_example = synchronize-advances at_sum at_sum-live

top_level_decl-lt-left_example : left (top_level_decl at_sum).0 < left at_sum
top_level_decl-lt-left_example = top_level_decl-lt-left at_sum at_sum-live

abbrev fresh_at : (p : Parser) → At fresh (left p) (left p) (left p)
fresh_at p = (omega arith, omega arith)

expression-maximal_example :
    Returns NoOperator
      ((parse_expression (routines (left at_sum)) ⦃b = at_fresh⦄).run at_sum (fresh_at at_sum))
expression-maximal_example =
    expression-maximal (routines (left at_sum)) (left at_sum) at_fresh at_sum (fresh_at at_sum)

abbrev at_brace : Parser
at_brace = parser_create 0 (lexer_init (codes "{ ; x := 1; }"))
